-- ===== src/Gateways/Network.antt =====
-- gateway/network/networkgatewayfunctions.cpp: the address of a container. The
-- child modules are about the other files of gateway/network, but for netlink.cpp.
pub mod Addresses
pub mod IpTables
pub mod Commands
pub mod Parser
pub mod Activation
pub mod Filtering
pub mod InContainer
use softwarecontainer.Common.{
  ℕ, ◌+◌, ◌-◌, ◌*◌, ◌/◌, ◌^◌, ◌%◌, ◌||◌, ◌==◌, Bool, Option, none, some, if◌then◌else◌, ltb,
}
use softwarecontainer.Common.Bytes.{Bytes}
use softwarecontainer.Common.Throwing.{Result, ok, throw, ip_allocation_error, undefined}
use softwarecontainer.Common.Int.{int32_max}

-- `address | maskBits`, for the mask of the netmask's low bits: the last address of the range.
unfoldable pub last_address : ℕ → ℕ → ℕ
last_address netmask address =
    let range = 2 ^ (32 - netmask) in address / range * range + (range - 1)

-- `pton` stands for inet_pton followed by ntohl, which are no part of the code; `containerID` is
-- not negative, and `containerID + 1` overflows at INT32_MAX. The address is given in the host's byte
-- order, before htonl.
unfoldable pub generate_ip : (Bytes → Option ℕ) → ℕ → Bytes → ℕ → Result ℕ
unfolding last_address
generate_ip pton netmask gateway_ip container_id =
    if ltb 31 netmask || ltb netmask 1 then throw ip_allocation_error else elim (pton gateway_ip) [
      | none ↦ throw ip_allocation_error
      | some address ↦
          let next = (address + container_id + 1) % 2 ^ 32 in
          if ltb (last_address netmask address) next
          then throw ip_allocation_error
          else if container_id == int32_max
          then throw undefined
          else ok next
    ]
