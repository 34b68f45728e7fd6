-- ===== src/Gateways/Network/InContainer.antt =====
-- gateway/network/networkgateway.cpp: the functions that the gateway runs inside the container,
-- each with a Netlink object of its own, and what it asks the one of the host.
use softwarecontainer.Common.{ℕ, Bool, true, false, Option, none, some}
use softwarecontainer.Common.Bytes.{Bytes, bytes}
use softwarecontainer.Common.Int.{ℤ, pos, negsuc, to_uint32}
use softwarecontainer.Common.Throwing.{Result, ok, throw}
use softwarecontainer.Netlink.{Abi, Kernel, LinkInfo, Netlink}
use softwarecontainer.Netlink.Constants.{af_inet}
use softwarecontainer.Netlink.Links.{
  set_default_gateway, link_up, set_ip, link_down, find_link, addresses_of, find_in, has_address,
}
use softwarecontainer.Netlink.Lifetime.{construct, destruct}
use softwarecontainer.Gateways.Network.Activation.{HostNetlink}

-- FAILURE, SUCCESS, NO_LINK, BAD_LINKUP, BAD_LINKDOWN and BAD_SETIP.
abbrev pub failure : ℤ
failure = negsuc 0

abbrev pub success : ℤ
success = pos 0

abbrev pub no_link : ℤ
no_link = pos 1

abbrev pub bad_linkup : ℤ
bad_linkup = pos 2

abbrev pub bad_linkdown : ℤ
bad_linkdown = pos 3

abbrev pub bad_setip : ℤ
bad_setip = pos 3

abbrev pub eth0 : Bytes
eth0 = bytes "eth0"

module _ {K : Type 0} (kernel : Kernel K) where
  -- The end of a function with a local Netlink object: the status, and the object's destructor.
  abbrev pub leave : Result ℤ × (Netlink × K) → Result ℤ × K
  leave (status, s) = (status, destruct kernel s)

module _ {K : Type 0} where
  -- `if (!call()) return code;` before what follows.
  abbrev pub checked :
      ℤ
      → Result Bool × (Netlink × K)
      → (Netlink × K → Result ℤ × (Netlink × K))
      → Result ℤ × (Netlink × K)
  checked code (ok true, s) k = k s
  checked code (ok false, s) k = (ok code, s)
  checked code (throw e, s) k = (throw e, s)

  abbrev pub with_link :
      Result Bool × (Option LinkInfo × (Netlink × K))
      → (LinkInfo → Netlink × K → Result ℤ × (Netlink × K))
      → Result ℤ × (Netlink × K)
  with_link (ok true, (some info, s)) k = k info s
  with_link (ok true, (none, s)) k = (ok no_link, s)
  with_link (ok false, (found, s)) k = (ok no_link, s)
  with_link (throw e, (found, s)) k = (throw e, s)

  -- The constructor only prints that its dump has failed.
  abbrev pub constructed :
      Result Bool × (Netlink × K)
      → (Netlink × K → Result ℤ × (Netlink × K))
      → Result ℤ × (Netlink × K)
  constructed (ok b, s) k = k s
  constructed (throw e, s) k = (throw e, s)

module _ {K : Type 0} (abi : Abi) (kernel : Kernel K) (turns fd pid : ℕ) where
  unfoldable pub bring_up_ethernet : ℕ → ℕ → K → Result ℤ × K
  bring_up_ethernet address netmask k = leave kernel (
      constructed (construct abi kernel turns fd pid k) (λ s.
        with_link (find_link abi kernel turns eth0 s) (λ info t.
          checked bad_linkup (link_up abi kernel turns info.0.index t) (λ u.
            checked bad_setip (set_ip abi kernel turns info.0.index address netmask u)
              (λ v. (ok success, v))))))

  unfoldable pub take_down_ethernet : K → Result ℤ × K
  take_down_ethernet k = leave kernel (
      constructed (construct abi kernel turns fd pid k) (λ s.
        with_link (find_link abi kernel turns eth0 s) (λ info t.
          checked bad_linkdown (link_down abi kernel turns info.0.index t) (λ u. (ok success, u)))))

  unfoldable pub set_gateway_in_container : Bytes → K → Result ℤ × K
  set_gateway_in_container address k = leave kernel (
      constructed (construct abi kernel turns fd pid k) (λ s.
        checked failure (set_default_gateway abi kernel turns address s) (λ t. (ok success, t))))

abbrev pub index_of : Option LinkInfo → Option ℤ
index_of none = none
index_of (some info) = some info.0.index

-- `m_netlinkHost`, once it holds a dump: then `checkKernelDump` asks the kernel nothing.
unfoldable pub host_netlink : Abi → Netlink → HostNetlink
host_netlink abi n = record {
  find_link = λ name. index_of (find_in name n.links);
  find_addresses = λ index. (true, addresses_of (to_uint32 index) n.addresses);
  has_address = λ addresses needle. has_address abi addresses af_inet needle;
}
