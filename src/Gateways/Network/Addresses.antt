-- ===== src/Gateways/Network/Addresses.antt =====
-- The addresses that containers get (gateway/network/networkgatewayfunctions.cpp).
use native.Mathlib.Nat.{div-eq_of_lt-le, div-mul-le_self, add-mul, one-le-pow}
use softwarecontainer.Common.{ℕ, ◌+◌, ◌-◌, ◌*◌, ◌/◌, ◌^◌, ◌%◌, ◌≤◌, ◌<◌, ◌≡◌, Option, some, arith}
use softwarecontainer.Common.Bytes.{Bytes}
use softwarecontainer.Common.Int.{int32_max}
use softwarecontainer.Common.Throwing.{ok}
use softwarecontainer.Gateways.Network.{generate_ip, last_address}

generate_ip_parts :
    (pton : Bytes → Option ℕ) (netmask : ℕ) (gateway_ip : Bytes) (id address ip : ℕ)
    → pton gateway_ip ≡ some address
    → generate_ip pton netmask gateway_ip id ≡ ok ip
    → (ip ≡ (address + id + 1) % 2 ^ 32)
      × (ip ≤ last_address netmask address)
      × (1 ≤ netmask)
      × (netmask ≤ 31)
unfolding generate_ip
generate_ip_parts pton netmask gateway_ip id address ip p h = ground arith

-- With one netmask and one gateway address that can be read, two containers of different ids, up
-- to INT32_MAX, never get the same address.
pub generate_ip_distinct :
    (pton : Bytes → Option ℕ) (netmask : ℕ) (gateway_ip : Bytes) (id id' address ip : ℕ)
    → pton gateway_ip ≡ some address
    → id ≤ int32_max
    → id' ≤ int32_max
    → generate_ip pton netmask gateway_ip id ≡ ok ip
    → generate_ip pton netmask gateway_ip id' ≡ ok ip
    → id ≡ id'
generate_ip_distinct pton netmask gateway_ip id id' address ip p b b' h h' = omega (
  arith,
  (generate_ip_parts pton netmask gateway_ip id address ip p h).0,
  (generate_ip_parts pton netmask gateway_ip id' address ip p h').0,
)

same_range : (w a x : ℕ) → 0 < w → a ≤ x → x ≤ a / w * w + (w - 1) → x / w ≡ a / w
same_range w a x p l u =
    div-eq_of_lt-le w (omega (arith, div-mul-le_self a w)) (rw (add-mul (a / w) 1 w) (omega arith))

-- With a gateway address that can be read, and where the addition does not wrap around, the address of a container lies behind the gateway's,
-- up to the last of the gateway's range.
generate_ip_range :
    (pton : Bytes → Option ℕ) (netmask : ℕ) (gateway_ip : Bytes) (id address ip : ℕ)
    → pton gateway_ip ≡ some address
    → address + id + 1 < 2 ^ 32
    → generate_ip pton netmask gateway_ip id ≡ ok ip
    → (address < ip) × (ip / 2 ^ (32 - netmask) ≡ address / 2 ^ (32 - netmask))
unfolding last_address
generate_ip_range pton netmask gateway_ip id address ip p w h =
    let (e, up, _, _) = generate_ip_parts pton netmask gateway_ip id address ip p h in
    (
      omega arith,
      same_range (2 ^ (32 - netmask)) address ip (one-le-pow (32 - netmask) 2 (omega arith))
          (omega arith) up,
    )
