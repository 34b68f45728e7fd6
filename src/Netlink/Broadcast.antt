-- ===== src/Netlink/Broadcast.antt =====
-- The broadcast address that setIP computes, by its octets. The number is the address in the
-- memory of a little-endian machine: its lowest byte is the first octet.
use softwarecontainer.Common.{
  ◌≡◌, ℕ, zero, suc, ◌+◌, ◌*◌, ◌/◌, ◌%◌, ◌^◌, ◌≤◌, ◌<◌, arith, if◌then◌else◌, ltb,
}
use native.Mathlib.Nat.{pow-le-pow_right, one-le-pow, mod-lt}
use softwarecontainer.Netlink.Links.{broadcast}

-- The octet at a place, from 0.
abbrev pub octet : ℕ → ℕ → ℕ
octet i x = x / 2 ^ (8 * i) % 2 ^ 8

below_four : (P : ℕ → Type 0) → P 0 → P 1 → P 2 → P 3 → (k : ℕ) → k < 4 → P k
below_four P a b c d zero h = a
below_four P a b c d (suc zero) h = b
below_four P a b c d (suc (suc zero)) h = c
below_four P a b c d (suc (suc (suc zero))) h = d
below_four P a b c d (suc (suc (suc (suc k)))) h = absurd (omega arith)

-- The bits from the netmask on are set.
broadcast_bounds :
    (ip netmask m : ℕ)
    → netmask ≤ m
    → m < 32
    → (2 ^ 32 ≤ broadcast ip netmask + 2 ^ m) × (broadcast ip netmask < 2 ^ 32)
unfolding broadcast
broadcast_bounds ip netmask m h small =
    let power : 2 ^ netmask ≤ 2 ^ m = pow-le-pow_right (omega arith) h in
    let most : 2 ^ m ≤ 2 ^ 32 = pow-le-pow_right (omega arith) {j = 32} (omega arith) in
    let positive : 1 ≤ 2 ^ netmask = one-le-pow netmask 2 (omega arith) in
    let low : ip % 2 ^ netmask < 2 ^ netmask = mod-lt ip positive in (omega arith, omega arith)

-- With a netmask of whole octets, `setIP` gives the broadcast address: the octets of the network,
-- and 255 behind them.
pub broadcast-octet :
    (ip k i : ℕ)
    → k < 4
    → i < 4
    → octet i (broadcast ip (8 * k)) ≡ (if ltb i k then octet i ip else 255)
unfolding broadcast
broadcast-octet ip k i h j =
    let Good : ℕ → ℕ → Type 0 =
      λ k i. octet i (broadcast ip (8 * k)) ≡ (if ltb i k then octet i ip else 255) in
    below_four (λ k. Good k i)
      (below_four (Good 0) (omega arith) (omega arith) (omega arith) (omega arith) i j)
      (below_four (Good 1) (omega arith) (omega arith) (omega arith) (omega arith) i j)
      (below_four (Good 2) (omega arith) (omega arith) (omega arith) (omega arith) i j)
      (below_four (Good 3) (omega arith) (omega arith) (omega arith) (omega arith) i j) k h

-- `setIP` takes the low bits of the octet that the netmask ends in: the octet of its broadcast
-- address is at least 128.
pub broadcast_high :
    (ip netmask k : ℕ) → k < 4 → netmask < 8 * k + 8 → 128 ≤ octet k (broadcast ip netmask)
broadcast_high ip netmask k h =
    let b : _ = broadcast_bounds ip netmask in
    below_four (λ k. netmask < 8 * k + 8 → 128 ≤ octet k (broadcast ip netmask))
      (λ m. omega (arith, b 7 (omega arith) (omega arith)))
      (λ m. omega (arith, b 15 (omega arith) (omega arith)))
      (λ m. omega (arith, b 23 (omega arith) (omega arith)))
      (λ m. omega (arith, b 31 (omega arith) (omega arith))) k h
