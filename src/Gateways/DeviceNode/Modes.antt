-- ===== src/Gateways/DeviceNode/Modes.antt =====
-- The modes that a device gets from several elements (gateway/devicenode/devicenode.cpp).
use Prim.Native.Nat.{max}
use softwarecontainer.Common.{
  ℕ, ◌+◌, ◌*◌, ◌/◌, ◌%◌, ◌≤◌, ◌≡◌, refl, arith, List, [], ◌∷◌, Option, none, some, Bool-cases, inl,
  inr, if◌then◌else◌,
}
use softwarecontainer.Common.Bytes.{Bytes, ◌==◌, eq_iff}
use softwarecontainer.Common.Int.{ℤ, pos, negsuc, ◌+ℤ◌, eqb_ℤ, ltb_ℤ}
use softwarecontainer.Gateways.DeviceNode.{
  Device, mode_result, calculate_device_mode, update_device_list, permissive, owner_digit,
  group_digit, other_digit, scale,
}

-- The digits of a mode: the last two have one place each, and the first takes the rest.
abbrev pub owner : ℕ → ℕ
owner m = m / 100

abbrev pub group : ℕ → ℕ
group m = m / 10 % 10

abbrev pub other : ℕ → ℕ
other m = m % 10

-- The greater digit at each place.
pub most_permissive : ℕ → ℕ → ℕ
most_permissive a s =
    max (owner a) (owner s) * 100 + max (group a) (group s) * 10 + max (other a) (other s)

permissive-max : (a s : ℕ) → permissive (pos a) (pos s) ≡ pos (max a s)
unfolding permissive
permissive-max a s = ground arith

most_permissive_self : (a : ℕ) → most_permissive a a ≡ a
unfolding most_permissive
most_permissive_self a = omega arith

add_pos : (a s : ℕ) → pos a +ℤ pos s ≡ pos (a + s)
unfolding ◌+ℤ◌
add_pos a s = ground arith

owner_pos : (a : ℕ) → owner_digit (pos a) ≡ pos (owner a)
unfolding owner_digit
owner_pos a = refl

group_pos : (a : ℕ) → group_digit (pos a) ≡ pos (group a)
unfolding group_digit
group_pos a = refl

other_pos : (a : ℕ) → other_digit (pos a) ≡ pos (other a)
unfolding other_digit
other_pos a = refl

scale_pos : (n m : ℕ) → scale (pos n) m ≡ pos (n * m)
unfolding scale
scale_pos n m = refl

ruleset digits = (owner_pos, group_pos, other_pos, permissive-max, scale_pos, add_pos)

pub mode_result-pos : (a s : ℕ) → mode_result (pos a) (pos s) ≡ pos (most_permissive a s)
unfolding mode_result most_permissive
mode_result-pos a s = elim (Bool-cases (eqb_ℤ (pos s) (pos a))) [
  | inl e ↦ let same : s ≡ a = ground arith in rw same (ground (arith, most_permissive_self a))
  | inr e ↦ rw (e, mode_result) (simp digits)
]

-- A mode that is configured again takes, for each of owner, group and others, the greater digit.
pub most_permissive_digits :
    (a s : ℕ)
    → let m = most_permissive a s in
      (owner m ≡ max (owner a) (owner s))
      × (group m ≡ max (group a) (group s))
      × (other m ≡ max (other a) (other s))
unfolding most_permissive
most_permissive_digits a s = omega arith

most_permissive_ge : (a s : ℕ) → s ≤ most_permissive a s
unfolding most_permissive
most_permissive_ge a s = omega arith

-- The merge of two modes does not depend on their order, nor that of three on their grouping.
most_permissive_comm : (a b : ℕ) → most_permissive a b ≡ most_permissive b a
unfolding most_permissive
most_permissive_comm a b = omega arith

eq_of_digits : (m n : ℕ) → owner m ≡ owner n → group m ≡ group n → other m ≡ other n → m ≡ n
eq_of_digits m n p q r = omega arith

most_permissive_assoc :
    (a b c : ℕ) → most_permissive (most_permissive a b) c ≡ most_permissive a (most_permissive b c)
most_permissive_assoc a b c =
    eq_of_digits _ _
      (omega (
        arith,
        (most_permissive_digits (most_permissive a b) c).0,
        (most_permissive_digits a b).0,
        (most_permissive_digits a (most_permissive b c)).0,
        (most_permissive_digits b c).0,
      ))
      (omega (
        arith,
        (most_permissive_digits (most_permissive a b) c).1,
        (most_permissive_digits a b).1,
        (most_permissive_digits a (most_permissive b c)).1,
        (most_permissive_digits b c).1,
      ))
      (omega (
        arith,
        (most_permissive_digits (most_permissive a b) c).2,
        (most_permissive_digits a b).2,
        (most_permissive_digits a (most_permissive b c)).2,
        (most_permissive_digits b c).2,
      ))

-- The mode that the list holds for a name: no value if the device has none.
pub stored_mode : Bytes → List Device → Option ℤ
stored_mode name [] = none
stored_mode name (d ∷ rest) = if d.name == name then some d.mode else stored_mode name rest

-- What an update makes of the mode: the merged one, if it is greater than the stored one.
pub raised : ℤ → Option ℤ → ℤ
raised applied none = applied
raised applied (some stored) =
    if ltb_ℤ stored (mode_result applied stored) then mode_result applied stored else stored

-- An update changes the mode of the device of that name alone.
stored_mode-update :
    (dev : Device) (devices : List Device) (name : Bytes)
    → stored_mode name (update_device_list dev devices) ≡ (
        if dev.name == name
        then some (raised dev.mode (stored_mode dev.name devices))
        else stored_mode name devices)
unfolding stored_mode update_device_list raised calculate_device_mode
stored_mode-update dev [] name = ground arith
stored_mode-update dev (d ∷ rest) name = ground (
  arith,
  eq_iff dev.name name,
  eq_iff d.name name,
  eq_iff d.name dev.name,
  stored_mode-update dev rest name,
)

-- With two modes that are not negative, the stored mode becomes the one with the greater digit at
-- each place.
raised-pos : (a s : ℕ) → raised (pos a) (some (pos s)) ≡ pos (most_permissive a s)
unfolding raised
raised-pos a s = rw (mode_result-pos a s, raised) (ground (arith, most_permissive_ge a s))

owner_unset : owner_digit (negsuc 0) ≡ pos 0
unfolding owner_digit
owner_unset = refl

group_unset : group_digit (negsuc 0) ≡ pos 0
unfolding group_digit
group_unset = refl

other_unset : other_digit (negsuc 0) ≡ negsuc 0
unfolding other_digit
other_unset = refl

permissive_unset :
    (x : ℕ) → (permissive (negsuc 0) (pos x) ≡ pos x) × (permissive (pos x) (negsuc 0) ≡ pos x)
unfolding permissive
permissive_unset x = ground arith

by_digits : (m : ℕ) → max 0 (owner m) * 100 + max 0 (group m) * 10 + other m ≡ m
by_digits m = omega arith

by_digits' : (m : ℕ) → max (owner m) 0 * 100 + max (group m) 0 * 10 + other m ≡ m
by_digits' m = omega arith

mode_result_unset : (m : ℕ) → mode_result (negsuc 0) (pos m) ≡ pos m
unfolding mode_result
mode_result_unset m =
    simp
      (digits, owner_unset, group_unset, other_unset, (permissive_unset (other m)).0, by_digits m)
      (ground arith)

mode_result_fresh : (m : ℕ) → mode_result (pos m) (negsuc 0) ≡ pos m
unfolding mode_result
mode_result_fresh m =
    simp
      (digits, owner_unset, group_unset, other_unset, (permissive_unset (other m)).1, by_digits' m)
      (ground arith)

-- An element without a mode, which is read as -1, changes no mode, and a device without a mode
-- takes the first that is configured.
raised_unset :
    (m : ℕ)
    → (raised (negsuc 0) (some (pos m)) ≡ pos m) × (raised (pos m) (some (negsuc 0)) ≡ pos m)
unfolding raised
raised_unset m = (
  rw (mode_result_unset m, raised) (ground arith),
  rw (mode_result_fresh m, raised) (ground arith),
)
