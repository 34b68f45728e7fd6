-- ===== src/Common/OrdMap.antt =====
-- `std::map` as a list of pairs in ascending order of the keys.
use Prim.Native.Nat.{ℕ}
use mathlib.Core.Path.{◌≡◌, refl}
use mathlib.Core.Logic.{◌↔◌, inl, inr}
use mathlib.Core.Bool.{Bool, true, false}
use mathlib.Core.Option.{Option, none, some}
use mathlib.Core.List.{List, [], ◌∷◌}
use native.Mathlib.Omega.{arith}
use softwarecontainer.Common.Tests.{ltb, ◌==◌, ==_iff, if◌then◌else◌, is_some, Bool-cases}
use softwarecontainer.Common.Bytes.{
  Bytes, ◌==◌ as str_eq, eq_iff, str_lt, str_lt_irrefl, str_lt_trans, str_lt_total,
}

-- A key type: equality and a strict order.
pub record Key {ℓ} (K : Type ℓ) : Type ℓ where
  pub beq : K → K → Bool
  pub lt : K → K → Bool
  pub beq_iff : (a b : K) → (beq a b ≡ true) ↔ (a ≡ b)
  pub lt_irrefl : (a : K) → lt a a ≡ false
  pub lt_trans : (a b c : K) → lt a b ≡ true → lt b c ≡ true → lt a c ≡ true
  pub lt_total : (a b : K) → beq a b ≡ false → lt a b ≡ false → lt b a ≡ true

pub ltb_irrefl : (a : ℕ) → ltb a a ≡ false
ltb_irrefl a = ground arith

pub ltb_trans : (a b c : ℕ) → ltb a b ≡ true → ltb b c ≡ true → ltb a c ≡ true
ltb_trans a b c h k = ground arith

pub ltb_total : (a b : ℕ) → (a == b) ≡ false → ltb a b ≡ false → ltb b a ≡ true
ltb_total a b h k = ground arith

instance abbrev pub nat_key : Key ℕ
nat_key = record {
  beq = ◌==◌;
  lt = ltb;
  beq_iff = ==_iff;
  lt_irrefl = ltb_irrefl;
  lt_trans = ltb_trans;
  lt_total = ltb_total;
}

instance abbrev pub bytes_key : Key Bytes
bytes_key = record {
  beq = str_eq;
  lt = str_lt;
  beq_iff = eq_iff;
  lt_irrefl = str_lt_irrefl;
  lt_trans = str_lt_trans;
  lt_total = str_lt_total;
}

abbrev pub OrdMap {ℓ κ} : Type ℓ → Type κ → Type (ℓ ⊔ κ)
OrdMap K V = List (K × V)

abbrev pub keys {ℓ κ} : {K : Type ℓ} {V : Type κ} → OrdMap K V → List K
keys [] = []
keys ((k, v) ∷ m) = k ∷ keys m

module _ {ℓ κ} {K : Type ℓ} {V : Type κ} ⦃e : Key K⦄ where
  -- `find`
  unfoldable pub lookup : K → OrdMap K V → Option V
  lookup k [] = none
  lookup k ((j, v) ∷ m) = if e.beq j k then some v else lookup k m

  -- `count(k) != 0`
  abbrev pub contains : K → OrdMap K V → Bool
  contains k m = is_some (lookup k m)

  -- `m[k] = v`
  unfoldable pub insert : K → V → OrdMap K V → OrdMap K V
  insert k v [] = (k, v) ∷ []
  insert k v ((j, w) ∷ m) =
      if e.beq j k
      then (k, v) ∷ m
      else if e.lt k j
      then (k, v) ∷ (j, w) ∷ m
      else (j, w) ∷ insert k v m

  -- `erase(k)`
  unfoldable pub erase : K → OrdMap K V → OrdMap K V
  erase k [] = []
  erase k ((j, v) ∷ m) = if e.beq j k then erase k m else (j, v) ∷ erase k m

  pub lookup-insert :
      (k j : K) (v : V) (m : OrdMap K V)
      → lookup j (insert k v m) ≡ (if e.beq k j then some v else lookup j m)
  unfolding lookup insert
  lookup-insert k j v [] = refl
  lookup-insert k j v ((i, w) ∷ m) =
      ground (arith, e.beq_iff k j, e.beq_iff i k, e.beq_iff i j, lookup-insert k j v m)

  pub lookup-erase :
      (k j : K) (m : OrdMap K V) → lookup j (erase k m) ≡ (if e.beq k j then none else lookup j m)
  unfolding lookup erase
  lookup-erase k j [] = elim (Bool-cases (e.beq k j)) [ inl h ↦ rw h | inr h ↦ rw h ]
  lookup-erase k j ((i, w) ∷ m) =
      ground (arith, e.beq_iff k j, e.beq_iff i k, e.beq_iff i j, lookup-erase k j m)

  -- Each key is below all later keys, as in a `std::map`.
  unfoldable pub Ascending : OrdMap K V → Type (ℓ ⊔ κ)
  Ascending [] = Unit
  Ascending ((j, v) ∷ m) = ((k : K) → is_some (lookup k m) ≡ true → e.lt j k ≡ true) × Ascending m

  pub insert-Ascending : (k : K) (v : V) (m : OrdMap K V) → Ascending m → Ascending (insert k v m)
  unfolding Ascending lookup insert
  insert-Ascending k v [] h = (λ i p. absurd (ground (arith, p)), tt)
  insert-Ascending k v ((j, w) ∷ m) h = elim (Bool-cases (e.beq j k)) [
    | inl same ↦ rw same (λ i p. ground (arith, e.beq_iff j k, same, h.0 i p), h.1)
    | inr differs ↦ rw differs (elim (Bool-cases (e.lt k j)) [
      | inl less ↦
          rw less (λ i p. ground (arith, less, e.beq_iff j i, h.0 i, e.lt_trans k j i, p), h)
      | inr not_less ↦ rw not_less (
        λ i p.
            let q : _ = lookup-insert k i v m in
            ground (
              arith,
              e.beq_iff k i,
              h.0 i,
              e.lt_total k j,
              e.beq_iff j k,
              e.beq_iff k j,
              differs,
              not_less,
              q,
              p,
            ),
        insert-Ascending k v m h.1,
      )
    ])
  ]
