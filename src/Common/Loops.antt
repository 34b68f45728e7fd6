-- ===== src/Common/Loops.antt =====
-- Rules for a loop over the elements of a vector that stops at the first failure.
use mathlib.Core.Path.{◌≡◌, refl}
use mathlib.Core.Logic.{◌≢◌, inl, inr}
use mathlib.Core.Bool.{Bool, true, false}
use mathlib.Core.List.{List, [], ◌∷◌}
use native.Mathlib.Omega.{arith}
use softwarecontainer.Common.Lists.{All, Any}
use softwarecontainer.Common.Throwing.{Result, ok, throw, M, proceed, for_each}

module _ {A C : Type 0} where
  proceed-All :
      (Q : A → Type 0) (r : Result Bool × (A × C)) (rest : List A)
      (k : C → Result Bool × (List A × C))
      → (r.0 ≡ ok true → Q r.1.0)
      → ((c : C) → (k c).0 ≡ ok true → All Q (k c).1.0)
      → (proceed r rest k).0 ≡ ok true
      → All Q (proceed r rest k).1.0
  proceed-All Q (ok true, (a, c)) rest k q h e = (q refl, h c e)
  proceed-All Q (ok false, (a, c)) rest k q h e = cc
  proceed-All Q (throw x, (a, c)) rest k q h e = cc

  proceed_blocked :
      (r : Result Bool × (A × C)) (rest : List A) (k : C → Result Bool × (List A × C))
      → r.0 ≢ ok true
      → (proceed r rest k).0 ≢ ok true
  proceed_blocked (ok true, (a, c)) rest k h e = h refl
  proceed_blocked (ok false, (a, c)) rest k h e = cc
  proceed_blocked (throw x, (a, c)) rest k h e = cc

  proceed_later :
      (r : Result Bool × (A × C)) (rest : List A) (k : C → Result Bool × (List A × C))
      → ((c : C) → (k c).0 ≢ ok true)
      → (proceed r rest k).0 ≢ ok true
  proceed_later (ok true, (a, c)) rest k h e = h c e
  proceed_later (ok false, (a, c)) rest k h e = cc
  proceed_later (throw x, (a, c)) rest k h e = cc

  proceed_here :
      (P : A → Type 0) (r : Result Bool × (A × C)) (rest : List A)
      (k : C → Result Bool × (List A × C))
      → (r.0 ≡ ok true → P r.1.0)
      → (proceed r rest k).0 ≡ ok true
      → Any P (proceed r rest k).1.0
  proceed_here P (ok true, (a, c)) rest k h e = inl (h refl)
  proceed_here P (ok false, (a, c)) rest k h e = absurd (ground arith)
  proceed_here P (throw x, (a, c)) rest k h e = absurd (ground arith)

  proceed_there :
      (P : A → Type 0) (r : Result Bool × (A × C)) (rest : List A)
      (k : C → Result Bool × (List A × C))
      → ((c : C) → (k c).0 ≡ ok true → Any P (k c).1.0)
      → (proceed r rest k).0 ≡ ok true
      → Any P (proceed r rest k).1.0
  proceed_there P (ok true, (a, c)) rest k h e = inr (h c e)
  proceed_there P (ok false, (a, c)) rest k h e = absurd (ground arith)
  proceed_there P (throw x, (a, c)) rest k h e = absurd (ground arith)

  -- What each successful call gives its element, the loop gives them all.
  pub for_each-All :
      (Q : A → Type 0) (m : M (A × C) Bool)
      → ((a : A) (c : C) → (m (a, c)).0 ≡ ok true → Q (m (a, c)).1.0)
      → (xs : List A) (c : C) → (for_each m xs c).0 ≡ ok true
      → All Q (for_each m xs c).1.0
  unfolding for_each
  for_each-All Q m h [] c e = tt
  for_each-All Q m h (a ∷ xs) c e =
      proceed-All Q (m (a, c)) xs (for_each m xs) (h a c) (for_each-All Q m h xs) e

  -- What each successful call leaves to its element, the loop leaves to some element.
  pub for_each-Any :
      (P : A → Type 0) (m : M (A × C) Bool)
      → ((a : A) (c : C) → P a → (m (a, c)).0 ≡ ok true → P (m (a, c)).1.0)
      → (xs : List A) (c : C) → Any P xs
      → (for_each m xs c).0 ≡ ok true
      → Any P (for_each m xs c).1.0
  unfolding for_each
  for_each-Any P m h [] c p e = elim p [ ]
  for_each-Any P m h (a ∷ xs) c (inl p) e = proceed_here P (m (a, c)) xs (for_each m xs) (h a c p) e
  for_each-Any P m h (a ∷ xs) c (inr p) e =
      proceed_there P (m (a, c)) xs (for_each m xs) (λ c'. for_each-Any P m h xs c' p) e

  -- An element whose call fails in every state makes the loop fail.
  pub for_each_blocked :
      (P : A → Type 0) (m : M (A × C) Bool)
      → ((a : A) (c : C) → P a → (m (a, c)).0 ≢ ok true)
      → (xs : List A) (c : C) → Any P xs
      → (for_each m xs c).0 ≢ ok true
  unfolding for_each
  for_each_blocked P m h [] c p = elim p [ ]
  for_each_blocked P m h (a ∷ xs) c (inl p) =
      proceed_blocked (m (a, c)) xs (for_each m xs) (h a c p)
  for_each_blocked P m h (a ∷ xs) c (inr p) =
      proceed_later (m (a, c)) xs (for_each m xs) (λ c'. for_each_blocked P m h xs c' p)
