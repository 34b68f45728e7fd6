-- ===== src/Common/Throwing.antt =====
-- Computations over a state that end by a value or by an exception. What was written before an
-- exception stays written.
use mathlib.Core.Path.{◌≡◌, refl, ap}
use mathlib.Core.Bool.{Bool, true, false}
use mathlib.Core.List.{List, [], ◌∷◌}
use softwarecontainer.Common.Tests.{if◌then◌else◌}

-- The exception classes that the code throws. `undefined` is no exception: it marks a step whose
-- behaviour C++ leaves undefined.
pub data Error : Type 0 where
  software_container_error : Error
  software_container_agent_error : Error
  gateway_error : Error
  gateway_parser_error : Error
  container_error : Error
  invalid_operation_error : Error
  invalid_container_error : Error
  container_option_parse_error : Error
  config_not_found_error : Error
  config_dependency_error : Error
  config_mandatory_error : Error
  config_internal_error : Error
  capability_parse_error : Error
  config_file_error : Error
  config_unknown_error : Error
  service_manifest_path_error : Error
  service_manifest_parse_error : Error
  container_utility_error : Error
  ip_allocation_error : Error
  limit_range_error : Error
  bad_suffix_error : Error
  json_error : Error
  shell_error : Error
  invalid_input_error : Error
  out_of_range : Error
  invalid_argument : Error
  undefined : Error

pub data Result {ℓ} (A : Type ℓ) : Type ℓ where
  ok : A → Result A
  throw : Error → Result A

abbrev pub M : Type 0 → Type 0 → Type 0
M S A = S → Result A × S

abbrev pub after : {S A B : Type 0} → Result A × S → (A → M S B) → Result B × S
after (r, s) f = elim r [ ok a ↦ f a s | throw e ↦ (throw e, s) ]

infixl 5 ◌>>=◌ ◌>>◌
abbrev pub ◌>>=◌ : {S A B : Type 0} → M S A → (A → M S B) → M S B
◌>>=◌ m f s = after (m s) f

abbrev pub ◌>>◌ : {S A B : Type 0} → M S A → M S B → M S B
m >> k = m >>= λ _. k

module _ {S A : Type 0} where
  abbrev pub pure : A → M S A
  pure a s = (ok a, s)

  abbrev pub raise : Error → M S A
  raise e s = (throw e, s)

  abbrev pub gets : (S → A) → M S A
  gets f s = (ok (f s), s)

abbrev pub raise_if : {S : Type 0} → Bool → Error → M S (Unit {0})
raise_if c e s = (if c then throw e else ok tt, s)

abbrev pub modify : {S : Type 0} → (S → S) → M S (Unit {0})
modify f s = (ok tt, f s)

-- A step whose outcome is known.
pub bind_ok :
    {S A B : Type 0} (m : M S A) (f : A → M S B) (s s' : S) (a : A)
    → m s ≡ (ok a, s')
    → (m >>= f) s ≡ f a s'
bind_ok m f s s' a h = ap (λ p. after p f) h

pub bind_throw :
    {S A B : Type 0} (m : M S A) (f : A → M S B) (s s' : S) (e : Error)
    → m s ≡ (throw e, s')
    → (m >>= f) s ≡ (throw e, s')
bind_throw m f s s' e h = ap (λ p. after p f) h

-- What a sequence that ends by a value says of its first part.
pub first_ok :
    {S B : Type 0} (r : Result (Unit {0}) × S) (k : M S B) (b : B)
    → (after r (λ _. k)).0 ≡ ok b
    → r.0 ≡ ok tt
first_ok (ok u, s) k b h = refl
first_ok (throw e, s) k b h = cc

-- What both parts of a sequence keep, the sequence keeps.
abbrev pub Keeps : {S A : Type 0} → (S → Type 0) → M S A → Type 0
Keeps {S} P m = (s : S) → P s → P (m s).1

pub bind-Keeps :
    {S A B : Type 0} (P : S → Type 0) (m : M S A) (f : A → M S B)
    → Keeps P m
    → ((a : A) → Keeps P (f a))
    → Keeps P (m >>= f)
bind-Keeps {S} {A} P m f h k s p = go (m s) (h s p)
  where
    go : (r : Result A × S) → P r.1 → P (after r f).1
    go (ok a, t) q = k a t q
    go (throw e, t) q = q

pub if-Keeps :
    {S A : Type 0} (P : S → Type 0) (b : Bool) (m l : M S A)
    → Keeps P m
    → Keeps P l
    → Keeps P (if b then m else l)
if-Keeps P true m l h k = h
if-Keeps P false m l h k = k

-- `if (!m()) return false;` before `k`: what follows runs only after a `true`.
abbrev pub continue : {S : Type 0} → Result Bool × S → M S Bool → Result Bool × S
continue (ok true, s) k = k s
continue (ok false, s) k = (ok false, s)
continue (throw e, s) k = (throw e, s)

abbrev pub and_then : {S : Type 0} → M S Bool → M S Bool → M S Bool
and_then m k s = continue (m s) k

-- A property of the state that both parts keep is kept.
pub and_then_keeps {ℓ} :
    {S : Type 0} (P : S → Type ℓ) (r : Result Bool × S) (k : M S Bool)
    → P r.1
    → ((s : S) → P s → P (k s).1)
    → P (continue r k).1
and_then_keeps P (ok true, s) k h keep = keep s h
and_then_keeps P (ok false, s) k h keep = h
and_then_keeps P (throw e, s) k h keep = h

pub and_then-Keeps :
    {S : Type 0} (P : S → Type 0) (m k : M S Bool) → Keeps P m → Keeps P k → Keeps P (and_then m k)
and_then-Keeps P m k h keep s p = and_then_keeps P (m s) k (h s p) keep

-- A loop that changes the elements of a vector, and a state beside it, until one call fails.
module _ {A C : Type 0} where
  abbrev pub prepend : {R : Type 0} → A → Result R × (List A × C) → Result R × (List A × C)
  prepend a (r, (rest, c)) = (r, (a ∷ rest, c))

  abbrev pub proceed :
      Result Bool × (A × C) → List A → (C → Result Bool × (List A × C)) → Result Bool × (List A × C)
  proceed (ok true, (a, c)) rest k = prepend a (k c)
  proceed (ok false, (a, c)) rest k = (ok false, (a ∷ rest, c))
  proceed (throw e, (a, c)) rest k = (throw e, (a ∷ rest, c))

  unfoldable pub for_each : M (A × C) Bool → List A → C → Result Bool × (List A × C)
  for_each m [] c = (ok true, ([], c))
  for_each m (a ∷ rest) c = proceed (m (a, c)) rest (for_each m rest)
