-- ===== src/Container/Variables.antt =====
-- The variables that a process in the container gets.
use softwarecontainer.Common.{
  ◌≡◌, refl, Bool, true, false, Option, none, some, [], ◌∷◌, arith, is_some, Option-cases,
  if◌then◌else◌, inl, inr, ◌∙◌,
}
use softwarecontainer.Common.Bytes.{Bytes, ◌==◌, eq_iff, str_lt_irrefl}
use softwarecontainer.Common.OrdMap.{
  OrdMap, lookup, insert, bytes_key, lookup-insert, Ascending, insert-Ascending,
}
use softwarecontainer.Common.Throwing.{Result, ok, throw}
use softwarecontainer.OperatingSystem.{Os}
use softwarecontainer.Container.{Settings, Container, created, below, regardless}
use softwarecontainer.Container.Execution.{
  value_or, add_variables, actual_variables, set_environment_variable,
}

-- The first value that there is.
abbrev pub or_else : Option Bytes → Option Bytes → Option Bytes
or_else (some v) other = some v
or_else none other = other

module _ (variables : OrdMap Bytes Bytes) where
  lookup-add_variables :
      (gateway actual : OrdMap Bytes Bytes) (name : Bytes)
      → Ascending gateway
      → ((n : Bytes) → is_some (lookup n variables) ≡ true → lookup n actual ≡ lookup n variables)
      → lookup name (add_variables variables gateway actual)
        ≡ or_else (lookup name variables) (or_else (lookup name gateway) (lookup name actual))
  unfolding add_variables lookup Ascending
  lookup-add_variables [] actual name h k = elim (Option-cases (lookup name variables)) [
    | inl missing ↦ rw missing refl
    | inr (v, found) ↦ rw found (k name (rw found refl) ∙ found)
  ]
  lookup-add_variables ((n, v) ∷ rest) actual name h k =
      let value : Bytes = value_or v (lookup n variables) in
      let kept : (m : Bytes)
          → is_some (lookup m variables) ≡ true
          → lookup m (insert n value actual) ≡ lookup m variables =
        λ m p. ground (arith, k m p, p, eq_iff n m, lookup-insert n m value actual) in
      let rests : _ = lookup-add_variables rest (insert n value actual) name h.1 kept in
      ground
        (arith, rests, eq_iff n name, lookup-insert n name value actual, h.0 name, str_lt_irrefl n)

-- A process gets each variable of its own, and else that of the gateways.
pub lookup-actual_variables :
    (variables gateway : OrdMap Bytes Bytes) (name : Bytes)
    → Ascending gateway
    → lookup name (actual_variables variables gateway)
      ≡ or_else (lookup name variables) (lookup name gateway)
unfolding actual_variables
lookup-actual_variables variables gateway name h =
    let added : _ = lookup-add_variables variables gateway variables name h (λ n p. refl) in
    ground (arith, added)

regardless_state : {S H : Type 0} (r : Result Bool × (Container H × S)) → (regardless r).1 ≡ r.1
regardless_state (ok b, st) = refl
regardless_state (throw e, st) = refl

module _ {S H : Type 0} (os : Os S) (settings : Settings) where
  set_stores :
      (name value : Bytes) (c : Container H) (s : S)
      → below c.state created ≡ false
      → (set_environment_variable os settings name value (c, s)).1.0.gateway_environment_variables
        ≡ insert name value c.gateway_environment_variables
  unfolding set_environment_variable
  set_stores name value c s e = rw (e, regardless_state _) refl

  -- What a gateway sets, a process without variables of its own gets, whether the file `env` could
  -- be written or not; a later value of the same name takes the place of the earlier one.
  pub actual_variables-set_environment_variable :
      (name value other : Bytes) (c : Container H) (s : S)
      → below c.state created ≡ false
      → Ascending c.gateway_environment_variables
      → let c' = (set_environment_variable os settings name value (c, s)).1.0 in
        Ascending c'.gateway_environment_variables
        × (lookup other (actual_variables [] c'.gateway_environment_variables)
            ≡ (if name == other then some value else lookup other c.gateway_environment_variables))
  unfolding lookup
  actual_variables-set_environment_variable name value other c s e h =
      let stored : OrdMap Bytes Bytes = insert name value c.gateway_environment_variables in
      let kept : Ascending stored = insert-Ascending name value c.gateway_environment_variables h in
      rw (set_stores name value c s e) (
        kept,
        lookup-actual_variables [] stored other kept
            ∙ lookup-insert name other value c.gateway_environment_variables,
      )
