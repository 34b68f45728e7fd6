-- ===== src/Gateways/Environment/Variables.antt =====
-- What the elements of a configuration make of the variables (gateway/environment).
use mathlib.Core.List.{append-nil, append_assoc}
use softwarecontainer.Common.{
  ◌≡◌, sym, ◌∙◌, ap, false, Option, none, some, List, [], ◌++◌, arith, Bool-cases, Option-cases,
  inl, inr,
}
use softwarecontainer.Common.Bytes.{Bytes, bytes, ◌==◌, eq_iff}
use softwarecontainer.Common.OrdMap.{lookup, lookup-insert, bytes_key}
use softwarecontainer.Common.Throwing.{ok}
use softwarecontainer.Json.{Jansson, has_key, read_optional_string}
use softwarecontainer.ContainerInterface.{ContainerInterface}
use softwarecontainer.Gateway.{read_elements}
use softwarecontainer.Gateway.Reading.{read_elements_keeps}
use softwarecontainer.Gateways.Environment.{
  EnvironmentVariables, combine, parse_modifiers, parse_environment_gateway_config_element,
  require_non_empty_key_value, read_config_element, environment_gateway, to_lower,
}

-- `old` stands in `new`, with bytes before and behind it.
abbrev pub Within : Bytes → Bytes → Type 0
Within old new = (before : Bytes) × (behind : Bytes) × (new ≡ before ++ (old ++ behind))

Within-refl : (s : Bytes) → Within s s
Within-refl s = ([], [], sym (append-nil s))

Within-trans : (a b c : Bytes) → Within a b → Within b c → Within a c
Within-trans a b c (p, q, e) (r, s, f) =
    (r ++ p, q ++ s, f ∙ ap (λ x. r ++ (x ++ s)) e ∙ simp append_assoc)

-- What a stored variable grows to.
abbrev pub Grows : Option Bytes → Option Bytes → Type 0
Grows none after = Unit
Grows (some old) none = ⊥
Grows (some old) (some new) = Within old new

Grows-refl : (o : Option Bytes) → Grows o o
Grows-refl none = tt
Grows-refl (some s) = Within-refl s

Grows-trans : (a b c : Option Bytes) → Grows a b → Grows b c → Grows a c
Grows-trans none b c h k = tt
Grows-trans (some a) none c h k = elim h [ ]
Grows-trans (some a) (some b) none h k = elim k [ ]
Grows-trans (some a) (some b) (some c) h k = Within-trans a b c h k

combine-Grows :
    (name value mode separator : Bytes) (store : EnvironmentVariables) (n v : Bytes)
    → combine name value mode separator store ≡ some (n, v)
    → (n ≡ name) × Grows (lookup name store) (some v)
unfolding combine
combine-Grows name value mode separator store n v h = elim (Option-cases (lookup name store)) [
  | inl e ↦ (ground arith, rw e tt)
  | inr (old, e) ↦ elim (Bool-cases (mode == bytes "append")) [
    | inl a ↦ (ground arith, rw e ([], separator ++ value, ground arith))
    | inr a ↦ (
      ground arith,
      rw e (
        value ++ separator,
        [],
        ground (arith, append-nil old, append_assoc value separator old),
      ),
    )
  ]
]

module _ {Json : Type 0} ⦃j : Jansson Json⦄ where
  modifiers-Grows :
      (element : Json) (name value : Bytes) (store : EnvironmentVariables) (n v : Bytes)
      → parse_modifiers element name value store ≡ some (n, v)
      → (n ≡ name) × Grows (lookup name store) (some v)
  unfolding parse_modifiers
  modifiers-Grows element name value store n v h =
      combine-Grows name value
        (to_lower (read_optional_string element (bytes "mode") (bytes "set")).1)
        (read_optional_string element (bytes "separator") []).1 store n v (ground arith)

  parse-Grows :
      (element : Json) (store : EnvironmentVariables) (n v : Bytes)
      → parse_environment_gateway_config_element element store ≡ some (n, v)
      → Grows (lookup n store) (some v)
  unfolding parse_environment_gateway_config_element
  parse-Grows element store n v h =
      elim (Option-cases (require_non_empty_key_value element (bytes "name"))) [
        | inl e ↦ absurd (ground arith)
        | inr (name, e) ↦
            elim (Option-cases (require_non_empty_key_value element (bytes "value"))) [
              | inl f ↦ absurd (ground arith)
              | inr (value, f) ↦ through name value (ground arith)
            ]
      ]
    where
      through :
          (name value : Bytes)
          → parse_modifiers element name value store ≡ some (n, v)
          → Grows (lookup n store) (some v)
      through name value g =
          let (e, grown) = modifiers-Grows element name value store n v g in rw e grown

  read_config_element-Grows :
      (element : Json) (vars : EnvironmentVariables) (k : Bytes)
      → Grows (lookup k vars) (lookup k (read_config_element element vars).1)
  unfolding read_config_element
  read_config_element-Grows element vars k =
      elim (Option-cases (parse_environment_gateway_config_element element vars)) [
        | inl e ↦ rw (e, read_config_element) (Grows-refl (lookup k vars))
        | inr ((n, v), e) ↦
            rw (e, read_config_element)
              (elim (Bool-cases (n == k)) [
                | inl b ↦
                    rw (lookup-insert n k v vars, b, ← (eq_iff n k).0 b)
                      (parse-Grows element vars n v e)
                | inr b ↦ rw (lookup-insert n k v vars, b) (Grows-refl (lookup k vars))
              ])
      ]

  module _ {C : Type 0} (container : ContainerInterface C) where
    -- However the reading of a configuration ends, no variable that was set is lost: its value
    -- stands within the new one.
    pub read_elements-Grows :
        (elements : List Json) (vars : EnvironmentVariables) (k : Bytes)
        → Grows
            (lookup k vars)
            (lookup k (read_elements (environment_gateway container) elements vars).1)
    unfolding environment_gateway
    read_elements-Grows elements vars k =
        read_elements_keeps (environment_gateway container)
          (λ vars'. Grows (lookup k vars) (lookup k vars'))
          (λ element vars' h.
            Grows-trans (lookup k vars) (lookup k vars') _ h
              (read_config_element-Grows element vars' k))
          elements vars (Grows-refl (lookup k vars))

  modifiers_set_twice :
      (element : Json) (vars : EnvironmentVariables) (name value : Bytes) {old : Bytes}
      → has_key element (bytes "mode") ≡ false
      → lookup name vars ≡ some old
      → parse_modifiers element name value vars ≡ none
  unfolding parse_modifiers read_optional_string combine to_lower ◌==◌
  modifiers_set_twice element vars name value m l = ground arith

  parse_set_twice :
      (element : Json) (vars : EnvironmentVariables) (name value : Bytes) {old : Bytes}
      → require_non_empty_key_value element (bytes "name") ≡ some name
      → require_non_empty_key_value element (bytes "value") ≡ some value
      → has_key element (bytes "mode") ≡ false
      → lookup name vars ≡ some old
      → parse_environment_gateway_config_element element vars ≡ none
  unfolding parse_environment_gateway_config_element
  parse_set_twice element vars name value n v m l =
      rw (n, parse_environment_gateway_config_element)
        (rw (v, parse_environment_gateway_config_element)
          (modifiers_set_twice element vars name value m l))

  -- An element with a name, a value and no mode, whose variable is set already, is refused and
  -- changes nothing.
  set_twice_refused :
      (element : Json) (vars : EnvironmentVariables) (name value : Bytes) {old : Bytes}
      → require_non_empty_key_value element (bytes "name") ≡ some name
      → require_non_empty_key_value element (bytes "value") ≡ some value
      → has_key element (bytes "mode") ≡ false
      → lookup name vars ≡ some old
      → read_config_element element vars ≡ (ok false, vars)
  unfolding read_config_element
  set_twice_refused element vars name value n v m l =
      let p : parse_environment_gateway_config_element element vars ≡ none =
        parse_set_twice element vars name value n v m l in
      ground arith
