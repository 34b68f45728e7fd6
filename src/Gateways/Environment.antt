-- ===== src/Gateways/Environment.antt =====
-- gateway/environment/envgateway.cpp and envgatewayparser.cpp.
pub mod Variables
use softwarecontainer.Common.{
  ℕ, Bool, true, false, Option, none, some, List, [], ◌∷◌, ◌++◌, ◌+◌, ◌||◌, ◌&&◌, not,
  if◌then◌else◌, leb,
}
use softwarecontainer.Common.Bytes.{Bytes, bytes, ◌==◌, is_empty}
use softwarecontainer.Common.OrdMap.{OrdMap, lookup, insert, bytes_key}
use softwarecontainer.Common.Throwing.{M, ok, pure, and_then}
use softwarecontainer.Json.{Jansson, read_string, read_optional_string}
use softwarecontainer.ContainerInterface.{ContainerInterface}
use softwarecontainer.Gateway.{Own, Gateway, GatewayMethods, new_gateway}

abbrev pub EnvironmentVariables : Type 0
EnvironmentVariables = OrdMap Bytes Bytes

-- `::tolower` on each byte, in the "C" locale.
unfoldable pub to_lower : Bytes → Bytes
to_lower [] = []
to_lower (c ∷ s) = (if leb b'A' c && leb c b'Z' then c + 32 else c) ∷ to_lower s

abbrev pub is_valid_mode : Bytes → Bool
is_valid_mode mode = mode == bytes "set" || mode == bytes "prepend" || mode == bytes "append"

-- The last part of the parser, with the mode in lower case.
unfoldable pub combine :
    Bytes → Bytes → Bytes → Bytes → EnvironmentVariables → Option (Bytes × Bytes)
combine name value mode separator store = elim (lookup name store) [
  | none ↦ some (name, value)
  | some old ↦
      if mode == bytes "append"
      then some (name, old ++ (separator ++ value))
      else if mode == bytes "prepend"
      then some (name, value ++ (separator ++ old))
      else none
]

module _ {Json : Type 0} ⦃j : Jansson Json⦄ where
  -- No value stands for the result `false`.
  unfoldable pub require_non_empty_key_value : Json → Bytes → Option Bytes
  require_non_empty_key_value element key =
      let (found, result) = read_string element key [] in
      if found && not (is_empty result) then some result else none

  unfoldable pub parse_modifiers :
      Json → Bytes → Bytes → EnvironmentVariables → Option (Bytes × Bytes)
  parse_modifiers element name value store =
      let (mode_read, mode) = read_optional_string element (bytes "mode") (bytes "set") in
      let (separator_read, separator) = read_optional_string element (bytes "separator") [] in
      if not mode_read
      then none
      else if not (is_valid_mode (to_lower mode))
      then none
      else if not separator_read
      then none
      else combine name value (to_lower mode) separator store

  unfoldable pub parse_environment_gateway_config_element :
      Json → EnvironmentVariables → Option (Bytes × Bytes)
  parse_environment_gateway_config_element element store =
      elim (require_non_empty_key_value element (bytes "name")) [
        | none ↦ none
        | some name ↦ elim (require_non_empty_key_value element (bytes "value")) [
          | none ↦ none
          | some value ↦ parse_modifiers element name value store
        ]
      ]

  unfoldable pub read_config_element : Json → M EnvironmentVariables Bool
  read_config_element element variables =
      elim (parse_environment_gateway_config_element element variables) [
        | none ↦ (ok false, variables)
        | some (name, value) ↦ (ok true, insert name value variables)
      ]

module _ {C : Type 0} (container : ContainerInterface C) where
  -- The loop of `activateGateway`.
  unfoldable pub set_variables : EnvironmentVariables → M C Bool
  set_variables [] c = (ok true, c)
  set_variables ((name, value) ∷ rest) c =
      and_then (container.set_environment_variable name value) (set_variables rest) c

  unfoldable pub activate_gateway : M (Own EnvironmentVariables × C) Bool
  activate_gateway (own, c) = elim (own.fields) [
    | [] ↦ (ok false, (own, c))
    | v ∷ rest ↦ let (r, c') = set_variables (v ∷ rest) c in (r, (own, c'))
  ]

  unfoldable pub environment_gateway :
      {Json : Type 0} ⦃j : Jansson Json⦄ → GatewayMethods Json C EnvironmentVariables
  environment_gateway = record {
    read_config_element = read_config_element;
    activate_gateway = activate_gateway;
    teardown_gateway = pure true;
  }

abbrev pub new_environment_gateway : Gateway EnvironmentVariables
new_environment_gateway = new_gateway (bytes "env") false []
