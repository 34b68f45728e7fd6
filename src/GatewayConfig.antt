-- ===== src/GatewayConfig.antt =====
-- common/gatewayconfig.cpp: the JSON arrays that configure the gateways, by gateway id.
-- An array is changed in place while json_array_append succeeds; reference counts are left out.
pub mod Laws
use softwarecontainer.Common.{Bool, true, false, Option, none, some, List, [], ◌∷◌, if◌then◌else◌}
use softwarecontainer.Common.Bytes.{Bytes}
use softwarecontainer.Common.OrdMap.{OrdMap, keys, lookup, insert, bytes_key}
use softwarecontainer.Json.{Jansson}

abbrev pub GatewayConfiguration : Type 0 → Type 0
GatewayConfiguration Json = OrdMap Bytes Json

module _ {Json : Type 0} ⦃j : Jansson Json⦄ where
  -- The loop of `append`: no value if an element could not be added.
  unfoldable pub append_elements : Json → List Json → Option Json
  append_elements dest [] = some dest
  append_elements dest (value ∷ values) = elim (j.array_append dest (j.deep_copy value)) [
    | none ↦ none
    | some dest' ↦ append_elements dest' values
  ]

  -- `append(id, sourceArray)`
  unfoldable pub append_array :
      Bytes → Json → GatewayConfiguration Json → Bool × GatewayConfiguration Json
  unfolding append_elements
  append_array id source conf = elim (lookup id conf) [
    | none ↦ (true, insert id (j.deep_copy source) conf)
    | some dest ↦ elim (append_elements dest (j.elements source)) [
      | none ↦ (false, insert id (j.deep_copy dest) conf)
      | some dest' ↦ (true, insert id dest' conf)
    ]
  ]

  -- `append(id, jsonConf)`
  pub append_string : Bytes → Bytes → GatewayConfiguration Json → Bool × GatewayConfiguration Json
  append_string id json_conf conf = elim (j.loads json_conf) [
    | none ↦ (false, conf)
    | some json ↦ append_array id json conf
  ]

  -- `append(source)`, which stops at the first array that cannot be added.
  unfoldable pub append :
      GatewayConfiguration Json → GatewayConfiguration Json → Bool × GatewayConfiguration Json
  append [] conf = (true, conf)
  append ((id, array) ∷ source) conf =
      let (done, conf') = append_array id array conf in
      elim done [ true ↦ append source conf' | false ↦ (false, conf') ]

  unfoldable pub config : Bytes → GatewayConfiguration Json → Option Json
  config id conf = elim (lookup id conf) [ none ↦ none | some array ↦ some (j.deep_copy array) ]

-- `empty()`
abbrev pub is_empty_config : {Json : Type 0} → GatewayConfiguration Json → Bool
is_empty_config [] = true
is_empty_config (_ ∷ _) = false

abbrev pub ids : {Json : Type 0} → GatewayConfiguration Json → List Bytes
ids = keys
