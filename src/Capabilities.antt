-- ===== src/Capabilities.antt =====
-- agent/src/capability: the capabilities that the service manifests define.
pub mod Lookup
pub mod Loading
pub mod Manifests
use softwarecontainer.Common.{
  Bool, true, false, Option, none, some, List, [], ◌∷◌, not, if◌then◌else◌, is_some,
}
use softwarecontainer.Common.Bytes.{Bytes, bytes}
use softwarecontainer.Common.OrdMap.{OrdMap, keys, lookup, insert, contains, bytes_key}
use softwarecontainer.Common.Throwing.{
  M, ok, throw, capability_parse_error, ◌>>=◌, ◌>>◌, pure, raise, raise_if, modify,
}
use softwarecontainer.Json.{Jansson, read_string}
use softwarecontainer.GatewayConfig.{GatewayConfiguration, append, append_array}

-- `m_capMap`
abbrev pub ConfigStore : Type 0 → Type 0
ConfigStore Json = OrdMap Bytes (GatewayConfiguration Json)

module _ {Json : Type 0} ⦃j : Jansson Json⦄ where
  -- The checks on one gateway of a capability: its id and its configuration.
  unfoldable pub parse_gateway : Json → Option (Bytes × Json)
  parse_gateway gateway =
      if not (j.is_object gateway)
      then none
      else let (found, id) = read_string gateway (bytes "id") [] in
        if not found then none else elim (j.object_get gateway (bytes "config")) [
          | none ↦ none
          | some confs ↦ if j.is_array confs then some (id, confs) else none
        ]

  -- The loop of `parseGatewayConfigs`: no value stands for the exception.
  unfoldable pub parse_gateways :
      List Json → GatewayConfiguration Json → Option (GatewayConfiguration Json)
  parse_gateways [] conf = some conf
  parse_gateways (gateway ∷ rest) conf = elim (parse_gateway gateway) [
    | none ↦ none
    | some (id, confs) ↦ parse_gateways rest (append_array id confs conf).1
  ]

  unfoldable pub parse_gateway_configs : Bytes → Json → M (ConfigStore Json) (Unit {0})
  parse_gateway_configs name gateways store =
      if contains name store
      then (ok tt, store)
      else elim (parse_gateways (j.elements gateways) []) [
        | none ↦ (throw capability_parse_error, store)
        | some conf ↦ (ok tt, insert name conf store)
      ]

  unfoldable pub parse_capability : Json → M (ConfigStore Json) (Unit {0})
  parse_capability capability store =
      if not (j.is_object capability)
      then (throw capability_parse_error, store)
      else let (found, name) = read_string capability (bytes "name") [] in
        if not found
        then (throw capability_parse_error, store)
        else elim (j.object_get capability (bytes "gateways")) [
          | none ↦ (throw capability_parse_error, store)
          | some gateways ↦
              if j.is_array gateways
              then parse_gateway_configs name gateways store
              else (throw capability_parse_error, store)
        ]

  unfoldable pub parse_capabilities : List Json → M (ConfigStore Json) (Unit {0})
  parse_capabilities [] store = (ok tt, store)
  parse_capabilities (capability ∷ rest) store =
      (parse_capability capability >> parse_capabilities rest) store

  unfoldable pub parse_service_manifest : Json → M (ConfigStore Json) (Unit {0})
  parse_service_manifest manifest store = elim (j.object_get manifest (bytes "capabilities")) [
    | none ↦ (throw capability_parse_error, store)
    | some capabilities ↦
        if j.is_array capabilities
        then parse_capabilities (j.elements capabilities) store
        else (throw capability_parse_error, store)
  ]

  -- The constructor, on what the loader has loaded.
  unfoldable pub load : List Json → M (ConfigStore Json) (Unit {0})
  load [] store = (ok tt, store)
  load (manifest ∷ rest) store = (parse_service_manifest manifest >> load rest) store

  -- `DefaultConfigStore::configs`, which drops what `append` returns.
  unfoldable pub configs_from :
      ConfigStore Json → GatewayConfiguration Json → GatewayConfiguration Json
  configs_from [] conf = conf
  configs_from ((name, capability) ∷ rest) conf = configs_from rest (append capability conf).1

  pub configs : ConfigStore Json → GatewayConfiguration Json
  configs store = configs_from store []

  -- `FilteredConfigStore::configByID`
  unfoldable pub config_by_id : ConfigStore Json → Bytes → GatewayConfiguration Json
  config_by_id store id = elim (lookup id store) [ none ↦ [] | some conf ↦ conf ]

  -- The loop of `FilteredConfigStore::configsByID`.
  unfoldable pub configs_by_id_from :
      ConfigStore Json → List Bytes → GatewayConfiguration Json → GatewayConfiguration Json
  configs_by_id_from store [] conf = conf
  configs_by_id_from store (id ∷ rest) conf =
      configs_by_id_from store rest (append (config_by_id store id) conf).1

  pub configs_by_id : ConfigStore Json → List Bytes → GatewayConfiguration Json
  configs_by_id store cap_ids = configs_by_id_from store cap_ids []

-- `FilteredConfigStore::IDs`
abbrev pub capability_ids : {Json : Type 0} → ConfigStore Json → List Bytes
capability_ids = keys
