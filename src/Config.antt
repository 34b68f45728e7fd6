-- ===== src/Config.antt =====
-- agent/src/config: the configuration of the agent, from the command line, the main file and the
-- defaults. Here a source is the items that it gives; the children are about reading them.
pub mod Precedence
pub mod Definition
pub mod MainSource
pub mod StartUp
pub mod Origins
pub mod Choice
use softwarecontainer.Common.{
  Bool, true, false, Option, none, some, List, [], ◌∷◌, ◌++◌, ◌&&◌, not, if◌then◌else◌, any,
}
use softwarecontainer.Common.Bytes.{Bytes, ◌==◌}
use softwarecontainer.Common.Int.{ℤ}
use softwarecontainer.Common.Throwing.{
  Result, ok, throw, config_not_found_error, config_dependency_error, config_mandatory_error,
  config_internal_error,
}

pub data ConfigSourceType : Type 0 where
  commandline main default : ConfigSourceType

abbrev pub is_source : ConfigSourceType → ConfigSourceType → Bool
is_source commandline commandline = true
is_source main main = true
is_source default default = true
is_source _ _ = false

-- StringConfig, IntConfig and BoolConfig, by the type of their values.
pub record ConfigItem (V : Type 0) : Type 0 where
  pub group : Bytes
  pub key : Bytes
  pub source : ConfigSourceType
  pub value : V

abbrev pub UniqueKey : Type 0
UniqueKey = Bytes × Bytes

abbrev pub same_key : UniqueKey → UniqueKey → Bool
same_key (g, k) (h, l) = g == h && k == l

pub record ConfigSource : Type 0 where
  pub string_configs : List (ConfigItem Bytes)
  pub int_configs : List (ConfigItem ℤ)
  pub bool_configs : List (ConfigItem Bool)

pub record Config : Type 0 where
  pub string_configs : List (ConfigItem Bytes)
  pub int_configs : List (ConfigItem ℤ)
  pub bool_configs : List (ConfigItem Bool)
  pub all_configs : List UniqueKey

abbrev pub unique_keys : {V : Type 0} → List (ConfigItem V) → List UniqueKey
unique_keys [] = []
unique_keys (config ∷ rest) = (config.group, config.key) ∷ unique_keys rest

-- The first loop of `readConfigsFromSources`.
unfoldable pub merge_sources : List ConfigSource → ConfigSource → ConfigSource
merge_sources [] all = all
merge_sources (source ∷ rest) all = merge_sources rest (record {
  string_configs = all.string_configs ++ source.string_configs;
  int_configs = all.int_configs ++ source.int_configs;
  bool_configs = all.bool_configs ++ source.bool_configs;
})

abbrev pub no_configs : ConfigSource
no_configs = record { string_configs = []; int_configs = []; bool_configs = [] }

unfoldable pub read_configs_from_sources : List ConfigSource → Config
unfolding merge_sources
read_configs_from_sources sources =
    let all = merge_sources sources no_configs in
    record {
      string_configs = all.string_configs;
      int_configs = all.int_configs;
      bool_configs = all.bool_configs;
      all_configs =
          unique_keys all.string_configs
          ++ (unique_keys all.int_configs ++ unique_keys all.bool_configs);
    }

-- `std::find(m_allConfigs…) != end`
abbrev pub is_present : List UniqueKey → UniqueKey → Bool
is_present configs config = any (same_key config) configs

unfoldable pub all_deps_satisfied : List UniqueKey → List UniqueKey → Bool
all_deps_satisfied configs [] = true
all_deps_satisfied configs (dependency ∷ rest) =
    if is_present configs dependency then all_deps_satisfied configs rest else false

-- No value stands for what the loop returns when it ends without an exception.
unfoldable pub assert_dependencies :
    List UniqueKey → List (UniqueKey × List UniqueKey) → Result (Unit {0})
assert_dependencies configs [] = ok tt
assert_dependencies configs ((config, deps) ∷ rest) =
    if is_present configs config && not (all_deps_satisfied configs deps)
    then throw config_dependency_error
    else assert_dependencies configs rest

unfoldable pub assert_all_mandatory_present : List UniqueKey → List UniqueKey → Result (Unit {0})
assert_all_mandatory_present configs [] = ok tt
assert_all_mandatory_present configs (mandatory ∷ rest) =
    if is_present configs mandatory
    then assert_all_mandatory_present configs rest
    else throw config_mandatory_error

-- The constructor.
unfoldable pub new_config :
    List ConfigSource → List UniqueKey → List (UniqueKey × List UniqueKey) → Result Config
new_config sources mandatory dependencies =
    let config = read_configs_from_sources sources in
    elim (assert_dependencies config.all_configs dependencies) [
      | throw e ↦ throw e
      | ok _ ↦ elim (assert_all_mandatory_present config.all_configs mandatory) [
        | throw e ↦ throw e
        | ok _ ↦ ok config
      ]
    ]

module _ {V : Type 0} where
  -- The loop that collects the items of one group and key.
  unfoldable pub found_configs : Bytes → Bytes → List (ConfigItem V) → List (ConfigItem V)
  found_configs group key [] = []
  found_configs group key (config ∷ rest) =
      let found = found_configs group key rest in
      if config.group == group && config.key == key then config ∷ found else found

  -- One of the three loops of `prioritizedConfig`: the first item from a source.
  unfoldable pub first_from : ConfigSourceType → List (ConfigItem V) → Option (ConfigItem V)
  first_from source [] = none
  first_from source (config ∷ rest) =
      if is_source config.source source then some config else first_from source rest

  unfoldable pub prioritized_config : List (ConfigItem V) → Result (ConfigItem V)
  prioritized_config configs = elim (first_from commandline configs) [
    | some config ↦ ok config
    | none ↦ elim (first_from main configs) [
      | some config ↦ ok config
      | none ↦ elim (first_from default configs) [
        | some config ↦ ok config
        | none ↦ throw config_internal_error
      ]
    ]
  ]

  abbrev pub chosen : List (ConfigItem V) → Result (ConfigItem V)
  chosen [] = throw config_not_found_error
  chosen (config ∷ rest) = prioritized_config (config ∷ rest)

  unfoldable pub get_config : Bytes → Bytes → List (ConfigItem V) → Result (ConfigItem V)
  get_config group key configs = chosen (found_configs group key configs)
