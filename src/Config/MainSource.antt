-- ===== src/Config/MainSource.antt =====
-- agent/src/config/mainconfigsource.cpp and fileconfigloader.cpp: the items of the main file.
use softwarecontainer.Common.{Bool, Option, none, some, List, [], ◌∷◌, ◌++◌}
use softwarecontainer.Common.Bytes.{Bytes}
use softwarecontainer.Common.Int.{ℤ}
use softwarecontainer.Common.OrdMap.{OrdMap, lookup, insert, bytes_key}
use softwarecontainer.Common.Throwing.{Result, ok, throw, config_file_error, config_unknown_error}
use softwarecontainer.Config.{ConfigItem, ConfigSource, main, no_configs}
use softwarecontainer.Config.Definition.{ConfigType, string, integer, boolean, TypeMap, type_at}

-- Glib::KeyFile: no value stands for an exception.
pub record KeyFile : Type 0 where
  pub get_groups : Option (List Bytes)
  pub get_keys : Bytes → Option (List Bytes)
  pub get_string : Bytes → Bytes → Option Bytes
  pub get_integer : Bytes → Bytes → Option ℤ
  pub get_boolean : Bytes → Bytes → Option Bool

abbrev pub ConfigsByGroup : Type 0
ConfigsByGroup = OrdMap Bytes (List Bytes)

abbrev pub keys_of : Option (List Bytes) → List Bytes
keys_of none = []
keys_of (some keys) = keys

-- `m_configsByGroup[group].push_back(key)`
unfoldable pub push_key : Bytes → Bytes → ConfigsByGroup → ConfigsByGroup
push_key group key configs = insert group (keys_of (lookup group configs) ++ (key ∷ [])) configs

unfoldable pub push_keys : Bytes → List Bytes → ConfigsByGroup → ConfigsByGroup
push_keys group [] configs = configs
push_keys group (key ∷ rest) configs = push_keys group rest (push_key group key configs)

-- The loop over the groups of `readLoadedConfig`: no value stands for ConfigFileError.
unfoldable pub read_groups : KeyFile → List Bytes → ConfigsByGroup → Option ConfigsByGroup
read_groups file [] configs = some configs
read_groups file (group ∷ rest) configs = elim (file.get_keys group) [
  | none ↦ none
  | some keys ↦ read_groups file rest (push_keys group keys configs)
]

unfoldable pub read_loaded_config : KeyFile → Option ConfigsByGroup
read_loaded_config file = elim file.get_groups [
  | none ↦ none
  | some groups ↦ read_groups file groups []
]

-- `createConfig` on what `getGlibValue` gives.
abbrev pub create_config :
    {V : Type 0} → Bytes → Bytes → Option V → (ConfigItem V → ConfigSource) → Result ConfigSource
create_config group name none put = throw config_file_error
create_config group name (some value) put =
    ok (put (record { group = group; key = name; source = main; value = value }))

abbrev pub create_as :
    KeyFile → Bytes → Bytes → ConfigSource → Option ConfigType → Result ConfigSource
create_as file group key configs none = throw config_unknown_error
create_as file group key configs (some string) =
    create_config group key (file.get_string group key)
      (λ c. record configs { string_configs = configs.string_configs ++ (c ∷ []) })
create_as file group key configs (some integer) =
    create_config group key (file.get_integer group key)
      (λ c. record configs { int_configs = configs.int_configs ++ (c ∷ []) })
create_as file group key configs (some boolean) =
    create_config group key (file.get_boolean group key)
      (λ c. record configs { bool_configs = configs.bool_configs ++ (c ∷ []) })

-- `typeOf` and `create`.
unfoldable pub create : KeyFile → TypeMap → Bytes → Bytes → ConfigSource → Result ConfigSource
create file types group key configs = create_as file group key configs (type_at (group, key) types)

abbrev pub and_create :
    Result ConfigSource → (ConfigSource → Result ConfigSource) → Result ConfigSource
and_create (ok configs) k = k configs
and_create (throw e) k = throw e

unfoldable pub create_keys :
    KeyFile → TypeMap → Bytes → List Bytes → ConfigSource → Result ConfigSource
create_keys file types group [] configs = ok configs
create_keys file types group (key ∷ rest) configs =
    and_create (create file types group key configs) (create_keys file types group rest)

unfoldable pub create_config_items :
    KeyFile → TypeMap → ConfigsByGroup → ConfigSource → Result ConfigSource
create_config_items file types [] configs = ok configs
create_config_items file types ((group, keys) ∷ rest) configs =
    and_create (create_keys file types group keys configs) (create_config_items file types rest)

abbrev pub created_from : KeyFile → TypeMap → Option ConfigsByGroup → Result ConfigSource
created_from file types none = throw config_file_error
created_from file types (some configs) = create_config_items file types configs no_configs

-- The constructor, on what the loader gives: no value stands for a Glib::Error.
unfoldable pub new_main_source : Option KeyFile → TypeMap → Result ConfigSource
new_main_source none types = throw config_file_error
new_main_source (some file) types = created_from file types (read_loaded_config file)
