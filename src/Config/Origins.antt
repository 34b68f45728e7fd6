-- ===== src/Config/Origins.antt =====
-- Where the values of the agent's configuration come from.
use softwarecontainer.Common.{
  ◌≡◌, refl, Option, none, some, List, [], ◌∷◌, ◌++◌, All, All-append, inl, inr, Option-cases,
}
use softwarecontainer.Common.Bytes.{Bytes}
use softwarecontainer.Common.OrdMap.{bytes_key}
use softwarecontainer.Common.Throwing.{Result, ok, throw}
use softwarecontainer.Config.{main, ConfigItem, ConfigSource, no_configs}
use softwarecontainer.Config.Definition.{ConfigType, string, integer, boolean, TypeMap, type_at}
use softwarecontainer.Config.MainSource.{
  KeyFile, ConfigsByGroup, create, create_as, and_create, create_keys, create_config_items,
  read_loaded_config, created_from, new_main_source,
}

module _ (file : KeyFile) (types : TypeMap) where
  -- The item is of the main file: its key has this type, and its value is what the file gives.
  abbrev pub FromFile :
      {V : Type 0} → ConfigType → (Bytes → Bytes → Option V) → ConfigItem V → Type 0
  FromFile type get c =
      (type_at (c.group, c.key) types ≡ some type)
      × (get c.group c.key ≡ some c.value)
      × (c.source ≡ main)

  abbrev pub Typed : ConfigSource → Type 0
  Typed configs =
      All (FromFile string file.get_string) configs.string_configs
      × All (FromFile integer file.get_integer) configs.int_configs
      × All (FromFile boolean file.get_boolean) configs.bool_configs

  -- What a result of this kind says of its value.
  abbrev OkTyped : Result ConfigSource → Type 0
  OkTyped (ok configs) = Typed configs
  OkTyped (throw e) = Unit {0}

  push-FromFile :
      {V : Type 0} (type : ConfigType) (get : Bytes → Bytes → Option V) (group key : Bytes) (v : V)
      (xs : List (ConfigItem V))
      → type_at (group, key) types ≡ some type
      → get group key ≡ some v
      → All (FromFile type get) xs
      → All
          (FromFile type get)
          (xs ++ (record { group = group; key = key; source = main; value = v } ∷ []))
  push-FromFile type get group key v xs t g h =
      All-append (FromFile type get) xs _ h ((t, g, refl), tt)

  create-Typed :
      (group key : Bytes) (configs : ConfigSource) (type : Option ConfigType)
      → type_at (group, key) types ≡ type
      → Typed configs
      → OkTyped (create_as file group key configs type)
  create-Typed group key configs none t h = tt
  create-Typed group key configs (some string) t h =
      elim (Option-cases (file.get_string group key)) [
        | inl e ↦ rw e tt
        | inr (v, e) ↦ rw e (
          push-FromFile string file.get_string group key v configs.string_configs t e h.0,
          h.1,
          h.2,
        )
      ]
  create-Typed group key configs (some integer) t h =
      elim (Option-cases (file.get_integer group key)) [
        | inl e ↦ rw e tt
        | inr (v, e) ↦ rw e (
          h.0,
          push-FromFile integer file.get_integer group key v configs.int_configs t e h.1,
          h.2,
        )
      ]
  create-Typed group key configs (some boolean) t h =
      elim (Option-cases (file.get_boolean group key)) [
        | inl e ↦ rw e tt
        | inr (v, e) ↦ rw e (
          h.0,
          h.1,
          push-FromFile boolean file.get_boolean group key v configs.bool_configs t e h.2,
        )
      ]

  and_create-Typed :
      (r : Result ConfigSource) (k : ConfigSource → Result ConfigSource)
      → OkTyped r
      → ((c : ConfigSource) → Typed c → OkTyped (k c))
      → OkTyped (and_create r k)
  and_create-Typed (ok c) k h keep = keep c h
  and_create-Typed (throw e) k h keep = tt

  create_keys-Typed :
      (group : Bytes) (keys : List Bytes) (configs : ConfigSource)
      → Typed configs
      → OkTyped (create_keys file types group keys configs)
  unfolding create_keys create
  create_keys-Typed group [] configs h = h
  create_keys-Typed group (key ∷ keys) configs h =
      and_create-Typed (create file types group key configs) (create_keys file types group keys)
        (create-Typed group key configs (type_at (group, key) types) refl h)
        (create_keys-Typed group keys)

  create_config_items-Typed :
      (groups : ConfigsByGroup) (configs : ConfigSource)
      → Typed configs
      → OkTyped (create_config_items file types groups configs)
  unfolding create_config_items
  create_config_items-Typed [] configs h = h
  create_config_items-Typed ((group, keys) ∷ rest) configs h =
      and_create-Typed (create_keys file types group keys configs)
        (create_config_items file types rest) (create_keys-Typed group keys configs h)
        (create_config_items-Typed rest)

  created-Typed : (groups : Option ConfigsByGroup) → OkTyped (created_from file types groups)
  created-Typed none = tt
  created-Typed (some groups) = create_config_items-Typed groups no_configs (tt, tt, tt)

  -- Every item of the main source stands in the vector of the type that the type map has for its
  -- key, with the value that the file gives for that type.
  pub new_main_source-Typed :
      (configs : ConfigSource) → new_main_source (some file) types ≡ ok configs → Typed configs
  unfolding new_main_source
  new_main_source-Typed configs h =
      let typed : OkTyped (created_from file types (read_loaded_config file)) =
        created-Typed (read_loaded_config file) in
      rw h at typed
