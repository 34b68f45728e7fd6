-- ===== src/Config/Choice.antt =====
-- Which source the values of the agent's configuration come from, from the command line to
-- getConfig.
use softwarecontainer.Common.{
  ◌≡◌, refl, Bool, true, false, Option, none, some, List, [], ◌∷◌, ◌++◌, ◌&&◌, arith, if◌then◌else◌,
  All, All-append,
}
use softwarecontainer.Common.Bytes.{Bytes, ◌==◌, is_empty}
use softwarecontainer.Common.Int.{eqb_ℤ}
use softwarecontainer.Common.Throwing.{ok}
use softwarecontainer.Config.{
  ConfigSourceType, commandline, main, default, is_source, ConfigItem, ConfigSource, Config,
  new_config, merge_sources, read_configs_from_sources, get_config,
}
use softwarecontainer.Config.Precedence.{given, first_of, get_config-first_of}
use softwarecontainer.Config.Definition.{
  service_manifest_dir_key, default_service_manifest_dir_key, shutdown_timeout_key,
  shutdown_timeout_initial_value, use_session_bus_key, Build, type_map,
}
use softwarecontainer.Config.MainSource.{KeyFile, new_main_source}
use softwarecontainer.Config.StartUp.{
  Options, commandline_source, default_source, config_file_location, config_with, start_config,
  dir_config, item,
}
use softwarecontainer.Config.Origins.{Typed, new_main_source-Typed}

module _ {V : Type 0} where
  -- The first item of a group and key, whatever its source is.
  unfoldable pub first_named : Bytes → Bytes → List (ConfigItem V) → Option (ConfigItem V)
  first_named group key [] = none
  first_named group key (config ∷ rest) =
      if config.group == group && config.key == key then some config else first_named group key rest

  abbrev From : ConfigSourceType → List (ConfigItem V) → Type 0
  From source configs = All (λ c. c.source ≡ source) configs

  abbrev or_else : Option (ConfigItem V) → Option (ConfigItem V) → Option (ConfigItem V)
  or_else (some c) d = some c
  or_else none d = d

  given-append :
      (group key : Bytes) (source : ConfigSourceType) (xs ys : List (ConfigItem V))
      → given group key source (xs ++ ys)
        ≡ or_else (given group key source xs) (given group key source ys)
  unfolding given
  given-append group key source [] ys = refl
  given-append group key source (x ∷ xs) ys = ground (arith, given-append group key source xs ys)

  given-From :
      (group key : Bytes) (own source : ConfigSourceType) (xs : List (ConfigItem V))
      → From own xs
      → given group key source xs
        ≡ (if is_source own source then first_named group key xs else none)
  unfolding given first_named
  given-From group key own source [] h = ground arith
  given-From group key own source (x ∷ xs) h =
      ground (arith, h.0, given-From group key own source xs h.1)

  -- `getConfig` over items from the command line, then from the main file, then from the defaults.
  three_sources :
      (group key : Bytes) (xs ys zs : List (ConfigItem V))
      → From commandline xs
      → From main ys
      → From default zs
      → get_config group key ((xs ++ ys) ++ zs)
        ≡ first_of (first_named group key xs) (first_named group key ys) (first_named group key zs)
  three_sources group key xs ys zs a b c =
      rw
        (
          get_config-first_of group key ((xs ++ ys) ++ zs),
          given-append group key commandline (xs ++ ys) zs,
          given-append group key main (xs ++ ys) zs,
          given-append group key default (xs ++ ys) zs,
          given-append group key commandline xs ys,
          given-append group key main xs ys,
          given-append group key default xs ys,
          given-From group key commandline commandline xs a,
          given-From group key commandline main xs a,
          given-From group key commandline default xs a,
          given-From group key main commandline ys b,
          given-From group key main main ys b,
          given-From group key main default ys b,
          given-From group key default commandline zs c,
          given-From group key default main zs c,
          given-From group key default default zs c,
        )
        (ground arith)

All-map :
    {A : Type 0} {P Q : A → Type 0} (f : (a : A) → P a → Q a) (xs : List A) → All P xs → All Q xs
All-map f [] h = tt
All-map f (x ∷ xs) h = (f x h.0, All-map f xs h.1)

if-From :
    {V : Type 0} (source : ConfigSourceType) (b : Bool) (xs ys : List (ConfigItem V))
    → From source xs
    → From source ys
    → From source (if b then xs else ys)
if-From source true xs ys h k = h
if-From source false xs ys h k = k

dir_config-From : (key dir : Bytes) → From commandline (dir_config key dir)
dir_config-From key dir = if-From commandline (is_empty dir) [] _ tt (refl, tt)

module _ (build : Build) (load : Bytes → Option KeyFile) (options : Options) where
  -- The sources of the agent, when the main file is this one.
  started :
      (main_source : ConfigSource) (config : Config)
      → config_with build options (ok main_source) ≡ ok config
      → (config.string_configs
          ≡ ((commandline_source options).string_configs ++ main_source.string_configs)
            ++ (default_source build).string_configs)
        × (config.int_configs
            ≡ ((commandline_source options).int_configs ++ main_source.int_configs)
              ++ (default_source build).int_configs)
        × (config.bool_configs
            ≡ ((commandline_source options).bool_configs ++ main_source.bool_configs)
              ++ (default_source build).bool_configs)
  unfolding new_config read_configs_from_sources merge_sources
  started main_source config h = ground arith

  -- The key file was there, and every item of it is of the main source.
  new_main_source-From :
      (file : Option KeyFile) (main_source : ConfigSource)
      → new_main_source file (type_map build) ≡ ok main_source
      → From main main_source.string_configs
        × From main main_source.int_configs
        × From main main_source.bool_configs
  unfolding new_main_source
  new_main_source-From none main_source h = cc
  new_main_source-From (some file) main_source h =
      let typed : Typed file (type_map build) main_source =
        new_main_source-Typed file (type_map build) main_source h in
      (
        All-map (λ c f. f.2) main_source.string_configs typed.0,
        All-map (λ c f. f.2) main_source.int_configs typed.1,
        All-map (λ c f. f.2) main_source.bool_configs typed.2,
      )

  -- With the configuration that `main` makes, getConfig gives, for each type of values, the first
  -- item of the group and key that the command line has, else the first of the main file, else that
  -- of the build's defaults, and throws ConfigNotFoundError just when there is none.
  pub start_config-first_of :
      (main_source : ConfigSource) (config : Config)
      → new_main_source (load (config_file_location build options)) (type_map build)
        ≡ ok main_source
      → start_config build load options ≡ ok config
      → (group key : Bytes)
      → (get_config group key config.string_configs
          ≡ first_of
              (first_named group key (commandline_source options).string_configs)
              (first_named group key main_source.string_configs)
              (first_named group key (default_source build).string_configs))
        × (get_config group key config.int_configs
            ≡ first_of
                (first_named group key (commandline_source options).int_configs)
                (first_named group key main_source.int_configs)
                (first_named group key (default_source build).int_configs))
        × (get_config group key config.bool_configs
            ≡ first_of
                (first_named group key (commandline_source options).bool_configs)
                (first_named group key main_source.bool_configs)
                (first_named group key (default_source build).bool_configs))
  unfolding start_config commandline_source default_source
  start_config-first_of main_source config read h group key =
      let (strings, ints, bools) = started main_source config (rw read at h) in
      let (main_strings, main_ints, main_bools) =
        new_main_source-From (load (config_file_location build options)) main_source read in
      let option_strings : From commandline (commandline_source options).string_configs =
        All-append (λ c. c.source ≡ commandline)
          (dir_config service_manifest_dir_key options.service_manifest_dir)
          (dir_config default_service_manifest_dir_key options.default_service_manifest_dir)
          (dir_config-From service_manifest_dir_key options.service_manifest_dir)
          (dir_config-From default_service_manifest_dir_key options.default_service_manifest_dir) in
      let option_ints : From commandline (commandline_source options).int_configs =
        if-From commandline (eqb_ℤ options.timeout shutdown_timeout_initial_value) []
          (item commandline shutdown_timeout_key options.timeout ∷ []) tt (refl, tt) in
      let option_bools : From commandline (commandline_source options).bool_configs =
        if-From commandline options.use_session_bus
          (item commandline use_session_bus_key options.use_session_bus ∷ []) [] (refl, tt) tt in
      (
        rw strings (
            three_sources group key _ _ _ option_strings main_strings
              (refl, (refl, (refl, (refl, tt))))),
        rw ints (three_sources group key _ _ _ option_ints main_ints (refl, tt)),
        rw bools (three_sources group key _ _ _ option_bools main_bools (refl, tt)),
      )
