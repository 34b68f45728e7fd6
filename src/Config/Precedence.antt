-- ===== src/Config/Precedence.antt =====
-- Which item of the configuration is used (agent/src/config/config.cpp).
use softwarecontainer.Common.{
  ◌≡◌, ◌⊎◌, inl, inr, refl, true, false, Option, none, some, List, [], ◌∷◌, ◌&&◌, arith, Bool-cases,
  if◌then◌else◌, All,
}
use softwarecontainer.Common.Bytes.{Bytes, ◌==◌}
use softwarecontainer.Common.Throwing.{Result, ok, throw, config_not_found_error}
use softwarecontainer.Config.{
  ConfigSourceType, commandline, main, default, is_source, ConfigItem, UniqueKey, is_present,
  assert_all_mandatory_present, assert_dependencies, all_deps_satisfied, new_config, Config,
  ConfigSource, found_configs, first_from, prioritized_config, chosen, get_config,
}

source_cases :
    (s : ConfigSourceType)
    → (is_source s commandline ≡ true) ⊎ (is_source s main ≡ true) ⊎ (is_source s default ≡ true)
source_cases commandline = inl refl
source_cases main = inr (inl refl)
source_cases default = inr (inr refl)

module _ {V : Type 0} where
  -- The first item of a group and key that a source gives, wherever it stands.
  unfoldable pub given :
      Bytes → Bytes → ConfigSourceType → List (ConfigItem V) → Option (ConfigItem V)
  given group key source [] = none
  given group key source (config ∷ rest) =
      if config.group == group && config.key == key && is_source config.source source
      then some config
      else given group key source rest

  -- The first value of three.
  abbrev pub first_of :
      Option (ConfigItem V) → Option (ConfigItem V) → Option (ConfigItem V) → Result (ConfigItem V)
  first_of (some a) b c = ok a
  first_of none (some b) c = ok b
  first_of none none (some c) = ok c
  first_of none none none = throw config_not_found_error

  first_from-found :
      (group key : Bytes) (source : ConfigSourceType) (configs : List (ConfigItem V))
      → first_from source (found_configs group key configs) ≡ given group key source configs
  unfolding first_from found_configs given
  first_from-found group key source [] = refl
  first_from-found group key source (config ∷ rest) =
      ground (arith, first_from-found group key source rest)

  -- An item has one of the three sources, so no list of items ends in ConfigInternalError.
  chosen_first :
      (configs : List (ConfigItem V))
      → chosen configs
        ≡ first_of
            (first_from commandline configs)
            (first_from main configs)
            (first_from default configs)
  unfolding prioritized_config first_from
  chosen_first [] = refl
  chosen_first (config ∷ rest) = ground (arith, source_cases config.source)

  -- `getConfig` gives the first item of that group and key from the command line, else from the
  -- main file, else from the defaults, and throws ConfigNotFoundError just when there is none.
  pub get_config-first_of :
      (group key : Bytes) (configs : List (ConfigItem V))
      → get_config group key configs
        ≡ first_of
            (given group key commandline configs)
            (given group key main configs)
            (given group key default configs)
  unfolding get_config
  get_config-first_of group key configs =
      rw
        (
          ← first_from-found group key commandline configs,
          ← first_from-found group key main configs,
          ← first_from-found group key default configs,
        )
        (chosen_first (found_configs group key configs))

-- Every mandatory configuration is there, and with a configuration all those it depends on.
abbrev pub Complete : List UniqueKey → List (UniqueKey × List UniqueKey) → List UniqueKey → Type 0
Complete mandatory dependencies configs =
    All (λ m. is_present configs m ≡ true) mandatory
    × All (λ d. (is_present configs d.0 ≡ false) ⊎ All (λ k. is_present configs k ≡ true) d.1)
        dependencies

deps_present :
    (configs deps : List UniqueKey)
    → all_deps_satisfied configs deps ≡ true
    → All (λ k. is_present configs k ≡ true) deps
unfolding all_deps_satisfied
deps_present configs [] h = tt
deps_present configs (d ∷ deps) h = elim (Bool-cases (is_present configs d)) [
  | inl p ↦ (p, deps_present configs deps (ground arith))
  | inr p ↦ absurd (ground arith)
]

dependencies_met :
    (configs : List UniqueKey) (dependencies : List (UniqueKey × List UniqueKey))
    → assert_dependencies configs dependencies ≡ ok tt
    → All
        (λ d. (is_present configs d.0 ≡ false) ⊎ All (λ k. is_present configs k ≡ true) d.1)
        dependencies
unfolding assert_dependencies
dependencies_met configs [] h = tt
dependencies_met configs ((config, deps) ∷ rest) h = elim (Bool-cases (is_present configs config)) [
  | inr p ↦ (inl p, dependencies_met configs rest (ground arith))
  | inl p ↦ elim (Bool-cases (all_deps_satisfied configs deps)) [
    | inl q ↦ (inr (deps_present configs deps q), dependencies_met configs rest (ground arith))
    | inr q ↦ absurd (ground arith)
  ]
]

mandatory_present :
    (configs mandatory : List UniqueKey)
    → assert_all_mandatory_present configs mandatory ≡ ok tt
    → All (λ m. is_present configs m ≡ true) mandatory
unfolding assert_all_mandatory_present
mandatory_present configs [] h = tt
mandatory_present configs (m ∷ rest) h = elim (Bool-cases (is_present configs m)) [
  | inl p ↦ (p, mandatory_present configs rest (ground arith))
  | inr p ↦ absurd (ground arith)
]

new_config_parts :
    (sources : List ConfigSource) (mandatory : List UniqueKey)
    (dependencies : List (UniqueKey × List UniqueKey)) (config : Config)
    → new_config sources mandatory dependencies ≡ ok config
    → (assert_dependencies config.all_configs dependencies ≡ ok tt)
      × (assert_all_mandatory_present config.all_configs mandatory ≡ ok tt)
unfolding new_config
new_config_parts sources mandatory dependencies config h = ground arith

-- A configuration that is constructed is complete: every mandatory configuration is there, and
-- with each configuration all those that it depends on.
pub new_config-Complete :
    (sources : List ConfigSource) (mandatory : List UniqueKey)
    (dependencies : List (UniqueKey × List UniqueKey)) (config : Config)
    → new_config sources mandatory dependencies ≡ ok config
    → Complete mandatory dependencies config.all_configs
new_config-Complete sources mandatory dependencies config h =
    let (d, m) = new_config_parts sources mandatory dependencies config h in
    (
      mandatory_present config.all_configs mandatory m,
      dependencies_met config.all_configs dependencies d,
    )
