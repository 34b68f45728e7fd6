-- ===== src/Tests/Configuration.antt =====
-- Runs of the theorems on configurations and capabilities.
use softwarecontainer.Common.{ℕ, ◌≡◌, refl, true, false, none, List, [], ◌∷◌, ◌++◌}
use softwarecontainer.Common.Bytes.{Bytes, bytes, ◌==◌}
use softwarecontainer.Common.Int.{ℤ, pos}
use softwarecontainer.Common.OrdMap.{lookup, bytes_key}
use softwarecontainer.Common.Throwing.{ok}
use softwarecontainer.GatewayConfig.{GatewayConfiguration, append_elements, append_array, append}
use softwarecontainer.GatewayConfig.Laws.{contents, contents-append}
use softwarecontainer.Capabilities.{ConfigStore}
use softwarecontainer.Config.{
  ConfigSourceType, main, default, ConfigItem, ConfigSource, Config, UniqueKey, new_config,
  read_configs_from_sources, merge_sources, no_configs, assert_dependencies, all_deps_satisfied,
  assert_all_mandatory_present,
}
use softwarecontainer.Config.Precedence.{Complete, new_config-Complete}
use softwarecontainer.Tests.Values.{Value, number, nil, item, empty, value_jansson, value_IsJansson}

abbrev env : Bytes
env = bytes "env"

abbrev one : Value
one = item (number (pos 1)) nil

abbrev two : Value
two = item (number (pos 2)) nil

abbrev conf : GatewayConfiguration Value
conf = (env, one) ∷ []

abbrev source : GatewayConfiguration Value
source = (env, two) ∷ []

array_appended : (append_array env two conf).0 ≡ true
unfolding append_array append_elements lookup ◌==◌
array_appended = refl

all_appended : (append source conf).0 ≡ true
unfolding append append_array append_elements lookup ◌==◌
all_appended = refl

abbrev no_conf : GatewayConfiguration Value
no_conf = []

alone : lookup env no_conf ≡ none
unfolding lookup
alone = refl

contents-append_example :
    contents env (append source conf).1 ≡ contents env conf ++ contents env source
contents-append_example = contents-append value_IsJansson source conf env (alone, tt) all_appended

-- An entry that is no array.
abbrev broken : GatewayConfiguration Value
broken = (env, empty) ∷ []

not_appended : (append_array env two broken).0 ≡ false
unfolding append_array append_elements lookup ◌==◌
not_appended = refl

abbrev store : ConfigStore Value
store = (bytes "com.example", conf) ∷ []

abbrev timeout : ConfigSourceType → ℕ → ConfigItem ℤ
timeout source value = record {
  group = bytes "SoftwareContainer";
  key = bytes "shutdown-timeout";
  source = source;
  value = pos value;
}

abbrev timeouts : List (ConfigItem ℤ)
timeouts = timeout default 2 ∷ timeout main 5 ∷ []

abbrev timeout_key : UniqueKey
timeout_key = (bytes "SoftwareContainer", bytes "shutdown-timeout")

abbrev sources : List ConfigSource
sources = record no_configs { int_configs = timeouts } ∷ []

abbrev dependencies : List (UniqueKey × List UniqueKey)
dependencies = (timeout_key, timeout_key ∷ []) ∷ []

abbrev built : Config
built = record {
  string_configs = [];
  int_configs = timeouts;
  bool_configs = [];
  all_configs = timeout_key ∷ timeout_key ∷ [];
}

constructed : new_config sources (timeout_key ∷ []) dependencies ≡ ok built
unfolding new_config read_configs_from_sources merge_sources assert_dependencies all_deps_satisfied
    assert_all_mandatory_present ◌==◌
constructed = refl

new_config-Complete_example :
    Complete (timeout_key ∷ []) dependencies (timeout_key ∷ timeout_key ∷ [])
new_config-Complete_example =
    new_config-Complete sources (timeout_key ∷ []) dependencies built constructed
