-- ===== src/Tests/Gateways.antt =====
-- Runs of the theorems on the gateways.
use softwarecontainer.Common.{
  ◌++◌, ℕ, ◌≡◌, refl, Bool, true, false, Option, some, [], ◌∷◌, ◌-◌, arith, if◌then◌else◌,
}
use softwarecontainer.Common.Bytes.{Bytes, bytes, ◌==◌, is_empty}
use softwarecontainer.Json.{has_key, read_string}
use softwarecontainer.Common.Int.{ℤ, pos}
use softwarecontainer.Common.OrdMap.{lookup, bytes_key}
use softwarecontainer.Common.Throwing.{Result, ok, throw, gateway_error, invalid_argument}
use softwarecontainer.Gateway.{
  Own, Gateway, GatewayState, created, configured, activated, activate, set_config, new_gateway,
  read_elements,
}
use softwarecontainer.Gateway.Lifecycle.{
  sets_config, Moves, step, step-Moves, activate_unconfigured, set_config_activated,
}
use softwarecontainer.Gateways.Environment.{
  EnvironmentVariables, environment_gateway, new_environment_gateway, require_non_empty_key_value,
  activate_gateway, set_variables,
}
use softwarecontainer.Gateways.Environment.Variables.{Grows, read_elements-Grows}
use softwarecontainer.Gateways.Files.{FileSetting, add_setting}
use softwarecontainer.Gateways.Files.Settings.{view, merge, add_setting-view}
use softwarecontainer.Gateways.Cgroups.{Numbers, Settings, cgroups_gateway}
use softwarecontainer.Gateways.Cgroups.Limits.{Raises, is_memory, read_elements-Raises}
use softwarecontainer.Gateways.Network.{generate_ip, last_address}
use softwarecontainer.Gateways.Network.Addresses.{generate_ip_distinct}
use softwarecontainer.Gateways.Sockets.{
  Host, Wayland, mount_socket, mount_wayland, activate_wayland,
}
use softwarecontainer.Tests.Values.{Value, text, nil, item, empty, field, value_jansson, counting}

-- An element of the environment gateway without a mode.
abbrev path_element : Value
path_element =
    field (bytes "name") (text (bytes "PATH")) (field (bytes "value") (text (bytes "/bin")) empty)

abbrev path_config : Value
path_config = item path_element nil

abbrev path_vars : EnvironmentVariables
path_vars = (bytes "PATH", bytes "/sbin") ∷ []

abbrev in_state : GatewayState → Gateway EnvironmentVariables
in_state state = record new_environment_gateway {
  own = record { activated_once = false; fields = path_vars };
  state = state;
}

step-Moves_example :
    let (r, (g', c')) =
      step (environment_gateway counting) (sets_config path_config) (in_state created, 0) in
    Moves created configured g'.state r
step-Moves_example =
    step-Moves (environment_gateway counting) (sets_config path_config) (in_state created) 0

activate_unconfigured_example :
    activate (environment_gateway counting {Json = Value}) (in_state created, 0)
    ≡ (throw gateway_error, (in_state created, 0))
activate_unconfigured_example =
    activate_unconfigured (environment_gateway counting {Json = Value}) (in_state created) 0
      (λ e. ground arith)

activate_succeeds :
    (activate (environment_gateway counting {Json = Value}) (in_state configured, 0)).0 ≡ ok true
unfolding activate environment_gateway activate_gateway set_variables
activate_succeeds = refl

set_config_activated_example :
    set_config (environment_gateway counting) path_config (in_state activated)
    ≡ (throw gateway_error, in_state activated)
unfolding new_gateway
set_config_activated_example =
    set_config_activated (environment_gateway counting) path_config (in_state activated) refl refl

read_elements-Grows_example : Grows (lookup (bytes "PATH") path_vars) (
    lookup
      (bytes "PATH")
      (read_elements (environment_gateway counting) (path_element ∷ []) path_vars).1)
read_elements-Grows_example =
    read_elements-Grows counting (path_element ∷ []) path_vars (bytes "PATH")

name_read : require_non_empty_key_value path_element (bytes "name") ≡ some (bytes "PATH")
unfolding require_non_empty_key_value read_string ◌==◌ is_empty
name_read = refl

value_read : require_non_empty_key_value path_element (bytes "value") ≡ some (bytes "/bin")
unfolding require_non_empty_key_value read_string ◌==◌ is_empty
value_read = refl

no_mode : has_key path_element (bytes "mode") ≡ false
unfolding has_key ◌==◌
no_mode = refl

old_path : lookup (bytes "PATH") path_vars ≡ some (bytes "/sbin")
unfolding lookup ◌==◌
old_path = refl

abbrev log_setting : Bool → FileSetting
log_setting read_only = record {
  path_in_host = bytes "/var/log";
  path_in_container = bytes "/log";
  read_only = read_only;
}

log_added : add_setting (log_setting false) (log_setting true ∷ []) ≡ some (log_setting false ∷ [])
unfolding add_setting ◌==◌
log_added = refl

add_setting-view_example : view (bytes "/log") (log_setting false ∷ []) ≡ (
    if bytes "/log" == bytes "/log"
    then merge (log_setting false) (view (bytes "/log") (log_setting true ∷ []))
    else view (bytes "/log") (log_setting true ∷ []))
add_setting-view_example =
    add_setting-view (log_setting false) (log_setting true ∷ []) (log_setting false ∷ [])
      (bytes "/log") log_added

-- Numbers that are one digit long.
abbrev digit : Bytes → Result ℤ
digit (c ∷ []) = ok (pos (c - 48))
digit _ = throw invalid_argument

abbrev digits : Numbers
digits = record {
  strtoll = λ s. pos 5;
  is_erange = λ s. false;
  stoll = digit;
  stoi = digit;
  strtoul = λ s. (0, s);
  to_string = λ n. bytes "5";
}

abbrev limit_key : Bytes
limit_key = bytes "memory.limit_in_bytes"

abbrev limit_element : Value
limit_element =
    field (bytes "setting") (text limit_key) (field (bytes "value") (text (bytes "3")) empty)

abbrev limits : Settings
limits = (limit_key, bytes "7") ∷ []

limit_is_memory : is_memory limit_key ≡ true
unfolding ◌==◌
limit_is_memory = refl

read_elements-Raises_example : Raises digit (lookup limit_key limits) (
    lookup limit_key
      (read_elements (cgroups_gateway counting digits) (limit_element ∷ []) limits).1)
read_elements-Raises_example =
    read_elements-Raises digits counting (limit_element ∷ []) limits limit_key limit_is_memory

-- 10.0.3.1, as inet_pton reads it.
abbrev pton : Bytes → Option ℕ
pton s = some 167773953

generated : generate_ip pton 24 (bytes "10.0.3.1") 4 ≡ ok 167773958
unfolding generate_ip last_address
generated = refl

generate_ip_distinct_example : ◌≡◌ {A = ℕ} 4 4
generate_ip_distinct_example =
    generate_ip_distinct pton 24 (bytes "10.0.3.1") 4 4 167773953 167773958 refl (ground arith)
      (ground arith) generated generated

-- A host with a Wayland display.
abbrev desktop : Host
desktop = record {
  getenv = λ name. some (bytes "wayland-0");
  build_filename = λ a b. a ++ (bytes "/" ++ b);
  dirname = λ path. bytes "/gateways";
}

abbrev enabled_wayland : Own Wayland
enabled_wayland = record {
  activated_once = false;
  fields = record { enabled = true; activated_once = false };
}

wayland_mounted : (activate_wayland desktop counting (enabled_wayland, 0)).0 ≡ ok true
unfolding activate_wayland mount_wayland mount_socket is_empty
wayland_mounted = refl
