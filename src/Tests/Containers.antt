-- ===== src/Tests/Containers.antt =====
-- Runs of the theorems on SoftwareContainer.
use softwarecontainer.Common.{ℕ, ◌≡◌, ◌≢◌, refl, true, false, [], ◌∷◌, inl, Any}
use softwarecontainer.Common.Bytes.{bytes, ◌==◌, is_empty, str_lt}
use softwarecontainer.Common.OrdMap.{lookup, insert, bytes_key}
use softwarecontainer.Common.Throwing.{ok, for_each}
use softwarecontainer.Json.{read_string, read_optional_string, has_key}
use softwarecontainer.GatewayConfig.{GatewayConfiguration, config, ids}
use softwarecontainer.Gateway.{
  Gateway, new_gateway, set_config, activate, is_configured, read_elements,
}
use softwarecontainer.Gateways.Environment.{
  EnvironmentVariables, environment_gateway, new_environment_gateway, activate_gateway,
  set_variables, read_config_element, parse_environment_gateway_config_element, parse_modifiers,
  combine, require_non_empty_key_value, to_lower,
}
use softwarecontainer.SoftwareContainer.{
  GatewayInterface, SoftwareContainer, ContainerState, ready, suspended, terminated, invalid,
  start_gateways, suspend, all_known, configure_gateways, configure_gateway, activate_gateways,
}
use softwarecontainer.SoftwareContainer.States.{
  Operation, shuts_down, perform, Follows, perform-Follows,
}
use softwarecontainer.SoftwareContainer.Restart.{base_gateway, Omitted, start_gateways_again}
use softwarecontainer.Tests.Values.{Value, text, nil, item, empty, field, value_jansson, counting}

abbrev gateway : GatewayInterface Value ℕ (Gateway EnvironmentVariables)
gateway = base_gateway (environment_gateway counting)

abbrev in_state : ContainerState → SoftwareContainer (Gateway EnvironmentVariables) ℕ
in_state state = record {
  state = state;
  notified = state ∷ [];
  gateways = new_environment_gateway ∷ [];
  container = 0;
  previously_configured = false;
  shutdown_timeout = 2;
}

perform-Follows_example :
    let op : Operation Value = shuts_down 3 in
    let (r, s') = perform gateway counting op (in_state suspended) in
    Follows op suspended r s'.state
perform-Follows_example = perform-Follows gateway counting (shuts_down 3) (in_state suspended)

abbrev dbus_conf : GatewayConfiguration Value
dbus_conf = (bytes "dbus", nil) ∷ []

dbus_unknown : all_known gateway (ids dbus_conf) (in_state ready).gateways ≡ false
unfolding all_known new_gateway ◌==◌
dbus_unknown = refl

abbrev path_conf : GatewayConfiguration Value
path_conf =
    (
      bytes "env",
      item
          (field (bytes "name") (text (bytes "PATH"))
            (field (bytes "value") (text (bytes "/bin")) empty))
          nil,
    )
    ∷ []

-- After a start, the environment gateway stands as activated, and an empty configuration omits it.
abbrev nothing : GatewayConfiguration Value
nothing = []

started : (start_gateways gateway path_conf (in_state ready)).0 ≡ ok true
unfolding start_gateways configure_gateways configure_gateway all_known activate_gateways
    softwarecontainer.SoftwareContainer.activate_gateway for_each config lookup new_gateway
    set_config activate is_configured read_elements environment_gateway activate_gateway
    set_variables read_config_element parse_environment_gateway_config_element parse_modifiers
    combine require_non_empty_key_value read_string read_optional_string has_key to_lower insert
    ◌==◌ is_empty str_lt
started = refl

omitted :
    Any
      (Omitted (environment_gateway counting) nothing)
      (start_gateways gateway path_conf (in_state ready)).1.gateways
unfolding start_gateways configure_gateways configure_gateway all_known activate_gateways
    softwarecontainer.SoftwareContainer.activate_gateway for_each config lookup new_gateway
    set_config activate is_configured read_elements environment_gateway activate_gateway
    set_variables read_config_element parse_environment_gateway_config_element parse_modifiers
    combine require_non_empty_key_value read_string read_optional_string has_key to_lower insert
    ◌==◌ is_empty str_lt
omitted = inl (refl, refl)

start_gateways_again_example :
    (start_gateways gateway nothing (start_gateways gateway path_conf (in_state ready)).1).0
    ≢ ok true
start_gateways_again_example =
    start_gateways_again (environment_gateway counting) path_conf nothing (in_state ready) started
      omitted
