-- ===== src/Gateways/DBus.antt =====
-- gateway/dbus/dbusgateway.cpp: the gateway of both buses. It overrides the methods of the base
-- class, and its two instances are gateways themselves.
pub mod Proxy
pub mod Polling
pub mod Buses
use softwarecontainer.Common.{Bool, true, false, ◌&&◌, ◌||◌, not, if◌then◌else◌}
use softwarecontainer.Common.Bytes.{Bytes, bytes}
use softwarecontainer.Common.Throwing.{
  M, Result, ok, throw, Error, gateway_parser_error, after, ◌>>=◌, pure,
}
use softwarecontainer.Json.{Jansson}
use softwarecontainer.ContainerInterface.{ContainerInterface}
use softwarecontainer.Gateway.{
  Gateway, GatewayMethods, set_config as set_base_config, activate as activate_base,
  teardown as teardown_base, is_configured as is_base_configured, is_activated as is_base_activated,
}
use softwarecontainer.Gateways.DBus.Proxy.{
  ProxyType, session_proxy, system_proxy, Host, Instance, instance_methods,
}

pub record DBusGateway (Json : Type 0) : Type 0 where
  pub session : Gateway (Instance Json)
  pub system : Gateway (Instance Json)

-- A GatewayParserError is caught.
abbrev pub caught : Result Bool → Result Bool
caught (ok b) = ok b
caught (throw gateway_parser_error) = ok false
caught (throw e) = throw e

module _ {Json C : Type 0} ⦃j : Jansson Json⦄ (container : ContainerInterface C) (host : Host C)
    (build_path : Bytes → Bytes → Bytes) (dumps : ProxyType → Json → Bytes) where
  abbrev pub on_session : M (Gateway (Instance Json) × C) Bool → M (DBusGateway Json × C) Bool
  on_session m (g, c) = let (r, (i, c')) = m (g.session, c) in (r, (record g { session = i }, c'))

  abbrev pub on_system : M (Gateway (Instance Json) × C) Bool → M (DBusGateway Json × C) Bool
  on_system m (g, c) = let (r, (i, c')) = m (g.system, c) in (r, (record g { system = i }, c'))

  abbrev pub session_methods : GatewayMethods Json C (Instance Json)
  session_methods = instance_methods container host build_path dumps session_proxy

  abbrev pub system_methods : GatewayMethods Json C (Instance Json)
  system_methods = instance_methods container host build_path dumps system_proxy

  -- `setConfig`: one bus at least has to use the configuration.
  unfoldable pub set_config : Json → M (DBusGateway Json) Bool
  set_config config g =
      let (r, session) = set_base_config session_methods config g.session in
      let (r', system) = set_base_config system_methods config g.system in
      elim r [
        | throw e ↦ (caught (throw e), record g { session = session })
        | ok a ↦ elim r' [
          | throw e ↦ (caught (throw e), record { session = session; system = system })
          | ok b ↦ (ok (a || b), record { session = session; system = system })
        ]
      ]

  -- The result of the system bus is stored over that of the session bus.
  unfoldable pub activate_system : Bool → M (DBusGateway Json × C) Bool
  activate_system session_result (g, c) =
      if is_base_configured g.system
      then on_system (activate_base system_methods) (g, c)
      else (ok session_result, (g, c))

  unfoldable pub activate : M (DBusGateway Json × C) Bool
  activate (g, c) =
      after
        (if is_base_configured g.session
          then on_session (activate_base session_methods) (g, c)
          else (ok false, (g, c)))
        activate_system

  unfoldable pub teardown_system : Bool → M (DBusGateway Json × C) Bool
  teardown_system session_result (g, c) =
      after
        (if is_base_activated g.system
          then on_system (teardown_base system_methods) (g, c)
          else (ok false, (g, c)))
        (λ system_result. pure (session_result || system_result))

  unfoldable pub teardown : M (DBusGateway Json × C) Bool
  teardown (g, c) =
      after
        (if is_base_activated g.session
          then on_session (teardown_base session_methods) (g, c)
          else (ok false, (g, c)))
        teardown_system

unfoldable pub is_configured : {Json : Type 0} → DBusGateway Json → Bool
is_configured g = is_base_configured g.session || is_base_configured g.system

unfoldable pub is_activated : {Json : Type 0} → DBusGateway Json → Bool
is_activated g = is_base_activated g.session || is_base_activated g.system
