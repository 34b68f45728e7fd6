-- ===== src/Gateways/DBus/Proxy.antt =====
-- gateway/dbus/dbusgatewayinstance.{h,cpp} and dbusgatewayparser.cpp: the proxy of one bus.
use softwarecontainer.Common.{
  ℕ, zero, suc, ◌==◌, Bool, true, false, not, Option, none, some, List, [], ◌∷◌, ◌++◌,
  if◌then◌else◌, length,
}
use softwarecontainer.Common.Bytes.{Bytes, bytes}
use softwarecontainer.Common.Int.{ℤ, negsuc, eqb_ℤ}
use softwarecontainer.Common.Throwing.{M, ok, throw, continue, gateway_parser_error, undefined}
use softwarecontainer.Json.{Jansson}
use softwarecontainer.ContainerInterface.{ContainerInterface}
use softwarecontainer.Gateway.{Own, GatewayMethods}

pub data ProxyType : Type 0 where
  session_proxy system_proxy : ProxyType

abbrev pub if_session {ℓ} : {A : Type ℓ} → ProxyType → A → A → A
if_session session_proxy a b = a
if_session system_proxy a b = b

-- `typeStr`
abbrev pub type_str : ProxyType → Bytes
type_str bus =
    if_session bus (bytes "dbus-gateway-config-session") (bytes "dbus-gateway-config-system")

-- What a gateway asks of the host: no code of the repository. A `usleep`, `access`, Glib::getenv,
-- Glib::spawn_async_with_pipes (the pid and the pipe), `write` (the number of bytes written, if
-- any), `kill` with `waitpid`, `unlink`, `close`.
pub record Host (C : Type 0) : Type 0 where
  pub sleep : C → C
  pub access : Bytes → C → Bool
  pub getenv : Bytes → C → Option Bytes
  pub spawn : List Bytes → List Bytes → C → Option (ℤ × ℤ) × C
  pub write : ℤ → Bytes → C → Option ℕ × C
  pub kill_and_wait : ℤ → C → C
  pub unlink : Bytes → C → Bool × C
  pub close : ℤ → C → C

-- `m_entireConfig` is an object that holds `m_busConfig`: what counts is whether it is there.
-- `socket` and `socket_name` are fixed by the constructor.
pub record Instance (Json : Type 0) : Type 0 where
  pub socket : Bytes
  pub socket_name : Bytes
  pub entire_config : Bool
  pub bus_config : Json
  pub pid : ℤ
  pub proxy_stdin : ℤ

-- The constructor: the socket is in `gateway_dir`, by Glib::build_filename.
abbrev pub new_instance :
    {Json : Type 0} → (Bytes → Bytes → Bytes) → Json → ProxyType → Bytes → Bytes → Instance Json
new_instance build_path empty_array bus gateway_dir name =
    let socket_name = if_session bus (bytes "sess_") (bytes "sys_") ++ name ++ bytes ".sock" in
    record {
      socket = build_path gateway_dir socket_name;
      socket_name = socket_name;
      entire_config = true;
      bus_config = empty_array;
      pid = negsuc 0;
      proxy_stdin = negsuc 0;
    }

module _ {Json : Type 0} ⦃j : Jansson Json⦄ where
  abbrev pub or_kept : Json → Option Json → Json
  or_kept config none = config
  or_kept config (some appended) = appended

  -- The loop of `parseDBusConfig`.
  unfoldable pub append_children : List Json → M Json Bool
  append_children [] config = (ok true, config)
  append_children (child ∷ rest) config =
      let others =
        append_children rest (or_kept config (j.array_append config (j.deep_copy child))) in
      if not (j.is_object child) then (throw gateway_parser_error, config) else others

  abbrev pub parse_value : Option Json → M Json Bool
  parse_value none config = (ok false, config)
  parse_value (some value) config =
      if not (j.is_array value)
      then (throw gateway_parser_error, config)
      else append_children (j.elements value) config

  unfoldable pub parse_dbus_config : Json → Bytes → M Json Bool
  parse_dbus_config element key config = parse_value (j.object_get element key) config

  unfoldable pub read_config_element : ProxyType → Json → M (Instance Json) Bool
  read_config_element bus element i =
      let (r, config) = parse_dbus_config element (type_str bus) i.bus_config in
      (r, record i { bus_config = config })

-- The loop of `isSocketCreated`, with what is left of its 1000 turns.
module _ {C : Type 0} (host : Host C) where
  unfoldable pub wait_for_socket : ℕ → Bytes → C → Bool × C
  wait_for_socket zero socket c = (false, c)
  wait_for_socket (suc turns) socket c =
      let rest = wait_for_socket turns socket (host.sleep c) in
      if host.access socket (host.sleep c) then (true, host.sleep c) else rest

  unfoldable pub is_socket_created : Bytes → C → Bool × C
  is_socket_created socket c = wait_for_socket 1000 socket c

  unfoldable pub test_dbus_connection : {Json : Type 0} → Instance Json → Bytes → M C Bool
  test_dbus_connection i configuration c =
      let config = configuration ++ (10 ∷ []) in
      let (written, c') = host.write i.proxy_stdin config c in
      let (found, c'') = is_socket_created i.socket c' in
      elim written [
        | none ↦ (ok false, c')
        | some count ↦ if count == length config then (ok found, c'') else (ok false, c')
      ]

  unfoldable pub start_dbus_proxy :
      {Json : Type 0} → List Bytes → List Bytes → M (Own (Instance Json) × C) Bool
  start_dbus_proxy command env (o, c) =
      let (spawned, c') = host.spawn command env c in
      elim spawned [
        | none ↦ (ok false, (o, c'))
        | some (pid, pipe) ↦ (
          ok true,
          (
            record {
              activated_once = true;
              fields = record (o.fields) { pid = pid; proxy_stdin = pipe };
            },
            c',
          ),
        )
      ]

  unfoldable pub teardown_gateway : {Json : Type 0} → M (Own (Instance Json) × C) Bool
  teardown_gateway (o, c) =
      let i = o.fields in
      let c1 = if eqb_ℤ i.pid (negsuc 0) then c else host.kill_and_wait i.pid c in
      let (removed, c2) = host.unlink i.socket c1 in
      let there = host.access i.socket c1 in
      (
        ok (if there then removed else true),
        (
          record o { fields = record i { entire_config = false } },
          host.close i.proxy_stdin (if there then c2 else c1),
        ),
      )

-- `dumps` gives the compact text of the configuration: of the array under the name of the bus.
module _ {Json C : Type 0} ⦃j : Jansson Json⦄ (container : ContainerInterface C) (host : Host C)
    (build_path : Bytes → Bytes → Bytes) (dumps : ProxyType → Json → Bytes) where
  abbrev pub bus_variable : ProxyType → Bytes
  bus_variable bus =
      bytes "DBUS_" ++ if_session bus (bytes "SESSION") (bytes "SYSTEM") ++ bytes "_BUS_ADDRESS"

  abbrev pub proxy_command : ProxyType → Bytes → List Bytes
  proxy_command bus socket =
      bytes "dbus-proxy" ∷ socket ∷ if_session bus (bytes "session") (bytes "system") ∷ []

  -- The variable of the host that names the real bus: a session bus has to have it.
  unfoldable pub start_with : ProxyType → Option Bytes → M (Own (Instance Json) × C) Bool
  start_with bus none (o, c) =
      if_session bus (ok false, (o, c))
        (start_dbus_proxy host (proxy_command bus o.fields.socket) [] (o, c))
  start_with bus (some value) (o, c) =
      start_dbus_proxy host (proxy_command bus o.fields.socket)
        ((bus_variable bus ++ bytes "=" ++ value) ∷ []) (o, c)

  -- The first activation: the variable in the container, whose result is not used, and the proxy.
  unfoldable pub start_proxy : ProxyType → M (Own (Instance Json) × C) Bool
  start_proxy bus (o, c) =
      let (r, c') =
        container.set_environment_variable (bus_variable bus)
          (bytes "unix:path=" ++ build_path (bytes "/gateways") o.fields.socket_name) c in
      elim r [
        | throw e ↦ (throw e, (o, c'))
        | ok _ ↦ start_with bus (host.getenv (bus_variable bus) c') (o, c')
      ]

  -- The text of a null pointer is undefined.
  unfoldable pub send_config : ProxyType → M (Own (Instance Json) × C) Bool
  send_config bus (o, c) =
      let (r, c') = test_dbus_connection host o.fields (dumps bus o.fields.bus_config) c in
      if o.fields.entire_config then (r, (o, c')) else (throw undefined, (o, c))

  unfoldable pub activate_gateway : ProxyType → M (Own (Instance Json) × C) Bool
  activate_gateway bus (o, c) =
      continue (if o.activated_once then (ok true, (o, c)) else start_proxy bus (o, c))
        (send_config bus)

  unfoldable pub instance_methods : ProxyType → GatewayMethods Json C (Instance Json)
  instance_methods bus = record {
    read_config_element = read_config_element bus;
    activate_gateway = activate_gateway bus;
    teardown_gateway = teardown_gateway host;
  }
