-- ===== src/Gateways/Sockets.antt =====
-- gateway/waylandgateway.cpp and gateway/pulsegateway.cpp: sockets of the host in the container.
-- GLib and dirname are the record `Host`.
pub mod Enabling
use softwarecontainer.Common.{
  Bool, true, false, Option, none, some, List, [], ◌∷◌, ◌++◌, ◌||◌, not, if◌then◌else◌,
}
use softwarecontainer.Common.Bytes.{Bytes, bytes, is_empty}
use softwarecontainer.Common.Throwing.{M, Result, ok, throw, pure, ◌>>=◌, after}
use softwarecontainer.Json.{Jansson, read_bool}
use softwarecontainer.ContainerInterface.{ContainerInterface}
use softwarecontainer.Gateway.{Own, Gateway, GatewayMethods, new_gateway}

pub record Host : Type 0 where
  -- Glib::getenv: no value stands for a variable that is not defined.
  pub getenv : Bytes → Option Bytes
  pub build_filename : Bytes → Bytes → Bytes
  pub dirname : Bytes → Bytes

-- Glib::getenv without the flag gives an empty string for a variable that is not defined.
abbrev pub or_empty : Option Bytes → Bytes
or_empty none = []
or_empty (some s) = s

-- `if (!flag) { flag = value; }`
abbrev pub enable : Bool → Bool → Bool
enable flag value = if not flag then value else flag

-- WaylandGateway has a member m_activatedOnce of its own, beside that of the base class.
pub record Wayland : Type 0 where
  pub enabled : Bool
  pub activated_once : Bool

module _ {Json : Type 0} ⦃j : Jansson Json⦄ where
  unfoldable pub read_wayland_element : Json → M Wayland Bool
  read_wayland_element element wayland =
      let (found, value) = read_bool element (bytes "enabled") false in
      if not found
      then (ok false, wayland)
      else (ok true, record wayland { enabled = enable wayland.enabled value })

  unfoldable pub read_pulse_element : Json → M Bool Bool
  read_pulse_element element enable_audio =
      let (found, value) = read_bool element (bytes "audio") false in
      if not found then (ok false, enable_audio) else (ok true, enable enable_audio value)

module _ {C : Type 0} (host : Host) (container : ContainerInterface C) where
  -- The bind mount of a socket, and the variable that names it; what the latter returns is ignored.
  unfoldable pub mount_socket : Bytes → Bytes → Bytes → Bytes → M C Bool
  mount_socket path_in_host path_in_container variable value = do
    done ← container.bind_mount_in_container path_in_host path_in_container false
    λ c. elim done [
      | false ↦ (ok false, c)
      | true ↦ (do set ← container.set_environment_variable variable value; pure true) c
    ]

  -- The part of `activateGateway` for a gateway that is enabled for the first time.
  unfoldable pub mount_wayland : M C Bool
  mount_wayland c =
      let socket = or_empty (host.getenv (bytes "WAYLAND_DISPLAY")) in
      let path_in_container = host.build_filename (bytes "/gateways") socket in
      if is_empty socket then (ok false, c) else elim (host.getenv (bytes "XDG_RUNTIME_DIR")) [
        | none ↦ (ok false, c)
        | some dir ↦
            mount_socket (host.build_filename dir socket) path_in_container
              (bytes "XDG_RUNTIME_DIR") (host.dirname path_in_container) c
      ]

  abbrev pub mark : Own Wayland → Result Bool × C → Result Bool × (Own Wayland × C)
  mark own (ok true, c) = (
    ok true,
    (record own { fields = record { enabled = own.fields.enabled; activated_once = true } }, c),
  )
  mark own (r, c) = (r, (own, c))

  unfoldable pub activate_wayland : M (Own Wayland × C) Bool
  activate_wayland (own, c) =
      if not own.fields.enabled
      then (ok true, (own, c))
      else if own.fields.activated_once
      then (ok true, (own, c))
      else mark own (mount_wayland c)

  unfoldable pub enable_pulse_audio : M C Bool
  enable_pulse_audio c =
      let path_in_container = host.build_filename (bytes "/gateways/") (bytes "pulse_socket") in
      elim (host.getenv (bytes "PULSE_SERVER")) [
        | none ↦ (ok false, c)
        | some dir ↦
            mount_socket dir path_in_container (bytes "PULSE_SERVER")
              (bytes "unix:" ++ path_in_container) c
      ]

  unfoldable pub activate_pulse : M (Own Bool × C) Bool
  activate_pulse (own, c) =
      if not own.fields
      then (ok true, (own, c))
      else let (r, c') = enable_pulse_audio c in (r, (own, c'))

  unfoldable pub wayland_gateway :
      {Json : Type 0} ⦃j : Jansson Json⦄ → GatewayMethods Json C Wayland
  wayland_gateway = record {
    read_config_element = read_wayland_element;
    activate_gateway = activate_wayland;
    teardown_gateway = pure true;
  }

  unfoldable pub pulse_gateway : {Json : Type 0} ⦃j : Jansson Json⦄ → GatewayMethods Json C Bool
  pulse_gateway = record {
    read_config_element = read_pulse_element;
    activate_gateway = activate_pulse;
    teardown_gateway = pure true;
  }

abbrev pub new_wayland_gateway : Gateway Wayland
new_wayland_gateway =
    new_gateway (bytes "wayland") true (record { enabled = false; activated_once = false })

abbrev pub new_pulse_gateway : Gateway Bool
new_pulse_gateway = new_gateway (bytes "pulseaudio") false false
