-- ===== src/Config/Definition.antt =====
-- agent/src/config/configdefinition.cpp: which configurations there are, with ENABLE_NETWORKGATEWAY.
use softwarecontainer.Common.{Bool, false, Option, none, some, List, [], ◌∷◌, if◌then◌else◌}
use softwarecontainer.Common.Bytes.{Bytes, bytes}
use softwarecontainer.Common.Int.{ℤ, negsuc}
use softwarecontainer.Config.{UniqueKey, same_key}

pub data ConfigType : Type 0 where
  string integer boolean : ConfigType

abbrev pub group_name : Bytes
group_name = bytes "SoftwareContainer"

abbrev pub use_session_bus_key : Bytes
use_session_bus_key = bytes "use-session-bus"

abbrev pub shutdown_timeout_key : Bytes
shutdown_timeout_key = bytes "shutdown-timeout"

abbrev pub shared_mounts_dir_key : Bytes
shared_mounts_dir_key = bytes "shared-mounts-dir"

abbrev pub lxc_config_path_key : Bytes
lxc_config_path_key = bytes "deprecated-lxc-config-path"

abbrev pub service_manifest_dir_key : Bytes
service_manifest_dir_key = bytes "service-manifest-dir"

abbrev pub default_service_manifest_dir_key : Bytes
default_service_manifest_dir_key = bytes "default-service-manifest-dir"

abbrev pub create_bridge_key : Bytes
create_bridge_key = bytes "create-bridge"

abbrev pub bridge_device_key : Bytes
bridge_device_key = bytes "bridge-device"

abbrev pub bridge_ip_key : Bytes
bridge_ip_key = bytes "bridge-ip"

abbrev pub bridge_netaddr_key : Bytes
bridge_netaddr_key = bytes "bridge-netaddr"

abbrev pub bridge_netmask_key : Bytes
bridge_netmask_key = bytes "bridge-netmask"

abbrev pub bridge_netmask_bitlength_key : Bytes
bridge_netmask_bitlength_key = bytes "bridge-netmask-bitlength"

-- The initial value of the option for the timeout; that of the texts is empty, and that of the
-- session bus is false.
abbrev pub shutdown_timeout_initial_value : ℤ
shutdown_timeout_initial_value = negsuc 1

-- What the build sets: which configurations of the bridge are mandatory, and the defaults.
pub record Build : Type 0 where
  pub create_bridge_mandatory : Bool
  pub bridge_device_mandatory : Bool
  pub bridge_ip_mandatory : Bool
  pub bridge_netmask_bitlength_mandatory : Bool
  pub bridge_netmask_mandatory : Bool
  pub bridge_netaddr_mandatory : Bool
  pub config_file : Bytes
  pub shared_mounts_dir : Bytes
  pub lxc_config_path : Bytes
  pub service_manifest_dir : Bytes
  pub default_service_manifest_dir : Bytes
  pub shutdown_timeout : ℤ
  pub use_session_bus : Bool

pub record Definition : Type 0 where
  pub key : Bytes
  pub type : ConfigType
  pub mandatory : Bool

abbrev pub optional : Bytes → ConfigType → Definition
optional key type = record { key = key; type = type; mandatory = false }

-- CONFIGS, all of one group.
unfoldable pub configs : Build → List Definition
configs build =
    record { key = create_bridge_key; type = boolean; mandatory = build.create_bridge_mandatory }
    ∷ record { key = bridge_device_key; type = string; mandatory = build.bridge_device_mandatory }
    ∷ record { key = bridge_ip_key; type = string; mandatory = build.bridge_ip_mandatory }
    ∷ record {
      key = bridge_netmask_bitlength_key;
      type = integer;
      mandatory = build.bridge_netmask_bitlength_mandatory;
    }
    ∷ record { key = bridge_netmask_key; type = string; mandatory = build.bridge_netmask_mandatory }
    ∷ record { key = bridge_netaddr_key; type = string; mandatory = build.bridge_netaddr_mandatory }
    ∷ optional use_session_bus_key boolean
    ∷ optional shutdown_timeout_key integer
    ∷ optional shared_mounts_dir_key string
    ∷ optional lxc_config_path_key string
    ∷ optional service_manifest_dir_key string
    ∷ optional default_service_manifest_dir_key string
    ∷ []

-- The loop of `mandatory`.
unfoldable pub mandatory_of : List Definition → List UniqueKey
mandatory_of [] = []
mandatory_of (config ∷ rest) =
    let keys = mandatory_of rest in
    if config.mandatory then (group_name, config.key) ∷ keys else keys

unfoldable pub mandatory_configs : Build → List UniqueKey
mandatory_configs build = mandatory_of (configs build)

-- A TypeMap as the pairs that were assigned, the last one first.
abbrev pub TypeMap : Type 0
TypeMap = List (UniqueKey × ConfigType)

-- `at`: no value stands for the exception.
unfoldable pub type_at : UniqueKey → TypeMap → Option ConfigType
type_at key [] = none
type_at key ((k, type) ∷ rest) = if same_key k key then some type else type_at key rest

-- The loop of `typeMap`.
unfoldable pub types_from : List Definition → TypeMap → TypeMap
types_from [] types = types
types_from (config ∷ rest) types = types_from rest (((group_name, config.key), config.type) ∷ types)

unfoldable pub type_map : Build → TypeMap
type_map build = types_from (configs build) []
