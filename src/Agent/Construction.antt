-- ===== src/Agent/Construction.antt =====
-- agent/src/softwarecontaineragent.cpp, the constructor: the values of the configuration, the
-- stores of the service manifests, and the clearing of what an earlier run has left.
use softwarecontainer.Common.{ℕ, Option, List}
use softwarecontainer.Common.Bytes.{Bytes}
use softwarecontainer.Common.Int.{to_uint32}
use softwarecontainer.Common.Throwing.{M, Result, ok, throw, ◌>>=◌, ◌>>◌, pure}
use softwarecontainer.Json.{Jansson}
use softwarecontainer.OperatingSystem.{Os}
use softwarecontainer.Lxc.{Lxc}
use softwarecontainer.FileToolkit.{Toolkit}
use softwarecontainer.Config.{ConfigItem, Config, get_config}
use softwarecontainer.Config.Definition.{
  group_name, shutdown_timeout_key, shared_mounts_dir_key, lxc_config_path_key, create_bridge_key,
  bridge_device_key, bridge_ip_key, bridge_netmask_key, bridge_netmask_bitlength_key,
  bridge_netaddr_key, service_manifest_dir_key, default_service_manifest_dir_key,
}
use softwarecontainer.ContainerOptions.{SoftwareContainerConfig}
use softwarecontainer.Capabilities.Loading.{ManifestFiles, new_config_store}
use softwarecontainer.ContainerUtility.{remove_old_containers, check_workspace}
use softwarecontainer.Agent.{Agent, new_agent}

abbrev value_of : {V : Type 0} → Result (ConfigItem V) → Result V
value_of (ok item) = ok item.value
value_of (throw e) = throw e

-- `getStringValue`, `getIntValue` and `getBoolValue`
unfoldable pub get_value : {V : Type 0} → Bytes → List (ConfigItem V) → Result V
get_value key items = value_of (get_config group_name key items)

-- `new_config_store` without its parts after an exception.
abbrev made : {S A : Type 0} → Result (Unit {0}) × A → M S A
made (ok _, store) s = (ok store, s)
made (throw e, store) s = (throw e, s)

abbrev lift : {S A : Type 0} → Result A → M S A
lift r s = (r, s)

-- `fresh` is what a new SoftwareContainerConfig holds where its constructor sets nothing.
unfoldable pub read_container_config :
    {S : Type 0} → SoftwareContainerConfig → Config → M S SoftwareContainerConfig
read_container_config fresh config = do
  shutdown_timeout ← lift (get_value shutdown_timeout_key config.int_configs)
  shared_mounts_dir ← lift (get_value shared_mounts_dir_key config.string_configs)
  lxc_config_path ← lift (get_value lxc_config_path_key config.string_configs)
  create_bridge ← lift (get_value create_bridge_key config.bool_configs)
  bridge_device ← lift (get_value bridge_device_key config.string_configs)
  bridge_ip ← lift (get_value bridge_ip_key config.string_configs)
  bridge_netmask ← lift (get_value bridge_netmask_key config.string_configs)
  bridge_netmask_bits ← lift (get_value bridge_netmask_bitlength_key config.int_configs)
  bridge_net_addr ← lift (get_value bridge_netaddr_key config.string_configs)
  pure (record fresh {
    should_create_bridge = create_bridge;
    bridge_device = bridge_device;
    bridge_ip_address = bridge_ip;
    bridge_netmask = bridge_netmask;
    bridge_netmask_bit_length = bridge_netmask_bits;
    bridge_net_addr = bridge_net_addr;
    container_config_path = lxc_config_path;
    shared_mounts_dir = shared_mounts_dir;
    container_shutdown_timeout = to_uint32 shutdown_timeout;
  })

-- A call on the system alone.
abbrev on_system : {S A : Type 0} → M S A → M (Toolkit × S) A
on_system m (tk, s) = let (r, s') = m s in (r, (tk, s'))

module _ {S H Json SC : Type 0} ⦃j : Jansson Json⦄ (os : Os S) (lxc : Lxc S H)
    (list : Bytes → S → Option (List (Bytes × H)) × S) (manifests : ManifestFiles Json) where
  -- `fresh_size` is the size in a new DynamicContainerOptions, which is not initialised.
  unfoldable pub construct_agent :
      ℕ → SoftwareContainerConfig → Config → M (Toolkit × S) (Agent Json SC)
  construct_agent fresh_size fresh config = do
    container_config ← read_container_config fresh config
    manifest_dir ← lift (get_value service_manifest_dir_key config.string_configs)
    default_dir ← lift (get_value default_service_manifest_dir_key config.string_configs)
    filtered_store ← made (new_config_store manifests manifest_dir)
    default_store ← made (new_config_store manifests default_dir)
    on_system (remove_old_containers lxc list)
    check_workspace os (get_value shared_mounts_dir_key config.string_configs)
    pure (new_agent fresh_size container_config default_store filtered_store)
