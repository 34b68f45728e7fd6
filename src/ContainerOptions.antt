-- ===== src/ContainerOptions.antt =====
-- agent/src/containeroptions: the options of one container, given as a JSON string.
-- `fresh_size` stands for what the size of a new DynamicContainerOptions holds, which is not
-- initialised.
use softwarecontainer.Common.{ℕ, ◌*◌, Bool, false, none, some, List, [], ◌∷◌, not, if◌then◌else◌}
use softwarecontainer.Common.Bytes.{Bytes, bytes, is_empty}
use softwarecontainer.Common.Int.{ℤ, pos, to_uint32}
use softwarecontainer.Common.Throwing.{
  M, ok, throw, container_option_parse_error, ◌>>=◌, ◌>>◌, pure, raise_if, gets, modify,
}
use softwarecontainer.Json.{Jansson, read_bool, read_int}

-- libsoftwarecontainer/include/config/softwarecontainerconfig.h, with ENABLE_NETWORKGATEWAY.
pub record SoftwareContainerConfig : Type 0 where
  pub should_create_bridge : Bool
  pub bridge_device : Bytes
  pub bridge_ip_address : Bytes
  pub bridge_netmask : Bytes
  pub bridge_netmask_bit_length : ℤ
  pub bridge_net_addr : Bytes
  pub container_config_path : Bytes
  pub shared_mounts_dir : Bytes
  pub container_shutdown_timeout : ℕ
  pub write_buffer_enabled : Bool
  pub temporary_file_system_write_buffer_enableds : Bool
  pub temporary_file_system_size : ℕ

pub record DynamicContainerOptions : Type 0 where
  pub write_buffer_enabled : Bool
  pub temporary_file_system_write_buffer_enabled : Bool
  pub temporary_file_system_size : ℕ

abbrev pub new_options : ℕ → DynamicContainerOptions
new_options fresh_size = record {
  write_buffer_enabled = false;
  temporary_file_system_write_buffer_enabled = false;
  temporary_file_system_size = fresh_size;
}

-- `toConfig`
unfoldable pub to_config :
    DynamicContainerOptions → SoftwareContainerConfig → SoftwareContainerConfig
to_config options conf = record conf { write_buffer_enabled = options.write_buffer_enabled }

-- DEFAULT_TEMPORARY_FILESYSTEM_SIZE
abbrev default_size : ℤ
default_size = pos (100 * 1024 * 1024)

module _ {Json : Type 0} ⦃j : Jansson Json⦄ where
  -- The part of `readConfigElement` for an enabled write buffer; a missing size is only logged.
  unfoldable pub read_temporary : Json → DynamicContainerOptions → DynamicContainerOptions
  read_temporary element options =
      let (_, enabled) = read_bool element (bytes "temporaryFileSystemWriteBufferEnabled") false in
      let (_, size) = read_int element (bytes "temporaryFileSystemSize") default_size in
      let options' = record options { temporary_file_system_write_buffer_enabled = enabled } in
      if enabled then record options' { temporary_file_system_size = to_uint32 size } else options'

  unfoldable pub read_config_element : Json → M DynamicContainerOptions (Unit {0})
  read_config_element element = do
    raise_if (not (j.is_object element)) container_option_parse_error
    let (found, enabled) = read_bool element (bytes "writeBufferEnabled") false
    raise_if (not found) container_option_parse_error
    modify (λ options. record options { write_buffer_enabled = enabled })
    modify (λ options. if enabled then read_temporary element options else options)

  unfoldable pub read_config_elements : List Json → M DynamicContainerOptions (Unit {0})
  read_config_elements [] options = (ok tt, options)
  read_config_elements (element ∷ rest) options =
      (read_config_element element >> read_config_elements rest) options

module _ (Json : Type 0) ⦃j : Jansson Json⦄ (fresh_size : ℕ) where
  -- `parse`: the state is `m_options`, which is handed out and made anew.
  unfoldable pub parse : Bytes → M DynamicContainerOptions DynamicContainerOptions
  parse conf options =
      if is_empty conf then (throw container_option_parse_error, options) else elim (j.loads conf) [
        | none ↦ (throw container_option_parse_error, options)
        | some root ↦
            if not (j.is_array root)
            then (throw container_option_parse_error, options)
            else (do
              read_config_elements (j.elements root)
              parsed ← gets (λ o. o)
              modify (λ o. new_options fresh_size)
              pure parsed)
                options
      ]
