-- ===== src/SoftwareContainer/Preparation.antt =====
-- libsoftwarecontainer/src/softwarecontainer.cpp, the constructor with ENABLE_NETWORKGATEWAY: the
-- root of the container, its write buffer and the network, before the container is made.
use softwarecontainer.Common.{ℕ, Option, none, some, List, [], ◌∷◌, ◌++◌, if◌then◌else◌}
use softwarecontainer.Common.Bytes.{Bytes, bytes}
use softwarecontainer.Common.Int.{ℤ, pos, eqb_ℤ}
use softwarecontainer.Common.Throwing.{M, Result, ok, throw, ◌>>◌, pure, software_container_error}
use softwarecontainer.OperatingSystem.{Os}
use softwarecontainer.FileToolkit.{Toolkit, tmpfs_mount}
use softwarecontainer.ContainerOptions.{SoftwareContainerConfig}
use softwarecontainer.ContainerUtility.{ensure_directory}

-- `std::to_string`, and Glib::spawn_sync: the code that the program returns, no value for an
-- exception.
pub record Shell (S : Type 0) : Type 0 where
  pub to_string : ℤ → Bytes
  pub install_bindir : Bytes
  pub spawn_sync : List Bytes → S → Option ℤ × S

abbrev pub default_tmpfs_size : ℕ
default_tmpfs_size = 100485760

unfoldable pub tmpfs_size : SoftwareContainerConfig → ℕ
tmpfs_size config =
    if config.temporary_file_system_write_buffer_enableds
    then config.temporary_file_system_size
    else default_tmpfs_size

module _ {S : Type 0} (os : Os S) (shell : Shell S) where
  unfoldable pub container_name : ℕ → Bytes
  container_name id = bytes "SC-" ++ shell.to_string (pos id)

  -- `argv` of `checkNetworkSettings`
  unfoldable pub setup_arguments : SoftwareContainerConfig → List Bytes
  setup_arguments config =
      os.build_path shell.install_bindir (bytes "setup_softwarecontainer.sh")
      ∷ config.bridge_device
      ∷ (if config.should_create_bridge
          then config.bridge_ip_address
            ∷ config.bridge_netmask
            ∷ shell.to_string config.bridge_netmask_bit_length
            ∷ config.bridge_net_addr
            ∷ []
          else [])

  abbrev pub returned : Option ℤ → Result (Unit {0})
  returned none = throw software_container_error
  returned (some code) = if eqb_ℤ code (pos 0) then ok tt else throw software_container_error

  unfoldable pub check_network_settings : SoftwareContainerConfig → M (Toolkit × S) (Unit {0})
  check_network_settings config (tk, s) =
      let (code, s') = shell.spawn_sync (setup_arguments config) s in (returned code, (tk, s'))

  -- The result of `tmpfsMount` is not used; an exception of it is.
  unfoldable pub mount_write_buffer : Bytes → SoftwareContainerConfig → M (Toolkit × S) (Unit {0})
  mount_write_buffer root config =
      if config.write_buffer_enabled
      then (tmpfs_mount os root (shell.to_string (pos (tmpfs_size config))) >> pure tt)
      else pure tt

  -- `checkContainerRoot`, whose test for an empty directory changes nothing but the log, and what
  -- follows it in the constructor, as far as the network. The value is the root.
  unfoldable pub prepare : ℕ → SoftwareContainerConfig → M (Toolkit × S) Bytes
  prepare id config =
      let root = os.build_path config.shared_mounts_dir (container_name id) in
      ensure_directory os root
      >> mount_write_buffer root config
      >> check_network_settings config
      >> pure root
