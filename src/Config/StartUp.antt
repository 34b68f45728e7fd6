-- ===== src/Config/StartUp.antt =====
-- agent/src/main.cpp, commandlineconfigsource.cpp and defaultconfigsource.cpp: the configuration
-- with which the agent starts.
use softwarecontainer.Common.{◌==◌, Bool, Option, List, [], ◌∷◌, ◌++◌, if◌then◌else◌}
use softwarecontainer.Common.Bytes.{Bytes, is_empty}
use softwarecontainer.Common.Int.{ℤ, eqb_ℤ}
use softwarecontainer.Common.Throwing.{Result, ok, throw}
use softwarecontainer.Config.{
  ConfigSourceType, commandline, default, ConfigItem, ConfigSource, Config, new_config,
}
use softwarecontainer.Config.Definition.{
  Build, group_name, use_session_bus_key, shutdown_timeout_key, shared_mounts_dir_key,
  lxc_config_path_key, service_manifest_dir_key, default_service_manifest_dir_key,
  shutdown_timeout_initial_value, mandatory_configs, type_map,
}
use softwarecontainer.Config.MainSource.{KeyFile, new_main_source}

-- What the options hold after Glib::OptionContext has parsed the command line.
pub record Options : Type 0 where
  pub config_path : Bytes
  pub timeout : ℤ
  pub service_manifest_dir : Bytes
  pub default_service_manifest_dir : Bytes
  pub use_session_bus : Bool

abbrev pub item : {V : Type 0} → ConfigSourceType → Bytes → V → ConfigItem V
item source key value = record { group = group_name; key = key; source = source; value = value }

-- `if ('/' != dir.back()) dir.push_back('/')`, for a text that is not empty.
unfoldable pub with_slash : Bytes → Bytes
with_slash [] = []
with_slash (b ∷ []) = if b == b'/' then b ∷ [] else b ∷ b'/' ∷ []
with_slash (b ∷ c ∷ rest) = b ∷ with_slash (c ∷ rest)

abbrev pub dir_config : Bytes → Bytes → List (ConfigItem Bytes)
dir_config key dir = if is_empty dir then [] else item commandline key (with_slash dir) ∷ []

-- The vectors that `main` fills, and CommandlineConfigSource, which sets their source.
unfoldable pub commandline_source : Options → ConfigSource
commandline_source options = record {
  string_configs =
      dir_config service_manifest_dir_key options.service_manifest_dir
      ++ dir_config default_service_manifest_dir_key options.default_service_manifest_dir;
  int_configs =
      if eqb_ℤ options.timeout shutdown_timeout_initial_value
      then []
      else item commandline shutdown_timeout_key options.timeout ∷ [];
  bool_configs =
      if options.use_session_bus
      then item commandline use_session_bus_key options.use_session_bus ∷ []
      else [];
}

-- `DefaultConfigSource::DefaultConfigSource`
unfoldable pub default_source : Build → ConfigSource
default_source build = record {
  string_configs =
      item default shared_mounts_dir_key build.shared_mounts_dir
      ∷ item default lxc_config_path_key build.lxc_config_path
      ∷ item default service_manifest_dir_key build.service_manifest_dir
      ∷ item default default_service_manifest_dir_key build.default_service_manifest_dir
      ∷ [];
  int_configs = item default shutdown_timeout_key build.shutdown_timeout ∷ [];
  bool_configs = item default use_session_bus_key build.use_session_bus ∷ [];
}

unfoldable pub config_file_location : Build → Options → Bytes
config_file_location build options =
    if is_empty options.config_path then build.config_file else options.config_path

abbrev pub config_with : Build → Options → Result ConfigSource → Result Config
config_with build options (throw e) = throw e
config_with build options (ok main_source) =
    new_config (commandline_source options ∷ main_source ∷ default_source build ∷ [])
      (mandatory_configs build) []

-- The configuration of `main`. `load` stands for FileConfigLoader: it gives the key file at a
-- path, and no value for a Glib::Error.
unfoldable pub start_config : Build → (Bytes → Option KeyFile) → Options → Result Config
start_config build load options =
    config_with build options
      (new_main_source (load (config_file_location build options)) (type_map build))
