-- ===== src/Tests/StartUps.antt =====
-- Runs of the theorems on the start of the agent: its configuration and its service manifests.
use softwarecontainer.Common.{
  ◌≡◌, refl, ◌++◌, true, false, Option, none, some, [], ◌∷◌, if◌then◌else◌, arith,
}
use softwarecontainer.Common.Bytes.{Bytes, bytes, ◌==◌, is_empty}
use softwarecontainer.Common.Int.{pos, negsuc}
use softwarecontainer.Common.OrdMap.{lookup, insert, bytes_key}
use softwarecontainer.Common.Throwing.{ok, throw, service_manifest_path_error}
use softwarecontainer.FileStatus.{
  Mode, directory, regular, is_directory, is_directory_empty, count_entries,
}
use softwarecontainer.Capabilities.Loading.{
  ManifestFiles, is_json_file, json_files, file_list, load_service_manifest_file, load_files,
  load_service_manifest_dir, load_content,
}
use softwarecontainer.Capabilities.Manifests.{
  Loaded, load_content-Loaded, manifest_file_option_fails,
}
use softwarecontainer.Config.{
  ConfigSource, Config, main, read_configs_from_sources, assert_dependencies,
  assert_all_mandatory_present, new_config, get_config,
}
use softwarecontainer.Config.Precedence.{first_of}
use softwarecontainer.Config.Definition.{
  Build, group_name, shutdown_timeout_key, type_map, configs, types_from, type_at,
  mandatory_configs, mandatory_of,
}
use softwarecontainer.Config.MainSource.{
  KeyFile, push_key, push_keys, read_groups, read_loaded_config, create, create_keys,
  create_config_items, new_main_source,
}
use softwarecontainer.Config.StartUp.{
  Options, item, with_slash, commandline_source, default_source, start_config,
}
use softwarecontainer.Config.Origins.{Typed, new_main_source-Typed}
use softwarecontainer.Config.Choice.{first_named, start_config-first_of}
use softwarecontainer.Tests.Values.{Value, empty, value_jansson}

-- A main file with a timeout of 7.
abbrev file : KeyFile
file = record {
  get_groups = some (group_name ∷ []);
  get_keys = λ group. some (shutdown_timeout_key ∷ []);
  get_string = λ group key. none;
  get_integer = λ group key. some (pos 7);
  get_boolean = λ group key. none;
}

abbrev build : Build
build = record {
  create_bridge_mandatory = false;
  bridge_device_mandatory = false;
  bridge_ip_mandatory = false;
  bridge_netmask_bitlength_mandatory = false;
  bridge_netmask_mandatory = false;
  bridge_netaddr_mandatory = false;
  config_file = bytes "/etc/sc.conf";
  shared_mounts_dir = bytes "/tmp/container";
  lxc_config_path = bytes "/etc/lxc";
  service_manifest_dir = bytes "/var/manifests";
  default_service_manifest_dir = bytes "/usr/manifests";
  shutdown_timeout = pos 2;
  use_session_bus = false;
}

abbrev options : Options
options = record {
  config_path = [];
  timeout = negsuc 1;
  service_manifest_dir = bytes "/srv";
  default_service_manifest_dir = [];
  use_session_bus = true;
}

abbrev main_source : ConfigSource
main_source = record {
  string_configs = [];
  int_configs = item main shutdown_timeout_key (pos 7) ∷ [];
  bool_configs = [];
}

file_read : new_main_source (some file) (type_map build) ≡ ok main_source
unfolding new_main_source read_loaded_config read_groups push_keys push_key lookup insert
    create_config_items create_keys create type_at ◌==◌ type_map configs types_from
file_read = refl

new_main_source-Typed_example : Typed file (type_map build) main_source
new_main_source-Typed_example = new_main_source-Typed file (type_map build) main_source file_read

abbrev all_configs : Config
all_configs =
    read_configs_from_sources (commandline_source options ∷ main_source ∷ default_source build ∷ [])

agent_started : start_config build (λ path. some file) options ≡ ok all_configs
unfolding start_config new_main_source read_loaded_config read_groups push_keys push_key lookup
    insert create_config_items create_keys create type_at ◌==◌ type_map configs types_from
    new_config mandatory_configs mandatory_of assert_dependencies assert_all_mandatory_present
agent_started = refl

start_config-first_of_example :
    (get_config group_name shutdown_timeout_key all_configs.string_configs
      ≡ first_of
          (first_named group_name shutdown_timeout_key (commandline_source options).string_configs)
          (first_named group_name shutdown_timeout_key main_source.string_configs)
          (first_named group_name shutdown_timeout_key (default_source build).string_configs))
    × (get_config group_name shutdown_timeout_key all_configs.int_configs
        ≡ first_of
            (first_named group_name shutdown_timeout_key (commandline_source options).int_configs)
            (first_named group_name shutdown_timeout_key main_source.int_configs)
            (first_named group_name shutdown_timeout_key (default_source build).int_configs))
    × (get_config group_name shutdown_timeout_key all_configs.bool_configs
        ≡ first_of
            (first_named group_name shutdown_timeout_key (commandline_source options).bool_configs)
            (first_named group_name shutdown_timeout_key main_source.bool_configs)
            (first_named group_name shutdown_timeout_key (default_source build).bool_configs))
start_config-first_of_example =
    start_config-first_of build (λ path. some file) options main_source all_configs file_read
      agent_started group_name shutdown_timeout_key

-- One directory with one manifest, and one file beside it.
abbrev manifest_stat : Bytes → Option Mode
manifest_stat path =
    if path == bytes "/m"
    then some directory
    else if path == bytes "/a.json"
    then some regular
    else none

abbrev manifest_files : ManifestFiles Value
manifest_files = record {
  system = record {
    stat = manifest_stat;
    entries = λ path. some (bytes "." ∷ bytes ".." ∷ bytes "a.json" ∷ bytes "b.txt" ∷ []);
  };
  read_names = λ path. bytes "a.json" ∷ bytes "b.txt" ∷ [];
  json_load_file = λ path. some empty;
  build_path = λ a b. b;
}

named : is_empty (bytes "/m") ≡ false
unfolding is_empty
named = refl

not_root : (bytes "/m" == bytes "/") ≡ false
unfolding ◌==◌
not_root = refl

is_there : is_directory manifest_files.system (bytes "/m") ≡ true
unfolding is_directory ◌==◌
is_there = refl

is_filled : is_directory_empty manifest_files.system (bytes "/m") ≡ false
unfolding is_directory_empty count_entries
is_filled = refl

is_loaded : (load_content manifest_files (bytes "/m") []).0 ≡ ok tt
unfolding load_content load_service_manifest_dir load_files load_service_manifest_file file_list
    json_files is_json_file is_directory is_directory_empty count_entries is_empty ◌==◌
is_loaded = refl

load_content-Loaded_example :
    Loaded manifest_files
      (bytes "/m")
      (file_list manifest_files (bytes "/m"))
      (load_content manifest_files (bytes "/m") []).1
load_content-Loaded_example =
    load_content-Loaded manifest_files (bytes "/m") named not_root is_there is_filled is_loaded

-- A system with one regular file, "f".
abbrev one_file : ManifestFiles Value
one_file = record manifest_files {
  system = record {
    stat = λ path. if path == bytes "f" then some regular else none;
    entries = λ path. none;
  };
}

file_there : one_file.system.stat (bytes "f") ≡ some regular
unfolding ◌==◌
file_there = refl

slash_nowhere :
    (q : Bytes)
    → one_file.system.stat q ≡ some regular
    → one_file.system.stat (q ++ bytes "/") ≡ none
unfolding ◌==◌
slash_nowhere [] h = refl
slash_nowhere (b ∷ []) h = ground arith
slash_nowhere (b ∷ c ∷ q) h = ground arith

manifest_file_option_fails_example :
    load_content one_file (with_slash (bytes "f")) [] ≡ (throw service_manifest_path_error, [])
manifest_file_option_fails_example =
    manifest_file_option_fails one_file slash_nowhere [] b'f' [] refl file_there
