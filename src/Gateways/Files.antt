-- ===== src/Gateways/Files.antt =====
-- gateway/files/filegateway.cpp, filegatewayparser.{h,cpp} and filegatewaysettingstore.cpp.
pub mod Settings
use softwarecontainer.Common.{
  Bool, true, false, Option, none, some, List, [], ◌∷◌, ◌++◌, ◌&&◌, not, if◌then◌else◌,
}
use softwarecontainer.Common.Bytes.{Bytes, bytes, ◌==◌, is_empty}
use softwarecontainer.Common.Throwing.{M, ok, pure, and_then}
use softwarecontainer.Json.{Jansson, read_string, read_optional_bool}
use softwarecontainer.ContainerInterface.{ContainerInterface}
use softwarecontainer.Gateway.{Own, Gateway, GatewayMethods, new_gateway}

pub record FileSetting : Type 0 where
  pub path_in_host : Bytes
  pub path_in_container : Bytes
  pub read_only : Bool

-- `operator==` compares the paths in the container alone.
abbrev pub same_target : FileSetting → FileSetting → Bool
same_target s t = s.path_in_container == t.path_in_container

-- `addSetting`: no value stands for the result `false`, which leaves the store as it was.
unfoldable pub add_setting : FileSetting → List FileSetting → Option (List FileSetting)
add_setting setting [] = some (setting ∷ [])
add_setting setting (s ∷ rest) =
    if same_target s setting
    then (if s.path_in_host == setting.path_in_host
        then some (record s { read_only = s.read_only && setting.read_only } ∷ rest)
        else none)
    else elim (add_setting setting rest) [ none ↦ none | some rest' ↦ some (s ∷ rest') ]

module _ {Json : Type 0} ⦃j : Jansson Json⦄ where
  -- `parseConfigElement`, given the `readOnly` that `setting` comes with.
  unfoldable pub parse_config_element : Json → Bool → Option FileSetting
  parse_config_element element initial =
      let (host_read, host) = read_string element (bytes "path-host") [] in
      let (target_read, target) = read_string element (bytes "path-container") [] in
      let (flag_read, flag) = read_optional_bool element (bytes "read-only") initial in
      if not host_read
      then none
      else if not target_read
      then none
      else if is_empty host
      then none
      else if is_empty target
      then none
      else if not flag_read
      then none
      else some (record { path_in_host = host; path_in_container = target; read_only = flag })

  -- `setting` is a local variable whose `readOnly` is not initialised: `uninitialized` stands for
  -- what it holds.
  unfoldable pub read_config_element : Bool → Json → M (List FileSetting) Bool
  read_config_element uninitialized element settings =
      elim (parse_config_element element uninitialized) [
        | none ↦ (ok false, settings)
        | some setting ↦ elim (add_setting setting settings) [
          | none ↦ (ok false, settings)
          | some settings' ↦ (ok true, settings')
        ]
      ]

module _ {C : Type 0} (container : ContainerInterface C) where
  unfoldable pub bind_mount : FileSetting → M C Bool
  bind_mount s = container.bind_mount_in_container s.path_in_host s.path_in_container s.read_only

  -- The loop of `activateGateway`.
  unfoldable pub bind_mounts : List FileSetting → M C Bool
  bind_mounts [] c = (ok true, c)
  bind_mounts (s ∷ rest) c = and_then (bind_mount s) (bind_mounts rest) c

  unfoldable pub activate_gateway : M (Own (List FileSetting) × C) Bool
  activate_gateway (own, c) = let (r, c') = bind_mounts own.fields c in (r, (own, c'))

  unfoldable pub file_gateway :
      {Json : Type 0} ⦃j : Jansson Json⦄ → Bool → GatewayMethods Json C (List FileSetting)
  file_gateway uninitialized = record {
    read_config_element = read_config_element uninitialized;
    activate_gateway = activate_gateway;
    teardown_gateway = pure true;
  }

abbrev pub new_file_gateway : Gateway (List FileSetting)
new_file_gateway = new_gateway (bytes "file") false []
