-- ===== src/ContainerUtility.antt =====
-- agent/src/containerutilityinterface.cpp: what the agent does with the containers and the
-- directory that an earlier run has left. The listing of the containers of LXC is a parameter.
pub mod Removal
use softwarecontainer.Common.{
  Bool, true, false, not, ◌&&◌, ◌==◌, Option, none, some, List, [], ◌∷◌, if◌then◌else◌,
}
use softwarecontainer.Common.Bytes.{Bytes}
use softwarecontainer.Common.OrdMap.{OrdMap, insert, bytes_key}
use softwarecontainer.Common.Throwing.{
  M, Result, ok, throw, after, container_utility_error, software_container_error,
}
use softwarecontainer.OperatingSystem.{Os}
use softwarecontainer.Lxc.{Lxc}
use softwarecontainer.FileToolkit.{Toolkit, leave, finish}
use softwarecontainer.FileToolkit.CreateDir.{create_directory}

-- `.*` of the regular expression: no byte ends a line.
unfoldable pub is_one_line : Bytes → Bool
is_one_line [] = true
is_one_line (b ∷ rest) = not (b == 10) && not (b == 13) && is_one_line rest

-- `std::regex_match(containerName, std::regex("SC-.*"))`
unfoldable pub is_sc_name : Bytes → Bool
is_sc_name (a ∷ b ∷ c ∷ rest) = a == b'S' && b == b'C' && c == b'-' && is_one_line rest
is_sc_name _ = false

-- The loop that makes a map of the names and the containers.
unfoldable pub container_map : {H : Type 0} → List (Bytes × H) → OrdMap Bytes H → OrdMap Bytes H
container_map [] containers = containers
container_map ((name, container) ∷ rest) containers =
    container_map rest (insert name container containers)

module _ {S H : Type 0} (lxc : Lxc S H) where
  unfoldable pub stop_old : H → M S (Unit {0})
  stop_old h s =
      let (stopped, s') = lxc.stop h s in
      if not (lxc.is_running h s)
      then (ok tt, s)
      else if stopped
      then (ok tt, s')
      else (throw container_utility_error, s')

  unfoldable pub destroy_old : H → M S (Unit {0})
  destroy_old h s =
      let (destroyed, s') = lxc.destroy h s in
      (if destroyed then ok tt else throw container_utility_error, s')

  -- A turn of the loop over the map.
  unfoldable pub remove_old : Bytes × H → M S (Unit {0})
  remove_old (name, h) s =
      if is_sc_name name then after (stop_old h s) (λ _. destroy_old h) else (ok tt, s)

  unfoldable pub remove_each : OrdMap Bytes H → M S (Unit {0})
  remove_each [] s = (ok tt, s)
  remove_each (container ∷ rest) s = after (remove_old container s) (λ _. remove_each rest)

  abbrev pub remove_listed : Option (List (Bytes × H)) × S → Result (Unit {0}) × S
  remove_listed (none, s) = (throw container_utility_error, s)
  remove_listed (some listed, s) = remove_each (container_map listed []) s

  -- `removeOldContainers`: `list` is list_all_containers, with no value for -1.
  unfoldable pub remove_old_containers :
      (Bytes → S → Option (List (Bytes × H)) × S) → M S (Unit {0})
  remove_old_containers list s = remove_listed (list lxc.root s)

-- A directory that could not be made is an exception of the caller.
abbrev pub directory_made :
    {S : Type 0} → Result Bool × (Toolkit × S) → Result (Unit {0}) × (Toolkit × S)
directory_made (ok true, st) = (ok tt, st)
directory_made (ok false, st) = (throw software_container_error, st)
directory_made (throw e, st) = (throw e, st)

-- The common part of `checkWorkspace` and of SoftwareContainer::checkContainerRoot.
unfoldable pub ensure_directory : {S : Type 0} → Os S → Bytes → M (Toolkit × S) (Unit {0})
ensure_directory os dir (tk, s) =
    let made = directory_made (finish os (create_directory os dir ([], s)) tk (leave os true tk)) in
    if os.is_directory dir s then (ok tt, (tk, s)) else made

-- `checkWorkspace`: the value of `shared-mounts-dir`, which may be missing.
unfoldable pub check_workspace : {S : Type 0} → Os S → Result Bytes → M (Toolkit × S) (Unit {0})
check_workspace os (ok root_dir) st = ensure_directory os root_dir st
check_workspace os (throw e) st = (throw e, st)
