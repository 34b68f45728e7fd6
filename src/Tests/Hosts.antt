-- ===== src/Tests/Hosts.antt =====
-- A small system and a small liblxc to run the theorems on.
use softwarecontainer.Common.{
  ℕ, ◌+◌, ◌-◌, Bool, true, false, ◌&&◌, ◌||◌, not, some, [], ◌∷◌, if◌then◌else◌, ltb,
  ◌==◌ as nat_eq,
}
use softwarecontainer.Common.Bytes.{Bytes, bytes, ◌==◌, is_empty}
use softwarecontainer.Common.Int.{pos}
use softwarecontainer.OperatingSystem.{Os, ms_rdonly, ms_remount, ms_bind, ms_unbindable, ms_shared}
use softwarecontainer.Lxc.{Lxc}
use softwarecontainer.Container.{Settings}

-- The directories, and the number of mounts at each path.
pub record System : Type 0 where
  pub directories : Bytes → Bool
  pub mounts : Bytes → ℕ

abbrev pub empty_system : System
empty_system = record { directories = λ q. is_empty q; mounts = λ q. 0 }

-- A system in which every path exists, the parent of each path is the root, and mounts cannot be
-- made unbindable.
abbrev pub make_directory_at : Bytes → System → System
make_directory_at path s = record s { directories = λ q. q == path || s.directories q }

abbrev here : Bytes → Bytes → ℕ
here q path = if q == path then 1 else 0

-- Neither a second mount read only nor a change of how a mount propagates adds a mount here.
abbrev adds_mount : ℕ → Bool
adds_mount flags =
    not (nat_eq flags (ms_remount + ms_rdonly + ms_bind))
    && (not (nat_eq flags ms_unbindable) && not (nat_eq flags ms_shared))

abbrev add_mount : Bytes → ℕ → System → System
add_mount dst flags s =
    if adds_mount flags then record s { mounts = λ q. s.mounts q + here q dst } else s

abbrev take_mount : Bytes → System → System
take_mount path s = record s { mounts = λ q. s.mounts q - here q path }

abbrev pub small_os : Os System
small_os = record {
  exists = λ path s. true;
  is_directory = λ path s. is_empty path || s.directories path;
  mkdir = λ path s. (true, make_directory_at path s);
  mkdtemp = λ templ s. (some templ, make_directory_at templ s);
  mount = λ src dst fstype flags options s.
      if nat_eq flags ms_unbindable then (false, s) else (true, add_mount dst flags s);
  umount2 = λ path flags s. if ltb 0 (s.mounts path) then (true, take_mount path s) else (false, s);
  unlink = λ path s. (true, s);
  delete_tree =
      λ path s. (true, record s { directories = λ q. not (q == path) && s.directories q });
  copy_tree = λ src dst s. (true, s);
  touch = λ path s. (true, s);
  write_file = λ path content s. (true, s);
  parent_path = λ path. [];
  base_name = λ path. path;
  build_path = λ a b. b;
}

-- A liblxc that does what it is asked to.
abbrev pub small_lxc : Lxc System ℕ
small_lxc = record {
  new = λ id s. (some 7, s);
  put = λ h s. s;
  is_defined = λ h s. false;
  load_config = λ h file s. (true, s);
  create = λ h s. (true, s);
  is_running = λ h s. true;
  state_is = λ h state s. true;
  wait = λ h state timeout s. (true, s);
  start = λ h s. (true, s);
  init_pid = λ h s. pos 100;
  stop = λ h s. (true, s);
  shutdown = λ h timeout s. (true, s);
  destroy = λ h s. (true, s);
  freeze = λ h s. (true, s);
  unfreeze = λ h s. (true, s);
  set_cgroup_item = λ h key value s. (true, s);
  add_device_node = λ h path s. (true, s);
  attach = λ h job environment streams s. (some (pos 101), s);
  wait_for_process_termination = λ pid s. (pos 0, s);
  kill = λ pid s. s;
  setenv = λ name value s. s;
  umount = λ path s. (true, s);
  shell_parse_argv = λ line. some (line ∷ []);
  root = bytes "/var/lib/lxc";
}

abbrev pub small_settings : Settings
small_settings = record {
  config_file = bytes "/etc/sc.conf";
  id = bytes "SC-0";
  container_root = bytes "/tmp/SC-0";
  write_buffer_enabled = false;
  shutdown_timeout = 2;
}
