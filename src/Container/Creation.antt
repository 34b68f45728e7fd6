-- ===== src/Container/Creation.antt =====
-- libsoftwarecontainer/src/container.cpp: `initialize` and `create`.
use softwarecontainer.Common.{Bool, true, false, not, Option, none, some, [], ◌++◌, if◌then◌else◌}
use softwarecontainer.Common.Bytes.{bytes, is_empty}
use softwarecontainer.Common.Throwing.{M, ok, continue}
use softwarecontainer.OperatingSystem.{Os}
use softwarecontainer.Lxc.{Lxc}
use softwarecontainer.FileToolkit.{finish, leave, create_shared_mount_point, overlay_mount}
use softwarecontainer.FileToolkit.CreateDir.{create_directory}
use softwarecontainer.Container.{
  prepared, created, below, Settings, Container, gateways_dir, set_state, through, with_toolkit,
  regardless,
}

module _ {S H : Type 0} (os : Os S) (lxc : Lxc S H) (settings : Settings) where
  unfoldable pub initialize : M (Container H × S) Bool
  initialize (c, s) =
      if not (below c.state prepared)
      then (ok true, (c, s))
      else continue
          (with_toolkit
            (λ (tk, s0).
              finish os (create_directory os (gateways_dir os settings) ([], s0)) tk (λ (dirs, s1).
                let (shared, (tk2, s2)) =
                  create_shared_mount_point os (gateways_dir os settings) (tk, s1) in
                finish os (shared, (dirs, s2)) tk2 (leave os true tk2)))
            (c, s))
          (λ st. (ok true, set_state prepared st))

  unfoldable pub rollback_create : M (Container H × S) Bool
  rollback_create (c, s) = elim c.container [
    | none ↦ (ok false, (c, s))
    | some h ↦ (ok false, (record c { container = none }, lxc.put h s))
  ]

  abbrev pub or_roll_back : Bool → M (Container H × S) Bool → M (Container H × S) Bool
  or_roll_back true k st = k st
  or_roll_back false k st = rollback_create st

  -- The overlay over the root file system. Its result is not used.
  unfoldable pub mount_root_fs : M (Container H × S) Bool
  mount_root_fs (c, s) =
      let rootfs = os.build_path (os.build_path lxc.root settings.id) (bytes "rootfs") in
      let c' = record c { root_fs_path = rootfs } in
      if settings.write_buffer_enabled
      then regardless (
          with_toolkit
            (overlay_mount os (settings.container_root ++ bytes "/rootfs-lower")
              (settings.container_root ++ bytes "/rootfs-upper")
              (settings.container_root ++ bytes "/rootfs-work") rootfs)
            (c', s))
      else (ok true, (c', s))

  abbrev pub created_or_not : Bool → M (Container H × S) Bool
  created_or_not true st = (ok true, set_state created st)
  created_or_not false (c, s) = rollback_create (record c { root_fs_path = [] }, s)

  -- `create` once `m_container` is set: an id in use, the configuration, the file system, LXC.
  unfoldable pub create_with : H → M (Container H × S) Bool
  create_with h (c, s) =
      let (loaded, s') = lxc.load_config h settings.config_file s in
      or_roll_back (not (lxc.is_defined h s))
        (λ _.
          or_roll_back loaded
            (λ st. continue (mount_root_fs st) (through lxc.create created_or_not)) (c, s'))
        (c, s)

  -- What `lxc_container_new` gave is stored first.
  unfoldable pub create_new : Option H → M (Container H × S) Bool
  create_new none (c, s) = rollback_create (record c { container = none }, s)
  create_new (some h) (c, s) = create_with h (record c { container = some h }, s)

  unfoldable pub create : M (Container H × S) Bool
  create (c, s) =
      if not (below c.state created)
      then (ok false, (c, s))
      else if is_empty settings.id
      then (ok false, (c, s))
      else let (new, s') =
          lxc.new settings.id (lxc.setenv (bytes "GATEWAY_DIR") (gateways_dir os settings) s) in
        create_new new (c, s')
