-- ===== src/Container/BindMount.antt =====
-- libsoftwarecontainer/src/container.cpp: `bindMountInContainer` and what it calls.
use softwarecontainer.Common.{Bool, true, false, not, List, [], ◌∷◌, if◌then◌else◌, ◌==◌ as nat_eq}
use softwarecontainer.Common.Bytes.{Bytes, ◌==◌}
use softwarecontainer.Common.Int.{ℤ}
use softwarecontainer.Common.Throwing.{M, Result, ok, throw, ◌>>=◌, pure, continue}
use softwarecontainer.OperatingSystem.{Os}
use softwarecontainer.Lxc.{
  Lxc, ContainerJob, check_mount_point, create_parent_directories, touch, move_mount,
  remount_read_only,
}
use softwarecontainer.FileToolkit.{
  Toolkit, name_in_list, add_handler, add_create_dir, mount_clean_up, file_clean_up, bind_mount,
  clean_mount,
}
use softwarecontainer.FileToolkit.CreateDir.{create_directory, roll_back}
use softwarecontainer.Container.{Settings, Container, gateways_path, gateways_dir, with_toolkit}
use softwarecontainer.Container.Running.{ensure_container_running}
use softwarecontainer.Container.Execution.{execute_sync, invalid_pid}

-- `pathInContainer.front() != '/'`; the first byte of an empty string is the final zero.
abbrev pub is_absolute : Bytes → Bool
is_absolute [] = false
is_absolute (b ∷ _) = nat_eq b 47

module _ {S H : Type 0} (os : Os S) (lxc : Lxc S H) (settings : Settings) where
  -- A function in the container whose failure ends the method; the pid is passed on.
  abbrev pub run_or_stop :
      ContainerJob → ℤ → (ℤ → M (Container H × S) Bool) → M (Container H × S) Bool
  run_or_stop job pid k =
      execute_sync lxc job pid >>= λ (done, pid'). if done then k pid' else pure false

  unfoldable pub remount_read_only_in_container : Bytes → M (Container H × S) Bool
  remount_read_only_in_container path =
      run_or_stop (remount_read_only path) invalid_pid (λ _. pure true)

  -- The part of `bindMountCore` that moves the mount from /gateways to its place.
  unfoldable pub move_to_target : Bytes → Bytes → Bytes → M (Container H × S) Bool
  move_to_target on_host in_container target (c, s) =
      run_or_stop (create_parent_directories (os.parent_path target)) invalid_pid
        (λ pid (c', s').
          run_or_stop
            (if os.is_directory on_host s' then create_parent_directories target else touch target)
            pid (λ pid'. run_or_stop (move_mount in_container target) pid' (λ _. pure true))
            (c', s'))
        (c, s)

  unfoldable pub bind_mount_core : Bytes → Bytes → Bytes → Bool → M (Container H × S) Bool
  bind_mount_core in_host target on_host read_only =
      let in_container = os.build_path gateways_path (os.base_name target) in
      λ st0. continue (ensure_container_running lxc st0) (λ st1.
        if not (is_absolute target)
        then (ok false, st1)
        else continue
            (with_toolkit
              (bind_mount os in_host on_host settings.container_root read_only
                settings.write_buffer_enabled)
              st1)
            (λ st2.
              continue
                (if in_container == target
                  then (ok true, st2)
                  else move_to_target on_host in_container target st2)
                (λ st3.
                  if read_only then remount_read_only_in_container target st3 else (ok true, st3))))

  -- The directory or the file on the host, and the CreateDir object of the method.
  unfoldable pub make_mount_point : Bytes → Bytes → Toolkit → M (List Bytes × S) Bool
  make_mount_point in_host temp_path tk (dirs, s) =
      let (touched, s') = os.touch temp_path s in
      if os.is_directory in_host s
      then create_directory os temp_path (dirs, s)
      else if name_in_list temp_path tk
      then (ok true, (dirs, s))
      else (ok touched, (dirs, s'))

  -- The end of `bindMountInContainer`, after `bindMountCore`.
  unfoldable pub settle_bind_mount :
      Bool → Bytes → List Bytes → Result Bool × (Container H × S) → Result Bool × (Container H × S)
  settle_bind_mount directory temp_path dirs (ok true, (c, s)) =
      let tk = add_create_dir dirs c.toolkit in
      let tk' = if directory then tk else add_handler (file_clean_up temp_path) tk in
      (ok true, (record c { toolkit = add_handler (mount_clean_up temp_path) tk' }, s))
  settle_bind_mount directory temp_path dirs (ok false, (c, s)) =
      (ok false, (c, (roll_back os dirs (clean_mount os temp_path s).1).1))
  settle_bind_mount directory temp_path dirs (throw e, (c, s)) =
      (throw e, (c, (roll_back os dirs s).1))

  -- What follows the creation of the mount point.
  unfoldable pub mount_at_point :
      Bytes
      → Bytes
      → Bytes
      → Bool
      → Bool
      → Container H
      → Result Bool × (List Bytes × S)
      → Result Bool × (Container H × S)
  mount_at_point in_host target temp_path read_only directory c (ok true, (dirs, s)) =
      settle_bind_mount directory temp_path dirs
        (bind_mount_core in_host target temp_path read_only (c, s))
  mount_at_point in_host target temp_path read_only directory c (ok false, (dirs, s)) =
      (ok false, (c, (roll_back os dirs s).1))
  mount_at_point in_host target temp_path read_only directory c (throw e, (dirs, s)) =
      (throw e, (c, (roll_back os dirs s).1))

  unfoldable pub bind_mount_at : Bytes → Bytes → Bytes → Bool → M (Container H × S) Bool
  bind_mount_at in_host target temp_path read_only (c, s) =
      mount_at_point in_host target temp_path read_only (os.is_directory in_host s) c
        (make_mount_point in_host temp_path c.toolkit ([], s))

  unfoldable pub bind_mount_in_container : Bytes → Bytes → Bool → M (Container H × S) Bool
  bind_mount_in_container in_host target read_only (c, s) =
      let temp_path = os.build_path (gateways_dir os settings) (os.base_name target) in
      if not (os.exists in_host s)
      then (ok false, (c, s))
      else run_or_stop (check_mount_point target) invalid_pid
          (λ _. bind_mount_at in_host target temp_path read_only) (c, s)
