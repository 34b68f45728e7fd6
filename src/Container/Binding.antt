-- ===== src/Container/Binding.antt =====
-- `bindMountInContainer` of container.cpp and the pointer to the container of LXC.
use softwarecontainer.Common.{Bool, true, false, not, List, [], if◌then◌else◌}
use softwarecontainer.Common.Bytes.{Bytes, ◌==◌}
use softwarecontainer.Common.Int.{ℤ}
use softwarecontainer.Common.OrdMap.{bytes_key}
use softwarecontainer.Common.Throwing.{M, Result, ok, throw, pure, continue, and_then_keeps}
use softwarecontainer.OperatingSystem.{Os}
use softwarecontainer.Lxc.{
  Lxc, ContainerJob, check_mount_point, create_parent_directories, touch, move_mount,
  remount_read_only,
}
use softwarecontainer.FileToolkit.{Toolkit, bind_mount}
use softwarecontainer.Container.{Settings, Container, gateways_path, gateways_dir, with_toolkit}
use softwarecontainer.Container.Running.{ensure_container_running}
use softwarecontainer.Container.Execution.{execute_sync, invalid_pid}
use softwarecontainer.Container.BindMount.{
  run_or_stop, remount_read_only_in_container, move_to_target, bind_mount_core, make_mount_point,
  settle_bind_mount, mount_at_point, bind_mount_at, bind_mount_in_container, is_absolute,
}
use softwarecontainer.Container.Handle.{HasHandle}
use softwarecontainer.Container.Calls.{
  Handled, Kept, bind-Kept, if-Kept, pure-Kept, toolkit-HasHandle, choose-Handled,
  with_toolkit-Kept, ensure_container_running-Kept, execute_sync-Kept,
}

module _ {S H : Type 0} (os : Os S) (lxc : Lxc S H) (settings : Settings) where
  run_or_stop-Kept :
      (job : ContainerJob) (pid : ℤ) (k : ℤ → M (Container H × S) Bool)
      → ((pid' : ℤ) → Kept (k pid'))
      → Kept (run_or_stop os lxc settings job pid k)
  run_or_stop-Kept job pid k keep =
      bind-Kept (execute_sync lxc job pid) _ (execute_sync-Kept lxc job pid)
        (λ (done, pid'). if-Kept done (k pid') (pure false) (keep pid') (pure-Kept S H (ok _)))

  remount-Kept : (path : Bytes) → Kept (remount_read_only_in_container os lxc settings path)
  unfolding remount_read_only_in_container
  remount-Kept path =
      run_or_stop-Kept (remount_read_only path) invalid_pid (λ _. pure true)
        (λ _. pure-Kept S H (ok true))

  move_to_target-Kept :
      (on_host in_container target : Bytes)
      → Kept (move_to_target os lxc settings on_host in_container target)
  unfolding move_to_target Kept
  move_to_target-Kept on_host in_container target st =
      run_or_stop-Kept (create_parent_directories (os.parent_path target)) invalid_pid _
        (λ pid (c, s).
          run_or_stop-Kept
            (if os.is_directory on_host s then create_parent_directories target else touch target)
            pid _
            (λ pid'.
              run_or_stop-Kept (move_mount in_container target) pid' (λ _. pure true)
                (λ _. pure-Kept S H (ok true)))
            (c, s))
        st

  bind_mount_core-Kept :
      (in_host target on_host : Bytes) (read_only : Bool)
      → Kept (bind_mount_core os lxc settings in_host target on_host read_only)
  unfolding Kept bind_mount_core
  bind_mount_core-Kept in_host target on_host read_only st0 h0 =
      let in_container : Bytes = os.build_path gateways_path (os.base_name target) in
      let bound : M (Toolkit × S) Bool =
        bind_mount os in_host on_host settings.container_root read_only
          settings.write_buffer_enabled in
      let mount : M (Container H × S) Bool = with_toolkit bound in
      let move : M (Container H × S) Bool = λ st.
        if in_container == target
        then (ok true, st)
        else move_to_target os lxc settings on_host in_container target st in
      let last : M (Container H × S) Bool = λ st.
        if read_only
        then remount_read_only_in_container os lxc settings target st
        else (ok true, st) in
      let mounts : M (Container H × S) Bool = λ st1.
        if not (is_absolute target)
        then (ok false, st1)
        else continue (mount st1) (λ st2. continue (move st2) last) in
      let last_keeps : (st : Container H × S) → Handled st → Handled (last st).1 = λ st h.
        choose-Handled read_only (remount_read_only_in_container os lxc settings target st)
          (ok true, st) (remount-Kept target st h) h in
      let move_keeps : (st : Container H × S) → Handled st → Handled (move st).1 = λ st h.
        choose-Handled (in_container == target) (ok true, st)
          (move_to_target os lxc settings on_host in_container target st) h
          (move_to_target-Kept on_host in_container target st h) in
      and_then_keeps Handled (ensure_container_running lxc st0) mounts
        (ensure_container_running-Kept lxc st0 h0)
        (λ st1 h1.
          choose-Handled (not (is_absolute target)) (ok false, st1)
            (continue (mount st1) (λ st2. continue (move st2) last)) h1
            (and_then_keeps Handled (mount st1) (λ st2. continue (move st2) last)
              (with_toolkit-Kept H bound st1 h1)
              (λ st2 h2. and_then_keeps Handled (move st2) last (move_keeps st2 h2) last_keeps)))

  settle_bind_mount-Handled :
      (directory : Bool) (temp_path : Bytes) (dirs : List Bytes)
      (r : Result Bool × (Container H × S))
      → Handled r.1
      → Handled (settle_bind_mount os lxc settings directory temp_path dirs r).1
  unfolding settle_bind_mount
  settle_bind_mount-Handled directory temp_path dirs (ok true, (c, s)) h = toolkit-HasHandle c _ h
  settle_bind_mount-Handled directory temp_path dirs (ok false, (c, s)) h = h
  settle_bind_mount-Handled directory temp_path dirs (throw e, (c, s)) h = h

  mount_at_point-Handled :
      (in_host target temp_path : Bytes) (read_only directory : Bool) (c : Container H)
      (r : Result Bool × (List Bytes × S))
      → HasHandle c
      → Handled (mount_at_point os lxc settings in_host target temp_path read_only directory c r).1
  unfolding mount_at_point Kept
  mount_at_point-Handled in_host target temp_path read_only directory c (ok true, (dirs, s)) h =
      settle_bind_mount-Handled directory temp_path dirs
        (bind_mount_core os lxc settings in_host target temp_path read_only (c, s))
        (bind_mount_core-Kept in_host target temp_path read_only (c, s) h)
  mount_at_point-Handled in_host target temp_path read_only directory c (ok false, (dirs, s)) h = h
  mount_at_point-Handled in_host target temp_path read_only directory c (throw e, (dirs, s)) h = h

  bind_mount_at-Kept :
      (in_host target temp_path : Bytes) (read_only : Bool)
      → Kept (bind_mount_at os lxc settings in_host target temp_path read_only)
  unfolding Kept bind_mount_at
  bind_mount_at-Kept in_host target temp_path read_only (c, s) =
      mount_at_point-Handled in_host target temp_path read_only (os.is_directory in_host s) c
        (make_mount_point os lxc settings in_host temp_path c.toolkit ([], s))

  pub bind_mount_in_container-Kept :
      (in_host target : Bytes) (read_only : Bool)
      → Kept (bind_mount_in_container os lxc settings in_host target read_only)
  unfolding Kept bind_mount_in_container
  bind_mount_in_container-Kept in_host target read_only (c, s) h =
      let temp_path : Bytes = os.build_path (gateways_dir os settings) (os.base_name target) in
      let mount : ℤ → M (Container H × S) Bool =
        λ _. bind_mount_at os lxc settings in_host target temp_path read_only in
      choose-Handled (not (os.exists in_host s)) (ok false, (c, s))
        (run_or_stop os lxc settings (check_mount_point target) invalid_pid mount (c, s)) h
        (run_or_stop-Kept (check_mount_point target) invalid_pid mount
          (λ _. bind_mount_at-Kept in_host target temp_path read_only) (c, s) h)
