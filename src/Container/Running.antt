-- ===== src/Container/Running.antt =====
-- libsoftwarecontainer/src/container.cpp: the methods on a container that has been created.
use softwarecontainer.Common.{ℕ, Bool, true, false, not, none, some, if◌then◌else◌, is_some}
use softwarecontainer.Common.Bytes.{Bytes}
use softwarecontainer.Common.Int.{negsuc, eqb_ℤ}
use softwarecontainer.Common.Throwing.{M, ok, throw, continue, software_container_error, undefined}
use softwarecontainer.OperatingSystem.{Os}
use softwarecontainer.Lxc.{Lxc, LxcState, stopped, running}
use softwarecontainer.FileToolkit.{destroy_toolkit}
use softwarecontainer.Container.{
  destroyed, created, started, frozen, is, below, Settings, Container, set_state, through,
  regardless,
}

module _ {S H : Type 0} (lxc : Lxc S H) where
  -- `waitForState`, with the timeout 20 that all callers use. What LXC's `wait` gives counts as
  -- whether the time has passed.
  unfoldable pub wait_for_state : LxcState → M (Container H × S) Bool
  wait_for_state target (c, s) = elim c.container [
    | none ↦ (throw undefined, (c, s))
    | some h ↦
        let (expired, s') = lxc.wait h target 20 s in
        if lxc.state_is h target s then (ok true, (c, s)) else (ok (not expired), (c, s'))
  ]

  unfoldable pub wait_until_running : M (Container H × S) Bool
  wait_until_running (c, s) = elim c.container [
    | none ↦ (throw undefined, (c, s))
    | some h ↦ if lxc.is_running h s then (ok true, (c, s)) else wait_for_state running (c, s)
  ]

  unfoldable pub ensure_container_running : M (Container H × S) Bool
  ensure_container_running (c, s) =
      if is frozen c.state
      then (ok false, (c, s))
      else if below c.state started
      then (ok false, (c, s))
      else wait_until_running (c, s)

  -- `start(pid)` with a pointer that is not null; the pid is not modelled.
  unfoldable pub start : M (Container H × S) Bool
  start (c, s) =
      if below c.state created
      then (ok false, (c, s))
      else through lxc.start
          (λ done st.
            if done then ensure_container_running (set_state started st) else (ok false, st))
          (c, s)

  unfoldable pub stop : M (Container H × S) Bool
  stop (c, s) =
      if below c.state started
      then (ok false, (c, s))
      else through lxc.stop
          (λ done st.
            let (waited, st') = wait_for_state stopped st in
            if done then regardless (waited, st') else (ok false, st))
          (c, s)

  abbrev pub terminate : H → S → Unit {0} × S
  terminate h s =
      let pid = lxc.init_pid h s in (tt, if eqb_ℤ pid (negsuc 0) then s else lxc.kill pid s)

  unfoldable pub shutdown : ℕ → M (Container H × S) Bool
  shutdown timeout (c, s) =
      if below c.state started
      then (ok false, (c, s))
      else through terminate
          (λ _.
            through (λ h. lxc.shutdown h timeout)
              (λ success st.
                continue (if success then (ok true, st) else stop st)
                  (λ st'. (ok true, set_state created st'))))
          (c, s)

  unfoldable pub suspend : M (Container H × S) Bool
  suspend (c, s) =
      if below c.state started
      then (ok false, (c, s))
      else if is c.state frozen
      then (ok false, (c, s))
      else through lxc.freeze
          (λ done st.
            if done then (ok true, set_state frozen st) else (throw software_container_error, st))
          (c, s)

  unfoldable pub resume : M (Container H × S) Bool
  resume (c, s) =
      if below c.state frozen
      then (ok false, (c, s))
      else through lxc.unfreeze
          (λ done st.
            if done then (ok true, set_state started st) else (throw software_container_error, st))
          (c, s)

  unfoldable pub set_cgroup_item : Bytes → Bytes → M (Container H × S) Bool
  set_cgroup_item subsys value =
      through (λ h. lxc.set_cgroup_item h subsys value) (λ done st. (ok done, st))

  abbrev pub put_container : Container H × S → Container H × S
  put_container (c, s) = elim c.container [
    | none ↦ (c, s)
    | some h ↦ (record c { container = none }, lxc.put h s)
  ]

module _ {S H : Type 0} (lxc : Lxc S H) (settings : Settings) where
  -- `destroy(timeout)` of a container that does not run.
  unfoldable pub destroy_stopped : M (Container H × S) Bool
  destroy_stopped (c, s) =
      let (unmounted, s') = lxc.umount c.root_fs_path s in
      let destroy_it =
        through lxc.destroy
          (λ success st. if success then (ok true, set_state destroyed st) else (ok false, st)) in
      if settings.write_buffer_enabled
      then (if unmounted then destroy_it (c, s') else (ok false, (c, s')))
      else destroy_it (c, s)

  unfoldable pub destroy : ℕ → M (Container H × S) Bool
  destroy timeout (c, s) =
      if below c.state created
      then (ok false, (c, s))
      else continue
          (if below c.state started then (ok true, (c, s)) else shutdown lxc timeout (c, s))
          destroy_stopped

module _ {S H : Type 0} (os : Os S) (lxc : Lxc S H) (settings : Settings) where
  -- `~Container`, and then the destructor of the toolkit.
  unfoldable pub end_container : Container H × S → S
  end_container (c, s) =
      let after_shutdown =
        if below c.state started
        then (c, s)
        else (shutdown lxc settings.shutdown_timeout (c, s)).1 in
      let after_destroy =
        if below (after_shutdown.0).state created
        then after_shutdown
        else (destroy lxc settings settings.shutdown_timeout after_shutdown).1 in
      let (c', s') = if is_some c.container then put_container lxc after_destroy else (c, s) in
      destroy_toolkit os c'.toolkit s'
