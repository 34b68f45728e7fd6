-- ===== src/Container/Life.antt =====
-- The life of a container: any sequence of calls of its public methods (container.cpp).
use softwarecontainer.Common.{
  ◌≡◌, ◌≢◌, ℕ, Bool, true, false, inl, inr, List, [], ◌∷◌, arith, is_some, Bool-cases,
}
use softwarecontainer.Common.Throwing.{ok, throw, M, undefined}
use softwarecontainer.Common.Bytes.{Bytes}
use softwarecontainer.OperatingSystem.{Os}
use softwarecontainer.Lxc.{Lxc, ContainerJob}
use softwarecontainer.Container.{created, below, Settings, Container, new_container}
use softwarecontainer.Container.Creation.{initialize, create}
use softwarecontainer.Container.Running.{
  start, stop, shutdown, destroy, suspend, resume, set_cgroup_item,
}
use softwarecontainer.Common.Int.{ℤ}
use softwarecontainer.Common.OrdMap.{OrdMap}
use softwarecontainer.ContainerInterface.{Job}
use softwarecontainer.Container.Execution.{
  execute, execute_sync, execute_command, run_job, mount_device, set_environment_variable,
}
use softwarecontainer.Container.BindMount.{bind_mount_in_container}
use softwarecontainer.Container.Calls.{
  Kept, execute-Kept, execute_sync-Kept, execute_command-Kept, run_job-Kept, mount_device-Kept,
  set_cgroup_item-Kept, set_environment_variable-Kept,
}
use softwarecontainer.Container.Making.{initialize-HasHandle, create-HasHandle}
use softwarecontainer.Container.Binding.{bind_mount_in_container-Kept}
use softwarecontainer.Container.Handle.{
  HasHandle, IsLive, start-IsLive, stop-IsLive, shutdown-IsLive, suspend-IsLive, resume-IsLive,
  destroy-IsLive,
}

pub data Method : Type 0 where
  start_it stop_it suspend_it resume_it : Method
  shut_it_down destroy_it : ℕ → Method

module _ {S H : Type 0} (lxc : Lxc S H) (settings : Settings) where
  unfoldable pub call : Method → M (Container H × S) Bool
  call start_it = start lxc
  call stop_it = stop lxc
  call suspend_it = suspend lxc
  call resume_it = resume lxc
  call (shut_it_down timeout) = shutdown lxc timeout
  call (destroy_it timeout) = destroy lxc settings timeout

  call-IsLive :
      (m : Method) (c : Container H) (s : S) → is_some c.container ≡ true → IsLive (call m (c, s))
  unfolding call
  call-IsLive start_it = start-IsLive lxc
  call-IsLive stop_it = stop-IsLive lxc
  call-IsLive suspend_it = suspend-IsLive lxc
  call-IsLive resume_it = resume-IsLive lxc
  call-IsLive (shut_it_down timeout) = shutdown-IsLive lxc timeout
  call-IsLive (destroy_it timeout) = destroy-IsLive lxc settings timeout

  -- Before CREATED each of these methods is refused and changes nothing.
  call_before_created :
      (m : Method) (c : Container H) (s : S)
      → below c.state created ≡ true
      → call m (c, s) ≡ (ok false, (c, s))
  unfolding call start stop suspend resume shutdown destroy
  call_before_created start_it c s h = ground arith
  call_before_created stop_it c s h = ground arith
  call_before_created suspend_it c s h = ground arith
  call_before_created resume_it c s h = ground arith
  call_before_created (shut_it_down timeout) c s h = ground arith
  call_before_created (destroy_it timeout) c s h = ground arith

  -- Neither kind of exception follows a null pointer, and the pointer is kept where it has to be.
  call_safe :
      (m : Method) (c : Container H) (s : S)
      → HasHandle c
      → ((call m (c, s)).0 ≢ throw undefined) × HasHandle (call m (c, s)).1.0
  unfolding HasHandle IsLive
  call_safe m c s h = elim (Bool-cases (below c.state created)) [
    | inl e ↦ rw (call_before_created m c s e) (cc, h)
    | inr e ↦ let live : _ = call-IsLive m c s (h e) in (live.0, λ _. live.1)
  ]

-- The public methods of a container that change it or act through it.
pub data Step : Type 0 where
  initialize_it create_it : Step
  call_it : Method → Step
  bind_it : Bytes → Bytes → Bool → Step
  add_device : Bytes → Step
  set_variable set_cgroup : Bytes → Bytes → Step
  execute_it : ContainerJob → ℤ → OrdMap Bytes Bytes → List ℤ → Step
  execute_line : Bytes → ℤ → OrdMap Bytes Bytes → Bytes → List ℤ → Step
  execute_in_turn : ContainerJob → ℤ → Step
  run_it : Job → Step

module _ {S H : Type 0} (os : Os S) (lxc : Lxc S H) (settings : Settings) where
  -- The container after a step, whose result is not used.
  unfoldable pub take_step : Step → Container H × S → Container H × S
  take_step initialize_it st = (initialize os lxc settings st).1
  take_step create_it st = (create os lxc settings st).1
  take_step (call_it m) st = (call lxc settings m st).1
  take_step (bind_it in_host target read_only) st =
      (bind_mount_in_container os lxc settings in_host target read_only st).1
  take_step (add_device path) st = (mount_device lxc path st).1
  take_step (set_variable name value) st = (set_environment_variable os settings name value st).1
  take_step (set_cgroup subsys value) st = (set_cgroup_item lxc subsys value st).1
  take_step (execute_it job pid variables streams) st = (execute lxc job pid variables streams st).1
  take_step (execute_line line pid variables directory streams) st =
      (execute_command lxc line pid variables directory streams st).1
  take_step (execute_in_turn job pid) st = (execute_sync lxc job pid st).1
  take_step (run_it job) st = (run_job lxc job st).1

  unfoldable pub live : List Step → Container H × S → Container H × S
  live [] st = st
  live (step ∷ rest) st = live rest (take_step step st)

  take_step-HasHandle :
      (step : Step) (st : Container H × S) → HasHandle st.0 → HasHandle (take_step step st).0
  unfolding take_step Kept
  take_step-HasHandle initialize_it (c, s) = initialize-HasHandle os lxc settings c s
  take_step-HasHandle create_it (c, s) = create-HasHandle os lxc settings c s
  take_step-HasHandle (call_it m) (c, s) = λ h. (call_safe lxc settings m c s h).1
  take_step-HasHandle (bind_it in_host target read_only) st =
      bind_mount_in_container-Kept os lxc settings in_host target read_only st
  take_step-HasHandle (add_device path) st = mount_device-Kept lxc path st
  take_step-HasHandle (set_variable name value) st =
      set_environment_variable-Kept H os settings name value st
  take_step-HasHandle (set_cgroup subsys value) st = set_cgroup_item-Kept lxc subsys value st
  take_step-HasHandle (execute_it job pid variables streams) st =
      execute-Kept lxc job pid variables streams st
  take_step-HasHandle (execute_line line pid variables directory streams) st =
      execute_command-Kept lxc line pid variables directory streams st
  take_step-HasHandle (execute_in_turn job pid) st = execute_sync-Kept lxc job pid st
  take_step-HasHandle (run_it job) st = run_job-Kept lxc job st

  live-HasHandle :
      (steps : List Step) (st : Container H × S) → HasHandle st.0 → HasHandle (live steps st).0
  unfolding live
  live-HasHandle [] st h = h
  live-HasHandle (step ∷ rest) st h =
      live-HasHandle rest (take_step step st) (take_step-HasHandle step st h)

  -- Whatever public calls came before, none of start, stop, shutdown, destroy, suspend and resume follows
  -- a null pointer, and from CREATED on the container has its pointer.
  pub live_safe :
      (steps : List Step) (m : Method) (s : S)
      → let (c, s') = live steps (new_container, s) in
        HasHandle c × ((call lxc settings m (c, s')).0 ≢ throw undefined)
  unfolding HasHandle
  live_safe steps m s =
      let st : Container H × S = live steps (new_container, s) in
      let kept : HasHandle st.0 =
        live-HasHandle steps (new_container, s) (λ e. absurd (ground (arith, e))) in
      (kept, (call_safe lxc settings m st.0 st.1 kept).0)
