-- ===== src/Container/Calls.antt =====
-- container.cpp: running functions and commands, devices, variables and cgroups, and the pointer to
-- the container of LXC.
use softwarecontainer.Common.{
  ◌≡◌, Bool, true, false, Option, none, some, List, [], ◌∷◌, arith, if◌then◌else◌,
}
use softwarecontainer.Common.Bytes.{Bytes, bytes}
use softwarecontainer.Common.Int.{ℤ, pos, negsuc}
use softwarecontainer.Common.OrdMap.{OrdMap, insert, bytes_key}
use softwarecontainer.Common.Throwing.{
  M, Result, ok, throw, pure, raise, shell_error, Keeps, bind-Keeps, ◌>>=◌, and_then_keeps,
}
use softwarecontainer.OperatingSystem.{Os}
use softwarecontainer.Lxc.{Lxc, LxcState, ContainerJob, command, function}
use softwarecontainer.ContainerInterface.{Job}
use softwarecontainer.FileToolkit.{Toolkit, write_to_file}
use softwarecontainer.Container.{
  Settings, Container, gateways_dir, through, with_toolkit, regardless, below, created,
}
use softwarecontainer.Container.Running.{
  wait_for_state, wait_until_running, ensure_container_running, set_cgroup_item,
}
use softwarecontainer.Container.Execution.{
  attach, execute, wait_for, execute_sync, execute_command, run_job, mount_device,
  set_environment_variable, default_streams, export_lines,
}
use softwarecontainer.Container.Handle.{HasHandle}

abbrev pub Handled : {S H : Type 0} → Container H × S → Type 0
Handled st = HasHandle st.0

-- A call that keeps the pointer where it has to be.
unfoldable pub Kept : {S H A : Type 0} → M (Container H × S) A → Type 0
Kept m = Keeps Handled m

module _ {S H : Type 0} where
  pub bind-Kept :
      {A B : Type 0} (m : M (Container H × S) A) (f : A → M (Container H × S) B)
      → Kept m
      → ((a : A) → Kept (f a))
      → Kept (m >>= f)
  unfolding Kept
  bind-Kept m f h keep = bind-Keeps Handled m f h keep

  pub if-Kept :
      {A : Type 0} (b : Bool) (m l : M (Container H × S) A)
      → Kept m
      → Kept l
      → Kept (if b then m else l)
  if-Kept true m l h k = h
  if-Kept false m l h k = k

pub pure-Kept : (S H : Type 0) {A : Type 0} (r : Result A) → Kept {S = S} {H = H} (λ s. (r, s))
unfolding Kept
pure-Kept S H r = λ st h. h

module _ {H : Type 0} where
  -- The parts of a container that these calls may change.
  pub toolkit-HasHandle :
      (c : Container H) (tk : Toolkit) → HasHandle c → HasHandle (record c { toolkit = tk })
  unfolding HasHandle
  toolkit-HasHandle c tk h = h

  variables-HasHandle :
      (c : Container H) (v : OrdMap Bytes Bytes)
      → HasHandle c
      → HasHandle (record c { gateway_environment_variables = v })
  unfolding HasHandle
  variables-HasHandle c v h = h

module _ {S H : Type 0} where
  pub choose-Handled :
      {R : Type 0} (b : Bool) (x y : R × (Container H × S))
      → Handled x.1
      → Handled y.1
      → Handled (if b then x else y).1
  choose-Handled true x y h k = h
  choose-Handled false x y h k = k

  regardless-Handled :
      (r : Result Bool × (Container H × S)) → Handled r.1 → Handled (regardless r).1
  regardless-Handled (ok b, st) h = h
  regardless-Handled (throw e, st) h = h

  through-Kept : (call : H → S → Bool × S) → Kept (through call (λ done st. (ok done, st)))
  unfolding Kept through
  through-Kept call (c, s) h =
      let same : (through call (λ done st. (ok done, st)) (c, s)).1.0 ≡ c = ground arith in
      rw same h

pub with_toolkit-Kept :
    {S : Type 0} (H : Type 0) (m : M (Toolkit × S) Bool) → Kept {S = S} {H = H} (with_toolkit m)
unfolding Kept
with_toolkit-Kept H m (c, s) h = toolkit-HasHandle c (m (c.toolkit, s)).1.0 h

module _ {S H : Type 0} (lxc : Lxc S H) where
  wait_for_state_same :
      (target : LxcState) (c : Container H) (s : S) → (wait_for_state lxc target (c, s)).1.0 ≡ c
  unfolding wait_for_state
  wait_for_state_same target c s = ground arith

  pub ensure_container_running-Kept : Kept (ensure_container_running lxc)
  unfolding Kept ensure_container_running wait_until_running wait_for_state
  ensure_container_running-Kept (c, s) h =
      let same : (ensure_container_running lxc (c, s)).1.0 ≡ c = ground arith in rw same h

  attach-Kept :
      (job : ContainerJob) (pid : ℤ) (variables : OrdMap Bytes Bytes) (streams : List ℤ)
      → Kept (attach lxc job pid variables streams)
  unfolding Kept attach
  attach-Kept job pid variables streams (c, s) h =
      let same : (attach lxc job pid variables streams (c, s)).1.0 ≡ c = ground arith in rw same h

  pub execute-Kept :
      (job : ContainerJob) (pid : ℤ) (variables : OrdMap Bytes Bytes) (streams : List ℤ)
      → Kept (execute lxc job pid variables streams)
  unfolding execute
  execute-Kept job pid variables streams =
      bind-Kept (ensure_container_running lxc) _ ensure_container_running-Kept (λ running.
        if-Kept running (attach lxc job pid variables streams) (pure (false, pid))
          (attach-Kept job pid variables streams) (pure-Kept S H (ok _)))

  wait_for-Kept : (pid : ℤ) → Kept (wait_for lxc pid)
  unfolding Kept wait_for
  wait_for-Kept pid (c, s) h = h

  pub execute_sync-Kept : (job : ContainerJob) (pid : ℤ) → Kept (execute_sync lxc job pid)
  unfolding execute_sync
  execute_sync-Kept job pid =
      bind-Kept (execute lxc job pid [] default_streams) _ (execute-Kept job pid [] default_streams)
        (λ (started, pid').
          bind-Kept (wait_for lxc pid') _ (wait_for-Kept pid') (λ status. pure-Kept S H (ok _)))

  pub execute_command-Kept :
      (line : Bytes) (pid : ℤ) (variables : OrdMap Bytes Bytes) (directory : Bytes)
      (streams : List ℤ)
      → Kept (execute_command lxc line pid variables directory streams)
  unfolding execute_command
  execute_command-Kept line pid variables directory streams =
      bind-Kept (ensure_container_running lxc) _ ensure_container_running-Kept go
    where
      parsed :
          (argv : Option (List Bytes))
          → Kept {S = S} {H = H} {A = Bool × ℤ} (elim argv [
            | none ↦ raise shell_error
            | some words ↦ execute lxc (command words directory) pid variables streams
          ])
      parsed none = pure-Kept S H (throw shell_error)
      parsed (some words) = execute-Kept (command words directory) pid variables streams

      go :
          (running : Bool)
          → Kept {S = S} {H = H} {A = Bool × ℤ} (elim running [
            | false ↦ pure (false, pid)
            | true ↦ elim (lxc.shell_parse_argv line) [
              | none ↦ raise shell_error
              | some words ↦ execute lxc (command words directory) pid variables streams
            ]
          ])
      go false = pure-Kept S H (ok (false, pid))
      go true = parsed (lxc.shell_parse_argv line)

  pub run_job-Kept : (job : Job) → Kept (run_job lxc job)
  unfolding run_job
  run_job-Kept job =
      let streams : List ℤ = negsuc 0 ∷ negsuc 0 ∷ negsuc 0 ∷ [] in
      bind-Kept (execute lxc (function job) (pos 0) [] streams) _
        (execute-Kept (function job) (pos 0) [] streams) (λ (_, pid). wait_for-Kept pid)

  pub mount_device-Kept : (path : Bytes) → Kept (mount_device lxc path)
  unfolding Kept mount_device
  mount_device-Kept path st h =
      and_then_keeps Handled (ensure_container_running lxc st)
        (through (λ x. lxc.add_device_node x path) (λ done st'. (ok done, st')))
        (ensure_container_running-Kept st h) (through-Kept (λ x. lxc.add_device_node x path))

  pub set_cgroup_item-Kept : (subsys value : Bytes) → Kept (set_cgroup_item lxc subsys value)
  unfolding set_cgroup_item
  set_cgroup_item-Kept subsys value = through-Kept (λ x. lxc.set_cgroup_item x subsys value)

module _ {S : Type 0} (H : Type 0) (os : Os S) (settings : Settings) where
  pub set_environment_variable-Kept :
      (name value : Bytes) → Kept {S = S} {H = H} (set_environment_variable os settings name value)
  unfolding Kept set_environment_variable
  set_environment_variable-Kept name value (c, s) h =
      let variables : OrdMap Bytes Bytes = insert name value c.gateway_environment_variables in
      let file : M (Toolkit × S) Bool =
        write_to_file os (os.build_path (gateways_dir os settings) (bytes "env"))
          (export_lines variables) in
      let changed : Container H = record c { gateway_environment_variables = variables } in
      choose-Handled (below c.state created) (ok false, (c, s))
        (regardless (with_toolkit file (changed, s))) h
        (regardless-Handled (with_toolkit file (changed, s))
          (with_toolkit-Kept H file (changed, s) (variables-HasHandle c variables h)))
