-- ===== src/SoftwareContainer/States.antt =====
-- The states of a SoftwareContainer under its operations (softwarecontainer.cpp, and the contract
-- in include/softwarecontainerabstractinterface.h).
use softwarecontainer.Common.{ℕ, ◌≡◌, ◌⊎◌, refl, Bool, Option, none, some, List, [], ◌∷◌, arith}
use softwarecontainer.Common.Bytes.{Bytes}
use softwarecontainer.Common.Throwing.{
  Error, Result, M, ok, throw, container_error, invalid_operation_error, invalid_container_error,
}
use softwarecontainer.Json.{Jansson}
use softwarecontainer.GatewayConfig.{GatewayConfiguration}
use softwarecontainer.ContainerInterface.{ContainerInterface}
use softwarecontainer.SoftwareContainer.{
  GatewayInterface, SoftwareContainer, ContainerState, ready, suspended, terminated, invalid,
  start_gateways, configure_gateways, activate_gateways, shutdown, shutdown_gateways, suspend,
  resume, create_job, bind_mount,
}

-- The operations of the interface.
pub data Operation (Json : Type 0) : Type 0 where
  starts_gateways : GatewayConfiguration Json → Operation Json
  suspends resumes creates_job : Operation Json
  shuts_down : ℕ → Operation Json
  bind_mounts : Bytes → Bytes → Bool → Operation Json

abbrev forget : {A S : Type 0} → Result A × S → Result (Unit {0}) × S
forget (ok a, s) = (ok tt, s)
forget (throw e, s) = (throw e, s)

module _ {Json C G : Type 0} ⦃j : Jansson Json⦄ (gateway : GatewayInterface Json C G)
    (container : ContainerInterface C) where
  pub perform : Operation Json → M (SoftwareContainer G C) (Unit {0})
  perform (starts_gateways conf) s = forget (start_gateways gateway conf s)
  perform suspends s = suspend container s
  perform resumes s = resume container s
  perform creates_job s = create_job s
  perform (shuts_down timeout) s = shutdown gateway container timeout s
  perform (bind_mounts host target readonly) s =
      forget (bind_mount container host target readonly s)

  pub perform_all : List (Operation Json) → SoftwareContainer G C → SoftwareContainer G C
  perform_all [] s = s
  perform_all (op ∷ ops) s = perform_all ops (perform op s).1

-- The states between which an operation that returns leads.
abbrev pub Completes : {Json : Type 0} → Operation Json → ContainerState → ContainerState → Type 0
Completes suspends before after = (before ≡ ready) × (after ≡ suspended)
Completes resumes before after = (before ≡ suspended) × (after ≡ ready)
Completes (shuts_down _) before after =
    ((before ≡ ready) ⊎ (before ≡ suspended)) × (after ≡ terminated)
Completes _ before after = (before ≡ ready) × (after ≡ ready)

-- An operation that throws leaves the state, or breaks the container.
abbrev pub Fails : ContainerState → Error → ContainerState → Type 0
Fails before e after =
    (after ≡ before)
    ⊎ (((before ≡ ready) ⊎ (before ≡ suspended)) × (e ≡ container_error) × (after ≡ invalid))

abbrev pub Follows :
    {Json A : Type 0} → Operation Json → ContainerState → Result A → ContainerState → Type 0
Follows op before (ok _) after = Completes op before after
Follows op before (throw e) after = Fails before e after

-- The value that the listeners were told last.
abbrev pub latest : List ContainerState → Option ContainerState
latest [] = none
latest (state ∷ older) = some state

-- The listeners' last news is the state.
abbrev pub IsObserved : {G C : Type 0} → SoftwareContainer G C → Type 0
IsObserved s = latest s.notified ≡ some s.state

forget-Follows :
    {Json G C : Type 0} (op : Operation Json) (before : ContainerState)
    (r : Result Bool × SoftwareContainer G C)
    → Follows op before r.0 r.1.state
    → Follows op before (forget r).0 (forget r).1.state
forget-Follows op before (ok a, s) h = h
forget-Follows op before (throw e, s) h = h

forget-IsObserved :
    {G C : Type 0} (r : Result Bool × SoftwareContainer G C)
    → IsObserved r.1
    → IsObserved (forget r).1
forget-IsObserved (ok a, s) h = h
forget-IsObserved (throw e, s) h = h

module _ {Json C G : Type 0} ⦃j : Jansson Json⦄ (gateway : GatewayInterface Json C G)
    (container : ContainerInterface C) where
  -- The gateways and the container aside, nothing has changed.
  abbrev SameBut : SoftwareContainer G C → SoftwareContainer G C → Type 0
  SameBut s s' = (s'.state ≡ s.state) × (s'.notified ≡ s.notified)

  configure_gateways-SameBut :
      (conf : GatewayConfiguration Json) (s : SoftwareContainer G C)
      → SameBut s (configure_gateways gateway conf s).1
  unfolding configure_gateways
  configure_gateways-SameBut conf s = ground arith

  activate_gateways-SameBut :
      (s : SoftwareContainer G C) → SameBut s (activate_gateways gateway s).1
  unfolding activate_gateways
  activate_gateways-SameBut s = (refl, refl)

  start_gateways-Follows :
      (conf : GatewayConfiguration Json) (s : SoftwareContainer G C)
      → let (r, s') = start_gateways gateway conf s in
        Follows (starts_gateways conf) s.state r s'.state × (IsObserved s → IsObserved s')
  unfolding start_gateways
  start_gateways-Follows conf s = ground (
    arith,
    configure_gateways-SameBut conf s,
    activate_gateways-SameBut (configure_gateways gateway conf s).1,
  )

  shutdown_gateways-SameBut :
      (s : SoftwareContainer G C) → SameBut s (shutdown_gateways gateway s).1
  unfolding shutdown_gateways
  shutdown_gateways-SameBut s = ground arith

  shutdown-Follows :
      (timeout : ℕ) (s : SoftwareContainer G C)
      → let (r, s') = shutdown gateway container timeout s in
        let op : Operation Json = shuts_down timeout in
        Follows op s.state r s'.state × (IsObserved s → IsObserved s')
  unfolding shutdown
  shutdown-Follows timeout s = ground (arith, shutdown_gateways-SameBut s)

  -- Every operation follows one table of states, however the gateways and the container behave:
  -- success leads between the states of the operation, and an exception leaves the state or, from
  -- READY or SUSPENDED with ContainerError, makes it INVALID.
  pub perform-Follows :
      (op : Operation Json) (s : SoftwareContainer G C)
      → let (r, s') = perform gateway container op s in Follows op s.state r s'.state
  unfolding perform suspend resume create_job bind_mount
  perform-Follows (starts_gateways conf) s =
      forget-Follows (starts_gateways conf) s.state (start_gateways gateway conf s)
        (start_gateways-Follows conf s).0
  perform-Follows suspends s = ground arith
  perform-Follows resumes s = ground arith
  perform-Follows creates_job s = ground arith
  perform-Follows (shuts_down timeout) s = (shutdown-Follows timeout s).0
  perform-Follows (bind_mounts host target readonly) s = ground arith

  -- In an invalid container every operation throws InvalidContainerError and changes nothing.
  perform_invalid :
      (op : Operation Json) (s : SoftwareContainer G C)
      → s.state ≡ invalid
      → perform gateway container op s ≡ (throw invalid_container_error, s)
  unfolding perform start_gateways suspend resume create_job shutdown bind_mount
  perform_invalid (starts_gateways conf) s h = ground arith
  perform_invalid suspends s h = ground arith
  perform_invalid resumes s h = ground arith
  perform_invalid creates_job s h = ground arith
  perform_invalid (shuts_down timeout) s h = ground arith
  perform_invalid (bind_mounts host target readonly) s h = ground arith

  -- In a terminated container every operation throws InvalidOperationError and changes nothing.
  perform_terminated :
      (op : Operation Json) (s : SoftwareContainer G C)
      → s.state ≡ terminated
      → perform gateway container op s ≡ (throw invalid_operation_error, s)
  unfolding perform start_gateways suspend resume create_job shutdown bind_mount
  perform_terminated (starts_gateways conf) s h = ground arith
  perform_terminated suspends s h = ground arith
  perform_terminated resumes s h = ground arith
  perform_terminated creates_job s h = ground arith
  perform_terminated (shuts_down timeout) s h = ground arith
  perform_terminated (bind_mounts host target readonly) s h = ground arith

  perform-IsObserved :
      (op : Operation Json) (s : SoftwareContainer G C)
      → IsObserved s
      → IsObserved (perform gateway container op s).1
  unfolding perform suspend resume create_job bind_mount
  perform-IsObserved (starts_gateways conf) s o =
      forget-IsObserved (start_gateways gateway conf s) ((start_gateways-Follows conf s).1 o)
  perform-IsObserved suspends s o = ground arith
  perform-IsObserved resumes s o = ground arith
  perform-IsObserved creates_job s o = ground arith
  perform-IsObserved (shuts_down timeout) s o = (shutdown-Follows timeout s).1 o
  perform-IsObserved (bind_mounts host target readonly) s o = ground arith

  -- If the value that the listeners were told last is the state, it is so after any history.
  perform_all-IsObserved :
      (ops : List (Operation Json)) (s : SoftwareContainer G C)
      → IsObserved s
      → IsObserved (perform_all gateway container ops s)
  unfolding perform_all
  perform_all-IsObserved [] s o = o
  perform_all-IsObserved (op ∷ ops) s o = perform_all-IsObserved ops _ (perform-IsObserved op s o)

-- An exception of the container's `suspend` passes through and leaves the state READY.
suspend_exception :
    {G C : Type 0} (container : ContainerInterface C) (s : SoftwareContainer G C) (e : Error)
    (c : C)
    → s.state ≡ ready
    → container.suspend s.container ≡ (throw e, c)
    → suspend container s ≡ (throw e, record s { container = c })
unfolding suspend
suspend_exception container s e c r h = ground arith
