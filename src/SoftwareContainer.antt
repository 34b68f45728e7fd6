-- ===== src/SoftwareContainer.antt =====
-- libsoftwarecontainer/src/softwarecontainer.cpp: one container with its gateways.
-- The gateways and the container are interfaces. `notified` holds what setValueNotify has told a
-- listener that was added first (include/observableproperty.h), the newest value first.
pub mod States
pub mod Start
pub mod Restart
pub mod OverLxc
pub mod Preparation
use softwarecontainer.Common.{
  ℕ, Bool, true, false, Option, none, some, List, [], ◌∷◌, ◌&&◌, ◌||◌, not, if◌then◌else◌, any,
}
use softwarecontainer.Common.Bytes.{Bytes, ◌==◌}
use softwarecontainer.Common.Throwing.{
  M, Result, ok, throw, gateway_error, container_error, invalid_operation_error,
  invalid_container_error, software_container_error, ◌>>=◌, ◌>>◌, pure, raise, raise_if, gets,
  modify, and_then, prepend, for_each,
}
use softwarecontainer.Json.{Jansson}
use softwarecontainer.GatewayConfig.{GatewayConfiguration, config, ids}
use softwarecontainer.ContainerInterface.{ContainerInterface}

-- The virtual methods of a gateway, as SoftwareContainer calls them.
pub record GatewayInterface (Json C G : Type 0) : Type 0 where
  pub id : G → Bytes
  pub set_config : Json → M G Bool
  pub activate : M (G × C) Bool
  pub teardown : M (G × C) Bool
  pub is_configured : G → Bool
  pub is_activated : G → Bool

pub data ContainerState : Type 0 where
  ready suspended terminated invalid : ContainerState

abbrev pub is : ContainerState → ContainerState → Bool
is ready ready = true
is suspended suspended = true
is terminated terminated = true
is invalid invalid = true
is _ _ = false

pub record SoftwareContainer (G C : Type 0) : Type 0 where
  pub state : ContainerState
  pub notified : List ContainerState
  pub gateways : List G
  pub container : C
  pub previously_configured : Bool
  pub shutdown_timeout : ℕ

module _ {G C : Type 0} where
  -- `m_containerState.setValueNotify(value)`
  abbrev pub set_value_notify : ContainerState → M (SoftwareContainer G C) (Unit {0})
  set_value_notify value = modify (λ s. record s { state = value; notified = value ∷ s.notified })

  abbrev pub assert_valid_state : M (SoftwareContainer G C) (Unit {0})
  assert_valid_state s = raise_if (is s.state invalid) invalid_container_error s

  -- The guard of the operations that ask for one state.
  abbrev pub require : ContainerState → M (SoftwareContainer G C) (Unit {0})
  require state s = raise_if (not (is s.state state)) invalid_operation_error s

  abbrev pub on_container : {A : Type 0} → M C A → M (SoftwareContainer G C) A
  on_container m s = let (r, c) = m s.container in (r, record s { container = c })

  abbrev pub on_gateways :
      {A : Type 0} → (List G → C → Result A × (List G × C)) → M (SoftwareContainer G C) A
  on_gateways m s =
      let (r, (gs, c)) = m s.gateways s.container in (r, record s { gateways = gs; container = c })

  -- What follows an operation of the container that failed or succeeded.
  abbrev pub settle : Bool → ContainerState → M (SoftwareContainer G C) (Unit {0})
  settle true state = set_value_notify state
  settle false state = set_value_notify invalid >> raise container_error

  -- The guards of `createFunctionJob` and `createCommandJob`, which then make a job object.
  unfoldable pub create_job : M (SoftwareContainer G C) (Unit {0})
  create_job = assert_valid_state >> require ready

  -- The status of two parts of a loop that goes on.
  abbrev pub both : Bool → Result Bool × (List G × C) → Result Bool × (List G × C)
  both done (ok status, s) = (ok (done && status), s)
  both done (throw e, s) = (throw e, s)

module _ {Json C G : Type 0} ⦃j : Jansson Json⦄ (gateway : GatewayInterface Json C G) where
  -- Whether every id of the configuration is that of a gateway.
  unfoldable pub all_known : List Bytes → List G → Bool
  all_known [] gateways = true
  all_known (id ∷ rest) gateways = any (λ g. id == gateway.id g) gateways && all_known rest gateways

  unfoldable pub configure_gateway : GatewayConfiguration Json → M (G × C) Bool
  configure_gateway conf (g, c) = elim (config (gateway.id g) conf) [
    | none ↦ (ok true, (g, c))
    | some json ↦ let (r, g') = gateway.set_config json g in (r, (g', c))
  ]

  unfoldable pub configure_gateways : GatewayConfiguration Json → M (SoftwareContainer G C) Bool
  configure_gateways conf = do
    assert_valid_state
    known ← gets (λ s. all_known (ids conf) s.gateways)
    raise_if (not known) gateway_error
    on_gateways (for_each (configure_gateway conf))

  unfoldable pub activate_gateway : M (G × C) Bool
  activate_gateway (g, c) = elim (gateway.is_configured g) [
    | true ↦ gateway.activate (g, c)
    | false ↦ (ok true, (g, c))
  ]

  unfoldable pub activate_gateways : M (SoftwareContainer G C) Bool
  activate_gateways = on_gateways (for_each activate_gateway)

  unfoldable pub start_gateways : GatewayConfiguration Json → M (SoftwareContainer G C) Bool
  start_gateways conf = do
    assert_valid_state
    require ready
    and_then (configure_gateways conf)
        (and_then activate_gateways (λ s. (ok true, record s { previously_configured = true })))

  -- The loop of `shutdownGateways`, which goes on after a gateway that cannot be torn down, and is
  -- left by an exception.
  unfoldable pub teardown_gateways : List G → C → Result Bool × (List G × C)
  teardown_gateways [] c = (ok true, ([], c))
  teardown_gateways (g ∷ rest) c = elim (gateway.is_activated g) [
    | false ↦ prepend g (teardown_gateways rest c)
    | true ↦
        let (r, (g', c')) = gateway.teardown (g, c) in
        elim r [
          | ok done ↦ prepend g' (both done (teardown_gateways rest c'))
          | throw e ↦ (throw e, (g' ∷ rest, c'))
        ]
  ]

  unfoldable pub shutdown_gateways : M (SoftwareContainer G C) Bool
  shutdown_gateways = do
    status ← on_gateways teardown_gateways
    modify (λ s. record s { gateways = [] })
    pure status

  -- `shutdown(timeout)`, which ignores whether all gateways could be torn down.
  unfoldable pub shutdown : ContainerInterface C → ℕ → M (SoftwareContainer G C) (Unit {0})
  shutdown container timeout = do
    assert_valid_state
    state ← gets (λ s. s.state)
    raise_if (not (is state ready) && not (is state suspended)) invalid_operation_error
    shutdown_gateways
    done ← on_container (container.destroy timeout)
    settle done terminated

  -- `shutdown()`
  pub shutdown_default : ContainerInterface C → M (SoftwareContainer G C) (Unit {0})
  shutdown_default container s = shutdown container s.shutdown_timeout s

module _ {C G : Type 0} (container : ContainerInterface C) where
  unfoldable pub suspend : M (SoftwareContainer G C) (Unit {0})
  suspend = do
    assert_valid_state
    require ready
    done ← on_container container.suspend
    settle done suspended

  unfoldable pub resume : M (SoftwareContainer G C) (Unit {0})
  resume = do
    assert_valid_state
    require suspended
    done ← on_container container.resume
    settle done ready

  unfoldable pub bind_mount : Bytes → Bytes → Bool → M (SoftwareContainer G C) Bool
  bind_mount path_on_host path_in_container readonly = do
    assert_valid_state
    require ready
    on_container (container.bind_mount_in_container path_on_host path_in_container readonly)

  -- `start`, and `init` with the gateways that the build enables, in their order.
  unfoldable pub start : M (SoftwareContainer G C) Bool
  start =
      and_then (on_container container.initialize)
        (and_then (on_container container.create) (on_container container.start))

  unfoldable pub init : List G → M (SoftwareContainer G C) Bool
  init enabled = and_then start (λ s. (ok true, record s { gateways = enabled }))

  -- The end of the constructor, once the file system and the network are prepared.
  unfoldable pub construct : List G → M (SoftwareContainer G C) (Unit {0})
  construct enabled = do
    done ← init enabled
    raise_if (not done) software_container_error
    set_value_notify ready
