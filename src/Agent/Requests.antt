-- ===== src/Agent/Requests.antt =====
-- The agent through any history of requests (softwarecontaineragent.cpp).
use softwarecontainer.Common.{
  Bool-cases, not, ℕ, true, false, Bool, Option, none, some, List, [], ◌∷◌, inl, inr,
}
use softwarecontainer.Common.Bytes.{Bytes}
use softwarecontainer.Common.Int.{ℤ}
use softwarecontainer.Common.OrdMap.{OrdMap, nat_key}
use softwarecontainer.Common.Throwing.{
  M, Result, ok, throw, software_container_error, Keeps, bind-Keeps, gets, pure, raise_if, ◌>>=◌,
}
use softwarecontainer.Json.{Jansson}
use softwarecontainer.GatewayConfig.{GatewayConfiguration, append, is_empty_config}
use softwarecontainer.Capabilities.{ConfigStore, configs, configs_by_id}
use softwarecontainer.ContainerOptions.{SoftwareContainerConfig}
use softwarecontainer.Agent.{
  Agent, SoftwareContainerInterface, new_agent, create_container, delete_container, with_container,
  update_gateway_configs, configure_defaults, execute, shutdown_container, suspend_container,
  resume_container, bind_mount, set_capabilities, assert_container_exists, or_raise,
}
use softwarecontainer.Agent.Creation.{Created, create_container-Created}
use softwarecontainer.Agent.Ids.{
  new_agent-HasIds, HasIds, delete_container-HasIds, with_container-HasIds, assert_cases,
}

-- What the D-Bus interface asks of the agent.
pub data Request : Type 0 where
  creates : Bytes → Request
  executes : ℤ → Bytes → Bytes → Bytes → OrdMap Bytes Bytes → Request
  shuts_down suspends resumes : ℤ → Request
  bind_mounts : ℤ → Bytes → Bytes → Bool → Request
  sets_capabilities : ℤ → List Bytes → Request

module _ {Json SC : Type 0} ⦃j : Jansson Json⦄ (container : SoftwareContainerInterface Json SC)
    (create : ℕ → SoftwareContainerConfig → Result SC) (fresh_size : ℕ) where
  -- One request, the created id left out.
  pub step : Request → M (Agent Json SC) (Unit {0})
  step (creates conf) = create_container container create fresh_size conf >>= λ id. pure tt
  step (executes id cmd_line directory output env) =
      execute container id cmd_line directory output env >>= λ pid. pure tt
  step (shuts_down id) = shutdown_container container id
  step (suspends id) = suspend_container container id
  step (resumes id) = resume_container container id
  step (bind_mounts id host inside read_only) = bind_mount container id host inside read_only
  step (sets_capabilities id names) = set_capabilities container id names

  pub run : List Request → Agent Json SC → Agent Json SC
  run [] a = a
  run (request ∷ rest) a = run rest (step request a).1

  abbrev Ids : Agent Json SC → Type 0
  Ids a = HasIds a

  abbrev refuse : Bool → M (Agent Json SC) (Unit {0})
  refuse done = raise_if (not done) software_container_error

  assert-Keeps : (id : ℤ) → Keeps Ids (assert_container_exists id)
  assert-Keeps id a h = elim (assert_cases id a) [ inl e ↦ rw e h | inr (e, _, _, _) ↦ rw e h ]

  HasIds-Created : (a : Agent Json SC) (r : Result ℕ × Agent Json SC) → Created a r → HasIds r.1
  HasIds-Created a (ok id, a') c = c.0
  HasIds-Created a (throw e, a') c = c.0

  create-Keeps : (conf : Bytes) → Keeps Ids (create_container container create fresh_size conf)
  create-Keeps conf a h =
      HasIds-Created a _ (create_container-Created container create fresh_size conf a h)

  update-Keeps :
      (id : ℤ) (conf : GatewayConfiguration Json)
      → Keeps Ids (update_gateway_configs container id conf)
  unfolding update_gateway_configs
  update-Keeps id conf = with_container-HasIds id (container.start_gateways conf)

  with-Keeps : {R : Type 0} → (id : ℤ) (m : M SC R) → Keeps Ids (with_container id m)
  with-Keeps id m a h = with_container-HasIds id m a h

  abbrev defaults : ℤ → Bool → M (Agent Json SC) (Unit {0})
  defaults id known a = elim known [
    | true ↦ (ok tt, a)
    | false ↦ (update_gateway_configs container id (configs a.default_config_store) >>= refuse) a
  ]

  known-Keeps : (id : ℤ) (known : Bool) → Keeps Ids (defaults id known)
  known-Keeps id true a h = h
  known-Keeps id false a h =
      let conf = configs a.default_config_store in
      bind-Keeps Ids (update_gateway_configs container id conf) refuse (update-Keeps id conf)
        (λ done b k. k) a h

  defaults-Keeps : (id : ℤ) → Keeps Ids (configure_defaults container id)
  unfolding configure_defaults
  defaults-Keeps id =
      bind-Keeps Ids (with_container id (gets container.previously_configured)) (defaults id)
        (with-Keeps id (gets container.previously_configured)) (known-Keeps id)

  raise-Keeps : (pid : Option ℕ) → Keeps Ids (or_raise container pid)
  raise-Keeps none a h = h
  raise-Keeps (some n) a h = h

  execute-Keeps :
      (id : ℤ) (cmd_line directory output : Bytes) (env : OrdMap Bytes Bytes)
      → Keeps Ids (execute container id cmd_line directory output env)
  unfolding execute
  execute-Keeps id cmd_line directory output env =
      bind-Keeps Ids (assert_container_exists id) (λ u. ready) (assert-Keeps id)
        (λ u.
          bind-Keeps Ids (configure_defaults container id) (λ u. issue) (defaults-Keeps id)
            (λ u.
              bind-Keeps Ids (with_container id command) (λ u. launch) (with-Keeps id command)
                (λ u.
                  bind-Keeps Ids (with_container id start) (or_raise container)
                    (with-Keeps id start) raise-Keeps)))
    where
      command : M SC (Unit {0})
      command = container.create_command_job cmd_line

      start : M SC (Option ℕ)
      start = container.start_job cmd_line directory output env

      launch : M (Agent Json SC) ℕ
      launch = with_container id start >>= or_raise container

      issue : M (Agent Json SC) ℕ
      issue = with_container id command >>= λ u. launch

      ready : M (Agent Json SC) ℕ
      ready = configure_defaults container id >>= λ u. issue

  bind_mount-Keeps :
      (id : ℤ) (host inside : Bytes) (read_only : Bool)
      → Keeps Ids (bind_mount container id host inside read_only)
  unfolding bind_mount
  bind_mount-Keeps id host inside read_only =
      bind-Keeps Ids (with_container id (container.bind_mount host inside read_only)) refuse
        (with-Keeps id (container.bind_mount host inside read_only)) (λ done a h. h)

  shutdown-Keeps : (id : ℤ) → Keeps Ids (shutdown_container container id)
  unfolding shutdown_container
  shutdown-Keeps id a h =
      bind-Keeps Ids
        (with_container id (container.shutdown a.container_config.container_shutdown_timeout))
        (λ u. delete_container id)
        (with-Keeps id (container.shutdown a.container_config.container_shutdown_timeout))
        (λ u b k. delete_container-HasIds id b k) a h

  set-Keeps : (id : ℤ) (names : List Bytes) → Keeps Ids (set_capabilities container id names)
  unfolding set_capabilities
  set-Keeps id [] a h = h
  set-Keeps id (name ∷ names) a h =
      elim (Bool-cases (is_empty_config (configs_by_id a.filtered_config_store (name ∷ names)))) [
        | inl e ↦ rw e h
        | inr e ↦
            let wanted =
              (append (configs_by_id a.filtered_config_store (name ∷ names))
                (configs a.default_config_store)).1 in
            rw e (
              bind-Keeps Ids (update_gateway_configs container id wanted) refuse
                (update-Keeps id wanted) (λ done b k. k) a h)
      ]

  step-HasIds : (request : Request) → Keeps Ids (step request)
  unfolding step suspend_container resume_container
  step-HasIds (creates conf) =
      bind-Keeps Ids (create_container container create fresh_size conf) (λ id. pure tt)
        (create-Keeps conf) (λ id a h. h)
  step-HasIds (executes id cmd_line directory output env) =
      bind-Keeps Ids (execute container id cmd_line directory output env) (λ pid. pure tt)
        (execute-Keeps id cmd_line directory output env) (λ pid a h. h)
  step-HasIds (shuts_down id) = shutdown-Keeps id
  step-HasIds (suspends id) = with-Keeps id container.suspend
  step-HasIds (resumes id) = with-Keeps id container.resume
  step-HasIds (bind_mounts id host inside read_only) = bind_mount-Keeps id host inside read_only
  step-HasIds (sets_capabilities id names) = set-Keeps id names

  run-HasIds : (requests : List Request) (a : Agent Json SC) → HasIds a → HasIds (run requests a)
  unfolding run
  run-HasIds [] a h = h
  run-HasIds (request ∷ rest) a h = run-HasIds rest _ (step-HasIds request a h)

  -- Through any history of requests to a new agent, whatever the containers do, no id is both in
  -- use and in the pool, the ids that were given back are distinct, and the pool is not empty.
  pub run_new-HasIds :
      (size : ℕ) (conf : SoftwareContainerConfig) (default_store filtered_store : ConfigStore Json)
      (requests : List Request)
      → HasIds (run requests (new_agent size conf default_store filtered_store))
  run_new-HasIds size conf default_store filtered_store requests =
      run-HasIds requests (new_agent size conf default_store filtered_store)
        (new_agent-HasIds SC size conf default_store filtered_store)
