-- ===== src/Agent.antt =====
-- agent/src/softwarecontaineragent.cpp: the containers of the agent, and their ids.
-- A container is shared with nobody else, so the map holds the containers themselves. `id_pool` is
-- the vector of ids from its back to its front. Logging, profiling and the D-Bus side are left out.
pub mod Ids
pub mod Creation
pub mod Construction
pub mod Requests
use softwarecontainer.Common.{
  ℕ, suc, Bool, true, false, Option, none, some, List, [], ◌∷◌, ◌++◌, not, if◌then◌else◌, ltb,
}
use softwarecontainer.Common.Bytes.{Bytes}
use softwarecontainer.Common.Int.{ℤ, pos, negsuc, pos_part, int32_max, ltb_ℤ, leb_ℤ}
use softwarecontainer.Common.OrdMap.{
  OrdMap, keys, lookup, insert, erase, contains, nat_key, bytes_key,
}
use softwarecontainer.Common.Throwing.{
  M, Result, ok, throw, software_container_error, undefined, ◌>>=◌, ◌>>◌, pure, raise, raise_if,
  gets, modify,
}
use softwarecontainer.Json.{Jansson}
use softwarecontainer.GatewayConfig.{GatewayConfiguration, append, is_empty_config}
use softwarecontainer.Capabilities.{ConfigStore, configs, configs_by_id}
use softwarecontainer.ContainerOptions.{
  SoftwareContainerConfig, DynamicContainerOptions, new_options, to_config, parse,
}

-- include/softwarecontainerabstractinterface.h: a container, as the agent uses it. `start_job`
-- stands for what `execute` does with a CommandJob: output file, environment, working directory,
-- `start()` and `pid()`; no value is a job that could not be started.
pub record SoftwareContainerInterface (Json SC : Type 0) : Type 0 where
  pub start_gateways : GatewayConfiguration Json → M SC Bool
  pub create_command_job : Bytes → M SC (Unit {0})
  pub start_job : Bytes → Bytes → Bytes → OrdMap Bytes Bytes → M SC (Option ℕ)
  pub shutdown : ℕ → M SC (Unit {0})
  pub suspend : M SC (Unit {0})
  pub resume : M SC (Unit {0})
  pub bind_mount : Bytes → Bytes → Bool → M SC Bool
  pub previously_configured : SC → Bool

pub record Agent (Json SC : Type 0) : Type 0 where
  pub containers : OrdMap ℕ SC
  pub id_pool : List ℕ
  pub options : DynamicContainerOptions
  pub container_config : SoftwareContainerConfig
  pub default_config_store : ConfigStore Json
  pub filtered_config_store : ConfigStore Json

-- The state part of the constructor: the pool holds 0.
pub new_agent :
    {Json SC : Type 0}
    → ℕ
    → SoftwareContainerConfig
    → ConfigStore Json
    → ConfigStore Json
    → Agent Json SC
new_agent fresh_size conf default_store filtered_store = record {
  containers = [];
  id_pool = 0 ∷ [];
  options = new_options fresh_size;
  container_config = conf;
  default_config_store = default_store;
  filtered_config_store = filtered_store;
}

module _ {Json SC : Type 0} where
  unfoldable pub assert_container_exists : ℤ → M (Agent Json SC) (Unit {0})
  assert_container_exists id = do
    raise_if (leb_ℤ (pos int32_max) id) software_container_error
    raise_if (ltb_ℤ id (pos 0)) software_container_error
    known ← gets (λ a. contains (pos_part id) a.containers)
    raise_if (not known) software_container_error

  pub list_containers : Agent Json SC → List ℕ
  list_containers a = keys a.containers

  unfoldable pub delete_container : ℤ → M (Agent Json SC) (Unit {0})
  delete_container id = do
    assert_container_exists id
    modify (λ a. record a {
      containers = erase (pos_part id) a.containers;
      id_pool = pos_part id ∷ a.id_pool;
    })

  -- The back of the pool; index 0 counts on when it is the only id left.
  unfoldable pub find_suitable_id : M (Agent Json SC) ℕ
  find_suitable_id a = elim (a.id_pool) [
    | [] ↦ (throw undefined, a)
    | id ∷ rest ↦ elim rest [
      | [] ↦
          if ltb id int32_max
          then (ok id, record a { id_pool = suc id ∷ [] })
          else (throw undefined, a)
      | other ∷ rest' ↦ (ok id, record a { id_pool = other ∷ rest' })
    ]
  ]

  -- `getContainer`, and what is then done with the container, which the map shares.
  abbrev pub run_in : {R : Type 0} → ℕ → M SC R → Option SC → M (Agent Json SC) R
  run_in id m none a = (throw undefined, a)
  run_in id m (some c) a =
      let (r, c') = m c in (r, record a { containers = insert id c' a.containers })

  unfoldable pub with_container : {R : Type 0} → ℤ → M SC R → M (Agent Json SC) R
  with_container id m = do
    assert_container_exists id
    found ← gets (λ a. lookup (pos_part id) a.containers)
    run_in (pos_part id) m found

module _ {Json SC : Type 0} ⦃j : Jansson Json⦄
    (container : SoftwareContainerInterface Json SC) where
  -- `m_factory->createContainer` may throw; `fresh_size` as in ContainerOptions.antt.
  unfoldable pub create_container :
      (ℕ → SoftwareContainerConfig → Result SC) → ℕ → Bytes → M (Agent Json SC) ℕ
  create_container create fresh_size conf = do
    options ← λ a.
        (let (r, options) = parse Json fresh_size conf a.options in
          (r, record a { options = options }))
    container_config ← gets (λ a. to_config options a.container_config)
    id ← find_suitable_id
    c ← λ a. (create id container_config, a)
    modify (λ a. record a { containers = insert id c a.containers })
    pure id

  unfoldable pub update_gateway_configs : ℤ → GatewayConfiguration Json → M (Agent Json SC) Bool
  update_gateway_configs id conf = with_container id (container.start_gateways conf)

  -- The default capabilities, for a container that has none yet.
  unfoldable pub configure_defaults : ℤ → M (Agent Json SC) (Unit {0})
  configure_defaults id = do
    known ← with_container id (gets container.previously_configured)
    λ a. elim known [
      | true ↦ (ok tt, a)
      | false ↦
          (do
            done ← update_gateway_configs id (configs a.default_config_store)
            raise_if (not done) software_container_error)
            a
    ]

  abbrev pub or_raise : {R : Type 0} → Option R → M (Agent Json SC) R
  or_raise none = raise software_container_error
  or_raise (some r) = pure r

  -- The process listener is left out.
  unfoldable pub execute : ℤ → Bytes → Bytes → Bytes → OrdMap Bytes Bytes → M (Agent Json SC) ℕ
  execute id cmd_line working_directory output_file env = do
    assert_container_exists id
    configure_defaults id
    with_container id (container.create_command_job cmd_line)
    pid ← with_container id (container.start_job cmd_line working_directory output_file env)
    or_raise pid

  unfoldable pub shutdown_container : ℤ → M (Agent Json SC) (Unit {0})
  shutdown_container id = do
    timeout ← gets (λ a. a.container_config.container_shutdown_timeout)
    with_container id (container.shutdown timeout)
    delete_container id

  unfoldable pub suspend_container : ℤ → M (Agent Json SC) (Unit {0})
  suspend_container id = with_container id container.suspend

  unfoldable pub resume_container : ℤ → M (Agent Json SC) (Unit {0})
  resume_container id = with_container id container.resume

  unfoldable pub bind_mount : ℤ → Bytes → Bytes → Bool → M (Agent Json SC) (Unit {0})
  bind_mount id path_in_host path_in_container read_only = do
    done ← with_container id (container.bind_mount path_in_host path_in_container read_only)
    raise_if (not done) software_container_error

  unfoldable pub set_capabilities : ℤ → List Bytes → M (Agent Json SC) (Unit {0})
  set_capabilities id [] a = (ok tt, a)
  set_capabilities id (name ∷ names) a =
      let filtered = configs_by_id a.filtered_config_store (name ∷ names) in
      let wanted = append filtered (configs a.default_config_store) in
      if is_empty_config filtered
      then (throw software_container_error, a)
      else (do
        done ← update_gateway_configs id wanted.1
        raise_if (not done) software_container_error)
          a
