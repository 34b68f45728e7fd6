-- ===== src/Tests/Agents.antt =====
-- Runs of the theorems on the agent.
use softwarecontainer.Common.{true, refl, arith, ℕ, ◌≡◌, Bool, false, List, [], ◌∷◌}
use softwarecontainer.Common.Bytes.{bytes}
use softwarecontainer.Common.Int.{pos}
use softwarecontainer.Common.OrdMap.{erase, lookup, nat_key}
use softwarecontainer.Common.Throwing.{Result, ok}
use softwarecontainer.ContainerOptions.{SoftwareContainerConfig}
use softwarecontainer.Agent.{delete_container, Agent, new_agent, find_suitable_id, create_container}
use softwarecontainer.Agent.Ids.{
  find_suitable_id-delete_container, HasIds, used, new_agent-HasIds, new_agent_unused,
}
use softwarecontainer.Agent.Creation.{Created, create_container-Created}
use softwarecontainer.Agent.Requests.{Request, creates, executes, shuts_down, run, run_new-HasIds}
use softwarecontainer.Tests.Values.{Value, value_jansson, simple}

abbrev agent_config : SoftwareContainerConfig
agent_config = record {
  should_create_bridge = false;
  bridge_device = bytes "lxcbr0";
  bridge_ip_address = bytes "10.0.3.1";
  bridge_netmask = bytes "255.255.255.0";
  bridge_netmask_bit_length = pos 24;
  bridge_net_addr = bytes "10.0.3.0";
  container_config_path = bytes "/etc/softwarecontainer/softwarecontainer.conf";
  shared_mounts_dir = bytes "/tmp/container";
  container_shutdown_timeout = 2;
  write_buffer_enabled = false;
  temporary_file_system_write_buffer_enableds = false;
  temporary_file_system_size = 0;
}

abbrev fresh_agent : Agent Value Bool
fresh_agent = new_agent 0 agent_config [] []

fresh_agent-HasIds : HasIds fresh_agent
fresh_agent-HasIds = new_agent-HasIds Bool 0 agent_config [] []

abbrev create : ℕ → SoftwareContainerConfig → Result Bool
create id conf = ok false

abbrev history : List Request
history = creates (bytes "[]") ∷ executes (pos 0) (bytes "ls") [] [] [] ∷ shuts_down (pos 0) ∷ []

run_new-HasIds_example : HasIds (run simple create 0 history fresh_agent)
run_new-HasIds_example = run_new-HasIds simple create 0 0 agent_config [] [] history

create_container-Created_example :
    Created fresh_agent (create_container simple create 0 (bytes "[]") fresh_agent)
create_container-Created_example =
    create_container-Created simple create 0 (bytes "[]") fresh_agent fresh_agent-HasIds

unused : used fresh_agent 7 ≡ false
unused = new_agent_unused Bool 0 agent_config [] [] 7

-- An agent with one container, 3.
abbrev busy_agent : Agent Value Bool
busy_agent = record fresh_agent { containers = (3, false) ∷ []; id_pool = 4 ∷ [] }

in_use : used busy_agent 3 ≡ true
unfolding lookup
in_use = refl

three : (k : ℕ) → used busy_agent k ≡ true → k ≡ 3
unfolding lookup
three k u = ground arith

busy_agent-HasIds : HasIds busy_agent
busy_agent-HasIds = record {
  is_pool = refl;
  apart = λ k u. let e = three k u in (omega arith, ground arith);
}

find_suitable_id-delete_container_example :
    find_suitable_id (delete_container (pos 3) busy_agent).1
    ≡ (ok 3, record busy_agent { containers = erase 3 busy_agent.containers })
find_suitable_id-delete_container_example =
    find_suitable_id-delete_container 3 busy_agent busy_agent-HasIds (ground arith) in_use
