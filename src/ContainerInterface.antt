-- ===== src/ContainerInterface.antt =====
-- containerabstractinterface.h: what the gateways and SoftwareContainer ask of a container, as a
-- record of operations over the state of a container. `run_job` stands for a FunctionJob that is
-- started and waited for (jobs/functionjob.cpp, jobs/jobabstract.cpp): it gives the exit status.
use softwarecontainer.Common.{ℕ, Bool, List}
use softwarecontainer.Common.Bytes.{Bytes}
use softwarecontainer.Common.Int.{ℤ}
use softwarecontainer.Common.Throwing.{M}

-- The functions that gateways run inside the container.
pub data Job : Type 0 where
  chmod : Bytes → ℤ → Job
  -- The functions of NetworkGateway: `up` with an address and a netmask, the default gateway, `down`,
  -- and `applyRules`, which inserts commands until one cannot be inserted.
  bring_up_ethernet : ℕ → ℕ → Job
  set_default_gateway : Bytes → Job
  take_down_ethernet : Job
  insert_commands : List Bytes → Job

pub record ContainerInterface (C : Type 0) : Type 0 where
  pub initialize : M C Bool
  pub create : M C Bool
  pub start : M C Bool
  pub suspend : M C Bool
  pub resume : M C Bool
  pub destroy : ℕ → M C Bool
  pub mount_device : Bytes → M C Bool
  pub bind_mount_in_container : Bytes → Bytes → Bool → M C Bool
  pub set_environment_variable : Bytes → Bytes → M C Bool
  pub set_cgroup_item : Bytes → Bytes → M C Bool
  pub run_job : Job → M C ℤ
