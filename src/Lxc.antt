-- ===== src/Lxc.antt =====
-- The functions of liblxc and of the processes that libsoftwarecontainer/src/container.cpp calls,
-- as a record of operations over a state of the system. They are no code of the repository: the
-- model takes any such record. `H` is the type of pointers to an `lxc_container`.
use softwarecontainer.Common.{ℕ, Bool, Option, List}
use softwarecontainer.Common.Bytes.{Bytes}
use softwarecontainer.Common.Int.{ℤ}
use softwarecontainer.ContainerInterface.{Job}

-- The states of a container of LXC that the code names.
pub data LxcState : Type 0 where
  stopped starting running stopping aborting freezing frozen thawed : LxcState

-- The functions that container.cpp runs in a container.
pub data ContainerJob : Type 0 where
  -- Gives -1 if /proc/mounts has the path, and otherwise 0.
  check_mount_point : Bytes → ContainerJob
  -- `createParentDirectories`
  create_parent_directories : Bytes → ContainerJob
  touch : Bytes → ContainerJob
  move_mount : Bytes → Bytes → ContainerJob
  remount_read_only : Bytes → ContainerJob
  -- `chdir` to the working directory if there is one, and `execvp`.
  command : List Bytes → Bytes → ContainerJob
  -- A function that a gateway gives.
  function : Job → ContainerJob

pub record Lxc (S H : Type 0) : Type 0 where
  -- `lxc_container_new`: no value stands for the null pointer.
  pub new : Bytes → S → Option H × S
  pub put : H → S → S
  pub is_defined : H → S → Bool
  pub load_config : H → Bytes → S → Bool × S
  pub create : H → S → Bool × S
  pub is_running : H → S → Bool
  pub state_is : H → LxcState → S → Bool
  pub wait : H → LxcState → ℕ → S → Bool × S
  pub start : H → S → Bool × S
  pub init_pid : H → S → ℤ
  pub stop : H → S → Bool × S
  pub shutdown : H → ℕ → S → Bool × S
  pub destroy : H → S → Bool × S
  pub freeze : H → S → Bool × S
  pub unfreeze : H → S → Bool × S
  pub set_cgroup_item : H → Bytes → Bytes → S → Bool × S
  pub add_device_node : H → Bytes → S → Bool × S
  -- The function, the variables and the file descriptors; the pid of the new process, if any.
  pub attach : H → ContainerJob → List Bytes → List ℤ → S → Option ℤ × S
  -- `waitpid` and the exit status; `kill` with SIGTERM; `setenv`; `umount`.
  pub wait_for_process_termination : ℤ → S → ℤ × S
  pub kill : ℤ → S → S
  pub setenv : Bytes → Bytes → S → S
  pub umount : Bytes → S → Bool × S
  -- `Glib::shell_parse_argv`: no value stands for an exception.
  pub shell_parse_argv : Bytes → Option (List Bytes)
  -- The path of the containers (`lxc.lxcpath`).
  pub root : Bytes
