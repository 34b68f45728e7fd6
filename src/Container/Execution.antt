-- ===== src/Container/Execution.antt =====
-- libsoftwarecontainer/src/container.cpp: running functions and commands in the container, the
-- variables that gateways set, and devices.
use softwarecontainer.Common.{
  Bool, true, false, ◌&&◌, Option, none, some, List, [], ◌∷◌, ◌++◌, if◌then◌else◌, map,
}
use softwarecontainer.Common.Bytes.{Bytes, bytes}
use softwarecontainer.Common.Int.{ℤ, pos, negsuc, eqb_ℤ}
use softwarecontainer.Common.OrdMap.{OrdMap, lookup, insert, bytes_key}
use softwarecontainer.Common.Throwing.{
  M, ok, throw, ◌>>=◌, pure, raise, continue, shell_error, undefined,
}
use softwarecontainer.OperatingSystem.{Os}
use softwarecontainer.ContainerInterface.{Job}
use softwarecontainer.Lxc.{Lxc, ContainerJob, command, function}
use softwarecontainer.FileToolkit.{write_to_file}
use softwarecontainer.Container.{
  created, below, Settings, Container, gateways_dir, through, with_toolkit, regardless,
}
use softwarecontainer.Container.Running.{ensure_container_running}

-- A value of the argument before one of a gateway.
abbrev pub value_or : Bytes → Option Bytes → Bytes
value_or value none = value
value_or _ (some value) = value

-- The loop of `execute` over the variables of the gateways, with `actualVariables`.
unfoldable pub add_variables :
    OrdMap Bytes Bytes → OrdMap Bytes Bytes → OrdMap Bytes Bytes → OrdMap Bytes Bytes
add_variables variables [] actual = actual
add_variables variables ((name, value) ∷ rest) actual =
    add_variables variables rest (insert name (value_or value (lookup name variables)) actual)

unfoldable pub actual_variables : OrdMap Bytes Bytes → OrdMap Bytes Bytes → OrdMap Bytes Bytes
actual_variables variables gateway_variables = add_variables variables gateway_variables variables

-- `name=value`
abbrev pub env_string : Bytes × Bytes → Bytes
env_string (name, value) = name ++ bytes "=" ++ value

-- The default streams: -1, 1 and 2.
abbrev pub default_streams : List ℤ
default_streams = negsuc 0 ∷ pos 1 ∷ pos 2 ∷ []

abbrev pub invalid_pid : ℤ
invalid_pid = negsuc 0

-- A line of the file `env`.
abbrev pub export_line : Bytes × Bytes → Bytes
export_line (name, value) = bytes "export " ++ name ++ bytes "='" ++ value ++ bytes "'" ++ (10 ∷ [])

unfoldable pub export_lines : OrdMap Bytes Bytes → Bytes
export_lines [] = []
export_lines (v ∷ rest) = export_line v ++ export_lines rest

module _ {S H : Type 0} (lxc : Lxc S H) where
  -- `execute` of a function. The result holds what `*pid` is afterwards; `pid` is what it was.
  unfoldable pub attach :
      ContainerJob → ℤ → OrdMap Bytes Bytes → List ℤ → M (Container H × S) (Bool × ℤ)
  attach job pid variables streams (c, s) = elim c.container [
    | none ↦ (throw undefined, (c, s))
    | some h ↦
        let environment =
          map env_string (actual_variables variables c.gateway_environment_variables) in
        let (attached, s') = lxc.attach h job environment streams s in
        elim attached [ none ↦ (ok (false, pid), (c, s')) | some p ↦ (ok (true, p), (c, s')) ]
  ]

  unfoldable pub execute :
      ContainerJob → ℤ → OrdMap Bytes Bytes → List ℤ → M (Container H × S) (Bool × ℤ)
  execute job pid variables streams = ensure_container_running lxc >>= λ running.
      if running then attach job pid variables streams else pure (false, pid)

  -- `waitForProcessTermination`
  unfoldable pub wait_for : ℤ → M (Container H × S) ℤ
  wait_for pid (c, s) =
      let (status, s') = lxc.wait_for_process_termination pid s in (ok status, (c, s'))

  -- `executeSync`, with the default arguments. It waits even if nothing was started. The result
  -- holds what `*pid` is afterwards.
  unfoldable pub execute_sync : ContainerJob → ℤ → M (Container H × S) (Bool × ℤ)
  execute_sync job pid = execute job pid [] default_streams >>= λ (started, pid').
      wait_for pid' >>= λ status. pure (started && eqb_ℤ status (pos 0), pid')

  -- `execute` of a command line.
  unfoldable pub execute_command :
      Bytes → ℤ → OrdMap Bytes Bytes → Bytes → List ℤ → M (Container H × S) (Bool × ℤ)
  execute_command line pid variables working_directory streams =
      ensure_container_running lxc >>= λ running. elim running [
        | false ↦ pure (false, pid)
        | true ↦ elim (lxc.shell_parse_argv line) [
          | none ↦ raise shell_error
          | some argv ↦ execute (command argv working_directory) pid variables streams
        ]
      ]

  -- A FunctionJob that is started and waited for (jobs/functionjob.cpp, jobs/jobabstract.cpp): its
  -- pid is 0 at first, its streams are -1, and it has no variables.
  unfoldable pub run_job : Job → M (Container H × S) ℤ
  run_job job =
      execute (function job) (pos 0) [] (negsuc 0 ∷ negsuc 0 ∷ negsuc 0 ∷ []) >>= λ (_, pid).
      wait_for pid

  unfoldable pub mount_device : Bytes → M (Container H × S) Bool
  mount_device path = λ st.
      continue (ensure_container_running lxc st)
        (through (λ h. lxc.add_device_node h path) (λ done st'. (ok done, st')))

-- `setEnvironmentVariable`: the result of writing the file is not used.
module _ {S H : Type 0} (os : Os S) (settings : Settings) where
  unfoldable pub set_environment_variable : Bytes → Bytes → M (Container H × S) Bool
  set_environment_variable name value (c, s) =
      let variables = insert name value c.gateway_environment_variables in
      if below c.state created
      then (ok false, (c, s))
      else regardless (
          with_toolkit
            (write_to_file os (os.build_path (gateways_dir os settings) (bytes "env"))
              (export_lines variables))
            (record c { gateway_environment_variables = variables }, s))
