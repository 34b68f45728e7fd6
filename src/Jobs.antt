-- ===== src/Jobs.antt =====
-- libsoftwarecontainer/src/jobs: commands and functions that run in a container.
pub mod Streams
use softwarecontainer.Common.{Bool, Option, none, some, List, [], ◌∷◌, not}
use softwarecontainer.Common.Bytes.{Bytes}
use softwarecontainer.Common.Int.{ℤ, pos, negsuc, eqb_ℤ}
use softwarecontainer.Common.OrdMap.{OrdMap, insert, bytes_key}
use softwarecontainer.Common.Throwing.{M, Result, ok, throw, after}
use softwarecontainer.ContainerInterface.{Job}

-- include/executable.h: `*pid` before the call, the variables and the streams; whether it worked,
-- and `*pid` after the call.
pub record Executable (C : Type 0) : Type 0 where
  pub execute_function : Job → ℤ → OrdMap Bytes Bytes → List ℤ → M C (Bool × ℤ)
  pub execute_command : Bytes → ℤ → OrdMap Bytes Bytes → Bytes → List ℤ → M C (Bool × ℤ)

-- waitForProcessTermination; pipe(2), with no value where it fails; open(2) of a file to be written.
pub record System (C : Type 0) : Type 0 where
  pub wait_for : ℤ → M C ℤ
  pub pipe : C → Option (ℤ × ℤ) × C
  pub open_file : Bytes → C → ℤ × C

-- JobAbstract, with what a subclass adds.
pub record JobAbstract (A : Type 0) : Type 0 where
  pub command : A
  pub env : OrdMap Bytes Bytes
  pub exit_status : ℤ
  pub pid : ℤ
  pub stdin : ℤ × ℤ
  pub stdout : ℤ × ℤ
  pub stderr : ℤ × ℤ

-- What a CommandJob runs, and where.
pub record CommandLine : Type 0 where
  pub line : Bytes
  pub working_directory : Bytes

abbrev pub unassigned_stream : ℤ
unassigned_stream = negsuc 0

abbrev pub unassigned : ℤ × ℤ
unassigned = (unassigned_stream, unassigned_stream)

unfoldable pub new_job : {A : Type 0} → A → JobAbstract A
new_job command = record {
  command = command;
  env = [];
  exit_status = negsuc 0;
  pid = pos 0;
  stdin = unassigned;
  stdout = unassigned;
  stderr = unassigned;
}

pub new_command_job : Bytes → JobAbstract CommandLine
new_command_job line = new_job (record { line = line; working_directory = [] })

unfoldable pub set_working_directory : Bytes → JobAbstract CommandLine → JobAbstract CommandLine
set_working_directory folder job = record job {
  command = record { line = job.command.line; working_directory = folder };
}

module _ {A : Type 0} where
  unfoldable pub is_success : JobAbstract A → Bool
  is_success job = eqb_ℤ job.exit_status (pos 0)

  unfoldable pub is_error : JobAbstract A → Bool
  is_error job = not (is_success job)

  unfoldable pub is_running : JobAbstract A → Bool
  is_running job = not (eqb_ℤ job.pid (pos 0))

  unfoldable pub set_environment_variable : Bytes → Bytes → JobAbstract A → JobAbstract A
  set_environment_variable key value job = record job { env = insert key value job.env }

  pub set_environment_variables : OrdMap Bytes Bytes → JobAbstract A → JobAbstract A
  set_environment_variables env job = record job { env = env }

  -- `stdout()`, `stderr()` and `stdin()`: the ends that are the caller's.
  abbrev pub stdout_end : JobAbstract A → ℤ
  stdout_end job = job.stdout.0

  abbrev pub stderr_end : JobAbstract A → ℤ
  stderr_end job = job.stderr.0

  abbrev pub stdin_end : JobAbstract A → ℤ
  stdin_end job = job.stdin.1

  -- The streams that `start` gives to the process.
  abbrev pub streams : JobAbstract A → List ℤ
  streams job = job.stdin.0 ∷ job.stdout.1 ∷ job.stderr.1 ∷ []

  -- What `start` keeps of a call that ended, or was left by an exception.
  abbrev pub started_as :
      {C : Type 0} → JobAbstract A → Result (Bool × ℤ) × C → Result Bool × (JobAbstract A × C)
  started_as job (ok (started, pid), c) = (ok started, (record job { pid = pid }, c))
  started_as job (throw e, c) = (throw e, (job, c))

-- pipe(2) leaves the array as it is where it fails; its result is not used.
abbrev pub ends : ℤ × ℤ → Option (ℤ × ℤ) → ℤ × ℤ
ends old none = old
ends old (some new) = new

module _ {A C : Type 0} (system : System C) where
  unfoldable pub capture_stdin : JobAbstract A × C → JobAbstract A × C
  capture_stdin (job, c) =
      let (made, c') = system.pipe c in (record job { stdin = ends job.stdin made }, c')

  unfoldable pub capture_stdout : JobAbstract A × C → JobAbstract A × C
  capture_stdout (job, c) =
      let (made, c') = system.pipe c in (record job { stdout = ends job.stdout made }, c')

  unfoldable pub capture_stderr : JobAbstract A × C → JobAbstract A × C
  capture_stderr (job, c) =
      let (made, c') = system.pipe c in (record job { stderr = ends job.stderr made }, c')

  unfoldable pub set_output_file : Bytes → JobAbstract A × C → JobAbstract A × C
  set_output_file path (job, c) =
      let (fd, c') = system.open_file path c in
      (record job { stdout = (job.stdout.0, fd); stderr = (job.stderr.0, fd) }, c')

  abbrev pub keep_status : JobAbstract A → Result ℤ × C → Result ℤ × (JobAbstract A × C)
  keep_status job (ok status, c) = (ok status, (record job { exit_status = status }, c))
  keep_status job (throw e, c) = (throw e, (job, c))

  unfoldable pub wait : M (JobAbstract A × C) ℤ
  wait (job, c) = keep_status job (system.wait_for job.pid c)

module _ {C : Type 0} (executable : Executable C) where
  -- `CommandJob::start`
  unfoldable pub start_command : M (JobAbstract CommandLine × C) Bool
  start_command (job, c) = started_as job (
      executable.execute_command job.command.line job.pid job.env job.command.working_directory
        (streams job) c)

  -- `FunctionJob::start`
  unfoldable pub start_function : M (JobAbstract Job × C) Bool
  start_function (job, c) =
      started_as job (executable.execute_function job.command job.pid job.env (streams job) c)
