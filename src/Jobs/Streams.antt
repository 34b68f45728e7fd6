-- ===== src/Jobs/Streams.antt =====
-- jobs/jobabstract.cpp over container.cpp: jobs that run in a container of LXC.
use softwarecontainer.Common.{◌≡◌, refl, Bool, true, false, Option, none, some, [], if◌then◌else◌}
use softwarecontainer.Common.Bytes.{Bytes}
use softwarecontainer.Common.Int.{ℤ, pos}
use softwarecontainer.Common.Throwing.{M, Result, ok, throw, after, pure, raise, shell_error}
use softwarecontainer.Lxc.{Lxc, command, function}
use softwarecontainer.ContainerInterface.{Job}
use softwarecontainer.Container.{Container}
use softwarecontainer.Container.Execution.{attach, execute, execute_command, wait_for, run_job}
use softwarecontainer.Container.Running.{ensure_container_running}
use softwarecontainer.Jobs.{
  Executable, System, CommandLine, JobAbstract, new_job, start_function, start_command, wait,
  is_running, started_as, streams,
}

module _ {S H : Type 0} (lxc : Lxc S H) where
  -- The container as what a job runs in.
  pub lxc_executable : Executable (Container H × S)
  lxc_executable = record {
    execute_function = λ job. execute lxc (function job);
    execute_command = execute_command lxc;
  }

  -- Processes and files beside the container.
  pub lxc_system : (S → Option (ℤ × ℤ) × S) → (Bytes → S → ℤ × S) → System (Container H × S)
  lxc_system pipe open_file = record {
    wait_for = wait_for lxc;
    pipe = λ (c, s). let (made, s') = pipe s in (made, (c, s'));
    open_file = λ path (c, s). let (fd, s') = open_file path s in (fd, (c, s'));
  }

  abbrev Ended : Type 0
  Ended = Result ℤ × (Container H × S)

  -- The result of a job that is no longer needed.
  abbrev pub drop_job : {A : Type 0} → Result ℤ × (JobAbstract A × (Container H × S)) → Ended
  drop_job (r, (job, st)) = (r, st)

  module _ (pipe : S → Option (ℤ × ℤ) × S) (open_file : Bytes → S → ℤ × S) where
    started_lem :
        (job : JobAbstract Job) (r : Result (Bool × ℤ) × (Container H × S))
        → after r (λ p. wait_for lxc p.1)
          ≡ drop_job (after (started_as job r) (λ _. wait (lxc_system pipe open_file)))
    unfolding wait wait_for lxc_system
    started_lem job (ok p, st) = refl
    started_lem job (throw e, st) = refl

    -- The job that a gateway runs is a new FunctionJob that is started and waited for, whether it
    -- could be started or not.
    pub run_job_lem :
        (job : Job) (st : Container H × S)
        → run_job lxc job st
          ≡ drop_job (
              after
                (start_function lxc_executable (new_job job, st))
                (λ _. wait (lxc_system pipe open_file)))
    unfolding run_job start_function lxc_executable new_job
    run_job_lem job st =
        started_lem (new_job job) (execute lxc (function job) (pos 0) [] (streams (new_job job)) st)

  -- A call that is not made gives the pid as it was, and keeps whether the job is running.
  refused :
      {A : Type 0} (job : JobAbstract A) (k : Bool → M (Container H × S) (Bool × ℤ))
      (r : Result Bool × (Container H × S))
      → ((st : Container H × S) → k false st ≡ (ok (false, job.pid), st))
      → r.0 ≡ ok false
      → ((started_as job (after r k)).0 ≡ ok false)
        × (is_running (started_as job (after r k)).1.0 ≡ is_running job)
  unfolding is_running
  refused job k (ok true, st) kept e = absurd cc
  refused job k (ok false, st) kept e = rw (kept st) (refl, refl)
  refused job k (throw x, st) kept e = absurd cc

  -- What is done for a command line in a container that runs.
  abbrev parse_and_execute : JobAbstract CommandLine → M (Container H × S) (Bool × ℤ)
  parse_and_execute job = elim (lxc.shell_parse_argv job.command.line) [
    | none ↦ raise shell_error
    | some argv ↦
        execute lxc (command argv job.command.working_directory) job.pid job.env (streams job)
  ]

  -- Where the container does not run, neither a FunctionJob nor a CommandJob starts, and each is
  -- running afterwards exactly if it was before.
  pub start_refused :
      (job : JobAbstract Job) (command_job : JobAbstract CommandLine) (st : Container H × S)
      → (ensure_container_running lxc st).0 ≡ ok false
      → (((start_function lxc_executable (job, st)).0 ≡ ok false)
          × (is_running (start_function lxc_executable (job, st)).1.0 ≡ is_running job))
        × (((start_command lxc_executable (command_job, st)).0 ≡ ok false)
            × (is_running (start_command lxc_executable (command_job, st)).1.0
                ≡ is_running command_job))
  unfolding start_function start_command lxc_executable execute execute_command
  start_refused job command_job st e =
      let run_function = attach lxc (function job.command) job.pid job.env (streams job) in
      (
        refused job (λ b. if b then run_function else pure (false, job.pid))
            (ensure_container_running lxc st) (λ t. refl) e,
        refused command_job
            (λ b. elim b [
              | false ↦ pure (false, command_job.pid)
              | true ↦ parse_and_execute command_job
            ])
            (ensure_container_running lxc st) (λ t. refl) e,
      )
