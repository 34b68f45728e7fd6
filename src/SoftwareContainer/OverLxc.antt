-- ===== src/SoftwareContainer/OverLxc.antt =====
-- The state of a SoftwareContainer beside the state of its container of LXC.
use softwarecontainer.Common.{◌≡◌, refl, Bool, true, false, some, List, [], ◌∷◌, arith, not}
use softwarecontainer.Common.Throwing.{
  Result, ok, throw, software_container_error, M, continue, after, raise_if, ◌>>◌,
}
use softwarecontainer.OperatingSystem.{Os}
use softwarecontainer.Lxc.{Lxc}
use softwarecontainer.Container.{Settings, Container, started, frozen, through}
use softwarecontainer.Container.Running.{
  suspend as freeze, resume as unfreeze, start as run_container, ensure_container_running,
  wait_until_running, wait_for_state,
}
use softwarecontainer.Container.Creation.{initialize, create}
use softwarecontainer.Container.Interface.{lxc_container}
use softwarecontainer.SoftwareContainer.{
  SoftwareContainer, ready, suspended, suspend, resume, start, init, construct, on_container,
  set_value_notify,
}

-- A container that could be started is STARTED.
started_ok :
    {S H : Type 0} (lxc : Lxc S H) (st : Container H × S)
    → (run_container lxc st).0 ≡ ok true
    → (run_container lxc st).1.0.state ≡ started
unfolding run_container through ensure_container_running wait_until_running wait_for_state
started_ok lxc (c, st) e = ground arith

-- The requests that change between READY and SUSPENDED.
pub data Toggle : Type 0 where
  suspending resuming : Toggle

module _ {G S H : Type 0} (os : Os S) (lxc : Lxc S H) (settings : Settings) where
  -- READY over STARTED, and SUSPENDED over FROZEN.
  pub Agrees : SoftwareContainer G (Container H × S) → Type 0
  Agrees s =
      (s.state ≡ ready → s.container.0.state ≡ started)
      × (s.state ≡ suspended → s.container.0.state ≡ frozen)

  suspend-Agrees :
      (s : SoftwareContainer G (Container H × S))
      → Agrees s
      → Agrees (suspend (lxc_container os lxc settings) s).1
  unfolding Agrees suspend freeze through
  suspend-Agrees s h = (ground arith, ground arith)

  resume-Agrees :
      (s : SoftwareContainer G (Container H × S))
      → Agrees s
      → Agrees (resume (lxc_container os lxc settings) s).1
  unfolding Agrees resume unfreeze through
  resume-Agrees s h = (ground arith, ground arith)

  IsStarted : SoftwareContainer G (Container H × S) → Type 0
  IsStarted s = s.container.0.state ≡ started

  continue_last :
      (r : Result Bool × SoftwareContainer G (Container H × S))
      (k : M (SoftwareContainer G (Container H × S)) Bool)
      → ((s : SoftwareContainer G (Container H × S)) → (k s).0 ≡ ok true → IsStarted (k s).1)
      → (continue r k).0 ≡ ok true
      → IsStarted (continue r k).1
  continue_last (ok true, s) k h e = h s e
  continue_last (ok false, s) k h e = cc
  continue_last (throw x, s) k h e = cc

  start_ok :
      (s : SoftwareContainer G (Container H × S))
      → (start (lxc_container os lxc settings) s).0 ≡ ok true
      → IsStarted (start (lxc_container os lxc settings) s).1
  unfolding start IsStarted
  start_ok s = continue_last (on_container (initialize os lxc settings) s) _ (λ s1.
      continue_last (on_container (create os lxc settings) s1) (on_container (run_container lxc))
        (λ s2. started_ok lxc s2.container))

  with_gateways :
      (enabled : List G) (r : Result Bool × SoftwareContainer G (Container H × S))
      → (r.0 ≡ ok true → IsStarted r.1)
      → (continue r (λ s. (ok true, record s { gateways = enabled }))).0 ≡ ok true
      → IsStarted (continue r (λ s. (ok true, record s { gateways = enabled }))).1
  unfolding IsStarted
  with_gateways enabled (ok true, s) h e = h refl
  with_gateways enabled (ok false, s) h e = cc
  with_gateways enabled (throw x, s) h e = cc

  init_ok :
      (enabled : List G) (s : SoftwareContainer G (Container H × S))
      → (init (lxc_container os lxc settings) enabled s).0 ≡ ok true
      → IsStarted (init (lxc_container os lxc settings) enabled s).1
  unfolding init
  init_ok enabled s = with_gateways enabled (start (lxc_container os lxc settings) s) (start_ok s)

  -- The end of `construct`.
  settled :
      (r : Result Bool × SoftwareContainer G (Container H × S))
      → (r.0 ≡ ok true → IsStarted r.1)
      → let made =
          after r
            (λ done. raise_if (not done) software_container_error >> set_value_notify ready) in
        made.0 ≡ ok tt → Agrees made.1
  unfolding IsStarted Agrees
  settled (ok true, s) h e = (λ _. h refl, λ x. absurd (ground (arith, x)))
  settled (ok false, s) h e = absurd (ground (arith, e))
  settled (throw x, s) h e = absurd (ground (arith, e))

  -- What is constructed without an exception agrees with its container.
  construct-Agrees :
      (enabled : List G) (s : SoftwareContainer G (Container H × S))
      → (construct (lxc_container os lxc settings) enabled s).0 ≡ ok tt
      → Agrees (construct (lxc_container os lxc settings) enabled s).1
  unfolding construct
  construct-Agrees enabled s =
      settled (init (lxc_container os lxc settings) enabled s) (init_ok enabled s)

  unfoldable pub toggle : Toggle → M (SoftwareContainer G (Container H × S)) (Unit {0})
  toggle suspending = suspend (lxc_container os lxc settings)
  toggle resuming = resume (lxc_container os lxc settings)

  unfoldable pub toggle_all :
      List Toggle → SoftwareContainer G (Container H × S) → SoftwareContainer G (Container H × S)
  toggle_all [] s = s
  toggle_all (t ∷ rest) s = toggle_all rest (toggle t s).1

  toggle-Agrees :
      (t : Toggle) (s : SoftwareContainer G (Container H × S)) → Agrees s → Agrees (toggle t s).1
  unfolding toggle
  toggle-Agrees suspending s h = suspend-Agrees s h
  toggle-Agrees resuming s h = resume-Agrees s h

  toggle_all-Agrees :
      (ts : List Toggle) (s : SoftwareContainer G (Container H × S))
      → Agrees s
      → Agrees (toggle_all ts s)
  unfolding toggle_all
  toggle_all-Agrees [] s h = h
  toggle_all-Agrees (t ∷ ts) s h = toggle_all-Agrees ts (toggle t s).1 (toggle-Agrees t s h)

  -- After a construction without an exception, whatever calls of suspend and resume follow and
  -- whatever LXC answers, READY means that the container is STARTED, and SUSPENDED that it is FROZEN.
  pub toggles_agree :
      (enabled : List G) (s : SoftwareContainer G (Container H × S)) (ts : List Toggle)
      → (construct (lxc_container os lxc settings) enabled s).0 ≡ ok tt
      → let end = toggle_all ts (construct (lxc_container os lxc settings) enabled s).1 in
        (end.state ≡ ready → end.container.0.state ≡ started)
        × (end.state ≡ suspended → end.container.0.state ≡ frozen)
  unfolding Agrees
  toggles_agree enabled s ts e =
      toggle_all-Agrees ts (construct (lxc_container os lxc settings) enabled s).1
        (construct-Agrees enabled s e)

  -- When LXC cannot freeze the container, `suspend` throws an error of the container past the code
  -- that would set the state INVALID: the state stays READY, and nobody is notified.
  suspend_fails :
      (s : SoftwareContainer G (Container H × S)) (h : H)
      → s.state ≡ ready
      → s.container.0.state ≡ started
      → s.container.0.container ≡ some h
      → (lxc.freeze h s.container.1).0 ≡ false
      → let (r, s') = suspend (lxc_container os lxc settings) s in
        (r ≡ throw software_container_error) × (s'.state ≡ ready) × (s'.notified ≡ s.notified)
  unfolding suspend freeze through
  suspend_fails s h r st p f = (ground arith, ground arith, ground arith)
