-- ===== src/Container/Transitions.antt =====
-- How the methods of a container work together.
use softwarecontainer.Common.{
  ◌≡◌, refl, ℕ, Bool, true, false, Option, none, some, if◌then◌else◌, List, arith, ap, sym, ◌∙◌,
  Bool-cases, inl, inr,
}
use softwarecontainer.Common.Bytes.{Bytes}
use softwarecontainer.Common.Int.{ℤ}
use softwarecontainer.Common.OrdMap.{OrdMap}
use softwarecontainer.Common.Throwing.{Result, ok, throw, M, continue, undefined}
use softwarecontainer.Lxc.{Lxc, ContainerJob}
use softwarecontainer.Container.{
  created, started, frozen, destroyed, set_state, is, below, Settings, Container, through,
}
use softwarecontainer.Container.Running.{
  ensure_container_running, shutdown, destroy_stopped, destroy, suspend, resume,
}
use softwarecontainer.Container.Execution.{execute}

module _ {S H : Type 0} (lxc : Lxc S H) where
  suspends :
      (c : Container H) (h : H) (s : S)
      → c.state ≡ started
      → c.container ≡ some h
      → (lxc.freeze h s).0 ≡ true
      → suspend lxc (c, s) ≡ (ok true, (record c { state = frozen }, (lxc.freeze h s).1))
  unfolding suspend through
  suspends c h s e p f = ground arith

  resumes :
      (c : Container H) (h : H) (s : S)
      → c.state ≡ frozen
      → c.container ≡ some h
      → (lxc.unfreeze h s).0 ≡ true
      → resume lxc (c, s) ≡ (ok true, (record c { state = started }, (lxc.unfreeze h s).1))
  unfolding resume through
  resumes c h s e p f = ground arith

  -- What a running container is suspended and resumed with, it gets back.
  pub resume-suspend :
      (c : Container H) (h : H) (s : S)
      → c.state ≡ started
      → c.container ≡ some h
      → (lxc.freeze h s).0 ≡ true
      → (lxc.unfreeze h (lxc.freeze h s).1).0 ≡ true
      → ((suspend lxc (c, s)).0 ≡ ok true)
        × (resume lxc (suspend lxc (c, s)).1
            ≡ (ok true, (c, (lxc.unfreeze h (lxc.freeze h s).1).1)))
  resume-suspend c h s e p f u =
      let s' : S = (lxc.freeze h s).1 in
      let same : (record c { state = started }) ≡ c = ap (λ st. record c { state = st }) (sym e) in
      rw (suspends c h s e p f) (
        refl,
        resumes (record c { state = frozen }) h s' refl p u
            ∙ ap (λ d. (ok true, (d, (lxc.unfreeze h s').1))) same,
      )

  -- Nothing is run in a container that is not in the state STARTED.
  execute_needs_started :
      (job : ContainerJob) (pid : ℤ) (variables : OrdMap Bytes Bytes) (streams : List ℤ)
      (c : Container H) (s : S)
      → is c.state started ≡ false
      → execute lxc job pid variables streams (c, s) ≡ (ok (false, pid), (c, s))
  unfolding execute ensure_container_running
  execute_needs_started job pid variables streams c s h = ground arith

module _ {S H : Type 0} (lxc : Lxc S H) (settings : Settings) where
  -- What a `destroy` that returned true has called.
  abbrev pub LxcDestroyed : Container H × S → Type 0
  LxcDestroyed (c, s) =
      (c.state ≡ destroyed)
      × ((h : H) × (t : S) × ((lxc.destroy h t).0 ≡ true) × (s ≡ (lxc.destroy h t).1))

  abbrev Succeeds : Result Bool × (Container H × S) → Type 0
  Succeeds r = r.0 ≡ ok true → LxcDestroyed r.1

  destroyed-Succeeds :
      (h : H) (c : Container H) (s : S) (b : Bool)
      → (lxc.destroy h s).0 ≡ b
      → let st : Container H × S = (c, (lxc.destroy h s).1) in
        Succeeds (if b then (ok true, set_state destroyed st) else (ok false, st))
  destroyed-Succeeds h c s true e = λ _. (refl, (h, s, e, refl))
  destroyed-Succeeds h c s false e = λ f. absurd cc

  through-Succeeds :
      (c : Container H) (s : S)
      → Succeeds (
          through lxc.destroy
            (λ success st. if success then (ok true, set_state destroyed st) else (ok false, st))
            (c, s))
  unfolding through
  through-Succeeds c s = go c.container
    where
      go :
          (p : Option H)
          → Succeeds (elim p [
            | none ↦ (throw undefined, (c, s))
            | some h ↦
                let (success, s') = lxc.destroy h s in
                if success then (ok true, set_state destroyed (c, s')) else (ok false, (c, s'))
          ])
      go none = λ e. absurd cc
      go (some h) = destroyed-Succeeds h c s (lxc.destroy h s).0 refl

  if-Succeeds :
      (b : Bool) (r r' : Result Bool × (Container H × S))
      → Succeeds r
      → Succeeds r'
      → Succeeds (if b then r else r')
  if-Succeeds true r r' h k = h
  if-Succeeds false r r' h k = k

  destroy_stopped-Succeeds :
      (c : Container H) (s : S) → Succeeds (destroy_stopped lxc settings (c, s))
  unfolding destroy_stopped
  destroy_stopped-Succeeds c s =
      let (unmounted, s') = lxc.umount c.root_fs_path s in
      let destroy_it : M (Container H × S) Bool =
        through lxc.destroy
          (λ success st. if success then (ok true, set_state destroyed st) else (ok false, st)) in
      if-Succeeds settings.write_buffer_enabled
        (if unmounted then destroy_it (c, s') else (ok false, (c, s'))) (destroy_it (c, s))
        (if-Succeeds unmounted (destroy_it (c, s')) (ok false, (c, s')) (through-Succeeds c s')
          (λ e. absurd cc))
        (through-Succeeds c s)

  -- Both parts of a sequence that returns true have done so.
  continue-true :
      (r : Result Bool × (Container H × S))
      → (continue r (destroy_stopped lxc settings)).0 ≡ ok true
      → (r.0 ≡ ok true) × LxcDestroyed (continue r (destroy_stopped lxc settings)).1
  continue-true (ok true, (c, s)) e = (refl, destroy_stopped-Succeeds c s e)
  continue-true (ok false, st) e = absurd cc
  continue-true (throw x, st) e = absurd cc

  -- A `destroy` that returns true began in CREATED or later, from STARTED on it has shut the
  -- container down with success, it ends in DESTROYED, and the last thing done to the system is a
  -- call of LXC's `destroy` that worked.
  pub destroy_succeeds :
      (c : Container H) (s : S) (timeout : ℕ)
      → (destroy lxc settings timeout (c, s)).0 ≡ ok true
      → (below c.state created ≡ false)
        × (below c.state started ≡ false → (shutdown lxc timeout (c, s)).0 ≡ ok true)
        × LxcDestroyed (destroy lxc settings timeout (c, s)).1
  unfolding destroy
  destroy_succeeds c s timeout e = elim (Bool-cases (below c.state created)) [
    | inl early ↦ absurd (ground (arith, early, e))
    | inr later ↦ elim (Bool-cases (below c.state started)) [
      | inl idle ↦
          rw (later, idle)
            (refl, λ f. absurd cc, (continue-true (ok true, (c, s)) (rw (later, idle) at e)).1)
      | inr runs ↦
          let down : _ = continue-true (shutdown lxc timeout (c, s)) (rw (later, runs) at e) in
          rw (later, runs) (refl, λ _. down.0, down.1)
    ]
  ]
