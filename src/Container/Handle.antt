-- ===== src/Container/Handle.antt =====
-- The pointer to the container of LXC, under the methods that start and end it (container.cpp).
use softwarecontainer.Common.{
  ◌≡◌, ◌≢◌, refl, ℕ, Bool, true, false, Option, none, some, arith, is_some, if◌then◌else◌,
}
use softwarecontainer.Common.Throwing.{
  Result, ok, throw, M, continue, undefined, software_container_error,
}
use softwarecontainer.Lxc.{Lxc, LxcState, stopped, running}
use softwarecontainer.Container.{
  destroyed, created, started, frozen, is, below, Settings, Container, set_state, through,
  regardless,
}
use softwarecontainer.Container.Running.{
  wait_for_state, wait_until_running, ensure_container_running, start, stop, shutdown,
  destroy_stopped, destroy, suspend, resume, terminate,
}

-- The null pointer is never followed: the call gives a value or an exception. The pointer is set.
unfoldable pub IsLive : {S H : Type 0} → Result Bool × (Container H × S) → Type 0
IsLive r = (r.0 ≢ throw undefined) × (is_some r.1.0.container ≡ true)

-- From CREATED on, `m_container` is not null.
unfoldable pub HasHandle : {H : Type 0} → Container H → Type 0
HasHandle c = below c.state created ≡ false → is_some c.container ≡ true

abbrev IsPresent : {S H : Type 0} → Container H × S → Type 0
IsPresent st = is_some st.0.container ≡ true

module _ {S H : Type 0} where
  through-IsLive :
      {A : Type 0} (call : H → S → A × S) (k : A → M (Container H × S) Bool) (c : Container H)
      (s : S)
      → is_some c.container ≡ true
      → ((a : A) (s' : S) → IsLive (k a (c, s')))
      → IsLive (through call k (c, s))
  unfolding through
  through-IsLive call k c s h keep = go c.container h
    where
      go :
          (p : Option H)
          → is_some p ≡ true
          → IsLive {S = S} {H = H} (elim p [
            | none ↦ (throw undefined, (c, s))
            | some x ↦ let (a, s') = call x s in k a (c, s')
          ])
      go none e = absurd (ground (arith, e))
      go (some x) e = keep (call x s).0 (call x s).1

  if-IsLive :
      (b : Bool) (r r' : Result Bool × (Container H × S))
      → (b ≡ true → IsLive r)
      → (b ≡ false → IsLive r')
      → IsLive (if b then r else r')
  if-IsLive true r r' h k = h refl
  if-IsLive false r r' h k = k refl

  given-IsLive : (b : Bool) (st : Container H × S) → IsPresent st → IsLive (ok b, st)
  unfolding IsLive
  given-IsLive b st h = (cc, h)

  raised-IsLive :
      (st : Container H × S) → IsPresent st → IsLive (throw software_container_error, st)
  unfolding IsLive
  raised-IsLive st h = (cc, h)

  continue-IsLive :
      (r : Result Bool × (Container H × S)) (k : M (Container H × S) Bool)
      → IsLive r
      → ((st : Container H × S) → IsPresent st → IsLive (k st))
      → IsLive (continue r k)
  unfolding IsLive
  continue-IsLive (ok true, st) k h keep = keep st h.1
  continue-IsLive (ok false, st) k h keep = (cc, h.1)
  continue-IsLive (throw e, st) k h keep = h

  regardless-IsLive : (r : Result Bool × (Container H × S)) → IsLive r → IsLive (regardless r)
  unfolding IsLive
  regardless-IsLive (ok b, st) h = (cc, h.1)
  regardless-IsLive (throw e, st) h = h

module _ {S H : Type 0} (lxc : Lxc S H) where
  wait_for_state-IsLive :
      (target : LxcState) (c : Container H) (s : S)
      → is_some c.container ≡ true
      → IsLive (wait_for_state lxc target (c, s))
  unfolding wait_for_state IsLive
  wait_for_state-IsLive target c s e = (ground arith, ground arith)

  wait_until_running-IsLive :
      (c : Container H) (s : S)
      → is_some c.container ≡ true
      → IsLive (wait_until_running lxc (c, s))
  unfolding wait_until_running IsLive
  wait_until_running-IsLive c s e =
      let waits : _ = wait_for_state-IsLive running c s e in
      (ground (arith, waits.0), ground (arith, waits.1))

  pub ensure_container_running-IsLive :
      (c : Container H) (s : S)
      → is_some c.container ≡ true
      → IsLive (ensure_container_running lxc (c, s))
  unfolding ensure_container_running
  ensure_container_running-IsLive c s h =
      if-IsLive (is frozen c.state) _ _ (λ _. given-IsLive false (c, s) h)
        (λ _.
          if-IsLive (below c.state started) _ _ (λ _. given-IsLive false (c, s) h)
            (λ _. wait_until_running-IsLive c s h))

  pub start-IsLive :
      (c : Container H) (s : S) → is_some c.container ≡ true → IsLive (start lxc (c, s))
  unfolding start
  start-IsLive c s h =
      if-IsLive (below c.state created) _ _ (λ _. given-IsLive false (c, s) h)
        (λ _. through-IsLive lxc.start _ c s h (λ done s'.
          if-IsLive done _ _
            (λ _. ensure_container_running-IsLive (record c { state = started }) s' h)
            (λ _. given-IsLive false (c, s') h)))

  pub stop-IsLive :
      (c : Container H) (s : S) → is_some c.container ≡ true → IsLive (stop lxc (c, s))
  unfolding stop
  stop-IsLive c s h =
      if-IsLive (below c.state started) _ _ (λ _. given-IsLive false (c, s) h)
        (λ _. through-IsLive lxc.stop _ c s h (λ done s'.
          if-IsLive done _ _
            (λ _.
              regardless-IsLive (wait_for_state lxc stopped (c, s'))
                (wait_for_state-IsLive stopped c s' h))
            (λ _. given-IsLive false (c, s') h)))

  pub shutdown-IsLive :
      (timeout : ℕ) (c : Container H) (s : S)
      → is_some c.container ≡ true
      → IsLive (shutdown lxc timeout (c, s))
  unfolding shutdown
  shutdown-IsLive timeout c s h =
      if-IsLive (below c.state started) _ _ (λ _. given-IsLive false (c, s) h)
        (λ _. through-IsLive (terminate lxc) _ c s h (λ _ s1.
          through-IsLive (λ x. lxc.shutdown x timeout) _ c s1 h
            (λ success s2.
              continue-IsLive _ _
                (if-IsLive success _ _ (λ _. given-IsLive true (c, s2) h) (λ _. stop-IsLive c s2 h))
                (λ st set. given-IsLive true (set_state created st) set))))

  pub suspend-IsLive :
      (c : Container H) (s : S) → is_some c.container ≡ true → IsLive (suspend lxc (c, s))
  unfolding suspend
  suspend-IsLive c s h =
      if-IsLive (below c.state started) _ _ (λ _. given-IsLive false (c, s) h)
        (λ _.
          if-IsLive (is c.state frozen) _ _ (λ _. given-IsLive false (c, s) h)
            (λ _. through-IsLive lxc.freeze _ c s h (λ done s'.
              if-IsLive done _ _ (λ _. given-IsLive true (set_state frozen (c, s')) h)
                (λ _. raised-IsLive (c, s') h))))

  pub resume-IsLive :
      (c : Container H) (s : S) → is_some c.container ≡ true → IsLive (resume lxc (c, s))
  unfolding resume
  resume-IsLive c s h =
      if-IsLive (below c.state frozen) _ _ (λ _. given-IsLive false (c, s) h)
        (λ _. through-IsLive lxc.unfreeze _ c s h (λ done s'.
          if-IsLive done _ _ (λ _. given-IsLive true (set_state started (c, s')) h)
            (λ _. raised-IsLive (c, s') h)))

module _ {S H : Type 0} (lxc : Lxc S H) (settings : Settings) where
  destroy_stopped-IsLive :
      (c : Container H) (s : S)
      → is_some c.container ≡ true
      → IsLive (destroy_stopped lxc settings (c, s))
  unfolding destroy_stopped
  destroy_stopped-IsLive c s h =
      let gone : (s' : S)
          → IsLive (
              through lxc.destroy
                (λ success st.
                  if success then (ok true, set_state destroyed st) else (ok false, st))
                (c, s')) =
        λ s'. through-IsLive lxc.destroy _ c s' h (λ success s2.
          if-IsLive success _ _ (λ _. given-IsLive true (set_state destroyed (c, s2)) h)
            (λ _. given-IsLive false (c, s2) h)) in
      let unmounted : Bool × S = lxc.umount c.root_fs_path s in
      if-IsLive settings.write_buffer_enabled _ _
        (λ _.
          if-IsLive unmounted.0 _ _ (λ _. gone unmounted.1)
            (λ _. given-IsLive false (c, unmounted.1) h))
        (λ _. gone s)

  pub destroy-IsLive :
      (timeout : ℕ) (c : Container H) (s : S)
      → is_some c.container ≡ true
      → IsLive (destroy lxc settings timeout (c, s))
  unfolding destroy
  destroy-IsLive timeout c s h =
      if-IsLive (below c.state created) _ _ (λ _. given-IsLive false (c, s) h)
        (λ _.
          continue-IsLive _ _
            (if-IsLive (below c.state started) _ _ (λ _. given-IsLive true (c, s) h)
              (λ _. shutdown-IsLive lxc timeout c s h))
            (λ (c', s') set. destroy_stopped-IsLive c' s' set))
