-- ===== src/Container/Making.antt =====
-- `initialize` and `create` of container.cpp and the pointer to the container of LXC.
use softwarecontainer.Common.{
  ◌≡◌, refl, Bool, true, false, inl, inr, Option, none, some, not, arith, is_some, Bool-cases,
  if◌then◌else◌,
}
use softwarecontainer.Common.Throwing.{Result, ok, throw, M, continue}
use softwarecontainer.Common.Bytes.{is_empty}
use softwarecontainer.OperatingSystem.{Os}
use softwarecontainer.Lxc.{Lxc}
use softwarecontainer.Container.{
  prepared, created, below, Settings, Container, set_state, through, regardless,
}
use softwarecontainer.Container.Creation.{
  initialize, create, create_new, create_with, rollback_create, or_roll_back, created_or_not,
  mount_root_fs,
}
use softwarecontainer.Container.Handle.{HasHandle}

module _ {S H : Type 0} (os : Os S) (lxc : Lxc S H) (settings : Settings) where
  prepared-HasHandle :
      (r : Result Bool × (Container H × S))
      → HasHandle r.1.0
      → HasHandle (continue r (λ st. (ok true, set_state prepared st))).1.0
  unfolding HasHandle
  prepared-HasHandle (ok true, st) h = λ e. absurd (ground (arith, e))
  prepared-HasHandle (ok false, st) h = h
  prepared-HasHandle (throw e, st) h = h

  if-HasHandle :
      (b : Bool) (r r' : Result Bool × (Container H × S))
      → HasHandle r.1.0
      → HasHandle r'.1.0
      → HasHandle (if b then r else r').1.0
  if-HasHandle true r r' h k = h
  if-HasHandle false r r' h k = k

  pub initialize-HasHandle :
      (c : Container H) (s : S) → HasHandle c → HasHandle (initialize os lxc settings (c, s)).1.0
  unfolding HasHandle initialize
  initialize-HasHandle c s h =
      if-HasHandle (not (below c.state prepared)) _ _ h (prepared-HasHandle _ h)

  -- The states in which `create` rolls back.
  abbrev IsFresh : Container H × S → Type 0
  IsFresh st = (below st.0.state created ≡ true) × (is_some st.0.container ≡ true)

  rollback_create-HasHandle :
      (st : Container H × S)
      → below st.0.state created ≡ true
      → HasHandle (rollback_create os lxc settings st).1.0
  unfolding HasHandle rollback_create
  rollback_create-HasHandle (c, s) h = ground arith

  or_roll_back-HasHandle :
      (b : Bool) (k : M (Container H × S) Bool) (st : Container H × S)
      → IsFresh st
      → HasHandle (k st).1.0
      → HasHandle (or_roll_back os lxc settings b k st).1.0
  or_roll_back-HasHandle true k st h e = e
  or_roll_back-HasHandle false k st h e = rollback_create-HasHandle st h.0

  regardless-IsFresh :
      (r : Result Bool × (Container H × S)) → IsFresh r.1 → IsFresh (regardless r).1
  regardless-IsFresh (ok b, st) h = h
  regardless-IsFresh (throw e, st) h = h

  if-IsFresh :
      (b : Bool) (r r' : Result Bool × (Container H × S))
      → IsFresh r.1
      → IsFresh r'.1
      → IsFresh (if b then r else r').1
  if-IsFresh true r r' h k = h
  if-IsFresh false r r' h k = k

  mount_root_fs-IsFresh :
      (c : Container H) (s : S) → IsFresh (c, s) → IsFresh (mount_root_fs os lxc settings (c, s)).1
  unfolding mount_root_fs
  mount_root_fs-IsFresh c s h =
      if-IsFresh settings.write_buffer_enabled _ (ok true, (record c { root_fs_path = _ }, s))
        (regardless-IsFresh _ h) h

  created-HasHandle :
      (st : Container H × S)
      → IsFresh st
      → HasHandle (through lxc.create (created_or_not os lxc settings) st).1.0
  unfolding HasHandle through rollback_create
  created-HasHandle (c, s) h = ground arith

  continue-HasHandle :
      (r : Result Bool × (Container H × S))
      → IsFresh r.1
      → HasHandle (continue r (through lxc.create (created_or_not os lxc settings))).1.0
  unfolding HasHandle
  continue-HasHandle (ok true, st) h = created-HasHandle st h
  continue-HasHandle (ok false, st) h = λ _. h.1
  continue-HasHandle (throw e, st) h = λ _. h.1

  create_with-HasHandle :
      (h : H) (c : Container H) (s : S)
      → IsFresh (c, s)
      → HasHandle (create_with os lxc settings h (c, s)).1.0
  unfolding create_with
  create_with-HasHandle h c s fresh =
      let loaded : Bool × S = lxc.load_config h settings.config_file s in
      let last : M (Container H × S) Bool = λ st.
        continue (mount_root_fs os lxc settings st)
          (through lxc.create (created_or_not os lxc settings)) in
      or_roll_back-HasHandle (not (lxc.is_defined h s))
        (λ _. or_roll_back os lxc settings loaded.0 last (c, loaded.1)) (c, s) fresh
        (or_roll_back-HasHandle loaded.0 last (c, loaded.1) fresh
          (continue-HasHandle (mount_root_fs os lxc settings (c, loaded.1))
            (mount_root_fs-IsFresh c loaded.1 fresh)))

  create_new-HasHandle :
      (new : Option H) (c : Container H) (s : S)
      → below c.state created ≡ true
      → HasHandle (create_new os lxc settings new (c, s)).1.0
  unfolding create_new
  create_new-HasHandle none c s h = rollback_create-HasHandle (record c { container = none }, s) h
  create_new-HasHandle (some x) c s h =
      create_with-HasHandle x (record c { container = some x }) s (h, refl)

  pub create-HasHandle :
      (c : Container H) (s : S) → HasHandle c → HasHandle (create os lxc settings (c, s)).1.0
  unfolding create
  create-HasHandle c s h = elim (Bool-cases (below c.state created)) [
    | inl e ↦ rw e (if-HasHandle (is_empty settings.id) _ _ h (create_new-HasHandle _ c _ e))
    | inr e ↦ rw e h
  ]
