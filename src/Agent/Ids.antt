-- ===== src/Agent/Ids.antt =====
-- The ids that the agent gives out (findSuitableId, deleteContainer and the map of containers).
use softwarecontainer.Common.{
  ℕ, ◌<◌, ◌≡◌, ◌⊎◌, refl, true, false, Bool, Option, none, some, List, [], ◌∷◌, arith, ◌==◌, ◌||◌,
  Bool-cases, inl, inr, ltb,
}
use softwarecontainer.Common.Int.{ℤ, pos, pos_part, int32_max}
use softwarecontainer.Common.OrdMap.{
  OrdMap, lookup, erase, contains, nat_key, lookup-insert, lookup-erase,
}
use softwarecontainer.Common.Throwing.{
  M, Result, ok, throw, software_container_error, undefined, bind_ok, gets, ◌>>=◌,
}
use softwarecontainer.Capabilities.{ConfigStore}
use softwarecontainer.ContainerOptions.{SoftwareContainerConfig}
use softwarecontainer.Agent.{
  Agent, new_agent, assert_container_exists, delete_container, find_suitable_id, with_container,
  run_in,
}

abbrev pub mem : ℕ → List ℕ → Bool
mem k [] = false
mem k (x ∷ xs) = x == k || mem k xs

-- The id at index 0 of the pool.
abbrev pub next_id : List ℕ → ℕ
next_id [] = 0
next_id (x ∷ []) = x
next_id (x ∷ y ∷ r) = next_id (y ∷ r)

-- The pool is not empty, and the ids that were given back are distinct and below index 0.
abbrev pub IsPool : ℕ → List ℕ → Type 0
IsPool b [] = ⊥
IsPool b (x ∷ []) = x ≡ b
IsPool b (x ∷ y ∷ r) = (x < b) × (mem x (y ∷ r) ≡ false) × IsPool b (y ∷ r)

-- No id is both in use and in the pool.
pub record Apart (pool : List ℕ) (used : ℕ → Bool) : Type 0 where
  pub is_pool : IsPool (next_id pool) pool
  pub apart : (k : ℕ) → used k ≡ true → (k < next_id pool) × (mem k pool ≡ false)

-- An id that is neither in use nor in the pool.
pub record Fresh (id : ℕ) (pool : List ℕ) (used : ℕ → Bool) : Type 0 where
  pub unused : used id ≡ false
  pub below : id < next_id pool
  pub taken : mem id pool ≡ false

abbrev pub used : {Json SC : Type 0} → Agent Json SC → ℕ → Bool
used a k = contains k a.containers

abbrev pub HasIds : {Json SC : Type 0} → Agent Json SC → Type 0
HasIds a = Apart a.id_pool (used a)

-- What `findSuitableId` leaves, by how it ends.
abbrev pub Found : {Json SC : Type 0} → Agent Json SC → Result ℕ × Agent Json SC → Type 0
Found a (ok id, a') = HasIds a' × Fresh id a'.id_pool (used a') × (a'.containers ≡ a.containers)
Found a (throw e, a') = a' ≡ a

unused_of : (b : Bool) → (b ≡ true → ⊥) → b ≡ false
unused_of b h = ground arith

push-Apart :
    {SC : Type 0} (id : ℕ) (pool : List ℕ) (c : OrdMap ℕ SC)
    → Apart pool (λ k. contains k c)
    → contains id c ≡ true
    → Apart (id ∷ pool) (λ k. contains k (erase id c))
push-Apart id [] c h u = elim (h.is_pool) [ ]
push-Apart id (y ∷ r) c h u = record {
  is_pool = ((h.apart id u).0, (h.apart id u).1, h.is_pool);
  apart = λ k v. let l = lookup-erase id k c in ground (arith, h.apart k);
}

-- A new agent has no container.
pub new_agent_unused :
    {Json : Type 0} (SC : Type 0) (fresh_size : ℕ) (conf : SoftwareContainerConfig)
    (default_store filtered_store : ConfigStore Json) (k : ℕ)
    → let a : Agent Json SC = new_agent fresh_size conf default_store filtered_store in
      used a k ≡ false
unfolding new_agent lookup
new_agent_unused SC fresh_size conf default_store filtered_store k = refl

pub new_agent-HasIds :
    {Json : Type 0} (SC : Type 0) (fresh_size : ℕ) (conf : SoftwareContainerConfig)
    (default_store filtered_store : ConfigStore Json)
    → let a : Agent Json SC = new_agent fresh_size conf default_store filtered_store in HasIds a
unfolding new_agent lookup
new_agent-HasIds SC fresh_size conf default_store filtered_store = record {
  is_pool = refl;
  apart = λ k u. absurd (ground arith);
}

module _ {Json SC : Type 0} where
  -- `assertContainerExists` passes just the ids of containers, from 0 up to INT32_MAX, and changes
  -- nothing.
  pub assert_cases :
      (id : ℤ) (a : Agent Json SC)
      → (assert_container_exists id a ≡ (throw software_container_error, a))
        ⊎ ((assert_container_exists id a ≡ (ok tt, a))
            × (used a (pos_part id) ≡ true)
            × (id ≡ pos (pos_part id))
            × (pos_part id < int32_max))
  unfolding assert_container_exists
  assert_cases id a = ground arith

  find_pool :
      (pool : List ℕ) (a : Agent Json SC)
      → a.id_pool ≡ pool
      → Apart pool (used a)
      → Found a (find_suitable_id a)
  unfolding find_suitable_id
  find_pool [] a e h = elim (h.is_pool) [ ]
  find_pool (x ∷ []) a e h = elim (Bool-cases (ltb x int32_max)) [
    | inl small ↦
        rw (e, find_suitable_id)
          (rw small (
            record {
              is_pool = refl;
              apart = λ k u. let f = h.apart k u in (ground arith, ground arith);
            },
            record {
              unused = unused_of (used a x) (λ u. let f = h.apart x u in omega arith);
              below = omega arith;
              taken = ground arith;
            },
            refl,
          ))
    | inr large ↦
        let full : find_suitable_id a ≡ (throw undefined, a) = ground arith in rw full refl
  ]
  find_pool (x ∷ y ∷ r) a e h =
      rw (e, find_suitable_id)
        (
          record {
            is_pool = h.is_pool.2;
            apart = λ k u. let f = h.apart k u in (f.0, ground arith);
          },
          record {
            unused = unused_of (used a x) (λ u. let f = h.apart x u in ground arith);
            below = h.is_pool.0;
            taken = h.is_pool.1;
          },
          refl,
        )

  -- From an agent whose ids are apart, `findSuitableId` gives an id that no container has and that leaves the pool, and keeps the ids
  -- apart; it fails only where the counter would overflow, and then changes nothing.
  pub find_suitable_id-Found : (a : Agent Json SC) → HasIds a → Found a (find_suitable_id a)
  find_suitable_id-Found a h = find_pool a.id_pool a refl h

  pub delete_container_cases :
      (id : ℤ) (a : Agent Json SC)
      → (delete_container id a ≡ (throw software_container_error, a))
        ⊎ ((used a (pos_part id) ≡ true)
            × (delete_container id a ≡ (
              ok tt,
              record a {
                containers = erase (pos_part id) a.containers;
                id_pool = pos_part id ∷ a.id_pool;
              },
            )))
  unfolding delete_container
  delete_container_cases id a = ground (arith, assert_cases id a)

  -- Giving an id back keeps the ids apart.
  pub delete_container-HasIds :
      (id : ℤ) (a : Agent Json SC) → HasIds a → HasIds (delete_container id a).1
  delete_container-HasIds id a h = elim (delete_container_cases id a) [
    | inl e ↦ rw e h
    | inr (known, e) ↦ rw e (push-Apart (pos_part id) a.id_pool a.containers h known)
  ]

  run_in-HasIds :
      {R : Type 0} (id : ℕ) (m : M SC R) (found : Option SC) (a : Agent Json SC)
      → lookup id a.containers ≡ found
      → HasIds a
      → HasIds (run_in id m found a).1
  run_in-HasIds id m none a e h = h
  run_in-HasIds id m (some c) a e h = record {
    is_pool = h.is_pool;
    apart = λ k u. let l = lookup-insert id k (m c).1 a.containers in ground (arith, h.apart k);
  }

  with_container_cases :
      {R : Type 0} (id : ℤ) (m : M SC R) (a : Agent Json SC)
      → (with_container id m a ≡ (throw software_container_error, a))
        ⊎ (with_container id m a ≡ run_in (pos_part id) m (lookup (pos_part id) a.containers) a)
  unfolding with_container
  with_container_cases id m a = elim (assert_cases id a) [
    | inl e ↦ inl (ground arith)
    | inr (e, known, _, _) ↦ inr (
        bind_ok (assert_container_exists id)
          (λ _. gets (λ b. lookup (pos_part id) b.containers) >>= run_in (pos_part id) m) a a tt e)
  ]

  -- Whatever is done with a container, its id stays in use.
  pub with_container-HasIds :
      {R : Type 0} (id : ℤ) (m : M SC R) (a : Agent Json SC)
      → HasIds a
      → HasIds (with_container id m a).1
  with_container-HasIds id m a h = elim (with_container_cases id m a) [
    | inl e ↦ rw e h
    | inr e ↦ rw e (run_in-HasIds (pos_part id) m _ a refl h)
  ]

  -- An id that no container has is refused with SoftwareContainerError, whatever is asked for, and
  -- nothing changes.
  with_container_unknown :
      {R : Type 0} (id : ℤ) (m : M SC R) (a : Agent Json SC)
      → used a (pos_part id) ≡ false
      → with_container id m a ≡ (throw software_container_error, a)
  unfolding with_container
  with_container_unknown id m a u = elim (assert_cases id a) [
    | inl e ↦ ground arith
    | inr (e, known, _, _) ↦ absurd (ground arith)
  ]

  deleted :
      (n : ℕ) (a : Agent Json SC)
      → n < int32_max
      → used a n ≡ true
      → delete_container (pos n) a
        ≡ (ok tt, record a { containers = erase n a.containers; id_pool = n ∷ a.id_pool })
  unfolding delete_container assert_container_exists
  deleted n a b u = ground arith

  found_again :
      (n : ℕ) (pool : List ℕ) (a : Agent Json SC)
      → IsPool (next_id pool) pool
      → find_suitable_id (record a { id_pool = n ∷ pool }) ≡ (ok n, record a { id_pool = pool })
  unfolding find_suitable_id
  found_again n [] a h = elim h [ ]
  found_again n (x ∷ r) a h = refl

  -- From an agent whose ids are apart, the id of a container that is deleted is the next that is given out, and giving it out restores
  -- the pool.
  pub find_suitable_id-delete_container :
      (n : ℕ) (a : Agent Json SC)
      → HasIds a
      → n < int32_max
      → used a n ≡ true
      → find_suitable_id (delete_container (pos n) a).1
        ≡ (ok n, record a { containers = erase n a.containers })
  find_suitable_id-delete_container n a h b u =
      rw (deleted n a b u)
        (found_again n a.id_pool (record a { containers = erase n a.containers }) h.is_pool)
