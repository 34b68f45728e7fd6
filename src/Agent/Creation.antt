-- ===== src/Agent/Creation.antt =====
-- What `createContainer` does to the containers and the ids (softwarecontaineragent.cpp).
use mathlib.Core.Path.{◌∙◌, ap}
use softwarecontainer.Common.{sym, ℕ, ◌≡◌, refl, false, some, List, arith, ◌==◌, if◌then◌else◌}
use softwarecontainer.Common.Bytes.{Bytes}
use softwarecontainer.Common.OrdMap.{OrdMap, lookup, insert, contains, nat_key, lookup-insert}
use softwarecontainer.Common.Throwing.{M, Result, ok, throw, gets, modify, pure, ◌>>=◌, ◌>>◌, after}
use softwarecontainer.Json.{Jansson}
use softwarecontainer.ContainerOptions.{
  SoftwareContainerConfig, DynamicContainerOptions, parse, to_config,
}
use softwarecontainer.Agent.{Agent, SoftwareContainerInterface, create_container, find_suitable_id}
use softwarecontainer.Agent.Ids.{Apart, Fresh, used, HasIds, Found, find_suitable_id-Found}

-- What a creation leaves, by how it ends: a new container stands under an id that was not in use,
-- and the other containers stay.
abbrev pub Created : {Json SC : Type 0} → Agent Json SC → Result ℕ × Agent Json SC → Type 0
Created {Json} {SC} a (ok id, a') =
    HasIds a'
    × (used a id ≡ false)
    × ((c : SC) × ((k : ℕ)
          → lookup k a'.containers ≡ (if id == k then some c else lookup k a.containers)))
Created a (throw e, a') = HasIds a' × (a'.containers ≡ a.containers)

insert-Apart :
    {SC : Type 0} (id : ℕ) (v : SC) (pool : List ℕ) (c : OrdMap ℕ SC)
    → Apart pool (λ k. contains k c)
    → Fresh id pool (λ k. contains k c)
    → Apart pool (λ k. contains k (insert id v c))
insert-Apart id v pool c h f = record {
  is_pool = h.is_pool;
  apart = λ k u.
      let l = lookup-insert id k v c in
      let below = f.below in let taken = f.taken in ground (arith, h.apart k);
}

module _ {Json SC : Type 0} ⦃j : Jansson Json⦄ (container : SoftwareContainerInterface Json SC)
    (create : ℕ → SoftwareContainerConfig → Result SC) (fresh_size : ℕ) where
  abbrev place : SoftwareContainerConfig → ℕ → M (Agent Json SC) ℕ
  place conf id = do
    c ← λ a. (create id conf, a)
    modify (λ a. record a { containers = insert id c a.containers })
    pure id

  place-Created :
      (conf : SoftwareContainerConfig) (a : Agent Json SC) (id : ℕ) (a' : Agent Json SC)
      (made : Result SC)
      → create id conf ≡ made
      → Found a (ok id, a')
      → Created a (place conf id a')
  place-Created conf a id a' (ok c) e (h, f, same) = rw e (
    insert-Apart id c a'.id_pool a'.containers h f,
    ap (λ m. contains id m) (sym same) ∙ f.unused,
    (c, λ k. rw (← same) (lookup-insert id k c a'.containers)),
  )
  place-Created conf a id a' (throw x) e (h, f, same) = rw e (h, same)

  after-Created :
      (conf : SoftwareContainerConfig) (a : Agent Json SC) (r : Result ℕ × Agent Json SC)
      → HasIds a
      → Found a r
      → Created a (after r (place conf))
  after-Created conf a (ok id, a') h f = place-Created conf a id a' (create id conf) refl f
  after-Created conf a (throw e, a') h f = rw f (h, refl)

  -- `createContainer`, from an agent whose ids are apart: on success a new container stands under
  -- the id that is returned, which was not in use, and the others stay; on an exception all
  -- containers stay; the ids are apart after either.
  pub create_container-Created :
      (conf : Bytes) (a : Agent Json SC)
      → HasIds a
      → Created a (create_container container create fresh_size conf a)
  unfolding create_container
  create_container-Created conf a h = go (parse Json fresh_size conf a.options)
    where
      go :
          (p : Result DynamicContainerOptions × DynamicContainerOptions)
          → Created a (
              (do
                options ← λ a. (p.0, record a { options = p.1 })
                container_config ← gets (λ a. to_config options a.container_config)
                id ← find_suitable_id
                place container_config id)
                a)
      go (throw e, o) = (h, refl)
      go (ok options, o) =
          let b : Agent Json SC = record a { options = o } in
          after-Created (to_config options a.container_config) b (find_suitable_id b) h
            (find_suitable_id-Found b h)
