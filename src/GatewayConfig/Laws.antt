-- ===== src/GatewayConfig/Laws.antt =====
-- What `append` does to the configuration that a gateway gets (common/gatewayconfig.cpp).
use softwarecontainer.Common.{
  ◌≡◌, sym, ◌∙◌, true, false, none, some, List, [], ◌∷◌, ◌++◌, arith, Bool-cases, Option-cases,
  if◌then◌else◌, inl, inr,
}
use mathlib.Core.List.{append-nil, append_assoc}
use softwarecontainer.Common.Bytes.{Bytes, ◌==◌, eq_iff}
use softwarecontainer.Common.OrdMap.{lookup, lookup-insert, bytes_key}
use softwarecontainer.Json.{Jansson, IsJansson}
use softwarecontainer.GatewayConfig.{GatewayConfiguration, append_elements, append_array, append}

-- No gateway id stands twice, as in every `std::map`.
abbrev pub DistinctIds : {Json : Type 0} → GatewayConfiguration Json → Type 0
DistinctIds [] = Unit
DistinctIds ((id, array) ∷ source) = (lookup id source ≡ none) × DistinctIds source

module _ {Json : Type 0} ⦃j : Jansson Json⦄ where
  -- The elements that are configured for a gateway.
  abbrev pub contents : Bytes → GatewayConfiguration Json → List Json
  contents id conf = elim (lookup id conf) [ none ↦ [] | some array ↦ j.elements array ]

  module _ (law : IsJansson j) where
    pub elements-append_elements :
        (dest : Json) (values : List Json) (b : Json)
        → append_elements dest values ≡ some b
        → j.elements b ≡ j.elements dest ++ values
    unfolding append_elements
    elements-append_elements dest [] b h = ground (arith, append-nil (j.elements dest))
    elements-append_elements dest (v ∷ vs) b h =
        elim (Option-cases (j.array_append dest (j.deep_copy v))) [
          | inl e ↦ absurd (let h' = rw (e, append_elements) at h in ground (arith, h'))
          | inr (d, e) ↦
              let h' : append_elements d vs ≡ some b = (rw (e, append_elements) at h) in
              elements-append_elements d vs b h'
              ∙ (rw (law.elements-array_append dest (j.deep_copy v) d e, law.deep_copy-eq v)
                  (append_assoc (j.elements dest) (v ∷ []) vs))
        ]

    -- With jansson as documented, a successful `append` of an array adds its elements behind those of its gateway, and leaves
    -- the other gateways alone.
    contents-append_array :
        (id : Bytes) (source : Json) (conf : GatewayConfiguration Json) (k : Bytes)
        → (append_array id source conf).0 ≡ true
        → contents k (append_array id source conf).1
          ≡ (if id == k then contents k conf ++ j.elements source else contents k conf)
    unfolding append_array
    contents-append_array id source conf k h = elim (Option-cases (lookup id conf)) [
      | inl e ↦ ground (
        arith,
        lookup-insert id k (j.deep_copy source) conf,
        eq_iff id k,
        law.deep_copy-eq source,
      )
      | inr (dest, e) ↦ elim (Option-cases (append_elements dest (j.elements source))) [
        | inl f ↦ ground arith
        | inr (d, f) ↦ ground (
          arith,
          lookup-insert id k d conf,
          eq_iff id k,
          elements-append_elements dest (j.elements source) d f,
        )
      ]
    ]

    -- With jansson as documented, an `append` of an array that fails changes nothing: the backup is
    -- restored.
    append_array_atomic :
        (id : Bytes) (source : Json) (conf : GatewayConfiguration Json) (k : Bytes)
        → (append_array id source conf).0 ≡ false
        → lookup k (append_array id source conf).1 ≡ lookup k conf
    unfolding append_array
    append_array_atomic id source conf k h = elim (Option-cases (lookup id conf)) [
      | inl e ↦ ground arith
      | inr (dest, e) ↦
          ground
            (arith, lookup-insert id k (j.deep_copy dest) conf, eq_iff id k, law.deep_copy-eq dest)
    ]

    -- With jansson as documented, a successful `append` of a configuration in which no id stands
    -- twice adds, for every gateway, the elements of the source
    -- behind those that are there.
    pub contents-append :
        (source conf : GatewayConfiguration Json) (k : Bytes)
        → DistinctIds source
        → (append source conf).0 ≡ true
        → contents k (append source conf).1 ≡ contents k conf ++ contents k source
    unfolding append lookup
    contents-append [] conf k d h = sym (append-nil (contents k conf))
    contents-append ((id, array) ∷ source) conf k d h =
        elim (Bool-cases (append_array id array conf).0) [
          | inl e ↦
              let h' : (append source (append_array id array conf).1).0 ≡ true = ground arith in
              ground (
                arith,
                eq_iff id k,
                contents-append_array id array conf k e,
                contents-append source (append_array id array conf).1 k d.1 h',
                append-nil (contents k conf),
                append-nil (j.elements array),
                append-nil (contents k conf ++ j.elements array),
              )
          | inr e ↦ ground arith
        ]
