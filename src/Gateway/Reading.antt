-- ===== src/Gateway/Reading.antt =====
-- The loop over the elements of a configuration (gateway/gateway.cpp).
use softwarecontainer.Common.{List, [], ◌∷◌, Bool-cases, inl, inr}
use softwarecontainer.Common.Throwing.{and_then_keeps}
use softwarecontainer.Json.{Jansson}
use softwarecontainer.Gateway.{GatewayMethods, read_elements}

module _ {Json C S : Type 0} ⦃j : Jansson Json⦄ (methods : GatewayMethods Json C S) where
  -- What the reading of each element keeps, the loop keeps, however it ends.
  pub read_elements_keeps {ℓ} :
      (P : S → Type ℓ)
      → ((element : Json) (s : S) → P s → P (methods.read_config_element element s).1)
      → (elements : List Json) (s : S) → P s
      → P (read_elements methods elements s).1
  unfolding read_elements
  read_elements_keeps P keep [] s h = h
  read_elements_keeps P keep (element ∷ rest) s h = elim (Bool-cases (j.is_object element)) [
    | inl e ↦
        rw (e, read_elements)
          (and_then_keeps P _ _ (keep element s h) (read_elements_keeps P keep rest))
    | inr e ↦ rw (e, read_elements) h
  ]
