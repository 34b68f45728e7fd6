-- ===== src/Gateways/Sockets/Enabling.antt =====
-- When the gateways of sockets are enabled and activated (waylandgateway.cpp, pulsegateway.cpp).
use softwarecontainer.Common.{◌≡◌, refl, true, false, Bool, List, arith, Bool-cases, inl, inr}
use softwarecontainer.Common.Throwing.{Result, ok, throw}
use softwarecontainer.Json.{Jansson}
use softwarecontainer.ContainerInterface.{ContainerInterface}
use softwarecontainer.Gateway.{Own, is_activated, new_gateway, read_elements}
use softwarecontainer.Gateway.Reading.{read_elements_keeps}
use softwarecontainer.Gateway.Lifecycle.{Call, run, KeepsActivatedOnce, never_activated}
use softwarecontainer.Gateways.Sockets.{
  Host, Wayland, read_wayland_element, read_pulse_element, mount_wayland, mark, activate_wayland,
  wayland_gateway, pulse_gateway, new_wayland_gateway,
}

module _ {C : Type 0} (host : Host) (container : ContainerInterface C) where
  mark_keeps :
      (o : Own Wayland) (r : Result Bool × C)
      → (mark host container o r).1.0.activated_once ≡ o.activated_once
  mark_keeps o (ok true, c) = refl
  mark_keeps o (ok false, c) = refl
  mark_keeps o (throw e, c) = refl

  activate_keeps :
      (o : Own Wayland) (c : C)
      → (activate_wayland host container (o, c)).1.0.activated_once ≡ o.activated_once
  unfolding activate_wayland
  activate_keeps o c = ground (arith, mark_keeps o (mount_wayland host container c))

module _ {Json C : Type 0} ⦃j : Jansson Json⦄ (host : Host) (container : ContainerInterface C) where
  wayland_keeps : KeepsActivatedOnce (wayland_gateway host container {Json = Json})
  unfolding wayland_gateway
  wayland_keeps = record {
    activate_keeps = activate_keeps host container;
    teardown_keeps = λ o c. refl;
  }

  -- Whatever calls the Wayland gateway gets, it never counts as activated: it sets the member
  -- m_activatedOnce of its own class, and `isActivated` reads that of the base class.
  wayland_never_activated :
      (calls : List (Call Json)) (c : C)
      → is_activated (run (wayland_gateway host container) calls (new_wayland_gateway, c)).0 ≡ false
  unfolding new_gateway
  wayland_never_activated calls c =
      never_activated (wayland_gateway host container) wayland_keeps calls new_wayland_gateway c
        refl refl

  wayland_element_keeps :
      (element : Json) (w : Wayland)
      → w.enabled ≡ true
      → (read_wayland_element element w).1.enabled ≡ true
  unfolding read_wayland_element
  wayland_element_keeps element w h = ground arith

  pulse_element_keeps :
      (element : Json) (e : Bool) → e ≡ true → (read_pulse_element element e).1 ≡ true
  unfolding read_pulse_element
  pulse_element_keeps element e h = ground arith

  -- No configuration disables the Wayland gateway again, however its reading ends.
  wayland_stays_enabled :
      (elements : List Json) (w : Wayland)
      → w.enabled ≡ true
      → (read_elements (wayland_gateway host container) elements w).1.enabled ≡ true
  unfolding wayland_gateway
  wayland_stays_enabled elements w h =
      read_elements_keeps (wayland_gateway host container) (λ v. v.enabled ≡ true)
        wayland_element_keeps elements w h

  -- No configuration disables the Pulse gateway again, however its reading ends.
  pub pulse_stays_enabled :
      (elements : List Json) (e : Bool)
      → e ≡ true
      → (read_elements (pulse_gateway host container) elements e).1 ≡ true
  unfolding pulse_gateway
  pulse_stays_enabled elements e h =
      read_elements_keeps (pulse_gateway host container) (λ v. v ≡ true) pulse_element_keeps
        elements e h

module _ {C : Type 0} (host : Host) (container : ContainerInterface C) where
  mark_done :
      (o : Own Wayland) (r : Result Bool × C)
      → (mark host container o r).0 ≡ ok true
      → (mark host container o r).1.0.fields.activated_once ≡ true
  mark_done o (ok true, c) h = refl
  mark_done o (ok false, c) h = absurd (ground arith)
  mark_done o (throw e, c) h = absurd (ground arith)

  -- After a successful activation another one changes neither the gateway nor the container: the
  -- socket is mounted once.
  wayland_mounts_once :
      (o : Own Wayland) (c : C)
      → (activate_wayland host container (o, c)).0 ≡ ok true
      → let s = (activate_wayland host container (o, c)).1 in
        activate_wayland host container s ≡ (ok true, s)
  unfolding activate_wayland
  wayland_mounts_once o c h = elim (Bool-cases o.fields.enabled) [
    | inr d ↦ ground arith
    | inl e ↦ elim (Bool-cases o.fields.activated_once) [
      | inl a ↦ ground arith
      | inr n ↦ ground (arith, mark_done o (mount_wayland host container c))
    ]
  ]
