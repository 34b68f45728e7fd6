-- ===== src/Gateways/DBus/Buses.antt =====
-- What the gateway of both buses makes of the results of its instances.
use softwarecontainer.Common.{
  ◌≡◌, refl, Bool, true, false, List, [], ◌∷◌, ◌++◌, some, arith, All, is_some, sym, ap, ◌∙◌, inl,
  inr, Option-cases,
}
use mathlib.Core.List.{append-nil, append_assoc}
use softwarecontainer.Common.Bytes.{Bytes}
use softwarecontainer.Common.Throwing.{ok, throw, undefined}
use softwarecontainer.Json.{Jansson, IsJansson}
use softwarecontainer.ContainerInterface.{ContainerInterface}
use softwarecontainer.Gateway.{
  Own, Gateway, is_configured as is_base_configured, activate as activate_base,
}
use softwarecontainer.Gateways.DBus.Proxy.{
  ProxyType, session_proxy, system_proxy, Host, Instance, append_children, parse_dbus_config,
  teardown_gateway, activate_gateway, start_proxy, start_with, start_dbus_proxy, send_config,
}
use softwarecontainer.Gateways.DBus.{
  DBusGateway, activate, activate_system, session_methods, system_methods,
}

module _ {Json C : Type 0} ⦃j : Jansson Json⦄ (container : ContainerInterface C) (host : Host C)
    (build_path : Bytes → Bytes → Bytes) (dumps : ProxyType → Json → Bytes) where
  -- With both buses configured, `activate` says what the system bus says: that the session bus was
  -- activated counts for nothing.
  activate_says_system :
      (g : DBusGateway Json) (c c1 c2 : C) (session system : Gateway (Instance Json)) (b : Bool)
      → is_base_configured g.session ≡ true
      → is_base_configured g.system ≡ true
      → activate_base (session_methods container host build_path dumps) (g.session, c)
        ≡ (ok true, (session, c1))
      → activate_base (system_methods container host build_path dumps) (g.system, c1)
        ≡ (ok b, (system, c2))
      → activate container host build_path dumps (g, c)
        ≡ (ok b, (record { session = session; system = system }, c2))
  unfolding activate activate_system
  activate_says_system g c c1 c2 session system b s t h k = ground arith

  start_keeps :
      (bus : ProxyType) (o : Own (Instance Json)) (c : C)
      → (start_proxy container host build_path dumps bus (o, c)).1.0.fields.entire_config
        ≡ o.fields.entire_config
  unfolding start_proxy start_with start_dbus_proxy
  start_keeps session_proxy o c = ground arith
  start_keeps system_proxy o c = ground arith

  send_undefined :
      (bus : ProxyType) (o : Own (Instance Json)) (c : C)
      → o.fields.entire_config ≡ false
      → (send_config container host build_path dumps bus (o, c)).0 ≡ throw undefined
  unfolding send_config
  send_undefined bus o c h = ground arith

  torn_down :
      (o : Own (Instance Json)) (c : C)
      → (teardown_gateway host (o, c)).1.0.fields.entire_config ≡ false
  unfolding teardown_gateway
  torn_down o c = refl

  -- Once it is torn down, an instance has lost the object of its configuration: an activation that
  -- starts the proxy again prints a null pointer.
  activate_gateway-teardown_gateway :
      (bus : ProxyType) (o o' : Own (Instance Json)) (c c1 c2 : C)
      → let torn = record ((teardown_gateway host (o, c)).1.0) { activated_once = false } in
        start_proxy container host build_path dumps bus (torn, c1) ≡ (ok true, (o', c2))
        → (activate_gateway container host build_path dumps bus (torn, c1)).0 ≡ throw undefined
  unfolding activate_gateway
  activate_gateway-teardown_gateway bus o o' c c1 c2 h =
      let torn : Own (Instance Json) = record ((teardown_gateway host (o, c)).1.0) {
        activated_once = false;
      } in
      let lost : o'.fields.entire_config ≡ false =
        sym (ap (λ r. r.1.0.fields.entire_config) h) ∙ start_keeps bus torn c1 ∙ torn_down o c in
      rw h (send_undefined bus o' c2 lost)

-- The copies of the elements are added at the end of the array, in their order.
module _ {Json : Type 0} ⦃j : Jansson Json⦄ (laws : IsJansson j) where
  append_children-elements :
      (children : List Json) (config : Json)
      → All (λ v. j.is_object v ≡ true) children
      → ((a v : Json) → is_some (j.array_append a v) ≡ true)
      → ((append_children children config).0 ≡ ok true)
        × (j.elements (append_children children config).1 ≡ j.elements config ++ children)
  unfolding append_children
  append_children-elements [] config h a = (refl, sym (append-nil (j.elements config)))
  append_children-elements (v ∷ rest) config h a = elim (Option-cases (j.array_append config v)) [
    | inl none_left ↦ absurd (ground (arith, a config v, none_left))
    | inr (config', appended) ↦
        let others : _ = append_children-elements rest config' h.1 a in
        rw (h.0, laws.deep_copy-eq v, appended)
          (
            others.0,
            others.1
                ∙ ap (λ es. es ++ rest) (laws.elements-array_append config v config' appended)
                ∙ (simp append_assoc),
          )
  ]

  -- With objects alone, and as long as jansson can append, the configuration of a bus grows by the
  -- elements that the key of the bus has, in their order.
  parse_dbus_config_lem :
      (element value config : Json) (key : Bytes)
      → j.object_get element key ≡ some value
      → j.is_array value ≡ true
      → All (λ v. j.is_object v ≡ true) (j.elements value)
      → ((a v : Json) → is_some (j.array_append a v) ≡ true)
      → ((parse_dbus_config element key config).0 ≡ ok true)
        × (j.elements (parse_dbus_config element key config).1
            ≡ j.elements config ++ j.elements value)
  unfolding parse_dbus_config
  parse_dbus_config_lem element value config key g r h a =
      rw (g, r) (append_children-elements (j.elements value) config h a)
