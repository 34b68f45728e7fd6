-- ===== src/SoftwareContainer/Start.antt =====
-- What `startGateways` does to the gateways (softwarecontainer.cpp).
use softwarecontainer.Common.{
  ◌≡◌, ◌≢◌, ◌⊎◌, inl, inr, true, false, none, arith, Bool-cases, All, Any,
}
use softwarecontainer.Common.OrdMap.{lookup, bytes_key}
use softwarecontainer.Common.Loops.{for_each-All, for_each-Any, for_each_blocked}
use softwarecontainer.Common.Throwing.{ok, throw, gateway_error, for_each}
use softwarecontainer.Json.{Jansson}
use softwarecontainer.GatewayConfig.{GatewayConfiguration, config, ids}
use softwarecontainer.SoftwareContainer.{
  GatewayInterface, SoftwareContainer, ready, start_gateways, configure_gateways, configure_gateway,
  activate_gateways, activate_gateway, all_known,
}

module _ {Json C G : Type 0} ⦃j : Jansson Json⦄ (gateway : GatewayInterface Json C G) where
  -- A configuration that names an unknown gateway is refused before any gateway is configured.
  start_gateways_unknown :
      (conf : GatewayConfiguration Json) (s : SoftwareContainer G C)
      → s.state ≡ ready
      → all_known gateway (ids conf) s.gateways ≡ false
      → start_gateways gateway conf s ≡ (throw gateway_error, s)
  unfolding start_gateways configure_gateways
  start_gateways_unknown conf s r u = ground arith

  -- A gateway that has been activated counts as configured, and throws when it is activated again.
  pub record ActivatesOnce : Type 0 where
    pub stays_configured :
        (g : G) (c : C)
        → (gateway.activate (g, c)).0 ≡ ok true
        → gateway.is_configured (gateway.activate (g, c)).1.0 ≡ true
    pub throws_again :
        (g : G) (c c' : C)
        → (gateway.activate (g, c)).0 ≡ ok true
        → let g' = (gateway.activate (g, c)).1.0 in
          gateway.activate (g', c') ≡ (throw gateway_error, (g', c'))

  -- A gateway that cannot be activated now: it counts as configured, and throws.
  abbrev pub Throws : G → Type 0
  Throws g =
      (gateway.is_configured g ≡ true)
      × ((c : C) → gateway.activate (g, c) ≡ (throw gateway_error, (g, c)))

  -- Each gateway throws, or has no configuration.
  abbrev pub Settled : G → Type 0
  Settled g = (gateway.is_configured g ≡ false) ⊎ Throws g

  activate_gateway-Settled :
      ActivatesOnce
      → (g : G) (c : C) → (activate_gateway gateway (g, c)).0 ≡ ok true
      → Settled (activate_gateway gateway (g, c)).1.0
  unfolding activate_gateway
  activate_gateway-Settled once g c h = elim (Bool-cases (gateway.is_configured g)) [
    | inl e ↦
        let h' : (gateway.activate (g, c)).0 ≡ ok true = (rw (e, activate_gateway) at h) in
        rw (e, activate_gateway)
          (inr (once.stays_configured g c h', λ c'. once.throws_again g c c' h'))
    | inr e ↦ rw (e, activate_gateway) (inl e)
  ]

  start_parts :
      (conf : GatewayConfiguration Json) (s : SoftwareContainer G C)
      → (start_gateways gateway conf s).0 ≡ ok true
      → let (r, s') = configure_gateways gateway conf s in
        (r ≡ ok true)
        × ((activate_gateways gateway s').0 ≡ ok true)
        × ((start_gateways gateway conf s).1.gateways ≡ (activate_gateways gateway s').1.gateways)
  unfolding start_gateways
  start_parts conf s h = ground arith

  configure_parts :
      (conf : GatewayConfiguration Json) (s : SoftwareContainer G C)
      → (configure_gateways gateway conf s).0 ≡ ok true
      → let (r, (gs, c)) = for_each (configure_gateway gateway conf) s.gateways s.container in
        (r ≡ ok true) × ((configure_gateways gateway conf s).1.gateways ≡ gs)
  unfolding configure_gateways
  configure_parts conf s h = ground arith

  activate-Settled :
      ActivatesOnce
      → (s : SoftwareContainer G C) → (activate_gateways gateway s).0 ≡ ok true
      → All Settled (activate_gateways gateway s).1.gateways
  unfolding activate_gateways
  activate-Settled once s h =
      for_each-All Settled (activate_gateway gateway) (activate_gateway-Settled once) s.gateways
        s.container h

  -- After a successful start, each gateway has no configuration, or throws when it is activated.
  pub start_gateways-Settled :
      ActivatesOnce
      → (conf : GatewayConfiguration Json) (s : SoftwareContainer G C)
      → (start_gateways gateway conf s).0 ≡ ok true
      → All Settled (start_gateways gateway conf s).1.gateways
  start_gateways-Settled once conf s h =
      let (_, act, same) = start_parts conf s h in
      rw same (activate-Settled once (configure_gateways gateway conf s).1 act)

  -- A gateway that cannot be activated again, and that `conf` does not configure.
  abbrev pub Blocks : GatewayConfiguration Json → G → Type 0
  Blocks conf g = Throws g × (lookup (gateway.id g) conf ≡ none)

  configure_gateway-Blocks :
      (conf : GatewayConfiguration Json) (g : G) (c : C)
      → Blocks conf g
      → (configure_gateway gateway conf (g, c)).0 ≡ ok true
      → Blocks conf (configure_gateway gateway conf (g, c)).1.0
  unfolding configure_gateway config
  configure_gateway-Blocks conf g c (t, n) h = rw (n, configure_gateway) (t, n)

  activate_gateway-Blocks :
      (conf : GatewayConfiguration Json) (g : G) (c : C)
      → Blocks conf g
      → (activate_gateway gateway (g, c)).0 ≢ ok true
  unfolding activate_gateway
  activate_gateway-Blocks conf g c ((y, t), n) h = ground (arith, t c)

  -- A start never succeeds while some gateway that cannot be activated again gets no new
  -- configuration.
  pub start_gateways_blocked :
      (conf : GatewayConfiguration Json) (s : SoftwareContainer G C)
      → Any (Blocks conf) s.gateways
      → (start_gateways gateway conf s).0 ≢ ok true
  unfolding activate_gateways
  start_gateways_blocked conf s a h =
      let (con, act, _) = start_parts conf s h in
      let (each, same) = configure_parts conf s con in
      for_each_blocked (Blocks conf) (activate_gateway gateway) (activate_gateway-Blocks conf) _ _
        (rw same (
          for_each-Any (Blocks conf) (configure_gateway gateway conf)
            (configure_gateway-Blocks conf) s.gateways s.container a each))
        act
