-- ===== src/SoftwareContainer/Restart.antt =====
-- A second `startGateways` on gateways of the base class (softwarecontainer.cpp, gateway.cpp).
use softwarecontainer.Common.{◌≡◌, ◌≢◌, inl, inr, true, none, List, [], ◌∷◌, arith, All, Any}
use softwarecontainer.Common.OrdMap.{lookup, bytes_key}
use softwarecontainer.Common.Throwing.{ok}
use softwarecontainer.Json.{Jansson}
use softwarecontainer.GatewayConfig.{GatewayConfiguration}
use softwarecontainer.Gateway.{
  Gateway, GatewayMethods, set_config, activate, teardown, is_configured, is_activated, activated,
}
use softwarecontainer.Gateway.Lifecycle.{activate_reaches, activate_unconfigured}
use softwarecontainer.SoftwareContainer.{GatewayInterface, SoftwareContainer, start_gateways}
use softwarecontainer.SoftwareContainer.Start.{
  ActivatesOnce, Settled, Blocks, start_gateways-Settled, start_gateways_blocked,
}

module _ {Json C S : Type 0} ⦃j : Jansson Json⦄ (methods : GatewayMethods Json C S) where
  -- The gateways of one class, as SoftwareContainer calls them.
  abbrev pub base_gateway : GatewayInterface Json C (Gateway S)
  base_gateway = record {
    id = λ g. g.id;
    set_config = set_config methods;
    activate = activate methods;
    teardown = teardown methods;
    is_configured = is_configured;
    is_activated = is_activated;
  }

  activated_configured : (g : Gateway S) → g.state ≡ activated → is_configured g ≡ true
  unfolding is_configured
  activated_configured g h = ground arith

  base_gateway-ActivatesOnce : ActivatesOnce base_gateway
  base_gateway-ActivatesOnce = record {
    stays_configured = λ g c h. activated_configured _ (activate_reaches methods g c h);
    throws_again = λ g c c' h.
        let reached = activate_reaches methods g c h in
        activate_unconfigured methods _ _ (λ e. ground arith);
  }

  -- A gateway that is configured, and that `conf` does not configure.
  abbrev pub Omitted : GatewayConfiguration Json → Gateway S → Type 0
  Omitted conf g = (is_configured g ≡ true) × (lookup g.id conf ≡ none)

  Any-Blocks :
      (conf : GatewayConfiguration Json) (gs : List (Gateway S))
      → All (Settled base_gateway) gs
      → Any (Omitted conf) gs
      → Any (Blocks base_gateway conf) gs
  Any-Blocks conf [] all any = elim any [ ]
  Any-Blocks conf (g ∷ gs) (inr throws, all) (inl (y, n)) = inl (throws, n)
  Any-Blocks conf (g ∷ gs) (inl unset, all) (inl (y, n)) = absurd (ground arith)
  Any-Blocks conf (g ∷ gs) (first, all) (inr any) = inr (Any-Blocks conf gs all any)

  -- Once `startGateways` has succeeded, it never succeeds again with a configuration that omits
  -- some configured gateway.
  pub start_gateways_again :
      (conf conf' : GatewayConfiguration Json) (s : SoftwareContainer (Gateway S) C)
      → (start_gateways base_gateway conf s).0 ≡ ok true
      → Any (Omitted conf') (start_gateways base_gateway conf s).1.gateways
      → (start_gateways base_gateway conf' (start_gateways base_gateway conf s).1).0 ≢ ok true
  start_gateways_again conf conf' s h any =
      start_gateways_blocked base_gateway conf' (start_gateways base_gateway conf s).1 (
        Any-Blocks conf' _ (start_gateways-Settled base_gateway base_gateway-ActivatesOnce conf s h)
          any)
