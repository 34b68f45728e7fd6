-- ===== src/Gateway/Lifecycle.antt =====
-- The life cycle of every gateway, whatever its class overrides (gateway/gateway.cpp).
use softwarecontainer.Common.{◌≡◌, ◌≢◌, true, false, Bool, List, [], ◌∷◌, arith}
use softwarecontainer.Common.Throwing.{Result, ok, throw, gateway_error}
use softwarecontainer.Json.{Jansson}
use softwarecontainer.Gateway.{
  Own, Gateway, GatewayMethods, GatewayState, created, configured, activated, set_config, activate,
  teardown, is_activated,
}

-- The calls that a gateway gets.
pub data Call (Json : Type 0) : Type 0 where
  sets_config : Json → Call Json
  activates : Call Json
  tears_down : Call Json

-- The state that a successful call leads to.
abbrev pub goal : {Json : Type 0} → Call Json → GatewayState
goal (sets_config config) = configured
goal activates = activated
goal tears_down = created

-- The states around one call, by how the call ended.
abbrev pub Moves : GatewayState → GatewayState → GatewayState → Result Bool → Type 0
Moves before goal after (ok true) = after ≡ goal
Moves before goal after (ok false) = after ≡ before
Moves before goal after (throw e) = after ≡ before

module _ {Json C S : Type 0} ⦃j : Jansson Json⦄ (methods : GatewayMethods Json C S) where
  pub step : Call Json → Gateway S × C → Result Bool × (Gateway S × C)
  step (sets_config config) (g, c) = let (r, g') = set_config methods config g in (r, (g', c))
  step activates s = activate methods s
  step tears_down s = teardown methods s

  pub run : List (Call Json) → Gateway S × C → Gateway S × C
  run [] s = s
  run (call ∷ calls) s = run calls (step call s).1

  -- A call that succeeds leads to its own state; a call that fails or throws keeps the state.
  pub step-Moves :
      (call : Call Json) (g : Gateway S) (c : C)
      → let (r, (g', c')) = step call (g, c) in Moves g.state (goal call) g'.state r
  unfolding step set_config activate teardown
  step-Moves (sets_config config) g c = ground arith
  step-Moves activates g c = ground arith
  step-Moves tears_down g c = ground arith

  -- `activate` throws in every state but `configured`, and then touches neither the gateway nor
  -- the container.
  pub activate_unconfigured :
      (g : Gateway S) (c : C)
      → g.state ≢ configured
      → activate methods (g, c) ≡ (throw gateway_error, (g, c))
  unfolding activate
  activate_unconfigured g c h = ground arith

  pub activate_reaches :
      (g : Gateway S) (c : C)
      → (activate methods (g, c)).0 ≡ ok true
      → ((activate methods (g, c)).1).0.state ≡ activated
  unfolding activate
  activate_reaches g c h = ground arith

  -- After a successful `activate` another one throws and changes nothing, for dynamic gateways too.
  activate_twice :
      (g : Gateway S) (c : C)
      → (activate methods (g, c)).0 ≡ ok true
      → let (r, s) = activate methods (g, c) in activate methods s ≡ (throw gateway_error, s)
  activate_twice g c h =
      let a = activate_reaches g c h in activate_unconfigured _ _ (λ e. ground arith)

  -- A gateway that is not dynamic refuses a configuration after its activation.
  pub set_config_activated :
      (config : Json) (g : Gateway S)
      → g.is_dynamic ≡ false
      → g.state ≡ activated
      → set_config methods config g ≡ (throw gateway_error, g)
  unfolding set_config
  set_config_activated config g d h = ground arith

  -- The overriding methods leave `m_activatedOnce` alone.
  pub record KeepsActivatedOnce : Type 0 where
    pub activate_keeps :
        (o : Own S) (c : C)
        → ((methods.activate_gateway (o, c)).1).0.activated_once ≡ o.activated_once
    pub teardown_keeps :
        (o : Own S) (c : C)
        → ((methods.teardown_gateway (o, c)).1).0.activated_once ≡ o.activated_once

  abbrev Dormant : Gateway S → Type 0
  Dormant g = (g.is_dynamic ≡ true) × (g.activated_once ≡ false)

  step-Dormant :
      KeepsActivatedOnce
      → (call : Call Json) (g : Gateway S) (c : C) → Dormant g
      → Dormant ((step call (g, c)).1).0
  unfolding step set_config activate teardown
  step-Dormant k (sets_config config) g c d = ground arith
  step-Dormant k activates g c d = ground (arith, k.activate_keeps g.own c)
  step-Dormant k tears_down g c d = ground (arith, k.teardown_keeps g.own c)

  run-Dormant :
      KeepsActivatedOnce
      → (calls : List (Call Json)) (g : Gateway S) (c : C) → Dormant g
      → Dormant (run calls (g, c)).0
  unfolding run
  run-Dormant k [] g c d = d
  run-Dormant k (call ∷ calls) g c d = run-Dormant k calls _ _ (step-Dormant k call g c d)

  -- A dynamic gateway whose methods never write `m_activatedOnce` never counts as activated.
  pub never_activated :
      KeepsActivatedOnce
      → (calls : List (Call Json)) (g : Gateway S) (c : C) → g.is_dynamic ≡ true
      → g.activated_once ≡ false
      → is_activated (run calls (g, c)).0 ≡ false
  unfolding is_activated
  never_activated k calls g c d o = ground (arith, run-Dormant k calls g c (d, o))
