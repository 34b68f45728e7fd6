-- ===== src/Gateway.antt =====
-- gateway/gateway.{h,cpp}: the base class of the gateways and its life cycle.
-- What a subclass overrides is a record of methods over the subclass's own fields and the
-- container. A subclass may write `m_activatedOnce`, which is protected, and no other base field.
pub mod Lifecycle
pub mod Reading
use softwarecontainer.Common.{
  ◌≡◌, Bool, true, false, List, [], ◌∷◌, ◌&&◌, ◌||◌, not, if◌then◌else◌, length, ◌==◌,
}
use softwarecontainer.Common.Bytes.{Bytes}
use softwarecontainer.Common.Throwing.{
  M, Result, ok, throw, gateway_error, ◌>>=◌, ◌>>◌, pure, raise, raise_if, modify, gets, and_then,
}
use softwarecontainer.Json.{Jansson}

pub data GatewayState : Type 0 where
  created configured activated : GatewayState

abbrev pub is_state : GatewayState → GatewayState → Bool
is_state created created = true
is_state configured configured = true
is_state activated activated = true
is_state _ _ = false

-- `a >= b` on the numbers of the states.
abbrev pub is_at_least : GatewayState → GatewayState → Bool
is_at_least a created = true
is_at_least created _ = false
is_at_least configured configured = true
is_at_least configured activated = false
is_at_least activated _ = true

-- What the overriding methods can write.
pub record Own (S : Type 0) : Type 0 where
  pub activated_once : Bool
  pub fields : S

pub record Gateway (S : Type 0) : Type 0 where
  pub own : Own S
  pub open own use *
  pub id : Bytes
  pub is_dynamic : Bool
  pub state : GatewayState

-- The pure virtual methods, for a class with fields `S` in a container `C`.
pub record GatewayMethods (Json C S : Type 0) : Type 0 where
  pub read_config_element : Json → M S Bool
  pub activate_gateway : M (Own S × C) Bool
  pub teardown_gateway : M (Own S × C) Bool

-- The constructor.
unfoldable pub new_gateway : {S : Type 0} → Bytes → Bool → S → Gateway S
new_gateway id is_dynamic fields = record {
  own = record { activated_once = false; fields = fields };
  id = id;
  is_dynamic = is_dynamic;
  state = created;
}

unfoldable pub is_configured : {S : Type 0} → Gateway S → Bool
is_configured g = is_at_least g.state configured

unfoldable pub is_activated : {S : Type 0} → Gateway S → Bool
is_activated g = if g.is_dynamic then g.activated_once else is_at_least g.state activated

-- The guard that `setConfig` and `activate` begin with.
abbrev pub is_fixed : {S : Type 0} → Gateway S → Bool
is_fixed g = is_state g.state activated && not g.is_dynamic

-- An overriding method runs on what it can write, and the rest of the object stays.
abbrev pub on_own : {C S : Type 0} → M (Own S × C) Bool → M (Gateway S × C) Bool
on_own m (g, c) = let (r, (o, c')) = m (g.own, c) in (r, (record g { own = o }, c'))

module _ {Json C S : Type 0} ⦃j : Jansson Json⦄ (methods : GatewayMethods Json C S) where
  open methods use {read_config_element, activate_gateway, teardown_gateway}

  -- The loop of `setConfig`.
  unfoldable pub read_elements : List Json → M S Bool
  read_elements [] s = (ok true, s)
  read_elements (element ∷ rest) s = elim (j.is_object element) [
    | false ↦ (ok false, s)
    | true ↦ and_then (read_config_element element) (read_elements rest) s
  ]

  abbrev pub after_reading : Gateway S → Result Bool × S → Result Bool × Gateway S
  after_reading g (ok true, s) = (
    ok true,
    record g { own = record { activated_once = g.activated_once; fields = s }; state = configured },
  )
  after_reading g (r, s) =
      (r, record g { own = record { activated_once = g.activated_once; fields = s } })

  unfoldable pub set_config : Json → M (Gateway S) Bool
  set_config config g =
      if is_fixed g
      then (throw gateway_error, g)
      else if not (j.is_array config)
      then (ok false, g)
      else if length (j.elements config) == 0
      then (ok false, g)
      else after_reading g (read_elements (j.elements config) g.fields)

  unfoldable pub activate : M (Gateway S × C) Bool
  activate = do
    raise_if (is_fixed (← gets (λ s. s.0))) gateway_error
    raise_if (not (is_state configured (← gets (λ s. s.0)).state)) gateway_error
    done ← on_own activate_gateway
    modify (λ s. if done then (record (s.0) { state = activated }, s.1) else s)
    pure done

  unfoldable pub teardown : M (Gateway S × C) Bool
  teardown = do
    g ← gets (λ s. s.0)
    raise_if (not (is_state activated g.state) && not g.activated_once) gateway_error
    done ← on_own teardown_gateway
    modify (λ s.
        if done
        then (
          record (s.0) {
            state = created;
            own = record { activated_once = false; fields = (s.0).fields };
          },
          s.1,
        )
        else s)
    pure done
