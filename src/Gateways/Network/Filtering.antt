-- ===== src/Gateways/Network/Filtering.antt =====
-- What the network gateway makes of its configuration, and when it brings the network up.
use softwarecontainer.Common.{
  ◌≡◌, refl, ◌⊎◌, inl, inr, Bool, true, false, not, Option, none, some, List, [], ◌∷◌, ◌++◌, arith,
  All, if◌then◌else◌, Bool-cases, Option-cases, sym,
}
use softwarecontainer.Common.Bytes.{Bytes, bytes, ◌==◌}
use softwarecontainer.Common.Int.{ℤ, pos, eqb_ℤ}
use softwarecontainer.Common.Throwing.{Result, ok, throw, and_then_keeps}
use softwarecontainer.Json.{Jansson, read_string}
use softwarecontainer.ContainerInterface.{
  ContainerInterface, bring_up_ethernet, set_default_gateway,
}
use softwarecontainer.Gateways.Network.IpTables.{
  PortFilter, Rule, IpTableEntry, accept, drop, interpret_policy, convert_target, commands,
  rules_commands,
}
use softwarecontainer.Gateways.Network.Parser.{
  no_ports, push_rule, with_rules, chain_type, parse_allow, parse_port, ports_of, protocols_of,
  parse_rule, parse_rules, parse_network_gateway_configuration,
}
use softwarecontainer.Gateways.Network.Activation.{
  NetworkSettings, Network, up, after_bring_up, set_gateway,
}

-- An entry that blocks what no rule allows: its policy is DROP and each rule accepts.
abbrev pub IsFilter : IpTableEntry → Type 0
IsFilter e =
    (e.default_target ≡ drop)
    × ((e.type ≡ bytes "INPUT") ⊎ (e.type ≡ bytes "OUTPUT"))
    × All (λ rule. rule.target ≡ accept) e.rules

abbrev IsAllowing : List Rule → Type 0
IsAllowing rules = All (λ rule. rule.target ≡ accept) rules

append-IsAllowing :
    (rules : List Rule) (rule : Rule)
    → IsAllowing rules
    → rule.target ≡ accept
    → IsAllowing (rules ++ (rule ∷ []))
append-IsAllowing [] rule h k = (k, tt)
append-IsAllowing (r ∷ rules) rule h k = (h.0, append-IsAllowing rules rule h.1 k)

push_rule-IsAllowing :
    (host : Bytes) (protocols : List Bytes) (r : Result Bool × PortFilter) (rules : List Rule)
    → IsAllowing rules
    → IsAllowing (push_rule host protocols r rules).1
push_rule-IsAllowing host protocols (ok b, ports) rules h = append-IsAllowing rules _ h refl
push_rule-IsAllowing host protocols (throw e, ports) rules h = h

if-IsAllowing :
    (b : Bool) (r r' : Result Bool × List Rule)
    → IsAllowing r.1
    → IsAllowing r'.1
    → IsAllowing (if b then r else r').1
if-IsAllowing true r r' h k = h
if-IsAllowing false r r' h k = k

abbrev IsChain : Bytes → Type 0
IsChain type = (type ≡ bytes "INPUT") ⊎ (type ≡ bytes "OUTPUT")

chain_type-IsChain : (chain type : Bytes) → chain_type chain ≡ some type → IsChain type
unfolding chain_type
chain_type-IsChain chain type h = elim (Bool-cases (chain == bytes "INCOMING")) [
  | inl e ↦ inl (sym (ground (arith, h, e)))
  | inr e ↦ elim (Bool-cases (chain == bytes "OUTGOING")) [
    | inl f ↦ inr (sym (ground (arith, h, e, f)))
    | inr f ↦ absurd (ground (arith, h, e, f))
  ]
]

with_rules-IsFilter :
    (type : Bytes) (r : Result Bool × List Rule)
    → IsChain type
    → IsAllowing r.1
    → IsFilter (with_rules type r).1
with_rules-IsFilter type r h k = (refl, h, k)

module _ {Json : Type 0} ⦃j : Jansson Json⦄ (to_string : ℤ → Bytes) where
  parse_rule-IsAllowing :
      (element : Json) (rules : List Rule)
      → IsAllowing rules
      → IsAllowing (parse_rule to_string element rules).1
  unfolding parse_rule
  parse_rule-IsAllowing element rules h =
      if-IsAllowing (not (read_string element (bytes "host") []).0) (ok false, rules) _ h
        (push_rule-IsAllowing (read_string element (bytes "host") []).1
          (protocols_of (j.object_get element (bytes "protocols")))
          (ports_of to_string (j.object_get element (bytes "ports"))) rules h)

  parse_rules-IsAllowing :
      (elements : List Json) (rules : List Rule)
      → IsAllowing rules
      → IsAllowing (parse_rules to_string elements rules).1
  unfolding parse_rules
  parse_rules-IsAllowing [] rules h = h
  parse_rules-IsAllowing (v ∷ rest) rules h =
      let first : Result Bool × List Rule =
        if j.is_object v then parse_rule to_string v rules else (ok false, rules) in
      and_then_keeps IsAllowing first (parse_rules to_string rest)
        (if-IsAllowing (j.is_object v) (parse_rule to_string v rules) (ok false, rules)
          (parse_rule-IsAllowing v rules h) h)
        (parse_rules-IsAllowing rest)

  parse_allow-IsFilter :
      (type : Bytes) (allow : Option Json)
      → IsChain type
      → IsFilter (parse_allow to_string type allow).1
  parse_allow-IsFilter type none h = with_rules-IsFilter type (ok false, []) h tt
  parse_allow-IsFilter type (some rules) h = elim (Bool-cases (j.is_array rules)) [
    | inl e ↦ rw e (
        with_rules-IsFilter type (parse_rules to_string (j.elements rules) []) h
          (parse_rules-IsAllowing (j.elements rules) [] tt))
    | inr e ↦ rw e (with_rules-IsFilter type (ok false, []) h tt)
  ]

  -- A configuration that is accepted gives an entry of a chain that blocks what it does not allow.
  pub parse-IsFilter :
      (element : Json)
      → (parse_network_gateway_configuration to_string element).0 ≡ ok true
      → IsFilter (parse_network_gateway_configuration to_string element).1
  unfolding parse_network_gateway_configuration
  parse-IsFilter element e =
      let chain : Bool × Bytes = read_string element (bytes "direction") [] in
      elim (Bool-cases chain.0) [
        | inr unread ↦ absurd (ground (arith, e, unread))
        | inl read ↦ elim (Option-cases (chain_type chain.1)) [
          | inl unknown ↦ absurd (ground (arith, e, read, unknown))
          | inr (type, known) ↦
              rw (read, known)
                (parse_allow-IsFilter type (j.object_get element (bytes "allow"))
                  (chain_type-IsChain chain.1 type known))
        ]
      ]

  -- Ports that are neither a number nor a string nor an array are left out: the rule allows its
  -- host on every port.
  malformed_ports_allow_all :
      (element ports : Json) (rules : List Rule)
      → (read_string element (bytes "host") []).0 ≡ true
      → j.object_get element (bytes "ports") ≡ some ports
      → j.is_integer ports ≡ false
      → j.is_string ports ≡ false
      → j.is_array ports ≡ false
      → j.object_get element (bytes "protocols") ≡ none
      → parse_rule to_string element rules ≡ (
        ok true,
        rules
            ++ (record {
              host = (read_string element (bytes "host") []).1;
              protocols = [];
              ports = no_ports;
              target = accept;
            }
                ∷ []),
      )
  unfolding parse_rule ports_of parse_port protocols_of
  malformed_ports_allow_all element ports rules h p i s a q = ground arith

-- The commands of such an entry end with the policy DROP.
commands_end :
    (e : IpTableEntry)
    → e.default_target ≡ drop
    → commands e
      ≡ rules_commands e.type e.rules
        ++ ((bytes "iptables -P " ++ e.type ++ bytes " " ++ bytes "DROP") ∷ [])
unfolding commands interpret_policy convert_target
commands_end e h = rw h refl

module _ {C : Type 0} (container : ContainerInterface C) (settings : NetworkSettings) where
  -- When the default gateway cannot be set, `up` fails, but the interface counts as initialised:
  -- the next `up` works, without the default gateway and without any job.
  up_again :
      (n : Network) (c c1 c2 : C) (status : ℤ)
      → n.interface_initialized ≡ false
      → container.run_job (bring_up_ethernet n.ip settings.netmask) c ≡ (ok (pos 0), c1)
      → container.run_job (set_default_gateway settings.gateway) c1 ≡ (ok status, c2)
      → eqb_ℤ status (pos 0) ≡ false
      → ((up container settings (n, c)).0 ≡ ok false)
        × (up container settings (up container settings (n, c)).1
            ≡ (ok true, (up container settings (n, c)).1))
  unfolding up after_bring_up set_gateway
  up_again n c c1 c2 status i b d e = (ground arith, ground arith)
