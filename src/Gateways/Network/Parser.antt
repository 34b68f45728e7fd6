-- ===== src/Gateways/Network/Parser.antt =====
-- gateway/network/networkgatewayparser.cpp
use softwarecontainer.Common.{
  Bool, true, false, ◌||◌, not, Option, none, some, List, [], ◌∷◌, ◌++◌, if◌then◌else◌,
}
use softwarecontainer.Common.Bytes.{Bytes, bytes, ◌==◌}
use softwarecontainer.Common.Int.{ℤ, to_int32}
use softwarecontainer.Common.Throwing.{M, Result, ok, throw, and_then, undefined}
use softwarecontainer.Json.{Jansson, read_string}
use softwarecontainer.Gateways.Network.IpTables.{
  PortFilter, Rule, IpTableEntry, new_entry, accept, drop,
}

unfoldable pub is_protocol_valid : Bytes → Bool
is_protocol_valid protocol =
    protocol == bytes "tcp" || protocol == bytes "udp" || protocol == bytes "icmp"

-- `portFilter()`
abbrev pub no_ports : PortFilter
no_ports = record { any = false; multiport = false; ports = [] }

-- `pop_back`
unfoldable pub pop_back : Bytes → Bytes
pop_back [] = []
pop_back (b ∷ []) = []
pop_back (b ∷ c ∷ s) = b ∷ pop_back (c ∷ s)

-- `pop_back` of an empty string is undefined.
unfoldable pub list_filter : Option Bytes → M PortFilter Bool
list_filter none ports = (ok false, ports)
list_filter (some []) ports = (throw undefined, ports)
list_filter (some (b ∷ s)) ports =
    (ok true, record { any = true; multiport = true; ports = pop_back (b ∷ s) })

abbrev pub push_rule : Bytes → List Bytes → Result Bool × PortFilter → M (List Rule) Bool
push_rule host protocols (ok _, ports) rules = (
  ok true,
  rules ++ (record { host = host; protocols = protocols; ports = ports; target = accept } ∷ []),
)
push_rule host protocols (throw e, ports) rules = (throw e, rules)

-- The chain of a direction.
unfoldable pub chain_type : Bytes → Option Bytes
chain_type chain =
    if chain == bytes "INCOMING"
    then some (bytes "INPUT")
    else if chain == bytes "OUTGOING"
    then some (bytes "OUTPUT")
    else none

abbrev pub with_rules : Bytes → Result Bool × List Rule → Result Bool × IpTableEntry
with_rules type (r, rules) = (r, record { type = type; rules = rules; default_target = drop })

module _ {Json : Type 0} ⦃j : Jansson Json⦄ where
  -- The loop of `parsePort` over an array: no value stands for an entry that is no integer. The
  -- numbers are converted to `int`. `to_string` is std::to_string.
  unfoldable pub port_list : (ℤ → Bytes) → List Json → Bytes → Option Bytes
  port_list to_string [] so_far = some so_far
  port_list to_string (v ∷ rest) so_far =
      if not (j.is_integer v)
      then none
      else port_list to_string rest
          (so_far ++ to_string (to_int32 (j.integer_value v)) ++ bytes ",")

  unfoldable pub parse_port : (ℤ → Bytes) → Json → M PortFilter Bool
  parse_port to_string element ports =
      if j.is_integer element
      then (
        ok true,
        record { any = true; multiport = false; ports = to_string (j.integer_value element) },
      )
      else if j.is_string element
      then (ok true, record { any = true; multiport = true; ports = j.string_value element })
      else if j.is_array element
      then list_filter (port_list to_string (j.elements element) []) ports
      else (ok false, ports)

  -- The loop of `parseProtocol` over an array.
  unfoldable pub parse_protocols : List Json → M (List Bytes) Bool
  parse_protocols [] protocols = (ok true, protocols)
  parse_protocols (v ∷ rest) protocols =
      let others = parse_protocols rest (protocols ++ (j.string_value v ∷ [])) in
      if not (j.is_string v)
      then (ok false, protocols)
      else if not (is_protocol_valid (j.string_value v))
      then (ok false, protocols)
      else others

  unfoldable pub parse_protocol : Json → M (List Bytes) Bool
  parse_protocol element protocols =
      if j.is_string element
      then (if is_protocol_valid (j.string_value element)
          then (ok true, protocols ++ (j.string_value element ∷ []))
          else (ok false, protocols))
      else if j.is_array element
      then parse_protocols (j.elements element) protocols
      else (ok false, protocols)

  -- The `ports` and the `protocols` of a rule, whose results are not used.
  unfoldable pub ports_of : (ℤ → Bytes) → Option Json → Result Bool × PortFilter
  ports_of to_string none = (ok true, no_ports)
  ports_of to_string (some element) = parse_port to_string element no_ports

  unfoldable pub protocols_of : Option Json → List Bytes
  protocols_of none = []
  protocols_of (some element) = (parse_protocol element []).1

  unfoldable pub parse_rule : (ℤ → Bytes) → Json → M (List Rule) Bool
  parse_rule to_string element rules =
      let (host_read, host) = read_string element (bytes "host") [] in
      if not host_read
      then (ok false, rules)
      else push_rule host (protocols_of (j.object_get element (bytes "protocols")))
          (ports_of to_string (j.object_get element (bytes "ports"))) rules

  unfoldable pub parse_rules : (ℤ → Bytes) → List Json → M (List Rule) Bool
  parse_rules to_string [] rules = (ok true, rules)
  parse_rules to_string (v ∷ rest) rules =
      and_then (λ rs. if j.is_object v then parse_rule to_string v rs else (ok false, rs))
        (parse_rules to_string rest) rules

  abbrev pub parse_allow : (ℤ → Bytes) → Bytes → Option Json → Result Bool × IpTableEntry
  parse_allow to_string type none = with_rules type (ok false, [])
  parse_allow to_string type (some rules) =
      if not (j.is_array rules)
      then with_rules type (ok false, [])
      else with_rules type (parse_rules to_string (j.elements rules) [])

  -- `parseNetworkGatewayConfiguration` of a new entry.
  unfoldable pub parse_network_gateway_configuration :
      (ℤ → Bytes) → Json → Result Bool × IpTableEntry
  parse_network_gateway_configuration to_string element =
      let (chain_read, chain) = read_string element (bytes "direction") [] in
      if not chain_read then (ok false, new_entry) else elim (chain_type chain) [
        | none ↦ (ok false, new_entry)
        | some type ↦ parse_allow to_string type (j.object_get element (bytes "allow"))
      ]
