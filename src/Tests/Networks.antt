-- ===== src/Tests/Networks.antt =====
-- Runs of the theorems on the network gateway.
use softwarecontainer.Common.{◌≡◌, refl, ℕ, zero, suc, true, false, [], ◌∷◌}
use softwarecontainer.Common.Bytes.{Bytes, bytes, ◌==◌}
use softwarecontainer.Common.Throwing.{M, ok}
use softwarecontainer.Common.{Bool}
use softwarecontainer.Json.{read_string}
use softwarecontainer.Gateways.Network.IpTables.{
  Rule, IpTableEntry, accept, drop, apply_rules, insert_all, commands,
}
use softwarecontainer.Gateways.Network.Commands.{apply_rules_lem}
use softwarecontainer.Gateways.Network.Parser.{
  parse_rule, parse_rules, chain_type, parse_network_gateway_configuration, ports_of, protocols_of,
  parse_port,
}
use softwarecontainer.Gateways.Network.Filtering.{IsFilter, parse-IsFilter}
use softwarecontainer.Tests.Values.{Value, text, flag, nil, item, empty, field, value_jansson}

abbrev web : Rule
web = record {
  host = bytes "*";
  protocols = bytes "tcp" ∷ bytes "udp" ∷ [];
  ports = record { any = true; multiport = false; ports = bytes "80" };
  target = accept;
}

abbrev entry : IpTableEntry
entry = record { type = bytes "INPUT"; rules = web ∷ []; default_target = drop }

-- Two commands can be inserted.
abbrev insert_two : Bytes → M ℕ Bool
insert_two command zero = (ok true, 1)
insert_two command (suc zero) = (ok true, 2)
insert_two command (suc (suc n)) = (ok false, suc (suc n))

apply_rules_lem_example : apply_rules insert_two entry 0 ≡ insert_all insert_two (commands entry) 0
apply_rules_lem_example = apply_rules_lem insert_two entry 0

abbrev rule_json : Value
rule_json = field (bytes "host") (text (bytes "10.0.0.1")) (field (bytes "ports") (flag true) empty)

abbrev entry_json : Value
entry_json =
    field (bytes "direction") (text (bytes "INCOMING"))
      (field (bytes "allow") (item rule_json nil) empty)

parsed : (parse_network_gateway_configuration (λ n. bytes "80") entry_json).0 ≡ ok true
unfolding parse_network_gateway_configuration parse_rules parse_rule chain_type read_string ◌==◌
    ports_of protocols_of parse_port
parsed = refl

parse-IsFilter_example :
    IsFilter (parse_network_gateway_configuration (λ n. bytes "80") entry_json).1
parse-IsFilter_example = parse-IsFilter (λ n. bytes "80") entry_json parsed
