-- ===== src/Gateways/Network/IpTables.antt =====
-- gateway/network/iptableentry.{h,cpp}: rules, and the commands that apply them.
use softwarecontainer.Common.{Bool, true, false, ◌||◌, not, List, [], ◌∷◌, ◌++◌, map, if◌then◌else◌}
use softwarecontainer.Common.Bytes.{Bytes, bytes, ◌==◌, is_empty}
use softwarecontainer.Common.Throwing.{M, ok, and_then}

pub record PortFilter : Type 0 where
  pub any : Bool
  pub multiport : Bool
  pub ports : Bytes

pub data Target : Type 0 where
  invalid_target accept drop reject : Target

pub record Rule : Type 0 where
  pub host : Bytes
  pub protocols : List Bytes
  pub ports : PortFilter
  pub target : Target

-- `m_type`, `m_rules` and `m_defaultTarget`.
pub record IpTableEntry : Type 0 where
  pub type : Bytes
  pub rules : List Rule
  pub default_target : Target

abbrev pub new_entry : IpTableEntry
new_entry = record { type = []; rules = []; default_target = drop }

unfoldable pub convert_target : Target → Bytes
convert_target accept = bytes "ACCEPT"
convert_target drop = bytes "DROP"
convert_target reject = bytes "REJECT"
convert_target invalid_target = bytes "INVALID"

abbrev pub is_input : Bytes → Bool
is_input type = type == bytes "INPUT"

-- The host of a rule, in both forms of a command.
unfoldable pub host_option : Bytes → Bytes → Bytes
host_option type host =
    if is_empty host || host == bytes "*"
    then []
    else (if is_input type then bytes " -s " else bytes " -d ") ++ host

unfoldable pub interpret_rule_with_protocol : Bytes → Rule → Bytes → Bytes
interpret_rule_with_protocol type rule protocol =
    let ports =
      if not rule.ports.any
      then bytes " -p " ++ protocol
      else if rule.ports.multiport
      then bytes " -p "
        ++ protocol
        ++ bytes " --match multiport "
        ++ (if is_input type then bytes "--sports " else bytes "--dports ")
        ++ rule.ports.ports
      else bytes " -p "
        ++ protocol
        ++ bytes " "
        ++ (if is_input type then bytes "--sport " else bytes "--dport ")
        ++ rule.ports.ports in
    bytes "iptables -A "
    ++ type
    ++ host_option type rule.host
    ++ ports
    ++ bytes " -j "
    ++ convert_target rule.target

unfoldable pub interpret_rule : Bytes → Rule → Bytes
interpret_rule type rule =
    let ports =
      if not rule.ports.any
      then []
      else if rule.ports.multiport
      then bytes " -p all --match multiport "
        ++ (if is_input type then bytes "--sports " else bytes "--dports ")
        ++ rule.ports.ports
      else bytes " -p tcp "
        ++ (if is_input type then bytes "--sport " else bytes "--dport ")
        ++ rule.ports.ports in
    bytes "iptables -A "
    ++ type
    ++ host_option type rule.host
    ++ ports
    ++ bytes " -j "
    ++ convert_target rule.target

abbrev pub is_policy : Target → Bool
is_policy accept = true
is_policy drop = true
is_policy _ = false

unfoldable pub interpret_policy : IpTableEntry → Bytes
interpret_policy e =
    if is_policy e.default_target
    then bytes "iptables -P " ++ e.type ++ bytes " " ++ convert_target e.default_target
    else []

-- `insertCommand` is an argument: it gives whether Glib::spawn_command_line_sync threw nothing.
module _ {P : Type 0} (insert_command : Bytes → M P Bool) where
  -- The loop of `applyRules` over the protocols of a rule.
  unfoldable pub apply_protocols : Bytes → Rule → List Bytes → M P Bool
  apply_protocols type rule [] p = (ok true, p)
  apply_protocols type rule (protocol ∷ rest) p =
      and_then (insert_command (interpret_rule_with_protocol type rule protocol))
        (apply_protocols type rule rest) p

  abbrev pub apply_rule : Bytes → Rule → List Bytes → M P Bool
  apply_rule type rule [] = insert_command (interpret_rule type rule)
  apply_rule type rule (protocol ∷ rest) = apply_protocols type rule (protocol ∷ rest)

  unfoldable pub apply_each : Bytes → List Rule → M P Bool
  apply_each type [] p = (ok true, p)
  apply_each type (rule ∷ rest) p =
      and_then (apply_rule type rule rule.protocols) (apply_each type rest) p

  unfoldable pub apply_rules : IpTableEntry → M P Bool
  apply_rules e = and_then (apply_each e.type e.rules) (insert_command (interpret_policy e))

  -- The commands of a list, until one cannot be inserted.
  unfoldable pub insert_all : List Bytes → M P Bool
  insert_all [] p = (ok true, p)
  insert_all (command ∷ rest) p = and_then (insert_command command) (insert_all rest) p

-- The commands of an entry, in their order: those of each rule, and the policy at the end.
abbrev pub rule_commands : Bytes → Rule → List Bytes → List Bytes
rule_commands type rule [] = interpret_rule type rule ∷ []
rule_commands type rule (protocol ∷ rest) =
    map (interpret_rule_with_protocol type rule) (protocol ∷ rest)

unfoldable pub rules_commands : Bytes → List Rule → List Bytes
rules_commands type [] = []
rules_commands type (rule ∷ rest) =
    rule_commands type rule rule.protocols ++ rules_commands type rest

unfoldable pub commands : IpTableEntry → List Bytes
commands e = rules_commands e.type e.rules ++ interpret_policy e ∷ []
