-- ===== src/Gateways/Network/Commands.antt =====
-- The commands of an entry, and applyRules (gateway/network/iptableentry.cpp).
use softwarecontainer.Common.{◌≡◌, refl, sym, ap, ◌∙◌, Bool, true, false, List, [], ◌∷◌, ◌++◌, map}
use softwarecontainer.Common.Bytes.{Bytes}
use softwarecontainer.Common.Throwing.{M, Result, ok, throw, continue}
use softwarecontainer.Gateways.Network.IpTables.{
  Rule, IpTableEntry, interpret_rule, interpret_rule_with_protocol, interpret_policy,
  apply_protocols, apply_rule, apply_each, apply_rules, insert_all, rule_commands, rules_commands,
  commands,
}

module _ {P : Type 0} where
  continue_assoc :
      (r : Result Bool × P) (k l : M P Bool)
      → continue (continue r k) l ≡ continue r (λ p. continue (k p) l)
  continue_assoc (ok true, p) k l = refl
  continue_assoc (ok false, p) k l = refl
  continue_assoc (throw e, p) k l = refl

  continue_ext :
      (r : Result Bool × P) (k l : M P Bool) → ((p : P) → k p ≡ l p) → continue r k ≡ continue r l
  continue_ext (ok true, p) k l h = h p
  continue_ext (ok false, p) k l h = refl
  continue_ext (throw e, p) k l h = refl

module _ {P : Type 0} (insert_command : Bytes → M P Bool) where
  insert_all-append :
      (xs ys : List Bytes) (p : P)
      → insert_all insert_command (xs ++ ys) p
        ≡ continue (insert_all insert_command xs p) (insert_all insert_command ys)
  unfolding insert_all
  insert_all-append [] ys p = refl
  insert_all-append (x ∷ xs) ys p =
      continue_ext (insert_command x p) (insert_all insert_command (xs ++ ys)) _
        (insert_all-append xs ys)
      ∙ sym (
          continue_assoc (insert_command x p) (insert_all insert_command xs)
            (insert_all insert_command ys))

  protocols_inserted :
      (type : Bytes) (rule : Rule) (protocols : List Bytes) (p : P)
      → apply_protocols insert_command type rule protocols p
        ≡ insert_all insert_command (map (interpret_rule_with_protocol type rule) protocols) p
  unfolding apply_protocols insert_all
  protocols_inserted type rule [] p = refl
  protocols_inserted type rule (x ∷ xs) p =
      continue_ext (insert_command (interpret_rule_with_protocol type rule x) p) _ _
        (protocols_inserted type rule xs)

  continue_end : (r : Result Bool × P) → continue r (λ p. (ok true, p)) ≡ r
  continue_end (ok true, p) = refl
  continue_end (ok false, p) = refl
  continue_end (throw e, p) = refl

  one_inserted :
      (command : Bytes) (p : P)
      → insert_all insert_command (command ∷ []) p ≡ insert_command command p
  unfolding insert_all
  one_inserted command p = continue_end (insert_command command p)

  rule_inserted :
      (type : Bytes) (rule : Rule) (protocols : List Bytes) (p : P)
      → apply_rule insert_command type rule protocols p
        ≡ insert_all insert_command (rule_commands type rule protocols) p
  rule_inserted type rule [] p = sym (one_inserted (interpret_rule type rule) p)
  rule_inserted type rule (x ∷ xs) p = protocols_inserted type rule (x ∷ xs) p

  rules_inserted :
      (type : Bytes) (rules : List Rule) (p : P)
      → apply_each insert_command type rules p
        ≡ insert_all insert_command (rules_commands type rules) p
  unfolding apply_each rules_commands insert_all
  rules_inserted type [] p = refl
  rules_inserted type (rule ∷ rules) p =
      ap (λ r. continue r (apply_each insert_command type rules))
        (rule_inserted type rule rule.protocols p)
      ∙ continue_ext (insert_all insert_command (rule_commands type rule rule.protocols) p) _ _
          (rules_inserted type rules)
      ∙ sym
          (insert_all-append (rule_commands type rule rule.protocols) (rules_commands type rules) p)

  -- `applyRules` inserts the commands of the entry in their order, and stops at the first one that
  -- cannot be inserted.
  pub apply_rules_lem :
      (e : IpTableEntry) (p : P)
      → apply_rules insert_command e p ≡ insert_all insert_command (commands e) p
  unfolding apply_rules commands
  apply_rules_lem e p =
      ap (λ r. continue r (insert_command (interpret_policy e))) (rules_inserted e.type e.rules p)
      ∙ continue_ext (insert_all insert_command (rules_commands e.type e.rules) p) _ _
          (λ q. sym (one_inserted (interpret_policy e) q))
      ∙ sym (insert_all-append (rules_commands e.type e.rules) (interpret_policy e ∷ []) p)
