-- ===== src/Gateways/Cgroups.antt =====
-- gateway/cgroups: the limits of the control groups.
-- The C and C++ libraries' number functions are the record `Numbers`.
pub mod Limits
use softwarecontainer.Common.{
  ℕ, ◌*◌, ◌/◌, ◌^◌, ◌-◌, ◌≡◌, suc, Bool, true, false, Option, none, some, List, [], ◌∷◌, ◌++◌, ◌||◌,
  ◌&&◌, not, if◌then◌else◌, ltb, length, leb, ◌==◌,
}
use softwarecontainer.Common.Bytes.{Bytes, bytes, ◌==◌ as str_eq}
use softwarecontainer.Common.Int.{ℤ, pos, negsuc, neg, ltb_ℤ, leb_ℤ, pos_part, eqb_ℤ}
use softwarecontainer.Common.OrdMap.{OrdMap, lookup, insert, contains, bytes_key}
use softwarecontainer.Common.Throwing.{
  M, Result, ok, throw, Error, limit_range_error, bad_suffix_error, json_error, invalid_input_error,
  out_of_range, invalid_argument, undefined, pure, and_then,
}
use softwarecontainer.Json.{Jansson, read_string}
use softwarecontainer.ContainerInterface.{ContainerInterface}
use softwarecontainer.Gateway.{Own, Gateway, GatewayMethods, new_gateway}

pub record Numbers : Type 0 where
  -- strtoll in base 10, and whether errno is ERANGE after it.
  pub strtoll : Bytes → ℤ
  pub is_erange : Bytes → Bool
  -- std::stoll and std::stoi, with their exceptions.
  pub stoll : Bytes → Result ℤ
  pub stoi : Bytes → Result ℤ
  -- strtoul in base 16: the value, and what is left behind `endPtr`.
  pub strtoul : Bytes → ℕ × Bytes
  pub to_string : ℤ → Bytes

abbrev pub Settings : Type 0
Settings = OrdMap Bytes Bytes

abbrev pub llong_max : ℕ
llong_max = 2 ^ 63 - 1

-- `limit * multiply`, where an overflow is undefined.
unfoldable pub multiplied : ℤ → ℕ → Result ℤ
multiplied (pos n) multiply =
    if ltb llong_max (n * multiply) then throw undefined else ok (pos (n * multiply))
multiplied (negsuc n) multiply =
    if ltb (2 ^ 63) (suc n * multiply) then throw undefined else ok (neg (suc n * multiply))

-- The last byte and what stands before it; `back()` of an empty string is undefined.
abbrev pub split_last : Bytes → Option (Bytes × ℕ)
split_last [] = none
split_last (c ∷ s) = elim (split_last s) [ none ↦ some ([], c) | some (r, d) ↦ some (c ∷ r, d) ]

-- `old >= new`, where the old value is read first.
abbrev pub is_covered : Result ℤ → Result ℤ → Result Bool
is_covered (throw e) new = throw e
is_covered (ok old) (throw e) = throw e
is_covered (ok old) (ok new) = ok (leb_ℤ new old)

-- Whether a stored value, read by `parse`, keeps a new one out.
abbrev pub keeps_out : (Bytes → Result ℤ) → Option Bytes → Result ℤ → Result Bool
keeps_out parse none new = ok false
keeps_out parse (some old) new = is_covered (parse old) new

-- `m_settings[key] = value`, unless the stored value keeps it out.
abbrev pub save : Bytes → Bytes → Result Bool → M Settings (Unit {0})
save key value (throw e) settings = (throw e, settings)
save key value (ok true) settings = (ok tt, settings)
save key value (ok false) settings = (ok tt, insert key value settings)

-- `find("0x") == 0`
abbrev pub has_hex_prefix : Bytes → Bool
has_hex_prefix (c ∷ d ∷ s) = c == b'0' && d == b'x'
has_hex_prefix _ = false

-- The exceptions that are no CgroupsGatewayError pass.
abbrev pub caught : Result (Unit {0}) → Result Bool
caught (ok _) = ok true
caught (throw limit_range_error) = ok false
caught (throw bad_suffix_error) = ok false
caught (throw json_error) = ok false
caught (throw invalid_input_error) = ok false
caught (throw e) = throw e

module _ (numbers : Numbers) where
  -- `multiply` is 2 ^ 10, 2 ^ 20 or 2 ^ 30, for which llrint gives the quotient itself.
  unfoldable pub convert_to_bytes : Bytes → ℕ → Result Bytes
  convert_to_bytes value multiply =
      let limit = numbers.strtoll value in
      let extreme = eqb_ℤ limit (pos llong_max) || eqb_ℤ limit (negsuc llong_max) in
      if extreme && numbers.is_erange value
      then throw limit_range_error
      else if ltb_ℤ (pos (llong_max / multiply)) limit
      then throw limit_range_error
      else elim (multiplied limit multiply) [
        | throw e ↦ throw e
        | ok bytes ↦ ok (numbers.to_string bytes)
      ]

  unfoldable pub suffix_correction : Bytes → Result Bytes
  suffix_correction value = elim (split_last value) [
    | none ↦ throw undefined
    | some (remove_unit, suffix) ↦
        if leb b'0' suffix && leb suffix b'9'
        then ok value
        else if suffix == b'K' || suffix == b'k'
        then convert_to_bytes remove_unit (2 ^ 10)
        else if suffix == b'M' || suffix == b'm'
        then convert_to_bytes remove_unit (2 ^ 20)
        else if suffix == b'G' || suffix == b'g'
        then convert_to_bytes remove_unit (2 ^ 30)
        else throw bad_suffix_error
  ]

  -- What follows the correction of the suffix.
  abbrev pub save_memory : Bytes → Result Bytes → M Settings (Unit {0})
  save_memory key (throw e) settings = (throw e, settings)
  save_memory key (ok corrected) settings =
      save key corrected (keeps_out numbers.stoll (lookup key settings) (numbers.stoll corrected))
        settings

  unfoldable pub set_memory : Bytes → Bytes → M Settings (Unit {0})
  set_memory key value settings = save_memory key (suffix_correction value) settings

  unfoldable pub set_shares : Bytes → Bytes → M Settings (Unit {0})
  set_shares key value settings = elim (numbers.stoi value) [
    | throw e ↦ (throw invalid_input_error, settings)
    | ok new ↦
        if ltb_ℤ new (pos 2)
        then (throw invalid_input_error, settings)
        else save key (numbers.to_string new)
            (keeps_out numbers.stoi (lookup key settings) (ok new)) settings
  ]

  unfoldable pub set_classid : Bytes → Bytes → M Settings (Unit {0})
  set_classid key value settings =
      let (hexed, behind) = numbers.strtoul value in
      if not (has_hex_prefix value) || ltb 10 (length value) || ltb (length value) 7
      then (throw invalid_input_error, settings)
      else if hexed == 0 || hexed == 2 ^ 64 - 1 || not (length behind == 0)
      then (throw invalid_input_error, settings)
      else (ok tt, insert key value settings)

  unfoldable pub set_setting : Bytes → Bytes → M Settings (Unit {0})
  set_setting key value settings =
      if str_eq key (bytes "memory.limit_in_bytes")
        || str_eq key (bytes "memory.memsw.limit_in_bytes")
      then set_memory key value settings
      else if str_eq key (bytes "cpu.shares")
      then set_shares key value settings
      else if str_eq key (bytes "net_cls.classid")
      then set_classid key value settings
      else (ok tt, insert key value settings)

  module _ {Json : Type 0} ⦃j : Jansson Json⦄ where
    unfoldable pub parse_configuration : Json → M Settings (Unit {0})
    parse_configuration element settings =
        let (key_read, key) = read_string element (bytes "setting") [] in
        let (value_read, value) = read_string element (bytes "value") [] in
        if not key_read
        then (throw json_error, settings)
        else if not value_read
        then (throw json_error, settings)
        else set_setting key value settings

    unfoldable pub read_config_element : Json → M Settings Bool
    read_config_element element settings =
        let (r, settings') = parse_configuration element settings in (caught r, settings')

module _ {C : Type 0} (container : ContainerInterface C) where
  -- The loop of `activateGateway`, which ends with `false` when there is nothing to set.
  unfoldable pub set_items : Settings → Bool → M C Bool
  set_items [] success c = (ok success, c)
  set_items ((key, value) ∷ rest) success c =
      and_then (container.set_cgroup_item key value) (set_items rest true) c

  unfoldable pub activate_gateway : M (Own Settings × C) Bool
  activate_gateway (own, c) = let (r, c') = set_items own.fields false c in (r, (own, c'))

  unfoldable pub cgroups_gateway :
      {Json : Type 0} ⦃j : Jansson Json⦄ → Numbers → GatewayMethods Json C Settings
  cgroups_gateway numbers = record {
    read_config_element = read_config_element numbers;
    activate_gateway = activate_gateway;
    teardown_gateway = pure true;
  }

abbrev pub new_cgroups_gateway : Gateway Settings
new_cgroups_gateway = new_gateway (bytes "cgroups") false []
