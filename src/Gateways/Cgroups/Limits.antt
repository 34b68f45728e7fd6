-- ===== src/Gateways/Cgroups/Limits.antt =====
-- What the stored limits become (gateway/cgroups/cgroupsparser.cpp).
use softwarecontainer.Common.{
  ◌≡◌, refl, true, false, Bool, Option, none, some, List, [], arith, Bool-cases, inl, inr, ◌⊎◌,
  ◌||◌,
}
use softwarecontainer.Common.Bytes.{Bytes, bytes, ◌==◌, eq_iff}
use softwarecontainer.Common.Int.{ℤ, pos, leb_ℤ, ltb_ℤ, ◌≤ℤ◌}
use softwarecontainer.Common.OrdMap.{lookup, insert, lookup-insert, bytes_key}
use softwarecontainer.Common.Throwing.{Result, ok, throw, Error}
use softwarecontainer.Json.{Jansson, read_string}
use softwarecontainer.ContainerInterface.{ContainerInterface}
use softwarecontainer.Gateway.{read_elements}
use softwarecontainer.Gateway.Reading.{read_elements_keeps}
use softwarecontainer.Gateways.Cgroups.{
  read_config_element, parse_configuration, cgroups_gateway, Numbers, Settings, set_setting,
  set_memory, save_memory, is_covered, set_shares, set_classid, save, keeps_out, suffix_correction,
}

Result-cases : {A : Type 0} (r : Result A) → ((e : Error) × (r ≡ throw e)) ⊎ ((a : A) × (r ≡ ok a))
Result-cases (ok a) = inr (a, refl)
Result-cases (throw e) = inl (e, refl)

-- `new` is not below `old`.
abbrev pub AtLeast : Result ℤ → Result ℤ → Type 0
AtLeast (ok old) (ok new) = old ≤ℤ new
AtLeast (ok old) (throw e) = ⊥
AtLeast (throw e) new = Unit

-- What a stored limit becomes: it stays, or a value comes that is not below it.
abbrev pub Raises : (Bytes → Result ℤ) → Option Bytes → Option Bytes → Type 0
Raises parse none after = Unit
Raises parse (some old) none = ⊥
Raises parse (some old) (some new) = AtLeast (parse old) (parse new)

Raises-refl : (parse : Bytes → Result ℤ) (o : Option Bytes) → Raises parse o o
Raises-refl parse none = tt
Raises-refl parse (some old) = go (parse old)
  where
    go : (r : Result ℤ) → AtLeast r r
    go (ok n) = ground arith
    go (throw e) = tt

stored :
    (key value : Bytes) (settings : Settings) → lookup key (insert key value settings) ≡ some value
stored key value settings = ground (arith, lookup-insert key key value settings, eq_iff key key)

save-Raises :
    (parse : Bytes → Result ℤ) (key value old : Bytes) (settings : Settings) (o n : Result ℤ)
    → lookup key settings ≡ some old
    → parse old ≡ o
    → parse value ≡ n
    → Raises parse (some old) (lookup key (save key value (is_covered o n) settings).1)
save-Raises parse key value old settings (throw x) n e po pn = rw e (Raises-refl parse (some old))
save-Raises parse key value old settings (ok o) (throw x) e po pn =
    rw e (Raises-refl parse (some old))
save-Raises parse key value old settings (ok o) (ok n) e po pn = elim (Bool-cases (leb_ℤ n o)) [
  | inl b ↦ rw b (rw e (Raises-refl parse (some old)))
  | inr b ↦ rw b (rw (stored key value settings) (rw (po, pn) (ground arith)))
]

-- A save raises what is stored, whatever the parser makes of the two values.
save_any-Raises :
    (parse : Bytes → Result ℤ) (key value : Bytes) (settings : Settings) (before : Option Bytes)
    → lookup key settings ≡ before
    → Raises parse before
        (lookup key (save key value (keeps_out parse before (parse value)) settings).1)
save_any-Raises parse key value settings none e = tt
save_any-Raises parse key value settings (some old) e =
    save-Raises parse key value old settings (parse old) (parse value) e refl refl

save_memory-Raises :
    (numbers : Numbers) (key : Bytes) (corrected : Result Bytes) (settings : Settings)
    → Raises numbers.stoll
        (lookup key settings)
        (lookup key (save_memory numbers key corrected settings).1)
save_memory-Raises numbers key (throw e) settings = Raises-refl numbers.stoll (lookup key settings)
save_memory-Raises numbers key (ok corrected) settings =
    save_any-Raises numbers.stoll key corrected settings (lookup key settings) refl

set_memory-Raises :
    (numbers : Numbers) (key value : Bytes) (settings : Settings)
    → Raises numbers.stoll
        (lookup key settings)
        (lookup key (set_memory numbers key value settings).1)
unfolding set_memory
set_memory-Raises numbers key value settings =
    save_memory-Raises numbers key (suffix_correction numbers value) settings

-- Settings of other keys leave a limit alone.
save_elsewhere :
    (key k value : Bytes) (kept : Result Bool) (settings : Settings)
    → key == k ≡ false
    → lookup k (save key value kept settings).1 ≡ lookup k settings
save_elsewhere key k value (throw e) settings d = refl
save_elsewhere key k value (ok true) settings d = refl
save_elsewhere key k value (ok false) settings d =
    ground (arith, lookup-insert key k value settings)

memory_elsewhere :
    (numbers : Numbers) (key k : Bytes) (corrected : Result Bytes) (settings : Settings)
    → key == k ≡ false
    → lookup k (save_memory numbers key corrected settings).1 ≡ lookup k settings
memory_elsewhere numbers key k (throw e) settings d = refl
memory_elsewhere numbers key k (ok corrected) settings d =
    save_elsewhere key k corrected _ settings d

set_memory_elsewhere :
    (numbers : Numbers) (key k value : Bytes) (settings : Settings)
    → key == k ≡ false
    → lookup k (set_memory numbers key value settings).1 ≡ lookup k settings
unfolding set_memory
set_memory_elsewhere numbers key k value settings d =
    memory_elsewhere numbers key k (suffix_correction numbers value) settings d

set_shares_elsewhere :
    (numbers : Numbers) (key k value : Bytes) (settings : Settings)
    → key == k ≡ false
    → lookup k (set_shares numbers key value settings).1 ≡ lookup k settings
unfolding set_shares
set_shares_elsewhere numbers key k value settings d = elim (Result-cases (numbers.stoi value)) [
  | inl (e, p) ↦ rw (p, set_shares) refl
  | inr (n, p) ↦ elim (Bool-cases (ltb_ℤ n (pos 2))) [
    | inl b ↦ rw (p, set_shares) (rw b refl)
    | inr b ↦ rw (p, set_shares) (rw b (save_elsewhere key k _ _ settings d))
  ]
]

set_classid_elsewhere :
    (numbers : Numbers) (key k value : Bytes) (settings : Settings)
    → key == k ≡ false
    → lookup k (set_classid numbers key value settings).1 ≡ lookup k settings
unfolding set_classid
set_classid_elsewhere numbers key k value settings d =
    ground (arith, lookup-insert key k value settings)

-- The keys of the memory limits.
abbrev pub is_memory : Bytes → Bool
is_memory k = k == bytes "memory.limit_in_bytes" || k == bytes "memory.memsw.limit_in_bytes"

set_setting-Raises :
    (numbers : Numbers) (key value k : Bytes) (settings : Settings)
    → is_memory k ≡ true
    → Raises numbers.stoll (lookup k settings) (lookup k (set_setting numbers key value settings).1)
unfolding set_setting
set_setting-Raises numbers key value k settings m = elim (Bool-cases (key == k)) [
  | inl e ↦
      let same : key ≡ k = (eq_iff key k).0 e in
      let m' : is_memory key ≡ true = (rw same m) in
      rw (← same) (rw (here m') (set_memory-Raises numbers key value settings))
  | inr d ↦ rw (elsewhere d) (Raises-refl numbers.stoll (lookup k settings))
]
  where
    here :
        is_memory key ≡ true
        → set_setting numbers key value settings ≡ set_memory numbers key value settings
    here h = rw (h, set_setting) refl

    elsewhere :
        key == k ≡ false → lookup k (set_setting numbers key value settings).1 ≡ lookup k settings
    elsewhere d = ground (
      arith,
      set_memory_elsewhere numbers key k value settings d,
      set_shares_elsewhere numbers key k value settings d,
      set_classid_elsewhere numbers key k value settings d,
      lookup-insert key k value settings,
    )

AtLeast-trans : (a b c : Result ℤ) → AtLeast a b → AtLeast b c → AtLeast a c
AtLeast-trans (ok a) (ok b) (ok c) h k = omega arith
AtLeast-trans (ok a) (ok b) (throw e) h k = k
AtLeast-trans (ok a) (throw e) c h k = elim h [ ]
AtLeast-trans (throw e) b c h k = tt

Raises-trans :
    (parse : Bytes → Result ℤ) (a b c : Option Bytes)
    → Raises parse a b
    → Raises parse b c
    → Raises parse a c
Raises-trans parse none b c h k = tt
Raises-trans parse (some a) none c h k = elim h [ ]
Raises-trans parse (some a) (some b) none h k = elim k [ ]
Raises-trans parse (some a) (some b) (some c) h k = AtLeast-trans (parse a) (parse b) (parse c) h k

module _ {Json : Type 0} ⦃j : Jansson Json⦄ (numbers : Numbers) where
  read_config_element-Raises :
      (element : Json) (settings : Settings) (k : Bytes)
      → is_memory k ≡ true
      → Raises numbers.stoll
          (lookup k settings)
          (lookup k (read_config_element numbers element settings).1)
  unfolding read_config_element parse_configuration
  read_config_element-Raises element settings k m =
      elim (Bool-cases (read_string element (bytes "setting") []).0) [
        | inr b ↦ rw b (Raises-refl numbers.stoll (lookup k settings))
        | inl b ↦ elim (Bool-cases (read_string element (bytes "value") []).0) [
          | inr c ↦ rw b (rw c (Raises-refl numbers.stoll (lookup k settings)))
          | inl c ↦ rw b (rw c (set_setting-Raises numbers _ _ k settings m))
        ]
      ]

  -- However the reading of a configuration ends, a memory limit that was stored and can be read
  -- stays, or gives way to one that is not below it.
  pub read_elements-Raises :
      {C : Type 0} (container : ContainerInterface C) (elements : List Json) (settings : Settings)
      (k : Bytes)
      → is_memory k ≡ true
      → Raises numbers.stoll
          (lookup k settings)
          (lookup k (read_elements (cgroups_gateway container numbers) elements settings).1)
  unfolding cgroups_gateway
  read_elements-Raises container elements settings k m =
      read_elements_keeps (cgroups_gateway container numbers)
        (λ after. Raises numbers.stoll (lookup k settings) (lookup k after))
        (λ element after h.
          Raises-trans numbers.stoll (lookup k settings) (lookup k after) _ h
            (read_config_element-Raises element after k m))
        elements settings (Raises-refl numbers.stoll (lookup k settings))
