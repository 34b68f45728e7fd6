-- ===== src/Gateways/Files/Settings.antt =====
-- What the store of file settings keeps (gateway/files/filegatewaysettingstore.cpp).
use softwarecontainer.Common.{
  ◌≡◌, ◌↔◌, Bool, Option, none, some, List, [], ◌∷◌, ◌&&◌, arith, Option-cases, inl, inr,
  if◌then◌else◌,
}
use softwarecontainer.Common.Bytes.{Bytes, ◌==◌, eq_iff}
use softwarecontainer.Gateways.Files.{FileSetting, add_setting}

-- What the store holds for a path in the container: the path on the host, and the flag.
pub view : Bytes → List FileSetting → Option (Bytes × Bool)
view target [] = none
view target (s ∷ rest) =
    if s.path_in_container == target then some (s.path_in_host, s.read_only) else view target rest

-- The same store as a function: a new target is entered, a known one must have the same host path
-- and stays read-only only if both settings are.
pub merge : FileSetting → Option (Bytes × Bool) → Option (Bytes × Bool)
merge s none = some (s.path_in_host, s.read_only)
merge s (some (host, flag)) =
    if host == s.path_in_host then some (host, flag && s.read_only) else none

-- When `addSetting` succeeds, the store holds, for the target of the setting, what it held there
-- merged with the setting, and the old entries for every other target.
pub add_setting-view :
    (s : FileSetting) (store store' : List FileSetting) (target : Bytes)
    → add_setting s store ≡ some store'
    → view target store' ≡ (
        if s.path_in_container == target
        then merge s (view s.path_in_container store)
        else view target store)
unfolding add_setting view merge
add_setting-view s [] store' target h = ground arith
add_setting-view s (r ∷ rest) store' target h = elim (Option-cases (add_setting s rest)) [
  | inl e ↦ ground (
    arith,
    eq_iff r.path_in_container s.path_in_container,
    eq_iff s.path_in_container target,
    eq_iff r.path_in_container target,
  )
  | inr (rest', e) ↦ ground (
    arith,
    eq_iff r.path_in_container s.path_in_container,
    eq_iff s.path_in_container target,
    eq_iff r.path_in_container target,
    add_setting-view s rest rest' target e,
  )
]

-- `addSetting` fails just when the setting cannot be merged with what the store holds for its
-- target: another host path.
add_setting-merge :
    (s : FileSetting) (store : List FileSetting)
    → (add_setting s store ≡ none) ↔ (merge s (view s.path_in_container store) ≡ none)
unfolding add_setting view merge
add_setting-merge s [] = ground arith
add_setting-merge s (r ∷ rest) =
    ground (arith, eq_iff r.path_in_container s.path_in_container, add_setting-merge s rest)
