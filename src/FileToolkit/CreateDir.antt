-- ===== src/FileToolkit/CreateDir.antt =====
-- common/createdir.{h,cpp} and common/directorycleanuphandler.cpp. The vector of rollback cleaners
-- is the list of their paths, the back of the vector first.
use softwarecontainer.Common.{
  ℕ, zero, suc, ◌+◌, Bool, true, false, ◌&&◌, not, none, some, List, [], ◌∷◌, if◌then◌else◌, any,
  length,
}
use softwarecontainer.Common.Bytes.{Bytes, ◌==◌}
use softwarecontainer.Common.Throwing.{M, ok, throw, continue, software_container_error, undefined}
use softwarecontainer.OperatingSystem.{Os}

-- `pathInList`, and the addition of a path that is not in the list.
unfoldable pub path_in_list : Bytes → List Bytes → Bool
path_in_list path cleaners = any (λ q. q == path) cleaners

unfoldable pub add_cleaner : Bytes → List Bytes → List Bytes
add_cleaner path cleaners = if path_in_list path cleaners then cleaners else path ∷ cleaners

module _ {S : Type 0} (os : Os S) where
  -- The part of `createDirectory` after the parent directory is there.
  unfoldable pub make_directory : Bytes → M (List Bytes × S) Bool
  make_directory path (cleaners, s) =
      let (made, s') = os.mkdir path s in
      if made then (ok true, (add_cleaner path cleaners, s')) else (ok false, (cleaners, s'))

  -- `createDirectory`, whose recursion through `createParentDirectory` is bounded by a number of
  -- calls: beyond them the result is `undefined`.
  unfoldable pub create_directory_within : ℕ → Bytes → M (List Bytes × S) Bool
  create_directory_within zero path st = (throw undefined, st)
  create_directory_within (suc calls) path (cleaners, s) =
      let parents = create_directory_within calls (os.parent_path path) (cleaners, s) in
      if os.is_directory path s
      then (ok true, (cleaners, s))
      else continue parents (make_directory path)

  unfoldable pub create_directory : Bytes → M (List Bytes × S) Bool
  create_directory path = create_directory_within (length path + 2) path

  unfoldable pub create_temp_directory_from_template : Bytes → M (List Bytes × S) Bytes
  create_temp_directory_from_template templ (cleaners, s) =
      let (dir, s') = os.mkdtemp templ s in
      elim dir [
        | none ↦ (throw software_container_error, (cleaners, s'))
        | some d ↦ (ok d, (d ∷ cleaners, s'))
      ]

  -- `DirectoryCleanUpHandler::clean`.
  unfoldable pub clean_directory : Bytes → S → Bool × S
  clean_directory path s = if not (os.exists path s) then (true, s) else os.delete_tree path s

  -- `~CreateDir`: it goes on after a cleaner that failed.
  unfoldable pub roll_back : List Bytes → S → Bool × S
  roll_back [] s = (true, s)
  roll_back (path ∷ cleaners) s =
      let (cleaned, s') = clean_directory path s in
      let (rest, s'') = roll_back cleaners s' in (cleaned && rest, s'')
