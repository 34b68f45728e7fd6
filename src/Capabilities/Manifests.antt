-- ===== src/Capabilities/Manifests.antt =====
-- What the loader of service manifests loads, and what it refuses.
use softwarecontainer.Common.{
  ◌≡◌, ◌≢◌, ◌↔◌, refl, sym, ap, ◌∙◌, ℕ, ◌+◌, ◌-◌, ◌<◌, leb, true, false, none, some, List, [], ◌∷◌,
  ◌++◌, arith, length, drop, take, take-drop, drop-append, length-append, Bool-cases, inl, inr,
  Option-cases,
}
use mathlib.Core.List.{append-nil, append_assoc}
use softwarecontainer.Common.Bytes.{Bytes, bytes, ◌==◌, is_empty, eq_iff}
use softwarecontainer.Common.Throwing.{ok, throw, first_ok, service_manifest_path_error}
use softwarecontainer.Common.{◌==◌ as nat_eq}
use softwarecontainer.Config.StartUp.{with_slash}
use softwarecontainer.Json.{Jansson}
use softwarecontainer.FileStatus.{regular, is_directory, is_file, is_directory_empty}
use softwarecontainer.Capabilities.Loading.{
  ManifestFiles, is_json_file, load_files, load_service_manifest_file, load_content, file_list,
  load_service_manifest_dir,
}

is_json_file_stem :
    (name : Bytes)
    → is_json_file name ≡ true
    → (stem : Bytes) × (stem ≢ []) × (name ≡ stem ++ bytes ".json")
unfolding is_json_file
is_json_file_stem name h =
    let n : ℕ = length name - 5 in
    let parts : take n name ++ drop n name ≡ name = take-drop n name in
    let end : drop n name ≡ bytes ".json" = ground (arith, eq_iff (drop n name) (bytes ".json")) in
    let long : 5 < length name = ground arith in
    let sizes : _ = length-append (take n name) (drop n name) in
    let whole : length (take n name ++ drop n name) ≡ length name = ap (λ t. length t) parts in
    let last : length (drop n name) ≡ 5 = ap (λ t. length t) end in
    (
      take n name,
      λ none_left.
          let none_long : length (take n name) ≡ 0 = ap (λ t. length t) none_left in omega arith,
      sym parts ∙ ap (λ t. take n name ++ t) end,
    )

stem_is_json_file : (stem : Bytes) → stem ≢ [] → is_json_file (stem ++ bytes ".json") ≡ true
unfolding is_json_file ◌==◌
stem_is_json_file [] h = absurd (h refl)
stem_is_json_file (b ∷ stem) h =
    let name : Bytes = (b ∷ stem) ++ bytes ".json" in
    let sizes : _ = length-append (b ∷ stem) (bytes ".json") in
    let position : length name - 5 ≡ length (b ∷ stem) = omega (arith, sizes) in
    let long : leb (length name) 5 ≡ false = ground (arith, sizes) in
    let end : drop (length name - 5) name ≡ bytes ".json" =
      rw position (drop-append (b ∷ stem) (bytes ".json")) in
    rw (long, end) refl

-- A file name is taken for a JSON file exactly if it is ".json" behind at least one byte.
is_json_file_iff :
    (name : Bytes)
    → (is_json_file name ≡ true) ↔ ((stem : Bytes) × (stem ≢ []) × (name ≡ stem ++ bytes ".json"))
is_json_file_iff name =
    (is_json_file_stem name, λ (stem, some_stem, e). rw e (stem_is_json_file stem some_stem))

not_empty : (s : Bytes) → 0 < length s → is_empty s ≡ false
unfolding is_empty
not_empty [] h = absurd (omega arith)
not_empty (b ∷ s) h = refl

module _ {Json : Type 0} ⦃j : Jansson Json⦄ (manifests : ManifestFiles Json) where
  -- Each file was read as a JSON object, in this order.
  abbrev pub Loaded : Bytes → List Bytes → List Json → Type 0
  Loaded source [] roots = roots ≡ []
  Loaded source (file ∷ files) [] = ⊥
  Loaded source (file ∷ files) (root ∷ roots) =
      (manifests.json_load_file (manifests.build_path source file) ≡ some root)
      × (j.is_object root ≡ true)
      × Loaded source files roots

  file_loaded :
      (path : Bytes) (content : List Json)
      → (load_service_manifest_file manifests path content).0 ≡ ok tt
      → (root : Json) × (manifests.json_load_file path ≡ some root)
        × (j.is_object root ≡ true)
        × (load_service_manifest_file manifests path content ≡ (ok tt, content ++ (root ∷ [])))
  unfolding load_service_manifest_file
  file_loaded path content h = elim (Option-cases (manifests.json_load_file path)) [
    | inl e ↦ absurd (ground arith)
    | inr (root, e) ↦ (root, e, ground arith, ground arith)
  ]

  load_files-Loaded :
      (source : Bytes) (files : List Bytes) (content : List Json)
      → (load_files manifests source files content).0 ≡ ok tt
      → (roots : List Json) × ((load_files manifests source files content).1 ≡ content ++ roots)
        × Loaded source files roots
  unfolding load_files
  load_files-Loaded source [] content h = ([], sym (append-nil content), refl)
  load_files-Loaded source (file ∷ files) content h =
      let path : Bytes = manifests.build_path source file in
      let first : (load_service_manifest_file manifests path content).0 ≡ ok tt =
        first_ok (load_service_manifest_file manifests path content)
          (load_files manifests source files) tt h in
      let (root, read, object, made) = file_loaded path content first in
      let later : (load_files manifests source files (content ++ (root ∷ []))).0 ≡ ok tt =
        rw made at h in
      let (roots, all, rest) = load_files-Loaded source files (content ++ (root ∷ [])) later in
      (root ∷ roots, rw made (all ∙ append_assoc content (root ∷ []) roots), (read, object, rest))

  -- From a directory that is not empty, a successful `loadContent` gives the roots of the files
  -- that the listing takes for JSON files, in the order of the listing, and each is an object.
  pub load_content-Loaded :
      (source : Bytes)
      → is_empty source ≡ false
      → (source == bytes "/") ≡ false
      → is_directory manifests.system source ≡ true
      → is_directory_empty manifests.system source ≡ false
      → (load_content manifests source []).0 ≡ ok tt
      → Loaded source (file_list manifests source) (load_content manifests source []).1
  unfolding load_content load_service_manifest_dir
  load_content-Loaded source named not_root directory filled h =
      let files : List Bytes = file_list manifests source in
      let same : load_content manifests source [] ≡ load_files manifests source files [] =
        ground (arith, named, not_root, directory, filled) in
      let (roots, all, loaded) = load_files-Loaded source files [] (rw same at h) in
      rw (same, all) loaded

  with_slash-append :
      (stem : Bytes) (b : ℕ)
      → nat_eq b b'/' ≡ false
      → with_slash (stem ++ (b ∷ [])) ≡ (stem ++ (b ∷ [])) ++ bytes "/"
  unfolding with_slash
  with_slash-append [] b h = ground arith
  with_slash-append (x ∷ []) b h = ground (arith, with_slash-append [] b h)
  with_slash-append (x ∷ y ∷ stem) b h = ap (λ t. x ∷ t) (with_slash-append (y ∷ stem) b h)

  longer_differs : (s t : Bytes) → length t < length s → (s == t) ≡ false
  longer_differs s t h = elim (Bool-cases (s == t)) [
    | inr differs ↦ differs
    | inl same ↦
        let e : length s ≡ length t = ap (λ u. length u) ((eq_iff s t).0 same) in
        absurd (omega arith)
  ]

  -- Where a path with a slash behind the name of a regular file leads nowhere: a regular file that
  -- the command line names as the service manifest is refused, since `main` adds the slash.
  pub manifest_file_option_fails :
      (not_a_directory : (q : Bytes)
        → manifests.system.stat q ≡ some regular
        → manifests.system.stat (q ++ bytes "/") ≡ none)
      (stem : Bytes) (b : ℕ) (content : List Json)
      → nat_eq b b'/' ≡ false
      → manifests.system.stat (stem ++ (b ∷ [])) ≡ some regular
      → load_content manifests (with_slash (stem ++ (b ∷ []))) content
        ≡ (throw service_manifest_path_error, content)
  unfolding load_content is_directory is_file is_empty
  manifest_file_option_fails not_a_directory stem b content h file =
      let path : Bytes = stem ++ (b ∷ []) in
      let nowhere : manifests.system.stat (path ++ bytes "/") ≡ none = not_a_directory path file in
      let size : length path ≡ length stem + 1 = length-append stem (b ∷ []) in
      let sizes : length (path ++ bytes "/") ≡ length path + 1 = length-append path (bytes "/") in
      let not_root : _ =
        longer_differs (path ++ bytes "/") (bytes "/") (omega (arith, size, sizes)) in
      let named : is_empty (path ++ bytes "/") ≡ false = not_empty _ (omega (arith, sizes)) in
      rw (with_slash-append stem b h) (ground (arith, nowhere, not_root, named))
