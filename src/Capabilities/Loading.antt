-- ===== src/Capabilities/Loading.antt =====
-- agent/src/capability/servicemanifestfileloader.cpp: which files are loaded as service manifests.
use softwarecontainer.Common.{
  ◌-◌, leb, Bool, false, Option, none, some, List, [], ◌∷◌, ◌++◌, if◌then◌else◌, length, not, drop,
}
use softwarecontainer.Common.Bytes.{Bytes, bytes, ◌==◌, is_empty}
use softwarecontainer.Common.Throwing.{
  Result, ok, throw, M, ◌>>◌, service_manifest_path_error, service_manifest_parse_error,
}
use softwarecontainer.Json.{Jansson}
use softwarecontainer.FileStatus.{FileSystem, is_directory, is_file, is_directory_empty}
use softwarecontainer.Capabilities.{ConfigStore, load}

-- The names that Glib::Dir gives before the end of the directory or an error, json_load_file, and
-- Glib::build_filename.
pub record ManifestFiles (Json : Type 0) : Type 0 where
  pub system : FileSystem
  pub read_names : Bytes → List Bytes
  pub json_load_file : Bytes → Option Json
  pub build_path : Bytes → Bytes → Bytes

unfoldable pub is_json_file : Bytes → Bool
is_json_file filename =
    if leb (length filename) 5 then false else drop (length filename - 5) filename == bytes ".json"

-- The loop of `fileList`, which an empty name ends.
unfoldable pub json_files : List Bytes → List Bytes
json_files [] = []
json_files (filename ∷ rest) =
    let files = json_files rest in
    if is_empty filename then [] else if is_json_file filename then filename ∷ files else files

module _ {Json : Type 0} ⦃j : Jansson Json⦄ (manifests : ManifestFiles Json) where
  unfoldable pub file_list : Bytes → List Bytes
  file_list source = json_files (manifests.read_names source)

  abbrev pub keep_root : Option Json → M (List Json) (Unit {0})
  keep_root none content = (throw service_manifest_parse_error, content)
  keep_root (some root) content =
      if not (j.is_object root)
      then (throw service_manifest_parse_error, content)
      else (ok tt, content ++ (root ∷ []))

  -- The state is `m_content`.
  unfoldable pub load_service_manifest_file : Bytes → M (List Json) (Unit {0})
  load_service_manifest_file file_path = keep_root (manifests.json_load_file file_path)

  -- The loop of `loadServiceManifestDir`.
  unfoldable pub load_files : Bytes → List Bytes → M (List Json) (Unit {0})
  load_files source [] content = (ok tt, content)
  load_files source (file ∷ rest) content =
      (load_service_manifest_file (manifests.build_path source file) >> load_files source rest)
        content

  -- Its test for no files changes nothing but the log.
  unfoldable pub load_service_manifest_dir : Bytes → M (List Json) (Unit {0})
  load_service_manifest_dir source content =
      if is_directory_empty manifests.system source
      then (ok tt, content)
      else load_files source (file_list source) content

  unfoldable pub load_content : Bytes → M (List Json) (Unit {0})
  load_content source content =
      if is_empty source
      then (ok tt, content)
      else if source == bytes "/"
      then (throw service_manifest_path_error, content)
      else if is_directory manifests.system source
      then load_service_manifest_dir source content
      else if is_file manifests.system source
      then (if is_json_file source
          then load_service_manifest_file source content
          else (throw service_manifest_path_error, content))
      else (throw service_manifest_path_error, content)

  abbrev pub store_of : Result (Unit {0}) × List Json → Result (Unit {0}) × ConfigStore Json
  store_of (ok _, content) = load content []
  store_of (throw e, content) = (throw e, [])

  -- `BaseConfigStore::BaseConfigStore`, with a new ServiceManifestFileLoader.
  unfoldable pub new_config_store : Bytes → Result (Unit {0}) × ConfigStore Json
  new_config_store source = store_of (load_content source [])
