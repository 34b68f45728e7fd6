-- ===== src/FileToolkit/Watching.antt =====
-- A system that notes what the file toolkit asks it for: the directories that mkdir has made and the
-- targets at which mount has worked, the latest first, and the paths of umount2 with MNT_DETACH, the
-- latest last.
use softwarecontainer.Common.{ℕ, Bool, List, [], ◌∷◌, ◌++◌, if◌then◌else◌, ◌==◌}
use softwarecontainer.Common.Bytes.{Bytes}
use softwarecontainer.OperatingSystem.{Os, mnt_detach}

pub record Seen : Type 0 where
  pub made : List Bytes
  pub mounted : List Bytes
  pub detached : List Bytes

abbrev pub nothing_seen : Seen
nothing_seen = record { made = []; mounted = []; detached = [] }

abbrev pub note_made : Bytes → Bool → Seen → Seen
note_made path worked w = record w { made = if worked then path ∷ w.made else w.made }

abbrev pub note_mounted : Bytes → Bool → Seen → Seen
note_mounted path worked w = record w { mounted = if worked then path ∷ w.mounted else w.mounted }

abbrev pub note_detached : Bytes → ℕ → Seen → Seen
note_detached path flags w = record w {
  detached = if flags == mnt_detach then w.detached ++ (path ∷ []) else w.detached;
}

-- A call that is not noted.
abbrev pub unseen : {S A : Type 0} → (S → A × S) → Seen × S → A × (Seen × S)
unseen f (w, s) = let (a, s') = f s in (a, (w, s'))

abbrev pub watch : {S : Type 0} → Os S → Os (Seen × S)
watch os = record {
  exists = λ path st. os.exists path st.1;
  is_directory = λ path st. os.is_directory path st.1;
  mkdir = λ path st.
      let (worked, s') = os.mkdir path st.1 in (worked, (note_made path worked st.0, s'));
  mkdtemp = λ templ. unseen (os.mkdtemp templ);
  mount = λ src dst fstype flags options st.
      let (worked, s') = os.mount src dst fstype flags options st.1 in
      (worked, (note_mounted dst worked st.0, s'));
  umount2 = λ path flags st.
      let (worked, s') = os.umount2 path flags st.1 in
      (worked, (note_detached path flags st.0, s'));
  unlink = λ path. unseen (os.unlink path);
  delete_tree = λ path. unseen (os.delete_tree path);
  copy_tree = λ src dst. unseen (os.copy_tree src dst);
  touch = λ path. unseen (os.touch path);
  write_file = λ path content. unseen (os.write_file path content);
  parent_path = os.parent_path;
  base_name = os.base_name;
  build_path = os.build_path;
}
