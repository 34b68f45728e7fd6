-- ===== src/FileToolkit/Mounts.antt =====
-- The mounts of the toolkit: which paths its destructor detaches.
use mathlib.Core.List.{append-nil, append_assoc}
use softwarecontainer.Common.{◌≡◌, refl, sym, ◌∙◌, ap, List, [], ◌∷◌, ◌++◌, arith}
use softwarecontainer.Common.Bytes.{Bytes}
use softwarecontainer.OperatingSystem.{Os}
use softwarecontainer.FileToolkit.{
  Handler, mount_clean_up, file_clean_up, directory_clean_up, overlay_sync, Toolkit, clean_mount,
  clean, clean_all, roll_back_all, destroy_toolkit,
}
use softwarecontainer.FileToolkit.CreateDir.{roll_back, clean_directory}
use softwarecontainer.FileToolkit.Watching.{Seen, nothing_seen, watch}

-- The paths that the handlers unmount, in their order.
unfoldable pub targets : List Handler → List Bytes
targets [] = []
targets (mount_clean_up path ∷ hs) = path ∷ targets hs
targets (file_clean_up path ∷ hs) = targets hs
targets (directory_clean_up path ∷ hs) = targets hs
targets (overlay_sync source target ∷ hs) = targets hs

module _ {S : Type 0} (os : Os S) where
  -- Deleting directories changes nothing of what is noted here.
  clean_directory_lem :
      (path : Bytes) (w : Seen) (s : S) → (clean_directory (watch os) path (w, s)).1.0 ≡ w
  unfolding clean_directory
  clean_directory_lem path w s = ground arith

  pub roll_back_lem :
      (dirs : List Bytes) (w : Seen) (s : S) → (roll_back (watch os) dirs (w, s)).1.0 ≡ w
  unfolding roll_back
  roll_back_lem [] w s = refl
  roll_back_lem (d ∷ ds) w s =
      let (_, (w', s')) = clean_directory (watch os) d (w, s) in
      roll_back_lem ds w' s' ∙ clean_directory_lem d w s

  roll_back_all_lem :
      (dirs : List (List Bytes)) (w : Seen) (s : S) → (roll_back_all (watch os) dirs (w, s)).0 ≡ w
  unfolding roll_back_all
  roll_back_all_lem [] w s = refl
  roll_back_all_lem (d ∷ ds) w s =
      let (_, (w', s')) = roll_back (watch os) d (w, s) in
      roll_back_all_lem ds w' s' ∙ roll_back_lem d w s

  clean_mount_lem :
      (path : Bytes) (w : Seen) (s : S)
      → (clean_mount (watch os) path (w, s)).1.0.detached ≡ w.detached ++ (path ∷ [])
  unfolding clean_mount
  clean_mount_lem path w s = ground arith

  clean_all_lem :
      (hs : List Handler) (w : Seen) (s : S)
      → (clean_all (watch os) hs (w, s)).1.0.detached ≡ w.detached ++ targets hs
  unfolding clean_all clean targets
  clean_all_lem [] w s = sym (append-nil w.detached)
  clean_all_lem (mount_clean_up path ∷ hs) w s =
      let (_, (w', s')) = clean_mount (watch os) path (w, s) in
      clean_all_lem hs w' s'
      ∙ ap (λ d. d ++ targets hs) (clean_mount_lem path w s)
      ∙ append_assoc w.detached (path ∷ []) (targets hs)
  clean_all_lem (file_clean_up path ∷ hs) w s = clean_all_lem hs w (os.unlink path s).1
  clean_all_lem (directory_clean_up path ∷ hs) w s =
      let (_, (w', s')) = clean_directory (watch os) path (w, s) in
      clean_all_lem hs w' s' ∙ ap (λ v. v.detached ++ targets hs) (clean_directory_lem path w s)
  clean_all_lem (overlay_sync source target ∷ hs) w s =
      clean_all_lem hs w (os.copy_tree source target s).1

  -- The destructor detaches the paths of the handlers, whether each call works or not.
  pub destroy_toolkit_lem :
      (tk : Toolkit) (s : S)
      → (destroy_toolkit (watch os) tk (nothing_seen, s)).0.detached ≡ targets tk.cleanup_handlers
  unfolding destroy_toolkit
  destroy_toolkit_lem tk s =
      let (_, (w, s')) = clean_all (watch os) tk.cleanup_handlers (nothing_seen, s) in
      ap (λ v. v.detached) (roll_back_all_lem tk.create_dirs w s')
      ∙ clean_all_lem tk.cleanup_handlers nothing_seen s
