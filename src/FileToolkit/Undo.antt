-- ===== src/FileToolkit/Undo.antt =====
-- Which handlers that unmount each operation of the toolkit adds: createSharedMountPoint adds its
-- handler after the last of three calls of mount, and bindMount adds none.
use softwarecontainer.Common.{
  ◌≡◌, refl, ℕ, ◌<◌, not, Bool, true, false, List, [], ◌∷◌, ◌++◌, none, arith, if◌then◌else◌,
}
use softwarecontainer.Common.Bytes.{Bytes, bytes}
use softwarecontainer.Common.Throwing.{Result, ok, throw}
use softwarecontainer.OperatingSystem.{Os, ms_bind, ms_unbindable, ms_shared}
use softwarecontainer.FileToolkit.{
  mount_clean_up, Toolkit, write_to_file, mark_file_for_deletion, mount_tmpfs, tmpfs_mount,
  mount_overlay, overlay_mount, create_overlay_directories, add_handler, finish,
  create_shared_mount_point, bind_mount,
}
use softwarecontainer.FileToolkit.CreateDir.{create_directory}
use softwarecontainer.FileToolkit.Mounts.{targets}

-- What an operation adds if it returns true.
abbrev pub if_true : Result Bool → List Bytes → List Bytes
if_true (ok true) paths = paths
if_true (ok false) paths = []
if_true (throw e) paths = []

module _ {S : Type 0} (os : Os S) where
  -- The paths to unmount are those from before, and those of an operation that returns true.
  unfoldable pub Opens : List Bytes → Toolkit → Result Bool × (Toolkit × S) → Type 0
  Opens new tk (r, (tk', s)) =
      targets tk'.cleanup_handlers ≡ if_true r new ++ targets tk.cleanup_handlers

  finish-Opens :
      (new : List Bytes) (r : Result Bool × (List Bytes × S)) (tk : Toolkit)
      (k : List Bytes × S → Result Bool × (Toolkit × S))
      → ((st : List Bytes × S) → Opens new tk (k st))
      → Opens new tk (finish os r tk k)
  unfolding Opens
  finish-Opens new (ok true, st) tk k h = h st
  finish-Opens new (ok false, st) tk k h = refl
  finish-Opens new (throw e, st) tk k h = refl

  if-Opens :
      (new : List Bytes) (tk : Toolkit) (b : Bool) (r r' : Result Bool × (Toolkit × S))
      → Opens new tk r
      → Opens new tk r'
      → Opens new tk (if b then r else r')
  if-Opens new tk true r r' h k = h
  if-Opens new tk false r r' h k = k

  refused-Opens : (new : List Bytes) (tk : Toolkit) (s : S) → Opens new tk (ok false, (tk, s))
  unfolding Opens
  refused-Opens new tk s = refl

  opened-Opens :
      (path : Bytes) (tk tk' : Toolkit) (s : S)
      → targets tk'.cleanup_handlers ≡ path ∷ targets tk.cleanup_handlers
      → Opens (path ∷ []) tk (ok true, (tk', s))
  unfolding Opens
  opened-Opens path tk tk' s h = h

  pub kept-Opens :
      (done : Bool) (tk tk' : Toolkit) (s : S)
      → targets tk'.cleanup_handlers ≡ targets tk.cleanup_handlers
      → Opens [] tk (ok done, (tk', s))
  unfolding Opens
  kept-Opens true tk tk' s h = h
  kept-Opens false tk tk' s h = h

  pub tmpfs_mount-Opens :
      (dst size : Bytes) (tk : Toolkit) (s : S)
      → Opens (dst ∷ []) tk (tmpfs_mount os dst size (tk, s))
  unfolding tmpfs_mount mount_tmpfs targets
  tmpfs_mount-Opens dst size tk s =
      finish-Opens (dst ∷ []) (create_directory os dst ([], s)) tk
        (mount_tmpfs os dst (bytes "size=" ++ size) tk)
        (λ st. if-Opens (dst ∷ []) tk _ _ _ (opened-Opens dst tk _ _ refl) (refused-Opens _ tk _))

  pub overlay_mount-Opens :
      (lower upper work dst : Bytes) (tk : Toolkit) (s : S)
      → Opens (dst ∷ []) tk (overlay_mount os lower upper work dst (tk, s))
  unfolding overlay_mount mount_overlay targets
  overlay_mount-Opens lower upper work dst tk s =
      finish-Opens (dst ∷ []) (create_overlay_directories os lower upper work dst ([], s)) tk
        (mount_overlay os lower upper work dst tk)
        (λ st. if-Opens (dst ∷ []) tk _ _ _ (opened-Opens dst tk _ _ refl) (refused-Opens _ tk _))

  pub create_shared_mount_point-Opens :
      (path : Bytes) (tk : Toolkit) (s : S)
      → Opens (path ∷ []) tk (create_shared_mount_point os path (tk, s))
  unfolding create_shared_mount_point targets
  create_shared_mount_point-Opens path tk s =
      let (bound, s1) = os.mount path path [] ms_bind none s in
      let (unbindable, s2) = os.mount path path [] ms_unbindable none s1 in
      let (shared, s3) = os.mount path path [] ms_shared none s2 in
      let new : List Bytes = path ∷ [] in
      let added : Toolkit = add_handler (mount_clean_up path) tk in
      let third : Result Bool × (Toolkit × S) =
        if not shared then (ok false, (tk, s3)) else (ok true, (added, s3)) in
      let second : Result Bool × (Toolkit × S) =
        if not unbindable then (ok false, (tk, s2)) else third in
      if-Opens new tk (not bound) (ok false, (tk, s1)) second (refused-Opens new tk s1)
        (if-Opens new tk (not unbindable) (ok false, (tk, s2)) third (refused-Opens new tk s2)
          (if-Opens new tk (not shared) (ok false, (tk, s3)) (ok true, (added, s3))
            (refused-Opens new tk s3) (opened-Opens path tk added s3 refl)))

  pub bind_mount-Opens :
      (src dst root : Bytes) (read_only buffered : Bool) (tk : Toolkit) (s : S)
      → Opens [] tk (bind_mount os src dst root read_only buffered (tk, s))
  unfolding bind_mount
  bind_mount-Opens src dst root read_only buffered tk s =
      if-Opens [] tk (not (os.exists src s)) _ _ (refused-Opens [] tk _) (
        if-Opens [] tk (not (os.exists dst s)) _ _ (refused-Opens [] tk _)
          (finish-Opens [] _ tk _ (λ st. kept-Opens true tk _ _ refl)))

  pub mark_targets :
      (path : Bytes) (tk : Toolkit)
      → targets (mark_file_for_deletion path tk).cleanup_handlers ≡ targets tk.cleanup_handlers
  unfolding mark_file_for_deletion targets
  mark_targets path tk = ground arith

  pub write_to_file-Opens :
      (path content : Bytes) (tk : Toolkit) (s : S)
      → Opens [] tk (write_to_file os path content (tk, s))
  unfolding write_to_file
  write_to_file-Opens path content tk s =
      if-Opens [] tk (os.write_file path content s).0 _ _
        (kept-Opens true tk _ _ (mark_targets path tk)) (refused-Opens [] tk _)

  -- With a measure of the mounts at a path that a bind mount raises, and that a change of how a
  -- mount propagates leaves as it is: when createSharedMountPoint fails after its first call of
  -- mount has worked, there is more at the path than before, and the toolkit is as it was.
  pub create_shared_mount_point_leaks :
      (mounts_at : Bytes → S → ℕ)
      → ((path : Bytes) (s : S)
          → (os.mount path path [] ms_bind none s).0 ≡ true
          → mounts_at path s < mounts_at path (os.mount path path [] ms_bind none s).1)
      → ((path : Bytes) (s : S)
          → mounts_at path (os.mount path path [] ms_unbindable none s).1 ≡ mounts_at path s)
      → ((path : Bytes) (s : S)
          → mounts_at path (os.mount path path [] ms_shared none s).1 ≡ mounts_at path s)
      → (path : Bytes) (tk : Toolkit) (s : S)
      → (create_shared_mount_point os path (tk, s)).0 ≡ ok false
      → (os.mount path path [] ms_bind none s).0 ≡ true
      → ((create_shared_mount_point os path (tk, s)).1.0 ≡ tk)
        × (mounts_at path s < mounts_at path (create_shared_mount_point os path (tk, s)).1.1)
  unfolding create_shared_mount_point
  create_shared_mount_point_leaks mounts_at binds unbindable shared path tk s e bound =
      let s1 : S = (os.mount path path [] ms_bind none s).1 in
      let s2 : S = (os.mount path path [] ms_unbindable none s1).1 in
      (ground arith, ground (arith, binds path s bound, unbindable path s1, shared path s2))
