-- ===== src/FileToolkit/Mounting.antt =====
-- tmpfsMount and overlayMount of common/filetoolkitwithundo.cpp: that they return true exactly if
-- their call of mount has worked.
use softwarecontainer.Common.{
  ◌≡◌, refl, sym, ap, ◌∙◌, Bool, true, false, List, [], ◌∷◌, ◌++◌, some, arith, All, if◌then◌else◌,
}
use softwarecontainer.Common.Bytes.{Bytes, bytes}
use softwarecontainer.Common.Throwing.{Result, ok, throw, M, and_then, and_then_keeps}
use softwarecontainer.OperatingSystem.{Os}
use softwarecontainer.FileToolkit.{
  Toolkit, destroy_toolkit, tmpfs_mount, mount_tmpfs, overlay_mount, mount_overlay, finish, leave,
  create_overlay_directories, write_to_file, mark_file_for_deletion, overlay_options, add_handler,
  mount_clean_up, overlay_sync,
}
use softwarecontainer.FileToolkit.CreateDir.{create_directory, make_directory}
use softwarecontainer.FileToolkit.Directories.{create_directory_keeps}
use softwarecontainer.FileToolkit.Watching.{Seen, nothing_seen, note_mounted, watch}
use softwarecontainer.FileToolkit.Mounts.{targets, roll_back_lem, destroy_toolkit_lem}
use softwarecontainer.FileToolkit.Undo.{if_true, Opens}
use softwarecontainer.FileToolkit.Lifetime.{
  Operation, mount_a_tmpfs, mount_an_overlay, share_a_mount_point, bind_a_mount, write_a_file,
  mark_a_file, opens, operate, operate_all, operate-Opens, new_toolkit,
}

-- The operations that leave every mount that they make to the destructor.
abbrev pub leaves_all : Operation → Bool
leaves_all (share_a_mount_point path) = false
leaves_all (bind_a_mount src dst root read_only buffered) = false
leaves_all _ = true

module _ {S : Type 0} (os : Os S) where
  -- No mount has worked since `mounted`.
  abbrev Quiet : List Bytes → {D : Type 0} → D × (Seen × S) → Type 0
  Quiet mounted st = st.1.0.mounted ≡ mounted

  make_directory-Quiet :
      (mounted : List Bytes) (path : Bytes) (st : List Bytes × (Seen × S))
      → Quiet mounted st
      → Quiet mounted (make_directory (watch os) path st).1
  unfolding make_directory
  make_directory-Quiet mounted path (dirs, (w, s)) h = ground (arith, h)

  create_directory-Quiet :
      (mounted : List Bytes) (path : Bytes) (st : List Bytes × (Seen × S))
      → Quiet mounted st
      → Quiet mounted (create_directory (watch os) path st).1
  create_directory-Quiet mounted =
      create_directory_keeps (watch os) (Quiet mounted) (make_directory-Quiet mounted)

  create_overlay_directories-Quiet :
      (mounted : List Bytes) (lower upper work dst : Bytes) (st : List Bytes × (Seen × S))
      → Quiet mounted st
      → Quiet mounted (create_overlay_directories (watch os) lower upper work dst st).1
  unfolding create_overlay_directories
  create_overlay_directories-Quiet mounted lower upper work dst st h =
      let Kept : List Bytes × (Seen × S) → Type 0 = Quiet mounted in
      let made : Bytes → M (List Bytes × (Seen × S)) Bool = create_directory (watch os) in
      let third : M (List Bytes × (Seen × S)) Bool = and_then (made work) (made dst) in
      let second : M (List Bytes × (Seen × S)) Bool = and_then (made upper) third in
      and_then_keeps Kept (made lower st) second (create_directory-Quiet mounted lower st h)
        (λ st2 h2.
          and_then_keeps Kept (made upper st2) third (create_directory-Quiet mounted upper st2 h2)
            (λ st3 h3.
              and_then_keeps Kept (made work st3) (made dst)
                (create_directory-Quiet mounted work st3 h3) (create_directory-Quiet mounted dst)))

  -- The mounts that have worked are those from before, and that of an operation that returns true.
  unfoldable Mounts : List Bytes → List Bytes → Result Bool × (Toolkit × (Seen × S)) → Type 0
  Mounts new mounted (r, (tk, (w, s))) = w.mounted ≡ if_true r new ++ mounted

  finish-Mounts :
      (new mounted : List Bytes) (r : Result Bool × (List Bytes × (Seen × S))) (tk : Toolkit)
      (k : List Bytes × (Seen × S) → Result Bool × (Toolkit × (Seen × S)))
      → Quiet mounted r.1
      → ((st : List Bytes × (Seen × S)) → Quiet mounted st → Mounts new mounted (k st))
      → Mounts new mounted (finish (watch os) r tk k)
  unfolding Mounts
  finish-Mounts new mounted (ok true, st) tk k h keeps = keeps st h
  finish-Mounts new mounted (ok false, (d, (w, s))) tk k h keeps =
      ap (λ v. v.mounted) (roll_back_lem os d w s) ∙ h
  finish-Mounts new mounted (throw e, (d, (w, s))) tk k h keeps =
      ap (λ v. v.mounted) (roll_back_lem os d w s) ∙ h

  -- The last part of both functions.
  mount-Mounts :
      (worked : Bool) (dst : Bytes) (tk tk' : Toolkit) (d : List Bytes) (w : Seen) (s : S)
      (mounted : List Bytes)
      → w.mounted ≡ mounted
      → Mounts (dst ∷ []) mounted (
          if worked
          then leave (watch os) true tk' (d, (note_mounted dst worked w, s))
          else leave (watch os) false tk (d, (note_mounted dst worked w, s)))
  unfolding Mounts
  mount-Mounts true dst tk tk' d w s mounted h = ap (λ l. dst ∷ l) h
  mount-Mounts false dst tk tk' d w s mounted h =
      ap (λ v. v.mounted) (roll_back_lem os d (note_mounted dst false w) s) ∙ h

  tmpfs_mount-Mounts :
      (dst size : Bytes) (tk : Toolkit) (w : Seen) (s : S)
      → Mounts (dst ∷ []) w.mounted (tmpfs_mount (watch os) dst size (tk, (w, s)))
  unfolding tmpfs_mount mount_tmpfs
  tmpfs_mount-Mounts dst size tk w s =
      let options : Bytes = bytes "size=" ++ size in
      finish-Mounts (dst ∷ []) w.mounted (create_directory (watch os) dst ([], (w, s))) tk
        (mount_tmpfs (watch os) dst options tk)
        (create_directory-Quiet w.mounted dst ([], (w, s)) refl)
        (λ (d, (v, t)) h.
          let (worked, t') = os.mount (bytes "tmpfs") dst (bytes "tmpfs") 0 (some options) t in
          mount-Mounts worked dst tk (add_handler (mount_clean_up dst) tk) d v t' w.mounted h)

  overlay_mount-Mounts :
      (lower upper work dst : Bytes) (tk : Toolkit) (w : Seen) (s : S)
      → Mounts (dst ∷ []) w.mounted (overlay_mount (watch os) lower upper work dst (tk, (w, s)))
  unfolding overlay_mount mount_overlay
  overlay_mount-Mounts lower upper work dst tk w s =
      let options : Bytes = overlay_options lower upper work in
      let added : Toolkit =
        add_handler (overlay_sync upper lower) (add_handler (mount_clean_up dst) tk) in
      finish-Mounts (dst ∷ []) w.mounted
        (create_overlay_directories (watch os) lower upper work dst ([], (w, s))) tk
        (mount_overlay (watch os) lower upper work dst tk)
        (create_overlay_directories-Quiet w.mounted lower upper work dst ([], (w, s)) refl)
        (λ (d, (v, t)) h.
          let (worked, t') = os.mount (bytes "overlay") dst (bytes "overlay") 0 (some options) t in
          mount-Mounts worked dst tk added d v t' w.mounted h)

  write_to_file-Mounts :
      (path content : Bytes) (tk : Toolkit) (w : Seen) (s : S)
      → Mounts [] w.mounted (write_to_file (watch os) path content (tk, (w, s)))
  unfolding write_to_file Mounts
  write_to_file-Mounts path content tk w s = ground arith

  kept-Mounts : (tk : Toolkit) (w : Seen) (s : S) → Mounts [] w.mounted (ok true, (tk, (w, s)))
  unfolding Mounts
  kept-Mounts tk w s = refl

  operate-Mounts :
      (o : Operation) (tk : Toolkit) (w : Seen) (s : S)
      → leaves_all o ≡ true
      → Mounts (opens o) w.mounted (operate (watch os) o (tk, (w, s)))
  unfolding operate
  operate-Mounts (mount_a_tmpfs dst size) tk w s e = tmpfs_mount-Mounts dst size tk w s
  operate-Mounts (mount_an_overlay lower upper work dst) tk w s e =
      overlay_mount-Mounts lower upper work dst tk w s
  operate-Mounts (share_a_mount_point path) tk w s e = absurd cc
  operate-Mounts (bind_a_mount src dst root read_only buffered) tk w s e = absurd cc
  operate-Mounts (write_a_file path content) tk w s e = write_to_file-Mounts path content tk w s
  operate-Mounts (mark_a_file path) tk w s e = kept-Mounts (mark_file_for_deletion path tk) w s

  -- The handlers unmount what was mounted.
  abbrev Matched : Toolkit × (Seen × S) → Type 0
  Matched (tk, (w, s)) = targets tk.cleanup_handlers ≡ w.mounted

  operate-Matched :
      (o : Operation) (tk : Toolkit) (w : Seen) (s : S)
      → leaves_all o ≡ true
      → targets tk.cleanup_handlers ≡ w.mounted
      → Matched (operate (watch os) o (tk, (w, s))).1
  unfolding Mounts Opens
  operate-Matched o tk w s e h =
      let r : Result Bool = (operate (watch os) o (tk, (w, s))).0 in
      operate-Opens (watch os) o tk (w, s)
      ∙ ap (λ l. if_true r (opens o) ++ l) h
      ∙ sym (operate-Mounts o tk w s e)

  operate_all-Matched :
      (ops : List Operation) (tk : Toolkit) (w : Seen) (s : S)
      → All (λ o. leaves_all o ≡ true) ops
      → targets tk.cleanup_handlers ≡ w.mounted
      → Matched (operate_all (watch os) ops (tk, (w, s)))
  unfolding operate_all
  operate_all-Matched [] tk w s all h = h
  operate_all-Matched (o ∷ rest) tk w s all h =
      let (_, (tk', (w', s'))) = operate (watch os) o (tk, (w, s)) in
      operate_all-Matched rest tk' w' s' all.1 (operate-Matched o tk w s all.0 h)

  -- Whatever a new toolkit gets of tmpfsMount, overlayMount, writeToFile and markFileForDeletion,
  -- whether they work or fail: its destructor detaches exactly the targets at which mount has
  -- worked, the latest first.
  pub mounts_undone :
      (ops : List Operation) (start : S)
      → All (λ o. leaves_all o ≡ true) ops
      → let (tk, (w, s)) = operate_all (watch os) ops (new_toolkit, (nothing_seen, start)) in
        (destroy_toolkit (watch os) tk (nothing_seen, s)).0.detached ≡ w.mounted
  unfolding targets
  mounts_undone ops start all =
      let (tk, (w, s)) = operate_all (watch os) ops (new_toolkit, (nothing_seen, start)) in
      destroy_toolkit_lem os tk s ∙ operate_all-Matched ops new_toolkit nothing_seen start all refl
