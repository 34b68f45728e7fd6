-- ===== src/FileToolkit.antt =====
-- common/filetoolkitwithundo.{h,cpp}, common/mountcleanuphandler.cpp, common/filecleanuphandler.cpp
-- and common/overlaysynccleanuphandler.cpp. The vector of cleanup handlers is a list, its back first.
pub mod CreateDir
pub mod Directories
pub mod Watching
pub mod Mounts
pub mod Undo
pub mod Lifetime
pub mod Mounting
use softwarecontainer.Common.{
  ℕ, ◌+◌, Bool, true, false, ◌&&◌, not, Option, none, some, List, [], ◌∷◌, ◌++◌, if◌then◌else◌, any,
}
use softwarecontainer.Common.Bytes.{Bytes, bytes, ◌==◌, is_empty}
use softwarecontainer.Common.Throwing.{M, Result, ok, throw, and_then, ◌>>=◌, pure}
use softwarecontainer.OperatingSystem.{
  Os, ms_rdonly, ms_remount, ms_bind, ms_unbindable, ms_shared, mnt_force, mnt_detach,
}
use softwarecontainer.FileToolkit.CreateDir.{
  create_directory, create_temp_directory_from_template, roll_back, clean_directory,
}

-- The classes derived from CleanUpHandler.
pub data Handler : Type 0 where
  mount_clean_up : Bytes → Handler
  file_clean_up : Bytes → Handler
  directory_clean_up : Bytes → Handler
  overlay_sync : Bytes → Bytes → Handler

unfoldable pub query_name : Handler → Bytes
query_name (mount_clean_up path) = []
query_name (file_clean_up path) = path
query_name (directory_clean_up path) = path
query_name (overlay_sync source target) = []

pub record Toolkit : Type 0 where
  pub cleanup_handlers : List Handler
  pub create_dirs : List (List Bytes)

abbrev pub add_handler : Handler → Toolkit → Toolkit
add_handler h tk = record tk { cleanup_handlers = h ∷ tk.cleanup_handlers }

abbrev pub add_create_dir : List Bytes → Toolkit → Toolkit
add_create_dir d tk = record tk { create_dirs = tk.create_dirs ++ (d ∷ []) }

unfoldable pub name_in_list : Bytes → Toolkit → Bool
name_in_list path tk = any (λ h. query_name h == path) tk.cleanup_handlers

-- `markFileForDeletion`, and the addition of a file at the end of `writeToFile`.
unfoldable pub mark_file_for_deletion : Bytes → Toolkit → Toolkit
mark_file_for_deletion path tk =
    if name_in_list path tk then tk else add_handler (file_clean_up path) tk

abbrev pub overlay_options : Bytes → Bytes → Bytes → Bytes
overlay_options lower upper work =
    bytes "lowerdir=" ++ lower ++ bytes ",upperdir=" ++ upper ++ bytes ",workdir=" ++ work

-- The template of a temporary directory of `bindMount`.
abbrev pub buffer_template : Bytes → Bytes → Bytes → Bytes
buffer_template root in_tmp in_root = if is_empty root then in_tmp else root ++ in_root

module _ {S : Type 0} (os : Os S) where
  unfoldable pub clean_mount : Bytes → S → Bool × S
  clean_mount path s =
      let (detached, s') = os.umount2 path mnt_detach s in
      if detached then (true, s') else os.umount2 path mnt_force s'

  -- `clean` of each handler.
  unfoldable pub clean : Handler → S → Bool × S
  clean (mount_clean_up path) = clean_mount path
  clean (file_clean_up path) = os.unlink path
  clean (directory_clean_up path) = clean_directory os path
  clean (overlay_sync source target) = os.copy_tree source target

  -- The loop of `~FileToolkitWithUndo`: it goes on after a handler that failed.
  unfoldable pub clean_all : List Handler → S → Bool × S
  clean_all [] s = (true, s)
  clean_all (h ∷ handlers) s =
      let (cleaned, s') = clean h s in
      let (rest, s'') = clean_all handlers s' in (cleaned && rest, s'')

  -- The destruction of the vector of CreateDir objects.
  unfoldable pub roll_back_all : List (List Bytes) → S → S
  roll_back_all [] s = s
  roll_back_all (d ∷ ds) s = roll_back_all ds (roll_back os d s).1

  -- The destructor, and then that of the members.
  unfoldable pub destroy_toolkit : Toolkit → S → S
  destroy_toolkit tk s = roll_back_all tk.create_dirs (clean_all tk.cleanup_handlers s).1

  unfoldable pub write_to_file : Bytes → Bytes → M (Toolkit × S) Bool
  write_to_file path content (tk, s) =
      let (written, s') = os.write_file path content s in
      if written then (ok true, (mark_file_for_deletion path tk, s')) else (ok false, (tk, s'))

  -- A local CreateDir object ends with the function: what it made is rolled back, unless the
  -- function has moved it into the toolkit.
  abbrev pub leave : Bool → Toolkit → List Bytes × S → Result Bool × (Toolkit × S)
  leave keep tk (dirs, s) =
      if keep
      then (ok true, (add_create_dir dirs tk, s))
      else (ok false, (tk, (roll_back os dirs s).1))

  abbrev pub finish :
      Result Bool × (List Bytes × S)
      → Toolkit
      → (List Bytes × S → Result Bool × (Toolkit × S))
      → Result Bool × (Toolkit × S)
  finish (ok true, st) tk k = k st
  finish (ok false, st) tk k = leave false tk st
  finish (throw e, (dirs, s)) tk k = (throw e, (tk, (roll_back os dirs s).1))

  unfoldable pub mount_tmpfs :
      Bytes → Bytes → Toolkit → List Bytes × S → Result Bool × (Toolkit × S)
  mount_tmpfs dst options tk (dirs, s) =
      let (mounted, s') = os.mount (bytes "tmpfs") dst (bytes "tmpfs") 0 (some options) s in
      if mounted
      then leave true (add_handler (mount_clean_up dst) tk) (dirs, s')
      else leave false tk (dirs, s')

  -- `tmpfsMount`: `size` is the decimal form of `maxSize`.
  unfoldable pub tmpfs_mount : Bytes → Bytes → M (Toolkit × S) Bool
  tmpfs_mount dst size (tk, s) =
      finish (create_directory os dst ([], s)) tk (mount_tmpfs dst (bytes "size=" ++ size) tk)

  unfoldable pub mount_overlay :
      Bytes → Bytes → Bytes → Bytes → Toolkit → List Bytes × S → Result Bool × (Toolkit × S)
  mount_overlay lower upper work dst tk (dirs, s) =
      let (mounted, s') =
        os.mount (bytes "overlay") dst (bytes "overlay") 0 (some (overlay_options lower upper work))
          s in
      if mounted
      then leave true (add_handler (overlay_sync upper lower) (add_handler (mount_clean_up dst) tk))
          (dirs, s')
      else leave false tk (dirs, s')

  unfoldable pub create_overlay_directories :
      Bytes → Bytes → Bytes → Bytes → M (List Bytes × S) Bool
  create_overlay_directories lower upper work dst = and_then (create_directory os lower) (
      and_then (create_directory os upper)
        (and_then (create_directory os work) (create_directory os dst)))

  unfoldable pub overlay_mount : Bytes → Bytes → Bytes → Bytes → M (Toolkit × S) Bool
  overlay_mount lower upper work dst (tk, s) =
      finish (create_overlay_directories lower upper work dst ([], s)) tk
        (mount_overlay lower upper work dst tk)

  unfoldable pub sync_overlay_mount : Bytes → Bytes → S → Bool × S
  sync_overlay_mount lower upper = os.copy_tree upper lower

  -- `createSharedMountPoint`: three calls of `mount`, the handler after all of them.
  unfoldable pub create_shared_mount_point : Bytes → M (Toolkit × S) Bool
  create_shared_mount_point path (tk, s) =
      let (bound, s1) = os.mount path path [] ms_bind none s in
      let (unbindable, s2) = os.mount path path [] ms_unbindable none s1 in
      let (shared, s3) = os.mount path path [] ms_shared none s2 in
      if not bound
      then (ok false, (tk, s1))
      else if not unbindable
      then (ok false, (tk, s2))
      else if not shared
      then (ok false, (tk, s3))
      else (ok true, (add_handler (mount_clean_up path) tk, s3))

  -- The upper and the work directory of `bindMount`.
  unfoldable pub create_buffer_directories : Bytes → M (List Bytes × S) (Bytes × Bytes)
  create_buffer_directories root =
      create_temp_directory_from_template os (
        buffer_template root (bytes "/tmp/sc-bindmount-upper-XXXXXX")
          (bytes "/bindmount-upper-XXXXXX"))
      >>= λ upper.
          create_temp_directory_from_template os (
            buffer_template root (bytes "/tmp/sc-bindmount-work-XXXXXX")
              (bytes "/bindmount-work-XXXXXX"))
          >>= λ work. pure (upper, work)

  unfoldable pub mount_buffered : Bytes → Bytes → Bytes → M (List Bytes × S) Bool
  mount_buffered src dst root = create_buffer_directories root >>= λ (upper, work) (dirs, s).
      let (mounted, s') =
        os.mount (bytes "overlay") dst (bytes "overlay") 0 (some (overlay_options src upper work))
          s in
      (ok mounted, (dirs, s'))

  unfoldable pub remount_read_only : Bytes → Bytes → Bytes → M (List Bytes × S) Bool
  remount_read_only src dst fstype (dirs, s) =
      let (mounted, s') = os.mount src dst fstype (ms_remount + ms_rdonly + ms_bind) none s in
      (ok mounted, (dirs, s'))

  unfoldable pub bind_directory_or_file : Bytes → Bytes → Bytes → Bool → M (List Bytes × S) Bool
  bind_directory_or_file src dst root buffered (dirs, s) =
      if buffered && os.is_directory src s
      then mount_buffered src dst root (dirs, s)
      else let (mounted, s') = os.mount src dst [] ms_bind none s in (ok mounted, (dirs, s'))

  unfoldable pub bind_mount : Bytes → Bytes → Bytes → Bool → Bool → M (Toolkit × S) Bool
  bind_mount src dst root read_only buffered (tk, s) =
      if not (os.exists src s)
      then (ok false, (tk, s))
      else if not (os.exists dst s)
      then (ok false, (tk, s))
      else finish
          (and_then (bind_directory_or_file src dst root buffered)
            (λ st.
              if read_only && not buffered then remount_read_only src dst [] st else (ok true, st))
            ([], s))
          tk (λ st. leave true tk st)
