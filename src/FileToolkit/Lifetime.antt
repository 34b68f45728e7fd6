-- ===== src/FileToolkit/Lifetime.antt =====
-- The life of a toolkit: operations, and its destructor.
use mathlib.Core.List.{append-nil, append_assoc}
use softwarecontainer.Common.{◌≡◌, refl, sym, ap, ◌∙◌, Bool, true, List, [], ◌∷◌, ◌++◌}
use softwarecontainer.Common.Bytes.{Bytes}
use softwarecontainer.Common.Throwing.{Result, ok}
use softwarecontainer.OperatingSystem.{Os}
use softwarecontainer.FileToolkit.{
  Toolkit, destroy_toolkit, tmpfs_mount, overlay_mount, write_to_file, mark_file_for_deletion,
  create_shared_mount_point, bind_mount,
}
use softwarecontainer.FileToolkit.Watching.{nothing_seen, watch}
use softwarecontainer.FileToolkit.Mounts.{targets, destroy_toolkit_lem}
use softwarecontainer.FileToolkit.Undo.{
  if_true, Opens, tmpfs_mount-Opens, overlay_mount-Opens, write_to_file-Opens, mark_targets,
  create_shared_mount_point-Opens, bind_mount-Opens, kept-Opens,
}

-- The operations that a derived class may call and that change the toolkit.
pub data Operation : Type 0 where
  mount_a_tmpfs : Bytes → Bytes → Operation
  mount_an_overlay : Bytes → Bytes → Bytes → Bytes → Operation
  share_a_mount_point : Bytes → Operation
  bind_a_mount : Bytes → Bytes → Bytes → Bool → Bool → Operation
  write_a_file : Bytes → Bytes → Operation
  mark_a_file : Bytes → Operation

-- Where the operation leaves a mount for the destructor, if it returns true.
abbrev pub opens : Operation → List Bytes
opens (mount_a_tmpfs dst size) = dst ∷ []
opens (mount_an_overlay lower upper work dst) = dst ∷ []
opens (share_a_mount_point path) = path ∷ []
opens (bind_a_mount src dst root read_only buffered) = []
opens (write_a_file path content) = []
opens (mark_a_file path) = []

module _ {S : Type 0} (os : Os S) where
  unfoldable pub operate : Operation → Toolkit × S → Result Bool × (Toolkit × S)
  operate (mount_a_tmpfs dst size) st = tmpfs_mount os dst size st
  operate (mount_an_overlay lower upper work dst) st = overlay_mount os lower upper work dst st
  operate (share_a_mount_point path) st = create_shared_mount_point os path st
  operate (bind_a_mount src dst root read_only buffered) st =
      bind_mount os src dst root read_only buffered st
  operate (write_a_file path content) st = write_to_file os path content st
  operate (mark_a_file path) (tk, s) = (ok true, (mark_file_for_deletion path tk, s))

  unfoldable pub operate_all : List Operation → Toolkit × S → Toolkit × S
  operate_all [] st = st
  operate_all (o ∷ rest) st = operate_all rest (operate o st).1

  -- The paths that the operations that return true leave to the destructor, the latest first.
  unfoldable pub left_open : List Operation → Toolkit × S → List Bytes
  left_open [] st = []
  left_open (o ∷ rest) st = left_open rest (operate o st).1 ++ if_true (operate o st).0 (opens o)

abbrev pub new_toolkit : Toolkit
new_toolkit = record { cleanup_handlers = []; create_dirs = [] }

module _ {S : Type 0} (os : Os S) where
  pub operate-Opens :
      (o : Operation) (tk : Toolkit) (s : S) → Opens os (opens o) tk (operate os o (tk, s))
  unfolding operate
  operate-Opens (mount_a_tmpfs dst size) tk s = tmpfs_mount-Opens os dst size tk s
  operate-Opens (mount_an_overlay lower upper work dst) tk s =
      overlay_mount-Opens os lower upper work dst tk s
  operate-Opens (share_a_mount_point path) tk s = create_shared_mount_point-Opens os path tk s
  operate-Opens (bind_a_mount src dst root read_only buffered) tk s =
      bind_mount-Opens os src dst root read_only buffered tk s
  operate-Opens (write_a_file path content) tk s = write_to_file-Opens os path content tk s
  operate-Opens (mark_a_file path) tk s = kept-Opens os true tk _ s (mark_targets os path tk)

  operate_all-left_open :
      (ops : List Operation) (tk : Toolkit) (s : S)
      → targets (operate_all os ops (tk, s)).0.cleanup_handlers
        ≡ left_open os ops (tk, s) ++ targets tk.cleanup_handlers
  unfolding operate_all left_open Opens
  operate_all-left_open [] tk s = refl
  operate_all-left_open (o ∷ rest) tk s =
      let (r, (tk', s')) = operate os o (tk, s) in
      let later : List Bytes = left_open os rest (tk', s') in
      operate_all-left_open rest tk' s'
      ∙ ap (λ l. later ++ l) (operate-Opens o tk s)
      ∙ sym (append_assoc later (if_true r (opens o)) (targets tk.cleanup_handlers))

  -- Whatever operations a new toolkit gets, whether they work or fail, and whatever calls fail in
  -- between: its destructor detaches exactly the targets of tmpfsMount, overlayMount and
  -- createSharedMountPoint that returned true, the latest first.
  pub operations_undone :
      (ops : List Operation) (start : S)
      → let (tk, s) = operate_all os ops (new_toolkit, start) in
        (destroy_toolkit (watch os) tk (nothing_seen, s)).0.detached
        ≡ left_open os ops (new_toolkit, start)
  unfolding targets
  operations_undone ops start =
      let (tk, s) = operate_all os ops (new_toolkit, start) in
      destroy_toolkit_lem os tk s
      ∙ operate_all-left_open ops new_toolkit start
      ∙ append-nil (left_open os ops (new_toolkit, start))
