-- ===== src/Tests/Toolkit.antt =====
-- Runs of the theorems on the file toolkit.
use softwarecontainer.Common.{◌≡◌, refl, ◌<◌, ℕ, none, true, false, inr, List, [], ◌∷◌, arith}
use softwarecontainer.Common.Bytes.{Bytes, bytes, eq_iff, is_empty}
use softwarecontainer.Common.Throwing.{ok}
use softwarecontainer.FileToolkit.{create_shared_mount_point, destroy_toolkit}
use softwarecontainer.OperatingSystem.{ms_bind}
use softwarecontainer.FileToolkit.CreateDir.{create_directory}
use softwarecontainer.FileToolkit.Watching.{nothing_seen, watch}
use softwarecontainer.FileToolkit.Directories.{
  ParentsEnd, Recorded, create_directory_returns, create_directory-Recorded,
}
use softwarecontainer.FileToolkit.Undo.{create_shared_mount_point_leaks}
use softwarecontainer.FileToolkit.Lifetime.{
  Operation, new_toolkit, mount_a_tmpfs, mount_an_overlay, share_a_mount_point, bind_a_mount,
  write_a_file, operate_all, left_open, operations_undone,
}
use softwarecontainer.FileToolkit.Mounting.{mounts_undone}
use softwarecontainer.Tests.Hosts.{System, small_os, empty_system}

abbrev own_operations : List Operation
own_operations =
    mount_a_tmpfs (bytes "/tmp/a") (bytes "4096")
    ∷ mount_an_overlay (bytes "/l") (bytes "/u") (bytes "/w") (bytes "/tmp/a")
    ∷ write_a_file (bytes "/tmp/f") (bytes "x")
    ∷ []

abbrev all_operations : List Operation
all_operations =
    share_a_mount_point (bytes "/tmp/s")
    ∷ bind_a_mount (bytes "/h") (bytes "/tmp/b") [] true false
    ∷ own_operations

operations_undone_example :
    let (tk, s) = operate_all small_os all_operations (new_toolkit, empty_system) in
    (destroy_toolkit (watch small_os) tk (nothing_seen, s)).0.detached
    ≡ left_open small_os all_operations (new_toolkit, empty_system)
operations_undone_example = operations_undone small_os all_operations empty_system

mounts_undone_example :
    let (tk, (w, s)) =
      operate_all (watch small_os) own_operations (new_toolkit, (nothing_seen, empty_system)) in
    (destroy_toolkit (watch small_os) tk (nothing_seen, s)).0.detached ≡ w.mounted
mounts_undone_example =
    mounts_undone small_os own_operations empty_system (refl, (refl, (refl, tt)))

small_ParentsEnd : ParentsEnd small_os
unfolding ParentsEnd is_empty
small_ParentsEnd = λ path s h. inr refl

create_directory_returns_example :
    (b : _) × ((create_directory small_os (bytes "/tmp/SC-0") ([], empty_system)).0 ≡ ok b)
create_directory_returns_example =
    create_directory_returns small_os small_ParentsEnd (bytes "/tmp/SC-0") [] empty_system

create_directory-Recorded_example :
    Recorded small_os
      (create_directory (watch small_os) (bytes "/tmp/SC-0") ([], (nothing_seen, empty_system))).1
unfolding Recorded
create_directory-Recorded_example =
    create_directory-Recorded small_os (bytes "/tmp/SC-0") ([], (nothing_seen, empty_system))
      (λ p. (λ a. a, λ a. a))

abbrev mounts_of : Bytes → System → ℕ
mounts_of path s = s.mounts path

bind_raises :
    (path : Bytes) (s : System)
    → mounts_of path s < mounts_of path (small_os.mount path path [] ms_bind none s).1
bind_raises path s = ground (arith, eq_iff path path)

create_shared_mount_point_leaks_example :
    let path = bytes "/tmp/SC-0/gateways" in
    let (tk, s) = (create_shared_mount_point small_os path (new_toolkit, empty_system)).1 in
    (tk ≡ new_toolkit) × (0 < s.mounts path)
unfolding create_shared_mount_point
create_shared_mount_point_leaks_example =
    create_shared_mount_point_leaks small_os mounts_of (λ path s e. bind_raises path s)
      (λ path s. refl) (λ path s. refl) (bytes "/tmp/SC-0/gateways") new_toolkit empty_system refl
      refl
