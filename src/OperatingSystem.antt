-- ===== src/OperatingSystem.antt =====
-- The system calls and library calls of common/softwarecontainer-common.cpp and
-- common/filetoolkitwithundo.cpp, as a record of operations over a state of the system. They are
-- no code of the repository: the model takes any such record. A `bool` says that the call worked.
use softwarecontainer.Common.{ℕ, Bool, Option}
use softwarecontainer.Common.Bytes.{Bytes}

pub record Os (S : Type 0) : Type 0 where
  -- `stat` worked; the path is of a directory.
  pub exists : Bytes → S → Bool
  pub is_directory : Bytes → S → Bool
  pub mkdir : Bytes → S → Bool × S
  -- `mkdtemp`: no value stands for the null pointer.
  pub mkdtemp : Bytes → S → Option Bytes × S
  -- Source, target, type, flags and data.
  pub mount : Bytes → Bytes → Bytes → ℕ → Option Bytes → S → Bool × S
  pub umount2 : Bytes → ℕ → S → Bool × S
  pub unlink : Bytes → S → Bool × S
  -- `nftw` with `deleteFile` and `ftw` with `copyFile`.
  pub delete_tree : Bytes → S → Bool × S
  pub copy_tree : Bytes → Bytes → S → Bool × S
  -- `open` of `touch`; the output stream of `writeToFile`.
  pub touch : Bytes → S → Bool × S
  pub write_file : Bytes → Bytes → S → Bool × S
  -- `dirname`, `Glib::path_get_basename` and `Glib::build_filename`.
  pub parent_path : Bytes → Bytes
  pub base_name : Bytes → Bytes
  pub build_path : Bytes → Bytes → Bytes

-- The flags of sys/mount.h that the code uses.
abbrev pub ms_rdonly : ℕ
ms_rdonly = 1

abbrev pub ms_remount : ℕ
ms_remount = 32

abbrev pub ms_bind : ℕ
ms_bind = 4096

abbrev pub ms_unbindable : ℕ
ms_unbindable = 131072

abbrev pub ms_shared : ℕ
ms_shared = 1048576

abbrev pub mnt_force : ℕ
mnt_force = 1

abbrev pub mnt_detach : ℕ
mnt_detach = 2
