-- ===== src/FileStatus.antt =====
-- common/softwarecontainer-common.cpp: what a path is, what a directory holds, and parseInt. stat,
-- opendir, readdir and strtol are parameters.
use softwarecontainer.Common.{
  ◌≡◌, refl, ℕ, ◌+◌, ltb, ◌||◌, Bool, true, false, Option, none, some, List, [], ◌∷◌, arith,
  if◌then◌else◌, is_some, length, leb, not,
}
use softwarecontainer.Common.Bytes.{Bytes, is_empty}
use softwarecontainer.Common.Int.{ℤ, to_int32}

-- `st_mode`, as S_ISDIR and its like tell it apart.
pub data Mode : Type 0 where
  directory regular fifo socket other : Mode

abbrev pub is_directory_mode : Option Mode → Bool
is_directory_mode (some directory) = true
is_directory_mode _ = false

abbrev pub is_regular_mode : Option Mode → Bool
is_regular_mode (some regular) = true
is_regular_mode _ = false

abbrev pub is_fifo_mode : Option Mode → Bool
is_fifo_mode (some fifo) = true
is_fifo_mode _ = false

abbrev pub is_socket_mode : Option Mode → Bool
is_socket_mode (some socket) = true
is_socket_mode _ = false

-- What stat(2) gives where it works, and the names that readdir(3) gives where opendir(3) works,
-- those of the directory and of its parent included.
pub record FileSystem : Type 0 where
  pub stat : Bytes → Option Mode
  pub entries : Bytes → Option (List Bytes)

-- The loop of `isDirectoryEmpty`, which ends at three entries: how many it has counted.
unfoldable pub count_entries : ℕ → List Bytes → ℕ
count_entries n [] = n
count_entries n (d ∷ rest) = if ltb 2 (n + 1) then n + 1 else count_entries (n + 1) rest

abbrev pub empty_of : Option (List Bytes) → Bool
empty_of none = true
empty_of (some names) = leb (count_entries 0 names) 2

module _ (files : FileSystem) where
  unfoldable pub is_directory : Bytes → Bool
  is_directory path = is_directory_mode (files.stat path)

  unfoldable pub is_file : Bytes → Bool
  is_file path = is_regular_mode (files.stat path)

  unfoldable pub is_pipe : Bytes → Bool
  is_pipe path = is_fifo_mode (files.stat path)

  unfoldable pub is_socket : Bytes → Bool
  is_socket path = is_socket_mode (files.stat path)

  unfoldable pub exists_in_file_system : Bytes → Bool
  exists_in_file_system path = is_some (files.stat path)

  unfoldable pub is_directory_empty : Bytes → Bool
  is_directory_empty path = empty_of (files.entries path)

-- strtol(3): the value, whether there was a number, what is left, and whether it was out of range.
pub record Strtol : Type 0 where
  pub value : ℤ
  pub found : Bool
  pub left : Bytes
  pub out_of_range : Bool

-- The state is whether `errno` is ERANGE, which strtol sets and does not reset. The value is what
-- is written to `result`; the conversion to `int` keeps the low 32 bits.
unfoldable pub parse_int : (Bytes → Strtol) → Bytes → Bool → Option ℤ × Bool
parse_int strtol arg errno =
    let r = strtol arg in
    let errno' = errno || r.out_of_range in
    if not r.found || not (is_empty r.left) || errno'
    then (none, errno')
    else (some (to_int32 r.value), errno')

count_entries_few :
    (n : ℕ) (names : List Bytes) → leb (count_entries n names) 2 ≡ leb (n + length names) 2
unfolding count_entries
count_entries_few n [] = ground arith
count_entries_few n (d ∷ rest) = ground (arith, count_entries_few (n + 1) rest)

-- `isDirectoryEmpty` is true exactly if the directory cannot be opened or has at most two entries.
is_directory_empty_lem :
    (files : FileSystem) (path : Bytes)
    → is_directory_empty files path
      ≡ elim (files.entries path) [ none ↦ true | some names ↦ leb (length names) 2 ]
unfolding is_directory_empty
is_directory_empty_lem files path =
    elim (files.entries path)
      as (λ e. empty_of e ≡ elim e [ none ↦ true | some names ↦ leb (length names) 2 ]) [
        | none ↦ refl
        | some names ↦ ground (arith, count_entries_few 0 names)
      ]

-- Once `errno` is ERANGE, `parseInt` fails on every text, and `errno` stays ERANGE.
parse_int_stale : (strtol : Bytes → Strtol) (arg : Bytes) → parse_int strtol arg true ≡ (none, true)
unfolding parse_int
parse_int_stale strtol arg = ground arith
