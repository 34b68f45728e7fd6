-- ===== src/Tests/Kernels.antt =====
-- A small kernel, with messages of a small form, to run the theorems on.
use softwarecontainer.Common.{
  ◌≡◌, ◌≢◌, refl, ℕ, ◌+◌, ◌*◌, ◌/◌, ◌<◌, true, false, Option, none, some, List, [], ◌∷◌, length,
  arith, if◌then◌else◌,
}
use softwarecontainer.Common.Bytes.{Bytes, is_empty}
use softwarecontainer.Common.Int.{pos}
use softwarecontainer.Netlink.{Abi, AbiLaws, Kernel, Payload, general, link, address, route}
use softwarecontainer.Netlink.Blocks.{HeapLaws, one_if}

abbrev pub size : Payload → ℕ
size (general family) = 1
size (link info) = 16
size (address info) = 8
size (route info) = 12

abbrev pub whole : Bytes → List Bytes
whole [] = []
whole (b ∷ rest) = (b ∷ rest) ∷ []

abbrev pub first : Bytes → ℕ
first [] = 0
first (b ∷ rest) = b

abbrev pub rest_of : Bytes → Bytes
rest_of [] = []
rest_of (b ∷ rest) = rest

-- A message is its type, the index of its link, and one attribute: its type and its content.
abbrev pub small_abi : Abi
small_abi = record {
  nlmsg_align = λ n. (n + 3) / 4 * 4;
  nlmsg_length = λ n. 16 + n;
  rta_length = λ n. n + 4;
  sizeof_header = 16;
  sizeof_payload = size;
  messages = whole;
  nlmsg_type = first;
  nlmsg_error = λ msg. pos 0;
  as_link = λ msg. record {
    family = 0;
    type = 1;
    index = pos (first (rest_of msg));
    flags = 0;
    change = 0;
  };
  as_address = λ msg. record { family = 2; prefix_length = 24; scope = 0; index = 1 };
  as_route = λ msg. record { family = 2; table = 254; protocol = 4; scope = 0; type = 1 };
  link_attributes = λ msg. rest_of (rest_of msg);
  address_attributes = rest_of;
  route_attributes = rest_of;
  rta_ok = λ b. if is_empty b then false else true;
  rta_type = first;
  rta_data = rest_of;
  rta_next = λ b. [];
  inet_aton = λ text. some 0;
  inet_ntop = λ family content. some content;
  in_addr_bytes = λ addr. addr ∷ 0 ∷ 0 ∷ 0 ∷ [];
}

pub next_shorter :
    (b : Bytes) → (if is_empty b then false else true) ≡ true → length {A = ℕ} [] < length b
unfolding is_empty
next_shorter [] h = cc
next_shorter (b ∷ rest) h = omega arith

abbrev pub small_abi_laws : AbiLaws small_abi
small_abi_laws = record {
  align_up = λ n. omega arith;
  align_next = λ n. omega arith;
  align_aligned = λ n h. omega arith;
  length_header = λ n. refl;
  rta_header = λ n. refl;
  next_shorter = next_shorter;
}

-- What will be received, and the blocks that were given and freed.
pub record System : Type 0 where
  pub inbox : List Bytes
  pub given : List ℕ
  pub freed : List ℕ

abbrev pub take_from : List Bytes → System → Option Bytes × System
take_from [] s = (some [], s)
take_from (d ∷ ds) s = (some d, record s { inbox = ds })

abbrev pub take : System → Option Bytes × System
take s = take_from s.inbox s

abbrev pub count : ℕ → List ℕ → ℕ
count q [] = 0
count q (b ∷ rest) = count q rest + one_if q b

abbrev pub small_kernel : Kernel System
small_kernel = record {
  socket = λ s. (some 5, s);
  bind = λ fd s. (true, s);
  send = λ fd request s. (true, s);
  receive = λ fd s. take s;
  close = λ fd s. s;
  malloc = λ size s. (some (length s.given), record s { given = length s.given ∷ s.given });
  free = λ b s. record s { freed = b ∷ s.freed };
}

take_from_same :
    (inbox : List Bytes) (s : System) (q : ℕ)
    → (count q (take_from inbox s).1.given ≡ count q s.given)
      × (count q (take_from inbox s).1.freed ≡ count q s.freed)
take_from_same [] s q = (refl, refl)
take_from_same (d ∷ ds) s q = (refl, refl)

pub take_same :
    (s : System) (q : ℕ)
    → (count q (take s).1.given ≡ count q s.given) × (count q (take s).1.freed ≡ count q s.freed)
take_same s q = take_from_same s.inbox s q

pub malloc_works : (s : System) → ◌≢◌ {A = Option ℕ} (some (length s.given)) none
malloc_works s h = cc

pub malloc_gives :
    (n b : ℕ) (s : System) (q : ℕ)
    → ◌≡◌ {A = Option ℕ} (some (length s.given)) (some b)
    → count q (length s.given ∷ s.given) ≡ count q s.given + one_if q b
malloc_gives n b s q h = ground arith

abbrev pub small_heap : HeapLaws small_kernel
small_heap = record {
  given = λ q s. count q s.given;
  freed = λ q s. count q s.freed;
  malloc_works = λ n s. malloc_works s;
  malloc_gives = malloc_gives;
  malloc_frees = λ n s q. refl;
  free_gives = λ b s q. refl;
  free_frees = λ b s q. refl;
  socket_same = λ s q. (refl, refl);
  bind_same = λ fd s q. (refl, refl);
  send_same = λ fd request s q. (refl, refl);
  receive_same = λ fd s q. take_same s q;
  close_same = λ fd s q. (refl, refl);
}
