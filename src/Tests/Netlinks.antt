-- ===== src/Tests/Netlinks.antt =====
-- Runs of the theorems on Netlink objects.
use softwarecontainer.Common.{
  ◌≡◌, ◌⊎◌, inl, inr, refl, ◌+◌, ◌*◌, ◌≤◌, ◌<◌, true, none, some, List, [], ◌∷◌, length, arith,
  if◌then◌else◌,
}
use softwarecontainer.Common.Bytes.{Bytes, bytes, ◌==◌, is_empty}
use softwarecontainer.Common.Int.{pos}
use softwarecontainer.Common.Throwing.{ok, throw, undefined}
use softwarecontainer.Netlink.{Kernel, Payload, general, route, Netlink, blank, LinkInfo}
use softwarecontainer.Netlink.Requests.{create_message}
use softwarecontainer.Netlink.Cache.{save_message, get_attributes, attributes_within}
use softwarecontainer.Netlink.Talking.{
  setup_netlink, save_by_type, read_messages, read_turns, read_message, await_status, send_message,
  request_dump, get_kernel_dump, check_kernel_dump,
}
use softwarecontainer.Netlink.Links.{
  broadcast, c_string, find_in, find_link, link_down, link_down_in, take_down,
}
use softwarecontainer.Netlink.Lifetime.{dump, down, run, run_all, destruct, lived}
use softwarecontainer.Netlink.Bounds.{EndBy, buffer_end, add_all, add_all_bounds}
use softwarecontainer.Netlink.Broadcast.{octet, broadcast-octet, broadcast_high}
use softwarecontainer.Netlink.Waiting.{Returns, ends, send_message_waits}
use softwarecontainer.Netlink.Returning.{read_message-Returns}
use softwarecontainer.Netlink.Growth.{find_link_stale}
use softwarecontainer.Netlink.Blocks.{cached}
use softwarecontainer.Netlink.Destruction.{destruct_frees}
use softwarecontainer.Tests.Kernels.{
  small_abi, small_abi_laws, System, take_from, small_kernel, small_heap,
}

-- One dump is answered: a link of index 7 named "eth0", and three times the end.
abbrev start : System
start = record {
  inbox = (16 ∷ 7 ∷ 3 ∷ bytes "eth0") ∷ (3 ∷ []) ∷ (3 ∷ []) ∷ (3 ∷ []) ∷ [];
  given = [];
  freed = [];
}

destruct_frees_example :
    let used : Netlink × System = lived small_abi small_kernel 9 0 0 start (dump ∷ []) in
    (small_heap.given 0 (destruct small_kernel used) ≡ small_heap.given 0 start + cached 0 used.0)
    × (small_heap.freed 0 (destruct small_kernel used)
        ≡ small_heap.freed 0 start + (if used.0.has_kernel_dump then cached 0 used.0 else 0))
destruct_frees_example =
    destruct_frees small_abi small_kernel small_abi_laws small_heap 9 0 0 start (dump ∷ []) 0

-- What is cached of that link.
abbrev eth0_info : LinkInfo
eth0_info = (
  record { family = 0; type = 1; index = pos 7; flags = 0; change = 0 },
  record { type = 3; block = 0; content = bytes "eth0" } ∷ [],
)

abbrev dumped : Netlink × System
dumped = (
  record (blank 5 0) { links = eth0_info ∷ []; has_kernel_dump = true; netlink_initialized = true },
  start,
)

found_first :
    find_link small_abi small_kernel 9 (bytes "eth0") dumped ≡ (ok true, (some eth0_info, dumped))
unfolding find_link check_kernel_dump find_in c_string ◌==◌
found_first = refl

found_again :
    (find_link small_abi small_kernel 9
      (bytes "eth0")
      (run_all small_abi small_kernel 9 (dump ∷ down (pos 7) ∷ []) dumped)).0
    ≡ ok true
unfolding find_link check_kernel_dump find_in c_string ◌==◌ run_all run get_kernel_dump request_dump
    create_message send_message setup_netlink await_status read_message read_turns read_messages
    save_by_type save_message get_attributes attributes_within link_down link_down_in take_down
    is_empty
found_again = refl

find_link_stale_example :
    (find_link small_abi small_kernel 9
      (bytes "eth0")
      (run_all small_abi small_kernel 9 (dump ∷ down (pos 7) ∷ []) dumped)).1.0
    ≡ some eth0_info
find_link_stale_example =
    find_link_stale small_abi small_kernel 9 (bytes "eth0") eth0_info dumped dumped found_first
      (dump ∷ down (pos 7) ∷ []) found_again

abbrev gateway_route : Payload
gateway_route = route (record { family = 2; table = 254; protocol = 4; scope = 0; type = 1 })

add_all_bounds_example : EndBy small_abi (buffer_end small_abi gateway_route) (
    add_all small_abi
      ((5, 1 ∷ 2 ∷ 3 ∷ 4 ∷ []) ∷ [])
      (create_message small_abi gateway_route 24 0 (blank 5 0)).0)
add_all_bounds_example =
    add_all_bounds small_abi small_abi_laws gateway_route 24 0 (blank 5 0)
      ((5, 1 ∷ 2 ∷ 3 ∷ 4 ∷ []) ∷ []) refl refl (refl, tt)

broadcast-octet_example : octet 1 (broadcast 0x0503000A (8 * 3)) ≡ 0
broadcast-octet_example = broadcast-octet 0x0503000A 3 1 (omega arith) (omega arith)

-- The third octet of 10.0.3.5 with a netmask of 20 bits.
broadcast_high_example : 128 ≤ octet 2 (broadcast 0x0503000A 20)
broadcast_high_example = broadcast_high 0x0503000A 20 2 (omega arith) (omega arith)

progress_from :
    (inbox : List Bytes) (s : System)
    → (ends small_abi (take_from inbox s).0 ≡ true)
      ⊎ (length (take_from inbox s).1.inbox < length inbox)
unfolding is_empty
progress_from [] s = inl refl
progress_from (d ∷ ds) s = inr (omega arith)

read_message-Returns_example : Returns (read_message small_abi small_kernel 9 dumped)
read_message-Returns_example =
    read_message-Returns small_abi small_kernel small_abi_laws (λ s. length s.inbox) (λ n s. refl)
      (λ fd s. progress_from s.inbox s) 9 dumped.0 start refl (omega arith)

-- A kernel whose `recvmsg` always fails.
abbrev silent : Kernel (Unit {0})
silent = record {
  socket = λ s. (some 5, s);
  bind = λ fd s. (true, s);
  send = λ fd request s. (true, s);
  receive = λ fd s. (none, s);
  close = λ fd s. s;
  malloc = λ size s. (none, s);
  free = λ b s. s;
}

send_message_waits_example :
    (send_message small_abi silent 9
      (create_message small_abi (general 17) 18 768 dumped.0).0
      (dumped.0, tt)).0
    ≡ throw undefined
send_message_waits_example =
    send_message_waits small_abi silent (λ s. Unit {0}) (λ fd s m. (refl, tt)) 9
      (create_message small_abi (general 17) 18 768 dumped.0).0 dumped.0 tt refl refl tt
