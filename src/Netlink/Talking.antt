-- ===== src/Netlink/Talking.antt =====
-- gateway/network/netlink.cpp: the socket, sending a request and reading the answers, and the dump
-- of links, addresses and routes.
use softwarecontainer.Common.{
  ℕ, suc, zero, ◌==◌, ◌||◌, Bool, true, false, not, Option, none, some, List, [], ◌∷◌,
  if◌then◌else◌,
}
use softwarecontainer.Common.Bytes.{Bytes, is_empty}
use softwarecontainer.Common.Int.{ℤ, pos, ltb_ℤ, eqb_ℤ}
use softwarecontainer.Common.Throwing.{Result, ok, throw, M, undefined, and_then, pure, ◌>>=◌}
use softwarecontainer.Netlink.{Abi, Kernel, general, Request, Netlink}
use softwarecontainer.Netlink.Constants.{
  nlmsg_error, nlmsg_done, nlm_f_dump, rtm_newlink, rtm_getlink, rtm_newaddr, rtm_getaddr,
  rtm_newroute, rtm_getroute, af_packet,
}
use softwarecontainer.Netlink.Requests.{create_message}
use softwarecontainer.Netlink.Cache.{save_message}

-- What the loop over the messages of a datagram gives: an error ends `readMessage`.
pub data Heard : Type 0 where
  failed : ℤ → Heard
  heard : Bool → Heard
  stuck : Heard

module _ (abi : Abi) where
  -- Whether the message is an error, and whether it ends the reading: an acknowledgement or
  -- NLMSG_DONE.
  abbrev pub is_failure : Bytes → Bool
  is_failure msg =
      if abi.nlmsg_type msg == nlmsg_error then not (eqb_ℤ (abi.nlmsg_error msg) (pos 0)) else false

  abbrev pub is_last : Bytes → Bool
  is_last msg = abi.nlmsg_type msg == nlmsg_error || abi.nlmsg_type msg == nlmsg_done

module _ {K : Type 0} where
  abbrev pub bound : Netlink → Bool × K → Result Bool × (Netlink × K)
  bound n (true, k) = (ok true, (record n { pid = 0; netlink_initialized = true }, k))
  bound n (false, k) = (ok false, (n, k))

  -- What the caller of `saveMessage` does: it does not use the result.
  abbrev pub saved :
      {L : Type 0} → Result Bool × (L × K) → (L → Netlink) → Result (Unit {0}) × (Netlink × K)
  saved (ok b, (l, k)) f = (ok tt, (f l, k))
  saved (throw e, (l, k)) f = (throw e, (f l, k))

  abbrev pub then_messages :
      Result (Unit {0}) × (Netlink × K)
      → (Netlink × K → Heard × (Netlink × K))
      → Heard × (Netlink × K)
  then_messages (ok _, s) next = next s
  then_messages (throw e, s) next = (stuck, s)

  abbrev pub turn : Heard × (Netlink × K) → M (Netlink × K) ℤ → Result ℤ × (Netlink × K)
  turn (failed e, s) next = (ok e, s)
  turn (heard true, s) next = (ok (pos 0), s)
  turn (heard false, s) next = next s
  turn (stuck, s) next = (throw undefined, s)

  abbrev pub set_dump : Bool → Netlink × K → Netlink × K
  set_dump b (n, k) = (record n { has_kernel_dump = b }, k)

module _ {K : Type 0} (kernel : Kernel K) where
  abbrev pub opened : Netlink → Option ℕ × K → Result Bool × (Netlink × K)
  opened n (none, k) = (ok false, (n, k))
  opened n (some fd, k) = bound (record n { fd = fd }) (kernel.bind fd k)

  -- `bind` does not write to `m_local`, whose `nl_pid` is zero. A `socket` that fails leaves -1 in
  -- `m_fd`, which is not used before `socket` has worked.
  unfoldable pub setup_netlink : M (Netlink × K) Bool
  setup_netlink (n, k) =
      if n.netlink_initialized then (ok true, (n, k)) else opened n (kernel.socket k)

module _ {K : Type 0} (abi : Abi) (kernel : Kernel K) where
  -- The cases of the `switch` that save a message; all others but NLMSG_ERROR and NLMSG_DONE only
  -- print.
  unfoldable pub save_by_type : Bytes → M (Netlink × K) (Unit {0})
  save_by_type msg (n, k) =
      let type = abi.nlmsg_type msg in
      if type == rtm_getlink || type == rtm_newlink
      then saved (save_message abi kernel (abi.as_link msg) (abi.link_attributes msg) (n.links, k))
          (λ l. record n { links = l })
      else if type == rtm_newaddr || type == rtm_getaddr
      then saved
          (save_message abi kernel (abi.as_address msg) (abi.address_attributes msg)
            (n.addresses, k))
          (λ l. record n { addresses = l })
      else if type == rtm_newroute || type == rtm_getroute
      then saved
          (save_message abi kernel (abi.as_route msg) (abi.route_attributes msg) (n.routes, k))
          (λ l. record n { routes = l })
      else (ok tt, (n, k))

  -- The loop over the messages of a datagram.
  unfoldable pub read_messages : List Bytes → Bool → Netlink × K → Heard × (Netlink × K)
  read_messages [] end s = (heard end, s)
  read_messages (msg ∷ rest) end s =
      if is_failure abi msg
      then (failed (abi.nlmsg_error msg), s)
      else then_messages (save_by_type msg s) (read_messages rest (end || is_last abi msg))

  abbrev pub received : Option Bytes → Netlink × K → Heard × (Netlink × K)
  received none s = (heard false, s)
  received (some datagram) s = read_messages (abi.messages datagram) (is_empty datagram) s

  -- `while (!end)`, with a bound on the datagrams that are read. It goes on when `recvmsg` fails.
  unfoldable pub read_turns : ℕ → M (Netlink × K) ℤ
  read_turns zero s = (throw undefined, s)
  read_turns (suc turns) (n, k) =
      let (datagram, k') = kernel.receive n.fd k in
      turn (received datagram (n, k')) (read_turns turns)

  unfoldable pub read_message : ℕ → M (Netlink × K) ℤ
  read_message turns = do
    ready ← setup_netlink kernel
    if ready then read_turns turns else pure (pos 1)

  -- A positive status is printed only.
  unfoldable pub await_status : ℕ → M (Netlink × K) Bool
  await_status turns = do status ← read_message turns; pure (not (ltb_ℤ status (pos 0)))

  unfoldable pub send_message : ℕ → Request → M (Netlink × K) Bool
  send_message turns request = and_then (setup_netlink kernel) (λ (n, k).
      let (sent, k') = kernel.send n.fd request k in
      (if sent then await_status turns else pure false) (n, k'))

  -- One of the three requests of `getKernelDump`.
  unfoldable pub request_dump : ℕ → ℕ → M (Netlink × K) Bool
  request_dump turns type (n, k) =
      let (request, n') = create_message abi (general af_packet) type nlm_f_dump n in
      send_message turns request (n', k)

  unfoldable pub get_kernel_dump : ℕ → M (Netlink × K) Bool
  get_kernel_dump turns s =
      and_then (request_dump turns rtm_getlink)
        (and_then (request_dump turns rtm_getaddr)
          (and_then (request_dump turns rtm_getroute) (λ t. (ok true, set_dump true t))))
        (set_dump false s)

  unfoldable pub check_kernel_dump : ℕ → M (Netlink × K) Bool
  check_kernel_dump turns (n, k) =
      if n.has_kernel_dump then (ok true, (n, k)) else get_kernel_dump turns (n, k)
