-- ===== src/Netlink/Keeping.antt =====
-- What the steps that change a Netlink object keep, all its operations keep.
use softwarecontainer.Common.{
  ℕ, zero, suc, ltb, ◌==◌, Bool, true, false, Option, none, some, List, [], ◌∷◌, ◌||◌,
  if◌then◌else◌, not,
}
use softwarecontainer.Common.Bytes.{Bytes, is_empty}
use softwarecontainer.Common.Int.{ℤ, pos, ltb_ℤ, eqb_ℤ}
use softwarecontainer.Common.Throwing.{
  Result, ok, throw, M, pure, bind-Keeps, if-Keeps, Keeps, and_then, and_then_keeps, and_then-Keeps,
}
use softwarecontainer.Netlink.{Abi, Kernel, IfInfo, Request, LinkInfo, Netlink, blank}
use softwarecontainer.Netlink.Constants.{rtm_getlink, rtm_getaddr, rtm_getroute, arphrd_loopback}
use softwarecontainer.Netlink.Requests.{create_message}
use softwarecontainer.Netlink.Talking.{
  Heard, failed, heard, stuck, setup_netlink, save_by_type, is_failure, is_last, then_messages,
  read_messages, received, turn, read_turns, read_message, send_message, request_dump, set_dump,
  await_status, get_kernel_dump, check_kernel_dump,
}
use softwarecontainer.Netlink.Links.{
  to_gateway, set_default_gateway, bring_up, link_up_in, link_up, put_ip, set_ip_in, set_ip,
  take_down, link_down_in, link_down, with_dump, find_link, find_addresses,
}
use softwarecontainer.Netlink.Lifetime.{
  Call, dump, check, gateway, up, down, ip, search_link, search_addresses, construct, run, run_all,
}

module _ {K : Type 0} (abi : Abi) (kernel : Kernel K) where
  -- The steps from which every operation is made.
  pub record Steady (P : Netlink × K → Type 0) : Type 0 where
    pub setup : (s : Netlink × K) → P s → P (setup_netlink kernel s).1
    pub saving : (msg : Bytes) (s : Netlink × K) → P s → P (save_by_type abi kernel msg s).1
    pub receiving : (n : Netlink) (k : K) → P (n, k) → P (n, (kernel.receive n.fd k).1)
    pub sending :
        (request : Request) (n : Netlink) (k : K) → P (n, k) → P (n, (kernel.send n.fd request k).1)
    pub numbering :
        (number : ℕ) (n : Netlink) (k : K) → P (n, k) → P (record n { sequence_number = number }, k)
    pub flagging : (b : Bool) (s : Netlink × K) → P s → P (set_dump b s)

-- `bind-Keeps` and the like are about computations; this is about their results.
pub choose_keeps :
    {S R : Type 0} (P : S → Type 0) (b : Bool) (x y : R × S)
    → P x.1
    → P y.1
    → P (if b then x else y).1
choose_keeps P true x y h k = h
choose_keeps P false x y h k = k

module _ {K : Type 0} (abi : Abi) (kernel : Kernel K) (P : Netlink × K → Type 0)
    (saving : (msg : Bytes) (s : Netlink × K) → P s → P (save_by_type abi kernel msg s).1) where
  then_messages_keeps :
      (r : Result (Unit {0}) × (Netlink × K)) (next : Netlink × K → Heard × (Netlink × K))
      → P r.1
      → ((s : Netlink × K) → P s → P (next s).1)
      → P (then_messages r next).1
  then_messages_keeps (ok u, s) next h keep = keep s h
  then_messages_keeps (throw e, s) next h keep = h

  read_messages_keeps :
      (ms : List Bytes) (end : Bool) (s : Netlink × K)
      → P s
      → P (read_messages abi kernel ms end s).1
  unfolding read_messages
  read_messages_keeps [] end s h = h
  read_messages_keeps (m ∷ ms) end s h = choose_keeps P (is_failure abi m) _ _ h (
      then_messages_keeps (save_by_type abi kernel m s)
        (read_messages abi kernel ms (end || is_last abi m)) (saving m s h)
        (read_messages_keeps ms (end || is_last abi m)))

  pub received_keeps :
      (datagram : Option Bytes) (s : Netlink × K) → P s → P (received abi kernel datagram s).1
  received_keeps none s h = h
  received_keeps (some d) s h = read_messages_keeps (abi.messages d) (is_empty d) s h

module _ {K : Type 0} (abi : Abi) (kernel : Kernel K) (turns : ℕ) (P : Netlink × K → Type 0)
    (steady : Steady abi kernel P) where
  turn_keeps :
      (r : Heard × (Netlink × K)) (next : M (Netlink × K) ℤ)
      → P r.1
      → ((s : Netlink × K) → P s → P (next s).1)
      → P (turn r next).1
  turn_keeps (failed e, s) next h keep = h
  turn_keeps (heard true, s) next h keep = h
  turn_keeps (heard false, s) next h keep = keep s h
  turn_keeps (stuck, s) next h keep = h

  read_turns_keeps : (t : ℕ) (s : Netlink × K) → P s → P (read_turns abi kernel t s).1
  unfolding read_turns
  read_turns_keeps zero s h = h
  read_turns_keeps (suc t) (n, k) h =
      let got : Option Bytes × K = kernel.receive n.fd k in
      turn_keeps (received abi kernel got.0 (n, got.1)) (read_turns abi kernel t)
        (received_keeps abi kernel P steady.saving got.0 (n, got.1) (steady.receiving n k h))
        (read_turns_keeps t)

  read_message-Keeps : Keeps P (read_message abi kernel turns)
  unfolding read_message
  read_message-Keeps =
      bind-Keeps P (setup_netlink kernel)
        (λ ready. if ready then read_turns abi kernel turns else pure (pos 1)) steady.setup
        (λ ready.
          if-Keeps P ready (read_turns abi kernel turns) (pure (pos 1)) (read_turns_keeps turns)
            (λ t k. k))

  await_status-Keeps : Keeps P (await_status abi kernel turns)
  unfolding await_status
  await_status-Keeps =
      bind-Keeps P (read_message abi kernel turns) (λ status. pure (not (ltb_ℤ status (pos 0))))
        read_message-Keeps (λ status t k. k)

  send_message-Keeps : (request : Request) → Keeps P (send_message abi kernel turns request)
  unfolding send_message
  send_message-Keeps request s h =
      and_then_keeps P (setup_netlink kernel s) _ (steady.setup s h) (λ (n, k) g.
        if-Keeps P (kernel.send n.fd request k).0 (await_status abi kernel turns) (pure false)
          await_status-Keeps (λ t q. q) (n, (kernel.send n.fd request k).1)
          (steady.sending request n k g))

  -- A request that was made, and then sent.
  sent_keeps :
      (request : Request) (number : ℕ) (n : Netlink) (k : K)
      → P (n, k)
      → P (send_message abi kernel turns request (record n { sequence_number = number }, k)).1
  sent_keeps request number n k h = send_message-Keeps request _ (steady.numbering number n k h)

  request_dump-Keeps : (type : ℕ) → Keeps P (request_dump abi kernel turns type)
  unfolding request_dump create_message
  request_dump-Keeps type (n, k) h = sent_keeps _ _ n k h

  pub get_kernel_dump-Keeps : Keeps P (get_kernel_dump abi kernel turns)
  unfolding get_kernel_dump
  get_kernel_dump-Keeps s h =
      let last : M (Netlink × K) Bool = λ t. (ok true, set_dump true t) in
      let routes : M (Netlink × K) Bool = request_dump abi kernel turns rtm_getroute in
      let addresses : M (Netlink × K) Bool = request_dump abi kernel turns rtm_getaddr in
      and_then-Keeps P (request_dump abi kernel turns rtm_getlink)
        (and_then addresses (and_then routes last)) (request_dump-Keeps rtm_getlink)
        (and_then-Keeps P addresses (and_then routes last) (request_dump-Keeps rtm_getaddr)
          (and_then-Keeps P routes last (request_dump-Keeps rtm_getroute) (steady.flagging true)))
        (set_dump false s) (steady.flagging false s h)

  pub check_kernel_dump-Keeps : Keeps P (check_kernel_dump abi kernel turns)
  unfolding check_kernel_dump
  check_kernel_dump-Keeps (n, k) h =
      choose_keeps P n.has_kernel_dump _ _ h (get_kernel_dump-Keeps (n, k) h)

  to_gateway_keeps :
      (addr : Option ℕ) (request : Request) (number : ℕ) (n : Netlink) (k : K)
      → P (n, k)
      → P (to_gateway abi kernel turns addr (request, record n { sequence_number = number }) k).1
  to_gateway_keeps none request number n k h = steady.numbering number n k h
  to_gateway_keeps (some addr) request number n k h = sent_keeps _ number n k h

  set_default_gateway-Keeps : (a : Bytes) → Keeps P (set_default_gateway abi kernel turns a)
  unfolding set_default_gateway create_message
  set_default_gateway-Keeps a (n, k) h = to_gateway_keeps (abi.inet_aton a) _ _ n k h

  bring_up-Keeps : (info : IfInfo) → Keeps P (bring_up abi kernel turns info)
  unfolding bring_up create_message
  bring_up-Keeps info (n, k) h = sent_keeps _ _ n k h

  take_down-Keeps : (info : IfInfo) → Keeps P (take_down abi kernel turns info)
  unfolding take_down create_message
  take_down-Keeps info (n, k) h = sent_keeps _ _ n k h

  put_ip-Keeps :
      (info : IfInfo) (addr netmask : ℕ) → Keeps P (put_ip abi kernel turns info addr netmask)
  unfolding put_ip create_message
  put_ip-Keeps info addr netmask (n, k) h =
      choose_keeps P (ltb 30 netmask) _ _ (steady.numbering _ n k h) (sent_keeps _ _ n k h)

  link_up_in-Keeps : (i : ℤ) (links : List LinkInfo) → Keeps P (link_up_in abi kernel turns i links)
  unfolding link_up_in
  link_up_in-Keeps i [] s h = h
  link_up_in-Keeps i ((info, attributes) ∷ rest) s h =
      choose_keeps P (eqb_ℤ info.index i) _ _ (bring_up-Keeps info s h)
        (link_up_in-Keeps i rest s h)

  set_ip_in-Keeps :
      (i : ℤ) (addr netmask : ℕ) (links : List LinkInfo)
      → Keeps P (set_ip_in abi kernel turns i addr netmask links)
  unfolding set_ip_in
  set_ip_in-Keeps i addr netmask [] s h = h
  set_ip_in-Keeps i addr netmask ((info, attributes) ∷ rest) s h =
      choose_keeps P (eqb_ℤ info.index i) _ _ (put_ip-Keeps info addr netmask s h)
        (set_ip_in-Keeps i addr netmask rest s h)

  link_down_in-Keeps :
      (i : ℤ) (links : List LinkInfo) → Keeps P (link_down_in abi kernel turns i links)
  unfolding link_down_in
  link_down_in-Keeps i [] s h = h
  link_down_in-Keeps i ((info, attributes) ∷ rest) s h =
      let next : _ = link_down_in-Keeps i rest s h in
      choose_keeps P (info.type == arphrd_loopback) _ _ next
        (choose_keeps P (eqb_ℤ info.index i) _ _ (take_down-Keeps info s h) next)

  with_dump_keeps :
      {A : Type 0} (a : A) (r : Result Bool × (Netlink × K)) (f : Netlink → Bool × A)
      → P r.1
      → P (with_dump abi kernel turns a r f).1.1
  with_dump_keeps a (ok true, (n, k)) f h = h
  with_dump_keeps a (ok false, s) f h = h
  with_dump_keeps a (throw e, s) f h = h

  run_keeps : (c : Call) (s : Netlink × K) → P s → P (run abi kernel turns c s)
  unfolding run link_up set_ip link_down find_link find_addresses
  run_keeps dump s h = get_kernel_dump-Keeps s h
  run_keeps check s h = check_kernel_dump-Keeps s h
  run_keeps (gateway a) s h = set_default_gateway-Keeps a s h
  run_keeps (up i) s h =
      and_then-Keeps P (check_kernel_dump abi kernel turns)
        (λ (n, k). link_up_in abi kernel turns i n.links (n, k)) check_kernel_dump-Keeps
        (λ (n, k). link_up_in-Keeps i n.links (n, k)) s h
  run_keeps (down i) (n, k) h = link_down_in-Keeps i n.links (n, k) h
  run_keeps (ip i a m) (n, k) h = set_ip_in-Keeps i a m n.links (n, k) h
  run_keeps (search_link name) s h = with_dump_keeps _ _ _ (check_kernel_dump-Keeps s h)
  run_keeps (search_addresses i) s h = with_dump_keeps _ _ _ (check_kernel_dump-Keeps s h)

  pub run_all_keeps : (cs : List Call) (s : Netlink × K) → P s → P (run_all abi kernel turns cs s)
  unfolding run_all
  run_all_keeps [] s h = h
  run_all_keeps (c ∷ cs) s h = run_all_keeps cs (run abi kernel turns c s) (run_keeps c s h)

  pub construct_keeps :
      (fd pid : ℕ) (k : K) → P (blank fd pid, k) → P (construct abi kernel turns fd pid k).1
  unfolding construct
  construct_keeps fd pid k h = get_kernel_dump-Keeps _ (steady.setup _ h)
