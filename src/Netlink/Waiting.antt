-- ===== src/Netlink/Waiting.antt =====
-- readMessage on a socket whose recvmsg fails (netlink.cpp).
use softwarecontainer.Common.{
  ◌≡◌, refl, ℕ, zero, suc, ◌<◌, ◌==◌, ◌||◌, Bool, true, false, Option, none, some, List, [], ◌∷◌,
  arith, if◌then◌else◌, length, Bool-cases, inl, inr, any, ◌⊎◌,
}
use softwarecontainer.Common.Bytes.{Bytes, is_empty}
use softwarecontainer.Common.Int.{ℤ, pos}
use softwarecontainer.Common.Throwing.{Result, ok, throw, undefined, M}
use softwarecontainer.Netlink.{Abi, AbiLaws, Kernel, Request, AttributeList, Netlink}
use softwarecontainer.Netlink.Constants.{
  rtm_newlink, rtm_getlink, rtm_newaddr, rtm_getaddr, rtm_newroute, rtm_getroute,
}
use softwarecontainer.Netlink.Cache.{
  save_message, push_message, keep_attribute, attributes_within, get_attributes,
}
use softwarecontainer.Netlink.Talking.{
  Heard, failed, heard, stuck, setup_netlink, save_by_type, saved, is_failure, is_last,
  then_messages, read_messages, received, turn, read_turns, read_message, await_status,
  send_message,
}

-- It has a value: the loop has ended.
abbrev pub Returns : {A S : Type 0} → Result A × S → Type 0
Returns {A} r = (a : A) × (r.0 ≡ ok a)

choose-Returns :
    {A S : Type 0} (b : Bool) (x y : Result A × S)
    → Returns x
    → Returns y
    → Returns (if b then x else y)
choose-Returns true x y h k = h
choose-Returns false x y h k = k

module _ {K : Type 0} (abi : Abi) (kernel : Kernel K) (laws : AbiLaws abi) where
  keep-Returns :
      (rest : Bytes) (result : AttributeList) (m : Option ℕ × K)
      (next : AttributeList → K → Result Bool × (AttributeList × K))
      → ((result' : AttributeList) (k' : K) → Returns (next result' k'))
      → Returns (keep_attribute abi kernel rest m result next)
  keep-Returns rest result (none, k) next h = (false, refl)
  keep-Returns rest result (some b, k) next h = h _ k

  attributes_within-Returns :
      (t : ℕ) (rest : Bytes) (result : AttributeList) (k : K)
      → length rest < t
      → Returns (attributes_within abi kernel t rest result k)
  unfolding attributes_within
  attributes_within-Returns zero rest result k h = absurd (omega arith)
  attributes_within-Returns (suc t) rest result k h = elim (Bool-cases (abi.rta_ok rest)) [
    | inl more ↦ rw more (
        keep-Returns rest result (kernel.malloc (length (abi.rta_data rest)) k)
          (attributes_within abi kernel t (abi.rta_next rest))
          (λ result' k'.
            attributes_within-Returns t (abi.rta_next rest) result' k'
              (let shorter : _ = laws.next_shorter rest more in omega (arith, shorter))))
    | inr done ↦ rw done (true, refl)
  ]

  -- `getAttributes` ends on any message: each turn leaves fewer bytes.
  pub get_attributes-Returns : (rest : Bytes) (k : K) → Returns (get_attributes abi kernel rest k)
  unfolding get_attributes
  get_attributes-Returns rest k =
      attributes_within-Returns (suc (length rest)) rest [] k (omega arith)

  saved-Returns :
      {P : Type 0} (payload : P) (r : Result Bool × (AttributeList × K))
      (old : List (P × AttributeList)) (put : List (P × AttributeList) → Netlink)
      → Returns r
      → Returns (saved (push_message payload r old) put)
  saved-Returns payload (ok true, (attributes, k)) old put h = (tt, refl)
  saved-Returns payload (ok false, (attributes, k)) old put h = (tt, refl)
  saved-Returns payload (throw e, (attributes, k)) old put (b, h) = absurd (ground arith)

  saving-Returns : (msg : Bytes) (s : Netlink × K) → Returns (save_by_type abi kernel msg s)
  unfolding save_by_type save_message
  saving-Returns msg (n, k) =
      let type : ℕ = abi.nlmsg_type msg in
      choose-Returns (type == rtm_getlink || type == rtm_newlink) _ _
        (saved-Returns (abi.as_link msg) _ n.links _
          (get_attributes-Returns (abi.link_attributes msg) k))
        (choose-Returns (type == rtm_newaddr || type == rtm_getaddr) _ _
          (saved-Returns (abi.as_address msg) _ n.addresses _
            (get_attributes-Returns (abi.address_attributes msg) k))
          (choose-Returns (type == rtm_newroute || type == rtm_getroute) _ _
            (saved-Returns (abi.as_route msg) _ n.routes _
              (get_attributes-Returns (abi.route_attributes msg) k))
            (tt, refl)))

module _ (abi : Abi) where
  -- The datagram ends the reading: it is empty, or it has an error, an acknowledgement or
  -- NLMSG_DONE.
  abbrev pub ends : Option Bytes → Bool
  ends none = false
  ends (some datagram) = is_empty datagram || any (is_last abi) (abi.messages datagram)

-- It was heard to its end, or to an error.
abbrev pub Closes : Bool → Heard → Type 0
Closes end (failed e) = Unit {0}
Closes end (heard b) = end ≡ b
Closes end stuck = ⊥

or_assoc : (a b c : Bool) → ((a || b) || c) ≡ (a || (b || c))
or_assoc true b c = refl
or_assoc false b c = refl

or-false : (a : Bool) → (a || false) ≡ a
or-false true = refl
or-false false = refl

module _ {K : Type 0} (abi : Abi) (kernel : Kernel K) (laws : AbiLaws abi) where
  then-Closes :
      (end : Bool) (r : Result (Unit {0}) × (Netlink × K))
      (next : Netlink × K → Heard × (Netlink × K))
      → Returns r
      → ((s : Netlink × K) → Closes end (next s).0)
      → Closes end (then_messages r next).0
  then-Closes end (ok u, s) next h k = k s
  then-Closes end (throw e, s) next (u, h) k = absurd (ground arith)

  read_messages-Closes :
      (ms : List Bytes) (end : Bool) (s : Netlink × K)
      → Closes (end || any (is_last abi) ms) (read_messages abi kernel ms end s).0
  unfolding read_messages
  read_messages-Closes [] end s = or-false end
  read_messages-Closes (m ∷ ms) end s = elim (Bool-cases (is_failure abi m)) [
    | inl bad ↦ rw bad tt
    | inr fine ↦
        rw (fine, ← or_assoc end (is_last abi m) (any (is_last abi) ms))
          (then-Closes ((end || is_last abi m) || any (is_last abi) ms)
            (save_by_type abi kernel m s) (read_messages abi kernel ms (end || is_last abi m))
            (saving-Returns abi kernel laws m s) (read_messages-Closes ms (end || is_last abi m)))
  ]

  pub received-Closes :
      (datagram : Option Bytes) (s : Netlink × K)
      → Closes (ends abi datagram) (received abi kernel datagram s).0
  received-Closes none s = refl
  received-Closes (some d) s = read_messages-Closes (abi.messages d) (is_empty d) s

  pub turn-Returns :
      (end : Bool) (r : Heard × (Netlink × K)) (next : M (Netlink × K) ℤ)
      → Closes end r.0
      → ((end ≡ true) ⊎ Returns (next r.1))
      → Returns (turn r next)
  turn-Returns end (failed e, s) next c h = (e, refl)
  turn-Returns end (heard true, s) next c h = (pos 0, refl)
  turn-Returns end (heard false, s) next c (inl h) = absurd (ground arith)
  turn-Returns end (heard false, s) next c (inr h) = h
  turn-Returns end (stuck, s) next c h = elim c [ ]

module _ {K : Type 0} (abi : Abi) (kernel : Kernel K) (Mute : K → Type 0)
    (mute : (fd : ℕ) (k : K)
      → Mute k
      → ((kernel.receive fd k).0 ≡ none) × Mute (kernel.receive fd k).1) where
  read_turns_waits :
      (t : ℕ) (n : Netlink) (k : K) → Mute k → (read_turns abi kernel t (n, k)).0 ≡ throw undefined
  unfolding read_turns
  read_turns_waits zero n k h = refl
  read_turns_waits (suc t) n k h =
      let (none_got, still) = mute n.fd k h in
      rw none_got (read_turns_waits t n (kernel.receive n.fd k).1 still)

  -- Where `recvmsg` fails and goes on failing, `sendMessage` does not return after a `sendmsg`
  -- that worked: no number of turns is enough.
  pub send_message_waits :
      (turns : ℕ) (request : Request) (n : Netlink) (k : K)
      → n.netlink_initialized ≡ true
      → (kernel.send n.fd request k).0 ≡ true
      → Mute (kernel.send n.fd request k).1
      → (send_message abi kernel turns request (n, k)).0 ≡ throw undefined
  unfolding send_message setup_netlink await_status read_message
  send_message_waits turns request n k h sent m =
      let waits : _ = read_turns_waits turns n (kernel.send n.fd request k).1 m in
      ground (arith, h, sent, waits)
