-- ===== src/Netlink/Returning.antt =====
-- How readMessage comes to its end (netlink.cpp).
use softwarecontainer.Common.{
  ◌≡◌, ◌∙◌, refl, ℕ, zero, suc, ◌<◌, ◌==◌, ◌||◌, Bool, true, false, Option, none, some, List, [],
  arith, length, Bool-cases, inl, inr, ◌⊎◌,
}
use softwarecontainer.Common.Bytes.{Bytes}
use softwarecontainer.Common.Throwing.{Result, ok, throw}
use softwarecontainer.Netlink.{Abi, AbiLaws, Kernel, AttributeList, Netlink}
use softwarecontainer.Netlink.Constants.{
  rtm_newlink, rtm_getlink, rtm_newaddr, rtm_getaddr, rtm_newroute, rtm_getroute,
}
use softwarecontainer.Netlink.Cache.{
  save_message, push_message, keep_attribute, attributes_within, get_attributes,
}
use softwarecontainer.Netlink.Talking.{
  Heard, setup_netlink, save_by_type, saved, received, read_turns, read_message,
}
use softwarecontainer.Netlink.Keeping.{choose_keeps, received_keeps}
use softwarecontainer.Netlink.Waiting.{Returns, ends, received-Closes, turn-Returns}

module _ {K : Type 0} (abi : Abi) (kernel : Kernel K) (laws : AbiLaws abi) (left : K → ℕ)
    (malloc_same : (size : ℕ) (k : K) → left (kernel.malloc size k).1 ≡ left k)
    (progress : (fd : ℕ) (k : K)
      → (ends abi (kernel.receive fd k).0 ≡ true) ⊎ (left (kernel.receive fd k).1 < left k)) where
  abbrev Left : ℕ → Netlink × K → Type 0
  Left m (n, k) = left k ≡ m

  keep-Left :
      (m : ℕ) (rest : Bytes) (result : AttributeList) (r : Option ℕ × K)
      (next : AttributeList → K → Result Bool × (AttributeList × K))
      → left r.1 ≡ m
      → ((result' : AttributeList) (k' : K) → left k' ≡ m → left (next result' k').1.1 ≡ m)
      → left (keep_attribute abi kernel rest r result next).1.1 ≡ m
  keep-Left m rest result (none, k) next h f = h
  keep-Left m rest result (some b, k) next h f = f _ k h

  attributes_within-Left :
      (t : ℕ) (rest : Bytes) (result : AttributeList) (k : K) (m : ℕ)
      → left k ≡ m
      → left (attributes_within abi kernel t rest result k).1.1 ≡ m
  unfolding attributes_within
  attributes_within-Left zero rest result k m h = h
  attributes_within-Left (suc t) rest result k m h = elim (Bool-cases (abi.rta_ok rest)) [
    | inl more ↦ rw more (
        keep-Left m rest result (kernel.malloc (length (abi.rta_data rest)) k)
          (attributes_within abi kernel t (abi.rta_next rest))
          (malloc_same (length (abi.rta_data rest)) k ∙ h)
          (λ result' k' e. attributes_within-Left t (abi.rta_next rest) result' k' m e))
    | inr done ↦ rw done h
  ]

  saved-Left :
      {P : Type 0} (m : ℕ) (payload : P) (r : Result Bool × (AttributeList × K))
      (old : List (P × AttributeList)) (put : List (P × AttributeList) → Netlink)
      → left r.1.1 ≡ m
      → Left m (saved (push_message payload r old) put).1
  saved-Left m payload (ok true, (attributes, k)) old put h = h
  saved-Left m payload (ok false, (attributes, k)) old put h = h
  saved-Left m payload (throw e, (attributes, k)) old put h = h

  saving-Left :
      (m : ℕ) (msg : Bytes) (s : Netlink × K) → Left m s → Left m (save_by_type abi kernel msg s).1
  unfolding save_by_type save_message get_attributes
  saving-Left m msg (n, k) h =
      let type : ℕ = abi.nlmsg_type msg in
      choose_keeps (Left m) (type == rtm_getlink || type == rtm_newlink) _ _
        (saved-Left m (abi.as_link msg) _ n.links _
          (attributes_within-Left _ (abi.link_attributes msg) [] k m h))
        (choose_keeps (Left m) (type == rtm_newaddr || type == rtm_getaddr) _ _
          (saved-Left m (abi.as_address msg) _ n.addresses _
            (attributes_within-Left _ (abi.address_attributes msg) [] k m h))
          (choose_keeps (Left m) (type == rtm_newroute || type == rtm_getroute) _ _
            (saved-Left m (abi.as_route msg) _ n.routes _
              (attributes_within-Left _ (abi.route_attributes msg) [] k m h))
            h))

  read_turns-Returns :
      (t : ℕ) (n : Netlink) (k : K) → left k < t → Returns (read_turns abi kernel t (n, k))
  unfolding read_turns
  read_turns-Returns zero n k h = absurd (omega arith)
  read_turns-Returns (suc t) n k h =
      let got : Option Bytes × K = kernel.receive n.fd k in
      let heard_it : Heard × (Netlink × K) = received abi kernel got.0 (n, got.1) in
      let kept : Left (left got.1) heard_it.1 =
        received_keeps abi kernel (Left (left got.1)) (saving-Left (left got.1)) got.0 (n, got.1)
          refl in
      turn-Returns abi kernel laws (ends abi got.0) heard_it (read_turns abi kernel t)
        (received-Closes abi kernel laws got.0 (n, got.1))
        (elim (progress n.fd k) [
          | inl e ↦ inl e
          | inr less ↦ inr (read_turns-Returns t heard_it.1.0 heard_it.1.1 (omega arith))
        ])

  -- If each datagram ends the reading or brings its end nearer, by a measure on the kernel that
  -- `malloc` leaves, then `readMessage` on a socket that is set up returns a status, within one
  -- turn more than the measure.
  pub read_message-Returns :
      (turns : ℕ) (n : Netlink) (k : K)
      → n.netlink_initialized ≡ true
      → left k < turns
      → Returns (read_message abi kernel turns (n, k))
  unfolding read_message setup_netlink
  read_message-Returns turns n k h less =
      let (status, e) = read_turns-Returns turns n k less in (status, ground (arith, h, e))
