-- ===== src/Netlink/Blocks.antt =====
-- The blocks of the heap: those that a Netlink object gets, and those that its destructor frees.
use softwarecontainer.Common.{
  ◌≡◌, ◌∙◌, ◌≢◌, refl, ℕ, zero, suc, ◌+◌, ◌<◌, Bool, true, false, Option, none, some, List, [], ◌∷◌,
  ◌++◌, arith, if◌then◌else◌, ◌||◌, ◌==◌, length, Bool-cases, inl, inr,
}
use softwarecontainer.Common.Bytes.{Bytes}
use softwarecontainer.Common.Throwing.{Result, ok, throw}
use softwarecontainer.Netlink.{Abi, AbiLaws, Kernel, Request, AttributeInfo, AttributeList, Netlink}
use softwarecontainer.Netlink.Constants.{
  rtm_newlink, rtm_getlink, rtm_newaddr, rtm_getaddr, rtm_newroute, rtm_getroute,
}
use softwarecontainer.Netlink.Cache.{
  save_message, push_message, keep_attribute, attributes_within, get_attributes,
}
use softwarecontainer.Netlink.Talking.{setup_netlink, opened, bound, save_by_type, saved}
use softwarecontainer.Netlink.Keeping.{Steady, choose_keeps}

abbrev pub one_if : ℕ → ℕ → ℕ
one_if q b = if b == q then 1 else 0

-- How often a block stands among cached attributes.
abbrev pub tally : ℕ → AttributeList → ℕ
tally q [] = 0
tally q (info ∷ rest) = tally q rest + one_if q info.block

abbrev pub tally_all : {P : Type 0} → ℕ → List (P × AttributeList) → ℕ
tally_all q [] = 0
tally_all q ((payload, attributes) ∷ rest) = tally_all q rest + tally q attributes

abbrev pub cached : ℕ → Netlink → ℕ
cached q n = tally_all q n.links + tally_all q n.addresses + tally_all q n.routes

-- How often `malloc` has given a block, and how often it was freed. The heap never runs out.
pub record HeapLaws {K : Type 0} (kernel : Kernel K) : Type 0 where
  pub given : ℕ → K → ℕ
  pub freed : ℕ → K → ℕ
  pub malloc_works : (size : ℕ) (k : K) → (kernel.malloc size k).0 ≢ none
  pub malloc_gives :
      (size b : ℕ) (k : K) (q : ℕ)
      → (kernel.malloc size k).0 ≡ some b
      → given q (kernel.malloc size k).1 ≡ given q k + one_if q b
  pub malloc_frees : (size : ℕ) (k : K) (q : ℕ) → freed q (kernel.malloc size k).1 ≡ freed q k
  pub free_gives : (b : ℕ) (k : K) (q : ℕ) → given q (kernel.free b k) ≡ given q k
  pub free_frees : (b : ℕ) (k : K) (q : ℕ) → freed q (kernel.free b k) ≡ freed q k + one_if q b
  pub socket_same :
      (k : K) (q : ℕ)
      → (given q (kernel.socket k).1 ≡ given q k) × (freed q (kernel.socket k).1 ≡ freed q k)
  pub bind_same :
      (fd : ℕ) (k : K) (q : ℕ)
      → (given q (kernel.bind fd k).1 ≡ given q k) × (freed q (kernel.bind fd k).1 ≡ freed q k)
  pub send_same :
      (fd : ℕ) (request : Request) (k : K) (q : ℕ)
      → (given q (kernel.send fd request k).1 ≡ given q k)
        × (freed q (kernel.send fd request k).1 ≡ freed q k)
  pub receive_same :
      (fd : ℕ) (k : K) (q : ℕ)
      → (given q (kernel.receive fd k).1 ≡ given q k)
        × (freed q (kernel.receive fd k).1 ≡ freed q k)
  pub close_same :
      (fd : ℕ) (k : K) (q : ℕ)
      → (given q (kernel.close fd k) ≡ given q k) × (freed q (kernel.close fd k) ≡ freed q k)

tally-append : (q : ℕ) (xs ys : AttributeList) → tally q (xs ++ ys) ≡ tally q xs + tally q ys
tally-append q [] ys = omega arith
tally-append q (x ∷ xs) ys = omega (arith, tally-append q xs ys)

tally_all-append :
    {P : Type 0} (q : ℕ) (xs ys : List (P × AttributeList))
    → tally_all q (xs ++ ys) ≡ tally_all q xs + tally_all q ys
tally_all-append q [] ys = omega arith
tally_all-append q ((p, a) ∷ xs) ys = omega (arith, tally_all-append q xs ys)

module _ {K : Type 0} (abi : Abi) (kernel : Kernel K) (laws : AbiLaws abi)
    (heap : HeapLaws kernel) where
  -- Reading attributes has worked, and each block that `malloc` gave is among them.
  abbrev Counted : AttributeList → K → Result Bool × (AttributeList × K) → Type 0
  Counted result k r =
      (r.0 ≡ ok true)
      × ((q : ℕ)
          → (heap.given q r.1.1 + tally q result ≡ heap.given q k + tally q r.1.0)
            × (heap.freed q r.1.1 ≡ heap.freed q k))

  keep-Counted :
      (rest : Bytes) (result : AttributeList) (k : K) (m : Option ℕ × K)
      (next : AttributeList → K → Result Bool × (AttributeList × K))
      → m.0 ≢ none
      → ((b : ℕ) → m.0 ≡ some b → (q : ℕ) → heap.given q m.1 ≡ heap.given q k + one_if q b)
      → ((q : ℕ) → heap.freed q m.1 ≡ heap.freed q k)
      → ((result' : AttributeList) (k' : K) → Counted result' k' (next result' k'))
      → Counted result k (keep_attribute abi kernel rest m result next)
  keep-Counted rest result k (none, k') next works gives frees later = absurd (works refl)
  keep-Counted rest result k (some b, k') next works gives frees later =
      let info : AttributeInfo = record {
        type = abi.rta_type rest;
        block = b;
        content = abi.rta_data rest;
      } in
      let (done, counts) = later (result ++ (info ∷ [])) k' in
      (
        done,
        λ q. (
          omega (arith, (counts q).0, gives b refl q, tally-append q result (info ∷ [])),
          (counts q).1 ∙ frees q,
        ),
      )

  attributes_within-Counted :
      (t : ℕ) (rest : Bytes) (result : AttributeList) (k : K)
      → length rest < t
      → Counted result k (attributes_within abi kernel t rest result k)
  unfolding attributes_within
  attributes_within-Counted zero rest result k h = absurd (omega arith)
  attributes_within-Counted (suc t) rest result k h = elim (Bool-cases (abi.rta_ok rest)) [
    | inl more ↦ rw more (
        let size : ℕ = length (abi.rta_data rest) in
        keep-Counted rest result k (kernel.malloc size k)
          (attributes_within abi kernel t (abi.rta_next rest)) (heap.malloc_works size k)
          (λ b e q. heap.malloc_gives size b k q e) (heap.malloc_frees size k)
          (λ result' k'.
            attributes_within-Counted t (abi.rta_next rest) result' k'
              (let shorter : _ = laws.next_shorter rest more in omega (arith, shorter))))
    | inr done ↦ rw done (refl, λ q. (refl, refl))
  ]

  get_attributes-Counted : (rest : Bytes) (k : K) → Counted [] k (get_attributes abi kernel rest k)
  unfolding get_attributes
  get_attributes-Counted rest k =
      attributes_within-Counted (suc (length rest)) rest [] k (omega arith)

  module _ (start : K) where
    -- Each block that was given is cached, and none was freed.
    abbrev pub Kept : Netlink × K → Type 0
    Kept (n, k) =
        (q : ℕ)
        → (heap.given q k ≡ heap.given q start + cached q n) × (heap.freed q k ≡ heap.freed q start)

    abbrev SameHeap : K → K → Type 0
    SameHeap k k' =
        (q : ℕ) → (heap.given q k' ≡ heap.given q k) × (heap.freed q k' ≡ heap.freed q k)

    same-Kept :
        (n n' : Netlink) (k k' : K)
        → ((q : ℕ) → cached q n' ≡ cached q n)
        → SameHeap k k'
        → Kept (n, k)
        → Kept (n', k')
    same-Kept n n' k k' c e h = λ q. (omega (arith, (e q).0, (h q).0, c q), (e q).1 ∙ (h q).1)

    bound-Kept : (n : Netlink) (r : Bool × K) → Kept (n, r.1) → Kept (bound n r).1
    bound-Kept n (true, k) h = h
    bound-Kept n (false, k) h = h

    opened-Kept : (n : Netlink) (r : Option ℕ × K) → Kept (n, r.1) → Kept (opened kernel n r).1
    opened-Kept n (none, k) h = h
    opened-Kept n (some fd, k) h =
        bound-Kept (record n { fd = fd }) (kernel.bind fd k)
          (same-Kept n (record n { fd = fd }) k _ (λ q. refl) (heap.bind_same fd k) h)

    setup-Kept : (s : Netlink × K) → Kept s → Kept (setup_netlink kernel s).1
    unfolding setup_netlink
    setup-Kept (n, k) h =
        choose_keeps Kept n.netlink_initialized _ _ h
          (opened-Kept n (kernel.socket k) (same-Kept n n k _ (λ q. refl) (heap.socket_same k) h))

    saved-Kept :
        {P : Type 0} (payload : P) (r : Result Bool × (AttributeList × K)) (n : Netlink) (k : K)
        (old : List (P × AttributeList)) (put : List (P × AttributeList) → Netlink)
        → Counted [] k r
        → ((q : ℕ) (l : List (P × AttributeList))
            → cached q (put l) + tally_all q old ≡ cached q n + tally_all q l)
        → Kept (n, k)
        → Kept (saved (push_message payload r old) put).1
    saved-Kept payload (ok true, (attributes, k')) n k old put (done, counts) places h = λ q. (
      omega (
        arith,
        (counts q).0,
        (h q).0,
        places q (old ++ ((payload, attributes) ∷ [])),
        tally_all-append q old ((payload, attributes) ∷ []),
      ),
      (counts q).1 ∙ (h q).1,
    )
    saved-Kept payload (ok false, (attributes, k')) n k old put (done, counts) places h =
        absurd (ground arith)
    saved-Kept payload (throw e, (attributes, k')) n k old put (done, counts) places h =
        absurd (ground arith)

    saving-Kept : (msg : Bytes) (s : Netlink × K) → Kept s → Kept (save_by_type abi kernel msg s).1
    unfolding save_by_type save_message
    saving-Kept msg (n, k) h =
        let type : ℕ = abi.nlmsg_type msg in
        choose_keeps Kept (type == rtm_getlink || type == rtm_newlink) _ _
          (saved-Kept (abi.as_link msg) _ n k n.links _
            (get_attributes-Counted (abi.link_attributes msg) k) (λ q l. omega arith) h)
          (choose_keeps Kept (type == rtm_newaddr || type == rtm_getaddr) _ _
            (saved-Kept (abi.as_address msg) _ n k n.addresses _
              (get_attributes-Counted (abi.address_attributes msg) k) (λ q l. omega arith) h)
            (choose_keeps Kept (type == rtm_newroute || type == rtm_getroute) _ _
              (saved-Kept (abi.as_route msg) _ n k n.routes _
                (get_attributes-Counted (abi.route_attributes msg) k) (λ q l. omega arith) h)
              h))

    pub Kept-Steady : Steady abi kernel Kept
    Kept-Steady = record {
      setup = setup-Kept;
      saving = saving-Kept;
      receiving = λ n k. same-Kept n n k _ (λ q. refl) (heap.receive_same n.fd k);
      sending = λ request n k. same-Kept n n k _ (λ q. refl) (heap.send_same n.fd request k);
      numbering = λ number n k h. h;
      flagging = λ b s h. h;
    }
