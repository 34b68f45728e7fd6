-- ===== src/Netlink/Growth.antt =====
-- netlink.cpp: what stays of a link that was found, when the cache grows.
use softwarecontainer.Common.{
  ◌≡◌, ℕ, Bool, true, false, Option, none, some, List, [], ◌∷◌, ◌++◌, arith, is_some, ◌||◌, ◌==◌,
}
use softwarecontainer.Common.Bytes.{Bytes}
use softwarecontainer.Common.Throwing.{Result, ok, throw}
use softwarecontainer.Netlink.{Abi, Kernel, AttributeList, LinkInfo, Netlink, IfInfo}
use softwarecontainer.Netlink.Constants.{
  rtm_newlink, rtm_getlink, rtm_newaddr, rtm_getaddr, rtm_newroute, rtm_getroute,
}
use softwarecontainer.Netlink.Cache.{save_message, push_message, get_attributes}
use softwarecontainer.Netlink.Talking.{
  setup_netlink, opened, bound, save_by_type, saved, check_kernel_dump,
}
use softwarecontainer.Netlink.Links.{find_in, find_link, with_dump}
use softwarecontainer.Netlink.Lifetime.{Call, run_all}
use softwarecontainer.Netlink.Keeping.{Steady, choose_keeps, run_all_keeps, check_kernel_dump-Keeps}

find_in-append :
    (name : Bytes) (xs ys : List LinkInfo) (info : LinkInfo)
    → find_in name xs ≡ some info
    → find_in name (xs ++ ys) ≡ some info
unfolding find_in
find_in-append name [] ys info h = cc
find_in-append name ((i, attributes) ∷ xs) ys info h =
    ground (arith, find_in-append name xs ys info)

module _ {K : Type 0} (abi : Abi) (kernel : Kernel K) (turns : ℕ) (name : Bytes)
    (info : LinkInfo) where
  -- The link is the first that is cached with the name.
  abbrev Cached : Netlink × K → Type 0
  Cached (n, k) = find_in name n.links ≡ some info

  bound-Cached : (n : Netlink) (r : Bool × K) → Cached (n, r.1) → Cached (bound n r).1
  bound-Cached n (true, k) h = h
  bound-Cached n (false, k) h = h

  opened-Cached : (n : Netlink) (r : Option ℕ × K) → Cached (n, r.1) → Cached (opened kernel n r).1
  opened-Cached n (none, k) h = h
  opened-Cached n (some fd, k) h = bound-Cached (record n { fd = fd }) (kernel.bind fd k) h

  setup-Cached : (s : Netlink × K) → Cached s → Cached (setup_netlink kernel s).1
  unfolding setup_netlink
  setup-Cached (n, k) h =
      choose_keeps Cached n.netlink_initialized _ _ h (opened-Cached n (kernel.socket k) h)

  push-Cached :
      (payload : IfInfo) (r : Result Bool × (AttributeList × K)) (n : Netlink)
      → find_in name n.links ≡ some info
      → Cached (saved (push_message payload r n.links) (λ l. record n { links = l })).1
  push-Cached payload (ok true, (attributes, k)) n h = find_in-append name n.links _ info h
  push-Cached payload (ok false, (attributes, k)) n h = h
  push-Cached payload (throw e, (attributes, k)) n h = h

  -- A message of another kind leaves the links.
  other-Cached :
      {L : Type 0} (r : Result Bool × (L × K)) (f : L → Netlink)
      → ((l : L) → find_in name (f l).links ≡ some info)
      → Cached (saved r f).1
  other-Cached (ok b, (l, k)) f h = h l
  other-Cached (throw e, (l, k)) f h = h l

  saving-Cached :
      (msg : Bytes) (s : Netlink × K) → Cached s → Cached (save_by_type abi kernel msg s).1
  unfolding save_by_type save_message
  saving-Cached msg (n, k) h =
      let type : ℕ = abi.nlmsg_type msg in
      choose_keeps Cached (type == rtm_getlink || type == rtm_newlink) _ _
        (push-Cached (abi.as_link msg) (get_attributes abi kernel (abi.link_attributes msg) k) n h)
        (choose_keeps Cached (type == rtm_newaddr || type == rtm_getaddr) _ _
          (other-Cached
            (save_message abi kernel (abi.as_address msg) (abi.address_attributes msg)
              (n.addresses, k))
            _ (λ l. h))
          (choose_keeps Cached (type == rtm_newroute || type == rtm_getroute) _ _
            (other-Cached
              (save_message abi kernel (abi.as_route msg) (abi.route_attributes msg) (n.routes, k))
              _ (λ l. h))
            h))

  Cached-Steady : Steady abi kernel Cached
  Cached-Steady = record {
    setup = setup-Cached;
    saving = saving-Cached;
    receiving = λ n k h. h;
    sending = λ request n k h. h;
    numbering = λ number n k h. h;
    flagging = λ b s h. h;
  }

  found-Cached :
      (r : Result Bool × (Netlink × K)) (t : Netlink × K)
      → with_dump abi kernel turns none r
          (λ n. let found = find_in name n.links in (is_some found, found))
        ≡ (ok true, (some info, t))
      → Cached t
  found-Cached (ok true, (n, k)) t h = ground arith
  found-Cached (ok false, s) t h = cc
  found-Cached (throw e, s) t h = cc

  Cached-found :
      (r : Result Bool × (Netlink × K))
      → Cached r.1
      → (with_dump abi kernel turns none r
          (λ n. let found = find_in name n.links in (is_some found, found))).0
        ≡ ok true
      → (with_dump abi kernel turns none r
          (λ n. let found = find_in name n.links in (is_some found, found))).1.0
        ≡ some info
  Cached-found (ok true, (n, k)) c h = c
  Cached-found (ok false, s) c h = cc
  Cached-found (throw e, s) c h = cc

  -- A link that `findLink` has found stays as it was then: whatever operations follow, new dumps
  -- included, and whatever the kernel tells of the link, a later `findLink` that succeeds gives the
  -- same flags, index and attributes.
  pub find_link_stale :
      (s t : Netlink × K)
      → find_link abi kernel turns name s ≡ (ok true, (some info, t))
      → (calls : List Call)
      → (find_link abi kernel turns name (run_all abi kernel turns calls t)).0 ≡ ok true
      → (find_link abi kernel turns name (run_all abi kernel turns calls t)).1.0 ≡ some info
  unfolding find_link
  find_link_stale s t h calls e =
      let later : Netlink × K = run_all abi kernel turns calls t in
      let cached : Cached later =
        run_all_keeps abi kernel turns Cached Cached-Steady calls t
          (found-Cached (check_kernel_dump abi kernel turns s) t h) in
      Cached-found (check_kernel_dump abi kernel turns later)
        (check_kernel_dump-Keeps abi kernel turns Cached Cached-Steady later cached) e
