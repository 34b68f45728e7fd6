-- ===== src/Netlink/Links.antt =====
-- gateway/network/netlink.cpp: the operations on links, addresses and the default gateway.
use Prim.Native.Nat.{bit_or}
use softwarecontainer.Common.{
  ℕ, ◌+◌, ◌-◌, ◌^◌, ◌%◌, ◌==◌, ◌&&◌, ◌||◌, Bool, true, false, Option, none, some, List, [], ◌∷◌,
  if◌then◌else◌, any, is_some, ltb,
}
use softwarecontainer.Common.Bytes.{Bytes}
use softwarecontainer.Common.Bytes.{◌==◌ as str_eq}
use softwarecontainer.Common.Int.{ℤ, eqb_ℤ, to_uint32}
use softwarecontainer.Common.Throwing.{Result, ok, throw, M, and_then, undefined}
use softwarecontainer.Netlink.{
  Abi, Kernel, IfInfo, IfAddr, Route, link, address, route, Request, AttributeInfo, LinkInfo,
  AddressInfo, Netlink,
}
use softwarecontainer.Netlink.Constants.{
  nlm_f_replace, nlm_f_create, rtm_newlink, rtm_newaddr, rtm_newroute, af_unspec, af_inet, iff_up,
  ifla_ifname, ifa_address, ifa_local, ifa_broadcast, rta_gateway, arphrd_loopback, rt_table_main,
  rtprot_static, rt_scope_universe, rtn_unicast,
}
use softwarecontainer.Netlink.Requests.{create_message, add_attribute}
use softwarecontainer.Netlink.Talking.{send_message, check_kernel_dump}

-- What `strcmp` compares: the bytes before the first zero.
unfoldable pub c_string : Bytes → Bytes
c_string [] = []
c_string (b ∷ rest) = if b == 0 then [] else b ∷ c_string rest

-- Whether an attribute of `findLink` is the name that is looked for.
abbrev pub is_name : Bytes → AttributeInfo → Bool
is_name name info = info.type == ifla_ifname && str_eq (c_string info.content) (c_string name)

unfoldable pub find_in : Bytes → List LinkInfo → Option LinkInfo
find_in name [] = none
find_in name ((info, attributes) ∷ rest) =
    if any (is_name name) attributes then some (info, attributes) else find_in name rest

-- The loop of `findAddresses`.
unfoldable pub addresses_of : ℕ → List AddressInfo → List AddressInfo
addresses_of index [] = []
addresses_of index ((info, attributes) ∷ rest) =
    let found = addresses_of index rest in
    if info.index == index then (info, attributes) ∷ found else found

-- ~0 for an `unsigned int` without the bit.
abbrev pub all_but_up : ℕ
all_but_up = 2 ^ 32 - 1 - iff_up

-- `ip | ~((1 << netmask) - 1)`, on the number that the address is in memory, for a netmask below
-- 31: the bits from `netmask` on are set.
unfoldable pub broadcast : ℕ → ℕ → ℕ
broadcast ip netmask = 2 ^ 32 - 2 ^ netmask + ip % 2 ^ netmask

module _ {K : Type 0} (abi : Abi) (kernel : Kernel K) (turns : ℕ) where
  abbrev pub send_created : Request × Netlink → K → Result Bool × (Netlink × K)
  send_created (request, n) k = send_message abi kernel turns request (n, k)

  -- A call of `addAttribute` whose result is not used.
  abbrev pub attach : ℕ → Bytes → Request × Netlink → Request × Netlink
  attach type content (request, n) = ((add_attribute abi type content request).1, n)

  -- `if (inet_aton(…) == 0) return false;` and what follows.
  abbrev pub to_gateway : Option ℕ → Request × Netlink → K → Result Bool × (Netlink × K)
  to_gateway none (request, n) k = (ok false, (n, k))
  to_gateway (some addr) created k =
      send_created (attach rta_gateway (abi.in_addr_bytes addr) created) k

  unfoldable pub set_default_gateway : Bytes → M (Netlink × K) Bool
  set_default_gateway gateway_address (n, k) =
      let info : Route = record {
        family = af_inet;
        table = rt_table_main;
        protocol = rtprot_static;
        scope = rt_scope_universe;
        type = rtn_unicast;
      } in
      let (request, n') =
        create_message abi (route info) rtm_newroute (bit_or nlm_f_create nlm_f_replace) n in
      to_gateway (abi.inet_aton gateway_address) (request, n') k

  unfoldable pub bring_up : IfInfo → M (Netlink × K) Bool
  bring_up info (n, k) =
      let up : IfInfo = record {
        family = af_unspec;
        type = 0;
        index = info.index;
        flags = bit_or info.flags iff_up;
        change = iff_up;
      } in
      send_created (create_message abi (link up) rtm_newlink nlm_f_create n) k

  -- The loop of `linkUp`, over the links that are cached when it starts.
  unfoldable pub link_up_in : ℤ → List LinkInfo → M (Netlink × K) Bool
  link_up_in index [] s = (ok false, s)
  link_up_in index ((info, attributes) ∷ rest) s =
      if eqb_ℤ info.index index then bring_up info s else link_up_in index rest s

  unfoldable pub link_up : ℤ → M (Netlink × K) Bool
  link_up index =
      and_then (check_kernel_dump abi kernel turns) (λ (n, k). link_up_in index n.links (n, k))

  -- `(1 << netmask) - 1` overflows from 31 on.
  unfoldable pub put_ip : IfInfo → ℕ → ℕ → M (Netlink × K) Bool
  put_ip info ip netmask (n, k) =
      let addr : IfAddr = record {
        family = af_inet;
        prefix_length = netmask;
        scope = rt_scope_universe;
        index = to_uint32 info.index;
      } in
      let created =
        create_message abi (address addr) rtm_newaddr (bit_or nlm_f_create nlm_f_replace) n in
      let with_ip = attach ifa_local (abi.in_addr_bytes ip) created in
      if ltb 30 netmask
      then (throw undefined, (created.1, k))
      else send_created (attach ifa_broadcast (abi.in_addr_bytes (broadcast ip netmask)) with_ip) k

  unfoldable pub set_ip_in : ℤ → ℕ → ℕ → List LinkInfo → M (Netlink × K) Bool
  set_ip_in index ip netmask [] s = (ok false, s)
  set_ip_in index ip netmask ((info, attributes) ∷ rest) s =
      if eqb_ℤ info.index index then put_ip info ip netmask s else set_ip_in index ip netmask rest s

  unfoldable pub set_ip : ℤ → ℕ → ℕ → M (Netlink × K) Bool
  set_ip index ip netmask (n, k) = set_ip_in index ip netmask n.links (n, k)

  unfoldable pub take_down : IfInfo → M (Netlink × K) Bool
  take_down info (n, k) =
      let down : IfInfo = record {
        family = af_unspec;
        type = 0;
        index = info.index;
        flags = all_but_up;
        change = iff_up;
      } in
      send_created (create_message abi (link down) rtm_newlink 0 n) k

  unfoldable pub link_down_in : ℤ → List LinkInfo → M (Netlink × K) Bool
  link_down_in index [] s = (ok false, s)
  link_down_in index ((info, attributes) ∷ rest) s =
      let next = link_down_in index rest s in
      if info.type == arphrd_loopback
      then next
      else if eqb_ℤ info.index index
      then take_down info s
      else next

  unfoldable pub link_down : ℤ → M (Netlink × K) Bool
  link_down index (n, k) = link_down_in index n.links (n, k)

  -- What follows `if (!checkKernelDump()) return false;`, with a value that is written beside the
  -- result, and stays as it was before.
  abbrev pub with_dump :
      {A : Type 0}
      → A
      → Result Bool × (Netlink × K)
      → (Netlink → Bool × A)
      → Result Bool × (A × (Netlink × K))
  with_dump a (ok true, (n, k)) f = let (found, a') = f n in (ok found, (a', (n, k)))
  with_dump a (ok false, s) f = (ok false, (a, s))
  with_dump a (throw e, s) f = (throw e, (a, s))

  -- The value is the LinkInfo that is written, if one is found.
  unfoldable pub find_link : Bytes → Netlink × K → Result Bool × (Option LinkInfo × (Netlink × K))
  find_link name s =
      with_dump none (check_kernel_dump abi kernel turns s)
        (λ n. let found = find_in name n.links in (is_some found, found))

  -- The addresses that are pushed onto the result.
  unfoldable pub find_addresses : ℕ → Netlink × K → Result Bool × (List AddressInfo × (Netlink × K))
  find_addresses index s =
      with_dump [] (check_kernel_dump abi kernel turns s)
        (λ n. (true, addresses_of index n.addresses))

module _ (abi : Abi) where
  abbrev pub prints_as : ℕ → Bytes → AttributeInfo → Bool
  prints_as family needle info =
      (info.type == ifa_address || info.type == ifa_local)
      && elim (abi.inet_ntop family info.content) [
        | none ↦ false
        | some out ↦ str_eq (c_string out) (c_string needle)
      ]

  unfoldable pub has_address : List AddressInfo → ℕ → Bytes → Bool
  has_address [] family needle = false
  has_address ((info, attributes) ∷ rest) family needle =
      any (prints_as family needle) attributes || has_address rest family needle
