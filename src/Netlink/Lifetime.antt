-- ===== src/Netlink/Lifetime.antt =====
-- gateway/network/netlink.cpp: the constructor, the destructor, and the calls between them.
use softwarecontainer.Common.{ℕ, Bool, List, [], ◌∷◌, if◌then◌else◌}
use softwarecontainer.Common.Bytes.{Bytes}
use softwarecontainer.Common.Int.{ℤ}
use softwarecontainer.Common.Throwing.{Result}
use softwarecontainer.Netlink.{Abi, Kernel, Netlink, blank}
use softwarecontainer.Netlink.Cache.{clear_cache}
use softwarecontainer.Netlink.Talking.{setup_netlink, get_kernel_dump, check_kernel_dump}
use softwarecontainer.Netlink.Links.{
  set_default_gateway, link_up, set_ip, link_down, find_link, find_addresses,
}

-- The public operations that change the object.
pub data Call : Type 0 where
  dump check : Call
  gateway : Bytes → Call
  up down : ℤ → Call
  ip : ℤ → ℕ → ℕ → Call
  search_link : Bytes → Call
  search_addresses : ℕ → Call

module _ {K : Type 0} (abi : Abi) (kernel : Kernel K) (turns : ℕ) where
  -- Both results are printed only. The dump sets the socket up again when that has failed.
  unfoldable pub construct : ℕ → ℕ → K → Result Bool × (Netlink × K)
  construct fd pid k = get_kernel_dump abi kernel turns (setup_netlink kernel (blank fd pid, k)).1

  unfoldable pub run : Call → Netlink × K → Netlink × K
  run dump s = (get_kernel_dump abi kernel turns s).1
  run check s = (check_kernel_dump abi kernel turns s).1
  run (gateway a) s = (set_default_gateway abi kernel turns a s).1
  run (up i) s = (link_up abi kernel turns i s).1
  run (down i) s = (link_down abi kernel turns i s).1
  run (ip i a m) s = (set_ip abi kernel turns i a m s).1
  run (search_link name) s = (find_link abi kernel turns name s).1.1
  run (search_addresses i) s = (find_addresses abi kernel turns i s).1.1

  unfoldable pub run_all : List Call → Netlink × K → Netlink × K
  run_all [] s = s
  run_all (c ∷ cs) s = run_all cs (run c s)

  -- An object that is constructed and used.
  abbrev pub lived : ℕ → ℕ → K → List Call → Netlink × K
  lived fd pid k calls = run_all calls (construct fd pid k).1

module _ {K : Type 0} (kernel : Kernel K) where
  abbrev pub close_socket : Netlink → K → K
  close_socket n k = if n.netlink_initialized then kernel.close n.fd k else k

  -- `shutdown` and `close` are one step of the kernel.
  unfoldable pub destruct : Netlink × K → K
  destruct (n, k) =
      let k' = close_socket n k in if n.has_kernel_dump then (clear_cache kernel n k').1 else k'
