-- ===== src/Netlink/Destruction.antt =====
-- What the destructor of a Netlink object frees.
use softwarecontainer.Common.{◌≡◌, ◌∙◌, refl, ℕ, ◌+◌, List, [], ◌∷◌, arith, if◌then◌else◌}
use softwarecontainer.Netlink.{Abi, AbiLaws, Kernel, AttributeList, Netlink}
use softwarecontainer.Netlink.Cache.{free_attributes, free_all, clear_cache}
use softwarecontainer.Netlink.Lifetime.{Call, lived, destruct, close_socket}
use softwarecontainer.Netlink.Keeping.{run_all_keeps, construct_keeps}
use softwarecontainer.Netlink.Blocks.{HeapLaws, tally, tally_all, cached, Kept, Kept-Steady}

module _ {K : Type 0} (kernel : Kernel K) (heap : HeapLaws kernel) where
  free_attributes_frees :
      (q : ℕ) (l : AttributeList) (k : K)
      → (heap.given q (free_attributes kernel l k) ≡ heap.given q k)
        × (heap.freed q (free_attributes kernel l k) ≡ heap.freed q k + tally q l)
  unfolding free_attributes
  free_attributes_frees q [] k = (refl, omega arith)
  free_attributes_frees q (info ∷ rest) k =
      let (given, freed) = free_attributes_frees q rest (kernel.free info.block k) in
      (given ∙ heap.free_gives info.block k q, omega (arith, freed, heap.free_frees info.block k q))

  free_all_frees :
      {P : Type 0} (q : ℕ) (l : List (P × AttributeList)) (k : K)
      → (heap.given q (free_all kernel l k) ≡ heap.given q k)
        × (heap.freed q (free_all kernel l k) ≡ heap.freed q k + tally_all q l)
  unfolding free_all
  free_all_frees q [] k = (refl, omega arith)
  free_all_frees q ((p, a) ∷ rest) k =
      let (given, freed) = free_all_frees q rest (free_attributes kernel a k) in
      let (given_a, freed_a) = free_attributes_frees q a k in
      (given ∙ given_a, omega (arith, freed, freed_a))

  clear_cache_frees :
      (q : ℕ) (n : Netlink) (k : K)
      → (heap.given q (clear_cache kernel n k).1 ≡ heap.given q k)
        × (heap.freed q (clear_cache kernel n k).1 ≡ heap.freed q k + cached q n)
  unfolding clear_cache
  clear_cache_frees q n k =
      let k1 : K = free_all kernel n.links k in
      let k2 : K = free_all kernel n.addresses k1 in
      let (g1, f1) = free_all_frees q n.links k in
      let (g2, f2) = free_all_frees q n.addresses k1 in
      let (g3, f3) = free_all_frees q n.routes k2 in (g3 ∙ (g2 ∙ g1), omega (arith, f1, f2, f3))

  close_socket_same :
      (n : Netlink) (k : K) (q : ℕ)
      → (heap.given q (close_socket kernel n k) ≡ heap.given q k)
        × (heap.freed q (close_socket kernel n k) ≡ heap.freed q k)
  close_socket_same n k q = ground (arith, heap.close_same n.fd k q)

  destruct_cases :
      (n : Netlink) (k : K) (q : ℕ)
      → (heap.given q (destruct kernel (n, k)) ≡ heap.given q k)
        × (heap.freed q (destruct kernel (n, k))
            ≡ heap.freed q k + (if n.has_kernel_dump then cached q n else 0))
  unfolding destruct
  destruct_cases n k q =
      let closed : K = close_socket kernel n k in
      ground (arith, close_socket_same n k q, clear_cache_frees q n closed)

-- With a heap that does not run out, after any operations on a Netlink object: the blocks that it
-- was given are those that are cached. While it holds a dump its destructor frees each of them as
-- often as it was given; without a dump the destructor frees nothing, and all of them are lost.
pub destruct_frees :
    {K : Type 0} (abi : Abi) (kernel : Kernel K) (laws : AbiLaws abi) (heap : HeapLaws kernel)
    (turns fd pid : ℕ) (start : K) (calls : List Call) (q : ℕ)
    → let used : Netlink × K = lived abi kernel turns fd pid start calls in
      (heap.given q (destruct kernel used) ≡ heap.given q start + cached q used.0)
      × (heap.freed q (destruct kernel used)
          ≡ heap.freed q start + (if used.0.has_kernel_dump then cached q used.0 else 0))
destruct_frees abi kernel laws heap turns fd pid start calls q =
    let used : _ = lived abi kernel turns fd pid start calls in
    let Held : _ = Kept abi kernel laws heap start in
    let steady : _ = Kept-Steady abi kernel laws heap start in
    let kept : Held used =
      run_all_keeps abi kernel turns Held steady calls _
        (construct_keeps abi kernel turns Held steady fd pid start (λ p. (omega arith, refl))) in
    let (given, freed) = destruct_cases kernel heap used.0 used.1 q in
    (given ∙ (kept q).0, omega (arith, freed, (kept q).1))
