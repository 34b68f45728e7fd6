-- ===== src/Netlink/Cache.antt =====
-- gateway/network/netlink.cpp: keeping the messages of the kernel, and freeing what was kept.
use softwarecontainer.Common.{
  ℕ, suc, zero, Bool, true, false, Option, none, some, List, [], ◌∷◌, ◌++◌, length, if◌then◌else◌,
}
use softwarecontainer.Common.Bytes.{Bytes}
use softwarecontainer.Common.Throwing.{Result, ok, throw, undefined}
use softwarecontainer.Netlink.{Abi, Kernel, AttributeInfo, AttributeList, Netlink}

module _ {K : Type 0} where
  -- The end of `saveMessage`: attributes that were read before a failure are lost.
  abbrev pub push_message :
      {P : Type 0}
      → P
      → Result Bool × (AttributeList × K)
      → List (P × AttributeList)
      → Result Bool × (List (P × AttributeList) × K)
  push_message payload (ok true, (attributes, k)) result =
      (ok true, (result ++ ((payload, attributes) ∷ []), k))
  push_message payload (ok false, (attributes, k)) result = (ok false, (result, k))
  push_message payload (throw e, (attributes, k)) result = (throw e, (result, k))

module _ {K : Type 0} (abi : Abi) (kernel : Kernel K) where
  -- What the loop of `getAttributes` does with what `malloc` gave: no value ends it by `false`.
  abbrev pub keep_attribute :
      Bytes
      → Option ℕ × K
      → AttributeList
      → (AttributeList → K → Result Bool × (AttributeList × K))
      → Result Bool × (AttributeList × K)
  keep_attribute rest (none, k) result next = (ok false, (result, k))
  keep_attribute rest (some block, k) result next =
      let info : AttributeInfo = record {
        type = abi.rta_type rest;
        block = block;
        content = abi.rta_data rest;
      } in
      next (result ++ (info ∷ [])) k

  -- The loop of `getAttributes`, with a bound on its turns.
  unfoldable pub attributes_within :
      ℕ → Bytes → AttributeList → K → Result Bool × (AttributeList × K)
  attributes_within zero rest result k = (throw undefined, (result, k))
  attributes_within (suc turns) rest result k =
      let next = attributes_within turns (abi.rta_next rest) in
      if abi.rta_ok rest
      then keep_attribute rest (kernel.malloc (length (abi.rta_data rest)) k) result next
      else (ok true, (result, k))

  unfoldable pub get_attributes : Bytes → K → Result Bool × (AttributeList × K)
  get_attributes rest k = attributes_within (suc (length rest)) rest [] k

  unfoldable pub save_message :
      {P : Type 0}
      → P
      → Bytes
      → List (P × AttributeList) × K
      → Result Bool × (List (P × AttributeList) × K)
  save_message payload rest (result, k) = push_message payload (get_attributes rest k) result

module _ {K : Type 0} (kernel : Kernel K) where
  unfoldable pub free_attributes : AttributeList → K → K
  free_attributes [] k = k
  free_attributes (info ∷ rest) k = free_attributes rest (kernel.free info.block k)

  -- One of the three loops of `clearCache`.
  unfoldable pub free_all : {P : Type 0} → List (P × AttributeList) → K → K
  free_all [] k = k
  free_all ((payload, attributes) ∷ rest) k = free_all rest (free_attributes attributes k)

  unfoldable pub clear_cache : Netlink → K → Netlink × K
  clear_cache n k = (
    record n { links = []; addresses = []; routes = []; has_kernel_dump = false },
    free_all n.routes (free_all n.addresses (free_all n.links k)),
  )
