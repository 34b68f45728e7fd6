-- ===== src/Netlink/Bounds.antt =====
-- Where addAttribute writes, against the end of the request's buffer.
use softwarecontainer.Common.{
  ◌≡◌, refl, ℕ, ◌+◌, ◌-◌, ◌%◌, ◌≤◌, List, [], ◌∷◌, arith, ltb, length, All, All-append, Bool-cases,
  inl, inr,
}
use softwarecontainer.Common.Bytes.{Bytes}
use softwarecontainer.Netlink.{Abi, AbiLaws, Payload, Placed, Request, Netlink}
use softwarecontainer.Netlink.Requests.{create_message, add_attribute, max_size}

module _ (abi : Abi) where
  -- `sizeof(request)`, without padding.
  abbrev pub buffer_end : Payload → ℕ
  buffer_end payload = abi.sizeof_header + abi.sizeof_payload payload + max_size

  abbrev pub attribute_end : Placed → ℕ
  attribute_end a = a.offset + abi.rta_length (length a.content)

  -- Calls of `addAttribute` whose results are not used.
  unfoldable pub add_all : List (ℕ × Bytes) → Request → Request
  add_all [] request = request
  add_all ((type, content) ∷ rest) request = add_all rest (add_attribute abi type content request).1

  abbrev pub EndBy : ℕ → Request → Type 0
  EndBy limit request = All (λ a. attribute_end a ≤ limit) request.attributes

  -- The length holds the header and the payload, and what was written ends within so many bytes
  -- behind the buffer.
  abbrev Sound : Payload → ℕ → Request → Type 0
  Sound payload slack request =
      (request.payload ≡ payload)
      × (abi.sizeof_header + abi.sizeof_payload payload ≤ request.header.len)
      × EndBy (buffer_end payload + slack) request

module _ (abi : Abi) (laws : AbiLaws abi) where
  add-Sound :
      (payload : Payload) (slack type : ℕ) (content : Bytes) (request : Request)
      → abi.nlmsg_align request.header.len ≤ request.header.len + slack
      → Sound abi payload slack request
      → Sound abi payload slack (add_attribute abi type content request).1
  unfolding add_attribute
  add-Sound payload slack type content request near h =
      let len : ℕ = request.header.len in
      let size : ℕ = abi.rta_length (length content) in
      let used : ℕ = len - abi.sizeof_header - abi.sizeof_payload request.payload in
      let added : Placed = record {
        offset = abi.nlmsg_align len;
        type = type;
        content = content;
      } in
      let up : _ = laws.align_up len in
      elim (Bool-cases (ltb max_size (used + size))) [
        | inl full ↦ rw full h
        | inr fits ↦ rw fits (
          h.0,
          omega (arith, h.1, up),
          All-append (λ a. attribute_end abi a ≤ buffer_end abi payload + slack) request.attributes
              (added ∷ []) h.2 (ground (arith, h.0, h.1, near, fits)),
        )
      ]

  add-Aligned :
      (type : ℕ) (content : Bytes) (request : Request)
      → length content % 4 ≡ 0
      → request.header.len % 4 ≡ 0
      → (add_attribute abi type content request).1.header.len % 4 ≡ 0
  unfolding add_attribute
  add-Aligned type content request c h =
      let same : _ = laws.align_aligned request.header.len h in
      let size : _ = laws.rta_header (length content) in ground (arith, same, size)

  add_all-Sound :
      (payload : Payload) (contents : List (ℕ × Bytes)) (request : Request)
      → Sound abi payload 3 request
      → Sound abi payload 3 (add_all abi contents request)
  unfolding add_all
  add_all-Sound payload [] request h = h
  add_all-Sound payload ((type, content) ∷ rest) request h =
      let next : _ = laws.align_next request.header.len in
      add_all-Sound payload rest _ (add-Sound payload 3 type content request (omega arith) h)

  add_all-Aligned :
      (payload : Payload) (contents : List (ℕ × Bytes)) (request : Request)
      → All (λ c. length c.1 % 4 ≡ 0) contents
      → request.header.len % 4 ≡ 0
      → Sound abi payload 0 request
      → Sound abi payload 0 (add_all abi contents request)
  unfolding add_all
  add_all-Aligned payload [] request c a h = h
  add_all-Aligned payload ((type, content) ∷ rest) request c a h =
      let same : _ = laws.align_aligned request.header.len a in
      add_all-Aligned payload rest _ c.1 (add-Aligned type content request c.0 a)
        (add-Sound payload 0 type content request (omega arith) h)

  -- Whatever attributes are added to a new request: none ends more than three bytes behind the
  -- request's buffer.
  pub add_all_overrun :
      (payload : Payload) (type flags : ℕ) (n : Netlink) (contents : List (ℕ × Bytes))
      → EndBy abi
          (buffer_end abi payload + 3)
          (add_all abi contents (create_message abi payload type flags n).0)
  unfolding create_message
  add_all_overrun payload type flags n contents =
      let size : _ = laws.length_header (abi.sizeof_payload payload) in
      (add_all-Sound payload contents _ (refl, omega arith, tt)).2

  -- With a header, a payload and attributes whose sizes are multiples of four, none ends behind
  -- the request's buffer.
  pub add_all_bounds :
      (payload : Payload) (type flags : ℕ) (n : Netlink) (contents : List (ℕ × Bytes))
      → abi.sizeof_header % 4 ≡ 0
      → abi.sizeof_payload payload % 4 ≡ 0
      → All (λ c. length c.1 % 4 ≡ 0) contents
      → EndBy abi
          (buffer_end abi payload)
          (add_all abi contents (create_message abi payload type flags n).0)
  unfolding create_message
  add_all_bounds payload type flags n contents a b c =
      let size : _ = laws.length_header (abi.sizeof_payload payload) in
      let same : buffer_end abi payload + 0 ≡ buffer_end abi payload = omega arith in
      let request : Request = (create_message abi payload type flags n).0 in
      let within : EndBy abi (buffer_end abi payload + 0) (add_all abi contents request) =
        (add_all-Aligned payload contents request c (omega arith) (refl, omega arith, tt)).2 in
      rw same at within
