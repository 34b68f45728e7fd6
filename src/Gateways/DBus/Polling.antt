-- ===== src/Gateways/DBus/Polling.antt =====
-- The wait for the socket of a proxy.
use softwarecontainer.Common.{◌≡◌, ℕ, zero, suc, ◌<◌, ◌↔◌, inl, inr, true, arith, Bool-cases}
use softwarecontainer.Common.Bytes.{Bytes}
use softwarecontainer.Gateways.DBus.Proxy.{Host, wait_for_socket, is_socket_created}

module _ {C : Type 0} (host : Host C) where
  -- The state after some turns.
  unfoldable pub after_turns : ℕ → C → C
  after_turns zero c = c
  after_turns (suc n) c = after_turns n (host.sleep c)

  -- The socket is there at the end of one of the turns.
  abbrev pub Appears : ℕ → Bytes → C → Type 0
  Appears turns socket c =
      (n : ℕ) × (n < turns) × (host.access socket (after_turns (suc n) c) ≡ true)

  appears_found :
      (turns : ℕ) (socket : Bytes) (c : C) (n : ℕ)
      → n < turns
      → host.access socket (after_turns (suc n) c) ≡ true
      → (wait_for_socket host turns socket c).0 ≡ true
  unfolding wait_for_socket after_turns
  appears_found zero socket c n h e = absurd (omega (arith, h))
  appears_found (suc turns) socket c zero h e = ground (arith, e)
  appears_found (suc turns) socket c (suc n) h e =
      let later : _ = appears_found turns socket (host.sleep c) n (omega (arith, h)) e in
      ground (arith, later)

  wait_for_socket-Appears :
      (turns : ℕ) (socket : Bytes) (c : C)
      → (wait_for_socket host turns socket c).0 ≡ true
      → Appears turns socket c
  unfolding wait_for_socket after_turns
  wait_for_socket-Appears zero socket c e = absurd (ground (arith, e))
  wait_for_socket-Appears (suc turns) socket c e =
      elim (Bool-cases (host.access socket (host.sleep c))) [
        | inl now ↦ (0, omega arith, now)
        | inr not_yet ↦
            let later : Appears turns socket (host.sleep c) =
              wait_for_socket-Appears turns socket (host.sleep c) (ground (arith, e, not_yet)) in
            (suc later.0, omega (arith, later.1), later.2)
      ]

  -- `isSocketCreated` finds the socket exactly if it is there at the end of one of 1000 turns.
  is_socket_created_iff :
      (socket : Bytes) (c : C)
      → ((is_socket_created host socket c).0 ≡ true) ↔ Appears 1000 socket c
  unfolding is_socket_created
  is_socket_created_iff socket c =
      (wait_for_socket-Appears 1000 socket c, λ a. appears_found 1000 socket c a.0 a.1 a.2)
