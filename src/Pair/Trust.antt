-- ===== src/Pair/Trust.antt =====
-- Who makes a device paired: Pair.Actions, every call of it and every run.
use kcd.Base.{
  ℕ, ◌≡◌, ◌≢◌, ap, ◌∙◌, String, Bool, true, false, not, ◌&&◌, some, List, [], ◌∷◌, arith, ◌==◌,
  Option-cases, inl, inr, any,
}
use kcd.Protocol.{Packet, PairBody, decode_pair_body}
use kcd.Device.{PairingState, pair_requested, pair_requested_by_peer, paired, is_state}
use kcd.Device.Registry.{get}
use kcd.Pair.{Plugin, state_of, is_pending}
use kcd.Pair.Actions.{
  accept_pairing, request_pairing, handle, Call, handles, accepts, requests, rejects, unpairs,
  expires, step, run,
}
use kcd.Pair.States.{is_state_eq}
use kcd.Pair.Moves.{
  state-accept_pairing, state-request_pairing, state-reject_pairing, state-unpair,
  state-handle_pair_request, state-handle_unpair_request, state-expire_pending,
}

-- The three ways in which a call makes the device at `a` paired.
pub data Confirmed (a : ℕ) (p : Plugin) : Call → Type 0 where
  -- The user asked for it, and the device's own packet accepts.
  by_peer :
      {sender : String}
      → {pkt : Packet} → (body : PairBody) → get sender p.store ≡ some a
      → decode_pair_body pkt.body ≡ some body
      → body.pair ≡ true
      → state_of a p ≡ pair_requested
      → Confirmed a p (handles sender pkt)
  -- The user accepts while a request is pending, of either side.
  by_user : is_pending (state_of a p) ≡ true → Confirmed a p (accepts a)
  -- The user asks for what the device has asked for.
  by_both : state_of a p ≡ pair_requested_by_peer → Confirmed a p (requests a)

module _ (a now : ℕ) (p : Plugin) where
  handle-Confirmed :
      (sender : String)
      → (pkt : Packet) → state_of a p ≢ paired
      → state_of a (handle sender pkt now p).0 ≡ paired
      → Confirmed a p (handles sender pkt)
  unfolding handle
  handle-Confirmed sender pkt u h = elim (Option-cases (decode_pair_body pkt.body)) [
    | inl e ↦ ground (arith, e)
    | inr (body, e) ↦ elim (Option-cases (get sender p.store)) [
      | inl g ↦ ground (arith, e, g)
      | inr (b, g) ↦
          let f : (b ≡ a) × ((state_of a p ≡ pair_requested) × (body.pair ≡ true)) = ground (
            arith,
            e,
            g,
            state-handle_pair_request a now p b body,
            state-handle_unpair_request a now p b,
          ) in
          by_peer body (g ∙ ap some f.0) e f.1.1 f.1.0
    ]
  ]

  accept-Confirmed :
      (b : ℕ)
      → state_of a p ≢ paired
      → state_of a (accept_pairing b now p).0 ≡ paired
      → Confirmed a p (accepts b)
  accept-Confirmed b u h =
      let f : (b ≡ a) × (is_pending (state_of a p) ≡ true) =
        ground (arith, state-accept_pairing a b now p) in
      rw f.0 (by_user f.1)

  request-Confirmed :
      (b : ℕ)
      → state_of a p ≢ paired
      → state_of a (request_pairing b now p).0 ≡ paired
      → Confirmed a p (requests b)
  request-Confirmed b u h =
      let f : (b ≡ a) × (state_of a p ≡ pair_requested_by_peer) = ground (
        arith,
        state-request_pairing a b now p,
        is_state_eq (state_of b p) pair_requested_by_peer,
      ) in
      rw f.0 (by_both f.1)

-- A call makes a device paired only in three ways: the device's own packet accepts what the user
-- asked for; or the user accepts while a request is pending, the device's or the user's own; or the
-- user asks for what the device has asked for.
pub step-Confirmed :
    (a : ℕ)
    → (c : Call) → (now : ℕ) → (p : Plugin) → state_of a p ≢ paired
    → state_of a (step c now p) ≡ paired
    → Confirmed a p c
unfolding step
step-Confirmed a (handles sender pkt) now p u h = handle-Confirmed a now p sender pkt u h
step-Confirmed a (accepts b) now p u h = accept-Confirmed a now p b u h
step-Confirmed a (requests b) now p u h = request-Confirmed a now p b u h
step-Confirmed a (rejects b) now p u h = absurd (ground (arith, state-reject_pairing a b now p))
step-Confirmed a (unpairs b) now p u h = absurd (ground (arith, state-unpair a b now p))
step-Confirmed a (expires id s g) now p u h =
    absurd (ground (arith, state-expire_pending a now p id s g))

-- The user asks for the device at `a`, or accepts it.
abbrev pub is_user_call : ℕ → Call → Bool
is_user_call a (handles sender pkt) = false
is_user_call a (accepts b) = b == a
is_user_call a (requests b) = b == a
is_user_call a (rejects b) = false
is_user_call a (unpairs b) = false
is_user_call a (expires id s g) = false

-- The user has neither asked for the device nor accepted it.
abbrev pub is_untrusted : PairingState → Bool
is_untrusted s = not (is_state s paired) && not (is_state s pair_requested)

handle-untrusted :
    (a now : ℕ)
    → (p : Plugin) → (sender : String) → (pkt : Packet) → is_untrusted (state_of a p) ≡ true
    → is_untrusted (state_of a (handle sender pkt now p).0) ≡ true
unfolding handle
handle-untrusted a now p sender pkt h = elim (Option-cases (decode_pair_body pkt.body)) [
  | inl e ↦ ground (arith, e)
  | inr (body, e) ↦ elim (Option-cases (get sender p.store)) [
    | inl g ↦ ground (arith, e, g)
    | inr (b, g) ↦ ground (
      arith,
      e,
      g,
      state-handle_pair_request a now p b body,
      state-handle_unpair_request a now p b,
    )
  ]
]

step-untrusted :
    (a : ℕ)
    → (c : Call) → (now : ℕ) → (p : Plugin) → is_user_call a c ≡ false
    → is_untrusted (state_of a p) ≡ true
    → is_untrusted (state_of a (step c now p)) ≡ true
unfolding step
step-untrusted a (handles sender pkt) now p u h = handle-untrusted a now p sender pkt h
step-untrusted a (accepts b) now p u h = ground (arith, state-accept_pairing a b now p)
step-untrusted a (requests b) now p u h = ground (arith, state-request_pairing a b now p)
step-untrusted a (rejects b) now p u h = ground (arith, state-reject_pairing a b now p)
step-untrusted a (unpairs b) now p u h = ground (arith, state-unpair a b now p)
step-untrusted a (expires id s g) now p u h = ground (arith, state-expire_pending a now p id s g)

-- Whatever packets arrive and timers fire, a device that the user has neither asked for nor accepted
-- before a run, and for which the run has no such call, is not paired after it.
pub run-untrusted :
    (a : ℕ)
    → (cs : List (ℕ × Call)) → (p : Plugin) → any (λ c. is_user_call a c.1) cs ≡ false
    → is_untrusted (state_of a p) ≡ true
    → is_untrusted (state_of a (run cs p)) ≡ true
unfolding run
run-untrusted a [] p u h = h
run-untrusted a ((now, c) ∷ cs) p u h =
    run-untrusted a cs (step c now p) (ground arith) (step-untrusted a c now p (ground arith) h)
