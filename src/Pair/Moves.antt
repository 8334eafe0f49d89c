-- ===== src/Pair/Moves.antt =====
-- The pairing state that each method of Pair.Actions leaves, from the state it finds.
use kcd.Base.{
  ℕ, ◌≡◌, ◌∙◌, String, ◌&&◌, ◌/◌, arith, if◌then◌else◌, Option-cases, inl, inr, ◌⊎◌, delete,
}
use kcd.Base.Int.{ℤ, pos}
use kcd.Protocol.{PairBody, pair_accept}
use kcd.Device.{PairingState, pair_requested, pair_requested_by_peer, paired, unpaired, is_state}
use kcd.Device.Discovery.{second}
use kcd.Device.Registry.{get}
use kcd.Pair.{
  Plugin, state_of, is_pending, cancel_pending_timer, notify_state_changed, transition,
  change_state, stop_pending_timeout, send_packet, send_pair_reject, emit_rejected, clear_intents,
  forget_timestamp, store_timestamp,
}
use kcd.Pair.Actions.{
  accept_after, accept_pairing, request_pairing, reject_pairing, unpair, validate_request_timestamp,
  start_incoming_request, consider_request, handle_pair_request, drop_pairing,
  handle_unpair_request, after_expiry, expire_device, expire_pending,
}
use kcd.Pair.States.{
  is_state_eq, is_state_refl, at, completed, state-record_effect, state-cancel, state-notify,
  state-send, state-reject_packet, state-emit_rejected, state-clear, state-transition_if,
  done-transition, state-change_state, state-forget, state-store, state-stop,
  done-stop_pending_timeout, state-pairing_done,
}

module _ (a b : ℕ) (now : ℕ) (p : Plugin) where
  pub state-accept_after :
      (s : PairingState)
      → state_of a (accept_after s b now p).0 ≡ (
          if is_pending s && is_state (state_of b p) s
          then at b a paired (state_of a p)
          else state_of a p)
  unfolding accept_after
  state-accept_after s =
      let p1 = (stop_pending_timeout b s p).0 in
      let p2 = send_packet b pair_accept (pos 0) now p1 in
      ground (
        arith,
        done-stop_pending_timeout a b p s,
        state-stop a b p s,
        state-stop b b p s,
        state-send a b p1 pair_accept (pos 0) now,
        state-send b b p1 pair_accept (pos 0) now,
        state-pairing_done a b p2,
        is_state_eq (state_of b p) s,
      )

  pub state-accept_pairing :
      state_of a (accept_pairing b now p).0 ≡ completed b a (state_of b p) (state_of a p)
  unfolding accept_pairing
  state-accept_pairing =
      ground (arith, state-accept_after (state_of b p), is_state_refl (state_of b p))

  pub state-request_pairing : state_of a (request_pairing b now p).0 ≡ (
      if is_state (state_of b p) paired
      then state_of a p
      else (if is_state (state_of b p) pair_requested_by_peer
          then at b a paired (state_of a p)
          else at b a pair_requested (state_of a p)))
  unfolding request_pairing
  state-request_pairing =
      let t = pos (now / second) in
      let p0 = store_timestamp b t p in
      let p1 = send_packet b pair_accept t now p0 in
      ground (
        arith,
        state-accept_pairing,
        state-store a b p t,
        state-send a b p0 pair_accept t now,
        state-change_state a b p1 pair_requested,
      )

  state-forget-clear-change :
      (q : Plugin)
      → state_of a (forget_timestamp b (clear_intents b (change_state b unpaired q)))
        ≡ at b a unpaired (state_of a q)
  state-forget-clear-change q =
      let q1 = change_state b unpaired q in
      ground (
        arith,
        state-forget a b (clear_intents b q1),
        state-clear a b q1,
        state-change_state a b q unpaired,
      )

  pub state-reject_pairing : state_of a (reject_pairing b now p) ≡ at b a unpaired (state_of a p)
  unfolding reject_pairing
  state-reject_pairing =
      ground
        (arith, state-forget-clear-change (send_pair_reject b now p), state-reject_packet a b p now)

  pub state-unpair : state_of a (unpair b now p) ≡ at b a unpaired (state_of a p)
  unfolding unpair
  state-unpair =
      ground
        (arith, state-forget-clear-change (send_pair_reject b now p), state-reject_packet a b p now)

  pub state-validate : (t : ℤ) → state_of a (validate_request_timestamp b t now p).0 ≡ state_of a p
  unfolding validate_request_timestamp
  state-validate t = ground (arith, state-reject_packet a b p now, state-store a b p t)

  pub state-start_incoming_request :
      (q : Plugin)
      → state_of a (start_incoming_request b q) ≡ at b a pair_requested_by_peer (state_of a q)
  unfolding start_incoming_request
  state-start_incoming_request q =
      let q1 = change_state b pair_requested_by_peer q in
      state-record_effect a b q1 q1.has_bus _ ∙ state-change_state a b q pair_requested_by_peer

  -- Either nothing moves, or the request waits for the user.
  pub state-consider_request :
      (body : PairBody)
      → (state_of a (consider_request b body now p) ≡ state_of a p)
        ⊎ (state_of a (consider_request b body now p)
            ≡ at b a pair_requested_by_peer (state_of a p))
  unfolding consider_request
  state-consider_request body =
      let p1 = (validate_request_timestamp b body.timestamp now p).0 in
      ground (
        arith,
        state-validate body.timestamp,
        state-reject_packet a b p now,
        state-start_incoming_request p1,
      )

  pub state-drop_pairing : state_of a (drop_pairing b p) ≡ at b a unpaired (state_of a p)
  unfolding drop_pairing
  state-drop_pairing =
      ground (arith, state-clear a b (change_state b unpaired p), state-change_state a b p unpaired)

  pub state-after_expiry :
      (q : Plugin) → (s : PairingState) → state_of a (after_expiry b s now q) ≡ state_of a q
  unfolding after_expiry
  state-after_expiry q s =
      let p1 = notify_state_changed b s unpaired q in
      let p2 = clear_intents b p1 in
      ground (
        arith,
        state-notify a b q s unpaired,
        state-clear a b p1,
        state-reject_packet a b p2 now,
        state-emit_rejected a b (send_pair_reject b now p2) "timeout",
      )

  pub state-expire_device :
      (id : String)
      → (s : PairingState)
      → state_of a (expire_device b id s now p)
        ≡ (if is_state (state_of b p) s then at b a unpaired (state_of a p) else state_of a p)
  unfolding expire_device
  state-expire_device id s =
      let p1 = (transition b s unpaired p).0 in
      let p2 = cancel_pending_timer id p1 in
      let p3 : Plugin = record p2 { pairing_timestamp = delete id p2.pairing_timestamp } in
      ground (
        arith,
        done-transition a b p s unpaired,
        state-transition_if a b p s unpaired,
        state-cancel a b p1 id,
        state-cancel a b p id,
        state-after_expiry p3 s,
      )

module _ (a : ℕ) (now : ℕ) (p : Plugin) where
  pub state-expire_pending :
      (id : String)
      → (s : PairingState) → (g : ℕ)
      → (state_of a (expire_pending id s g now p) ≡ state_of a p)
        ⊎ (state_of a (expire_pending id s g now p) ≡ unpaired)
  unfolding expire_pending
  state-expire_pending id s g = elim (Option-cases (get id p.store)) [
    | inl e ↦ ground (arith, e, state-cancel a a p id)
    | inr (c, e) ↦ ground (arith, e, state-expire_device a c now p id s)
  ]

  pub state-handle_pair_request :
      (b : ℕ)
      → (body : PairBody)
      → (state_of a (handle_pair_request b body now p) ≡ state_of a p)
        ⊎ ((state_of a (handle_pair_request b body now p) ≡ pair_requested_by_peer)
            ⊎ ((b ≡ a) × (state_of b p ≡ pair_requested)))
  unfolding handle_pair_request
  state-handle_pair_request b body =
      ground (arith, state-pairing_done a b p, state-consider_request a b now p body)

  pub state-handle_unpair_request :
      (b : ℕ)
      → (state_of a (handle_unpair_request b p) ≡ state_of a p)
        ⊎ (state_of a (handle_unpair_request b p) ≡ unpaired)
  unfolding handle_unpair_request
  state-handle_unpair_request b = ground (
    arith,
    state-drop_pairing a b now p,
    state-emit_rejected a b (drop_pairing b p) "",
    state-forget a b p,
    state-forget a b (drop_pairing b p),
    state-forget a b (emit_rejected b "" (drop_pairing b p)),
  )
