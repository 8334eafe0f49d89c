-- ===== src/Pair/States.antt =====
-- How each method moves the pairing state of a device: the state after it, as a function of the
-- state before.
use kcd.Base.{ℕ, ◌≡◌, refl, String, Bool, true, arith, ◌==◌, if◌then◌else◌}
use kcd.Base.Int.{ℤ}
use kcd.Device.{PairingState, paired, is_state}
use kcd.Device.Io.{send}
use kcd.Device.Discovery.{clear_pair_dial}
use kcd.Pair.{
  Plugin, Effect, dev, state_of, is_pending, on_device, record_effect, cancel_pending_timer,
  notify_state_changed, transition, pair_accepted_event, change_state, transition_pending_to_paired,
  stop_pending_timeout, send_packet, send_pair_reject, emit_rejected, clear_intents,
  forget_timestamp, store_timestamp, update_pending_timer,
}
use kcd.Pair.Actions.{pairing_done}

pub is_state_eq : (s t : PairingState) → is_state s t ≡ true → s ≡ t
is_state_eq s t h = ground arith

pub is_state_refl : (s : PairingState) → is_state s s ≡ true
is_state_refl s = ground arith

-- A method that acts on `b` leaves the state of `a` to this.
abbrev pub at : ℕ → ℕ → PairingState → PairingState → PairingState
at b a new old = if b == a then new else old

module _ (a b : ℕ) (p : Plugin) where
  pub state-record_effect :
      (c : Bool) (e : Effect) → state_of a (record_effect c e p) ≡ state_of a p
  unfolding record_effect
  state-record_effect c e = ground arith

  pub state-cancel : (id : String) → state_of a (cancel_pending_timer id p) ≡ state_of a p
  unfolding cancel_pending_timer
  state-cancel id = refl

  pub state-update : (s : PairingState) → state_of a (update_pending_timer b s p) ≡ state_of a p
  unfolding update_pending_timer
  state-update s = ground arith

  pub state-notify : (s t : PairingState) → state_of a (notify_state_changed b s t p) ≡ state_of a p
  unfolding notify_state_changed
  state-notify s t = ground arith

  pub state-send :
      (c : Bool) (t : ℤ) (now : ℕ) → state_of a (send_packet b c t now p) ≡ state_of a p
  unfolding send_packet send
  state-send c t now = ground arith

  pub state-reject_packet : (now : ℕ) → state_of a (send_pair_reject b now p) ≡ state_of a p
  unfolding send_pair_reject send
  state-reject_packet now = ground arith

  pub state-emit_rejected : (r : String) → state_of a (emit_rejected b r p) ≡ state_of a p
  unfolding emit_rejected
  state-emit_rejected r = ground arith

  pub state-clear : state_of a (clear_intents b p) ≡ state_of a p
  unfolding clear_intents
  state-clear = ground arith

  pub state-transition :
      (s t : PairingState)
      → state_of b p ≡ s
      → state_of a (transition b s t p).0 ≡ at b a t (state_of a p)
  unfolding transition
  state-transition s t e = ground (arith, is_state_refl s)

  pub state-change_state :
      (next : PairingState) → state_of a (change_state b next p) ≡ at b a next (state_of a p)
  unfolding change_state
  state-change_state next =
      ground (arith, is_state_refl (state_of b p), is_state_eq (state_of b p) next)

  pub state-transition_pending_to_paired :
      state_of a (transition_pending_to_paired b p).0
      ≡ (if is_pending (state_of b p) then at b a paired (state_of a p) else state_of a p)
  unfolding transition_pending_to_paired
  state-transition_pending_to_paired = ground (arith, is_state_refl (state_of b p))

  pub state-forget : state_of a (forget_timestamp b p) ≡ state_of a p
  unfolding forget_timestamp
  state-forget = refl

  pub state-store : (t : ℤ) → state_of a (store_timestamp b t p) ≡ state_of a p
  unfolding store_timestamp
  state-store t = refl

  pub state-clear_dial : state_of a (on_device b clear_pair_dial p) ≡ state_of a p
  unfolding on_device clear_pair_dial
  state-clear_dial = ground arith

  pub state-stop : (s : PairingState) → state_of a (stop_pending_timeout b s p).0 ≡ state_of a p
  unfolding stop_pending_timeout
  state-stop s = ground arith

pub ruleset states = (
  state-record_effect, state-cancel, state-update, state-notify, state-send, state-reject_packet,
  state-emit_rejected, state-clear, state-change_state, state-transition_pending_to_paired,
  state-forget, state-store, state-clear_dial, state-stop,
)

-- A pending request that is completed.
abbrev pub completed : ℕ → ℕ → PairingState → PairingState → PairingState
completed b a mine old = if is_pending mine then at b a paired old else old

module _ (a b : ℕ) (p : Plugin) where
  pub done-transition_pending_to_paired :
      (transition_pending_to_paired b p).1 ≡ is_pending (state_of b p)
  unfolding transition_pending_to_paired
  done-transition_pending_to_paired = ground arith

  pub done-transition : (s t : PairingState) → (transition b s t p).1 ≡ is_state (state_of b p) s
  unfolding transition
  done-transition s t = ground arith

  pub state-transition_if :
      (s t : PairingState)
      → state_of a (transition b s t p).0
        ≡ (if is_state (state_of b p) s then at b a t (state_of a p) else state_of a p)
  unfolding transition
  state-transition_if s t = ground arith

  pub done-stop_pending_timeout :
      (s : PairingState) → (stop_pending_timeout b s p).1 ≡ is_state (state_of b p) s
  unfolding stop_pending_timeout
  done-stop_pending_timeout s = ground arith

  pub state-pairing_done :
      state_of a (pairing_done b p).0 ≡ completed b a (state_of b p) (state_of a p)
  unfolding pairing_done
  state-pairing_done =
      let p1 = (transition_pending_to_paired b p).0 in
      let p2 = on_device b clear_pair_dial p1 in
      let p3 = forget_timestamp b p2 in
      let e : Effect = pair_accepted_event (dev b p3).id (dev b p3).name (dev b p3).dtype in
      ground (
        arith,
        done-transition_pending_to_paired,
        state-transition_pending_to_paired a b p,
        state-clear_dial a b p1,
        state-forget a b p2,
        state-record_effect a b p3 p3.has_bus e,
      )
