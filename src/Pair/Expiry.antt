-- ===== src/Pair/Expiry.antt =====
-- A request that nobody answers: its timer, and what the timer does.
use kcd.Base.{
  ℕ, ◌+◌, ◌/◌, ◌%◌, ◌^◌, ◌≡◌, ◌≢◌, ◌∙◌, refl, ap, subst, String, Bool, true, false, none, some,
  List, arith, str_eq_refl, lookup, insert, delete, lookup-insert, lookup-delete,
}
use kcd.Base.Int.{ℤ, pos}
use kcd.Protocol.{pair_accept}
use kcd.Device.{
  PairingState, pair_requested, pair_requested_by_peer, paired, unpaired, is_state,
  transition_state,
}
use kcd.Device.Discovery.{second}
use kcd.Device.Io.{send}
use kcd.Device.Registry.{get}
use kcd.Pair.{
  Plugin, Timer, dev, state_of, is_pending, on_device, record_effect, cancel_pending_timer,
  schedule_pending_timer, update_pending_timer, notify_state_changed, transition, change_state,
  send_packet, send_pair_reject, clear_intents, emit_rejected, store_timestamp, pending_timeout,
}
use kcd.Pair.Actions.{request_pairing, after_expiry, expire_device, expire_pending}
use kcd.Pair.States.{
  is_state_eq, is_state_refl, state-send, state-store, state-change_state, done-transition,
}
use kcd.Pair.Moves.{state-expire_device}

-- The timer for `id` waits for the state `s`.
pub data IsArmed (id : String) (s : PairingState) (p : Plugin) : Type 0 where
  armed :
      (t : Timer)
      → lookup id p.pending_timers ≡ some t
      → t.expected ≡ s
      → lookup id p.pending_generation ≡ some t.generation
      → IsArmed id s p

IsArmed-same :
    (id : String)
    → (s : PairingState) → (p q : Plugin) → q.pending_timers ≡ p.pending_timers
    → q.pending_generation ≡ p.pending_generation
    → IsArmed id s p
    → IsArmed id s q
IsArmed-same id s p q e f (armed t l x g) = armed t (ap (lookup id) e ∙ l) x (ap (lookup id) f ∙ g)

module _ (b : ℕ) (s t : PairingState) (p : Plugin) where
  notify-timers : (notify_state_changed b s t p).pending_timers ≡ p.pending_timers
  unfolding notify_state_changed record_effect
  notify-timers = ground arith

  notify-generation : (notify_state_changed b s t p).pending_generation ≡ p.pending_generation
  unfolding notify_state_changed record_effect
  notify-generation = ground arith

  notify-timestamp : (notify_state_changed b s t p).pairing_timestamp ≡ p.pairing_timestamp
  unfolding notify_state_changed record_effect
  notify-timestamp = ground arith

  notify-store : (notify_state_changed b s t p).store ≡ p.store
  unfolding notify_state_changed record_effect
  notify-store = ground arith

  id-transition : (dev b (transition b s t p).0).id ≡ (dev b p).id
  unfolding transition on_device transition_state
  id-transition = ground arith

  devices-transition : (transition b s t p).0.store.devices ≡ p.store.devices
  unfolding transition on_device
  devices-transition = refl

lookup-insert_self :
    {V : Type 0}
    → (id : String) → (v : V) → (m : List (String × V)) → lookup id (insert id v m) ≡ some v
lookup-insert_self id v m = rw (lookup-insert id id v m, str_eq_refl id)

lookup-delete_self :
    {V : Type 0} → (id : String) → (m : List (String × V)) → lookup id (delete id m) ≡ none
lookup-delete_self id m = rw (lookup-delete id id m, str_eq_refl id)

schedule-IsArmed :
    (id : String) → (s : PairingState) → (p : Plugin) → IsArmed id s (schedule_pending_timer id s p)
unfolding schedule_pending_timer
schedule-IsArmed id s p =
    armed
      (record {
        delay = pending_timeout s p;
        expected = s;
        generation = (p.next_generation + 1) % 2 ^ 64;
      })
      (lookup-insert_self id _ p.pending_timers) refl (lookup-insert_self id _ p.pending_generation)

update-IsArmed :
    (a : ℕ)
    → (s : PairingState) → (p : Plugin) → is_pending s ≡ true
    → IsArmed (dev a p).id s (update_pending_timer a s p)
unfolding update_pending_timer
update-IsArmed a s p h =
    rw (h, update_pending_timer)
      (schedule-IsArmed (dev a p).id s (cancel_pending_timer (dev a p).id p))

change_state-IsArmed :
    (a : ℕ)
    → (s : PairingState) → (p : Plugin) → is_pending s ≡ true
    → is_state (state_of a p) s ≡ false
    → IsArmed (dev a p).id s (change_state a s p)
unfolding change_state
change_state-IsArmed a s p h u =
    let s0 = state_of a p in
    let p1 = (transition a s0 s p).0 in
    let p2 = update_pending_timer a s p1 in
    rw (u, change_state)
      (IsArmed-same (dev a p).id s p2 (notify_state_changed a s0 s p2) (notify-timers a s0 s p2)
        (notify-generation a s0 s p2)
        (subst (λ i. IsArmed i s p2) (id-transition a s0 s p) (update-IsArmed a s p1 h)))

module _ (a : ℕ) (s : PairingState) (now : ℕ) (p : Plugin) where
  timers-after_expiry : (after_expiry a s now p).pending_timers ≡ p.pending_timers
  unfolding after_expiry emit_rejected record_effect send_pair_reject send_packet clear_intents
  timers-after_expiry = ground (arith, notify-timers a s unpaired p)

  timestamp-after_expiry : (after_expiry a s now p).pairing_timestamp ≡ p.pairing_timestamp
  unfolding after_expiry emit_rejected record_effect send_pair_reject send_packet clear_intents
  timestamp-after_expiry = ground (arith, notify-timestamp a s unpaired p)

-- After the timer of a device that still waits has fired, nothing of the request is left.
expire_device-clean :
    (a : ℕ)
    → (id : String) → (s : PairingState) → (now : ℕ) → (p : Plugin)
    → is_state (state_of a p) s ≡ true
    → (lookup id (expire_device a id s now p).pending_timers ≡ none)
      × (lookup id (expire_device a id s now p).pairing_timestamp ≡ none)
unfolding expire_device cancel_pending_timer
expire_device-clean a id s now p e =
    let p1 = (transition a s unpaired p).0 in
    rw (done-transition a a p s unpaired, e, expire_device)
      (
        ap (lookup id) (timers-after_expiry a s now _) ∙ lookup-delete_self id p1.pending_timers,
        ap (lookup id) (timestamp-after_expiry a s now _)
            ∙ lookup-delete_self id p1.pairing_timestamp,
      )

devices-change_state :
    (a : ℕ)
    → (s : PairingState) → (p : Plugin) → (change_state a s p).store.devices ≡ p.store.devices
unfolding change_state update_pending_timer cancel_pending_timer schedule_pending_timer
    notify_state_changed record_effect transition
devices-change_state a s p = ground arith

module _ (a : ℕ) (now : ℕ) (p : Plugin) where
  id-send : (c : Bool) → (t : ℤ) → (dev a (send_packet a c t now p)).id ≡ (dev a p).id
  unfolding send_packet send
  id-send c t = ground arith

  devices-send : (c : Bool) → (t : ℤ) → (send_packet a c t now p).store.devices ≡ p.store.devices
  unfolding send_packet
  devices-send c t = refl

  -- What `request_pairing` sends before it changes the state.
  abbrev asked : Plugin
  asked =
      send_packet a pair_accept (pos (now / second)) now (store_timestamp a (pos (now / second)) p)

  asked-state : state_of a asked ≡ state_of a p
  asked-state =
      let t = pos (now / second) in
      state-send a a (store_timestamp a t p) pair_accept t now ∙ state-store a a p t

module _ (a : ℕ) (now : ℕ) (p : Plugin) where
  requested-change :
      state_of a p ≢ paired
      → state_of a p ≢ pair_requested_by_peer
      → (request_pairing a now p).0 ≡ change_state a pair_requested (asked a now p)
  unfolding request_pairing
  requested-change u v = ground (
    arith,
    u,
    v,
    is_state_eq (state_of a p) paired,
    is_state_eq (state_of a p) pair_requested_by_peer,
  )

-- A timer that is current, for a registered device that still waits.
expire_pending-current :
    (a : ℕ)
    → (id : String) → (s : PairingState) → (g now : ℕ) → (p : Plugin)
    → lookup id p.pending_generation ≡ some g
    → get id p.store ≡ some a
    → expire_pending id s g now p ≡ expire_device a id s now p
unfolding expire_pending
expire_pending-current a id s g now p e f = rw (e, f, expire_pending) (ground arith)

-- What is left of a request when its timer fires.
abbrev Cleared : ℕ → String → Plugin → Type 0
Cleared a id p =
    (state_of a p ≡ unpaired)
    × (lookup id p.pending_timers ≡ none)
    × (lookup id p.pairing_timestamp ≡ none)

expire-armed :
    (a : ℕ)
    → (id : String) → (s : PairingState) → (later : ℕ) → (p : Plugin) → IsArmed id s p
    → get id p.store ≡ some a
    → state_of a p ≡ s
    → (t : Timer) × (lookup id p.pending_timers ≡ some t)
      × Cleared a id (expire_pending id t.expected t.generation later p)
expire-armed a id s later p (armed t l x g) r e =
    let waits : is_state (state_of a p) t.expected ≡ true = rw (e, x) (is_state_refl s) in
    let (timers, stamp) = expire_device-clean a id t.expected later p waits in
    (
      t,
      l,
      rw (expire_pending-current a id t.expected t.generation later p g r)
          (ground (arith, state-expire_device a a later p id t.expected, waits), timers, stamp),
    )

requested-ready :
    (a now : ℕ)
    → (p : Plugin) → state_of a p ≢ pair_requested
    → let p1 = change_state a pair_requested (asked a now p) in
      IsArmed (dev a p).id pair_requested p1
      × (p1.store.devices ≡ p.store.devices)
      × (state_of a p1 ≡ pair_requested)
unfolding store_timestamp send_packet
requested-ready a now p w =
    let t = pos (now / second) in
    let q = asked a now p in
    let same : is_state (state_of a q) pair_requested ≡ false =
      rw (asked-state a now p) (ground (arith, w, is_state_eq (state_of a p) pair_requested)) in
    (
      subst (λ i. IsArmed i pair_requested (change_state a pair_requested q))
          (id-send a now (store_timestamp a t p) pair_accept t)
          (change_state-IsArmed a pair_requested q refl same),
      devices-change_state a pair_requested q,
      ground (arith, state-change_state a a q pair_requested),
    )

-- A request of the user for a registered device that is not paired, and for which no request is under
-- way in either direction, starts a timer; when it fires and nothing happened in between, the device is
-- unpaired and neither the timer nor the timestamp is left.
pub expire_pending-request_pairing :
    (a now later : ℕ)
    → (p : Plugin) → state_of a p ≢ paired
    → state_of a p ≢ pair_requested
    → state_of a p ≢ pair_requested_by_peer
    → get (dev a p).id p.store ≡ some a
    → let p1 = (request_pairing a now p).0 in
      let id = (dev a p).id in
      (t : Timer) × (lookup id p1.pending_timers ≡ some t)
      × (let p2 = expire_pending id t.expected t.generation later p1 in
          (state_of a p2 ≡ unpaired)
          × (lookup id p2.pending_timers ≡ none)
          × (lookup id p2.pairing_timestamp ≡ none))
unfolding get
expire_pending-request_pairing a now later p u w v r =
    let (set, devices, waits) = requested-ready a now p w in
    rw (requested-change a now p u v) (
      expire-armed a (dev a p).id pair_requested later _ set (ap (lookup (dev a p).id) devices ∙ r)
        waits)
