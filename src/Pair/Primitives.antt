-- ===== src/Pair/Primitives.antt =====
-- The calls of the pairing plugin as sequences of a few moves, so that an invariant needs a proof
-- for each move only. A call changes a state to a pending one, for which a timer is scheduled, at most
-- once.
use kcd.Base.{
  ℕ, ◌≡◌, refl, String, Bool, true, false, ◌||◌, ◌/◌, if◌then◌else◌, Bool-cases, Option-cases,
  arith, inl, inr, delete, leb,
}
use kcd.Base.Int.{ℤ, pos, negsuc, ◌-ℤ◌, ltb_ℤ, leb_ℤ}
use kcd.Protocol.{Packet, PairBody, decode_pair_body, pair_accept, pair_reject, protocol_version}
use kcd.Pair.States.{done-transition}
use kcd.Device.{
  PairingState, unknown, pair_requested, pair_requested_by_peer, paired, unpaired, invalid,
  is_state,
}
use kcd.Device.Discovery.{clear_pair_dial, second}
use kcd.Device.Registry.{get}
use kcd.Pair.{
  Plugin, Effect, on_paired, on_unpaired, dev, state_of, is_pending, on_device, record_effect,
  cancel_pending_timer, notify_state_changed, transition, change_state,
  transition_pending_to_paired, stop_pending_timeout, send_packet, send_pair_reject, emit_rejected,
  clear_intents, forget_timestamp, store_timestamp, allowed_timestamp_diff,
}
use kcd.Pair.Actions.{
  pairing_done, accept_after, accept_pairing, request_pairing, reject_pairing, unpair,
  validate_request_timestamp, start_incoming_request, consider_request, handle_pair_request,
  drop_pairing, handle_unpair_request, handle, after_expiry, expire_device, expire_pending, Call,
  handles, accepts, requests, rejects, unpairs, expires, step, AcceptResult, accepted,
  request_expired, no_pending_request,
}

-- Whether an effect is one of the two callbacks of a pairing.
abbrev pub is_callback : Effect → Bool
is_callback (on_paired a) = true
is_callback (on_unpaired a) = true
is_callback e = false

-- What `expirePending` does before the callback, and with it, for a device that is still waiting.
abbrev pub running_out : ℕ → String → PairingState → Plugin → Plugin
running_out b id s p =
    let p1 = cancel_pending_timer id (transition b s unpaired p).0 in
    record p1 { pairing_timestamp = delete id p1.pairing_timestamp }

abbrev pub expired : ℕ → String → PairingState → Plugin → Plugin
expired b id s p = notify_state_changed b s unpaired (running_out b id s p)

pub data Move : Plugin → Plugin → Type 0 where
  emits :
      (p : Plugin)
      → (c : Bool) → (e : Effect) → is_callback e ≡ false
      → Move p (record_effect c e p)
  sends :
      (p : Plugin) → (b : ℕ) → (c : Bool) → (t : ℤ) → (now : ℕ) → Move p (send_packet b c t now p)
  clears : (p : Plugin) → (b : ℕ) → Move p (clear_intents b p)
  ends_dial : (p : Plugin) → (b : ℕ) → Move p (on_device b clear_pair_dial p)
  forgets : (p : Plugin) → (b : ℕ) → Move p (forget_timestamp b p)
  stores : (p : Plugin) → (b : ℕ) → (t : ℤ) → Move p (store_timestamp b t p)
  cancels : (p : Plugin) → (id : String) → Move p (cancel_pending_timer id p)
  changes :
      (p : Plugin)
      → (b : ℕ) → (next : PairingState) → is_pending next ≡ false
      → Move p (change_state b next p)
  completes : (p : Plugin) → (b : ℕ) → Move p (transition_pending_to_paired b p).0
  runs_out :
      (p : Plugin)
      → (b : ℕ) → (id : String) → (s : PairingState) → is_state (state_of b p) s ≡ true
      → Move p (expired b id s p)

pub data Moves (p : Plugin) : Plugin → Type 0 where
  still : Moves p p
  more : {q r : Plugin} → Moves p q → Move q r → Moves p r
  schedules :
      {q : Plugin}
      → Moves p q
      → q.next_generation ≡ p.next_generation
      → (b : ℕ) → (next : PairingState) → Moves p (change_state b next q)

-- Both branches of a test.
either : {p q r : Plugin} → (b : Bool) → Moves p q → Moves p r → Moves p (if b then q else r)
either true m n = m
either false m n = n

either_first :
    {A : Type 0}
    → {p : Plugin} → (b : Bool) → (q r : Plugin × A) → Moves p q.0
    → Moves p r.0
    → Moves p (if b then q else r).0
either_first true q r m n = m
either_first false q r m n = n

Moves-emit_rejected :
    {p : Plugin} → (b : ℕ) → (q : Plugin) → (s : String) → Moves p q → Moves p (emit_rejected b s q)
unfolding emit_rejected
Moves-emit_rejected b q s m = more m (emits q _ _ refl)

Moves-reject :
    {p : Plugin} → (b now : ℕ) → (q : Plugin) → Moves p q → Moves p (send_pair_reject b now q)
unfolding send_pair_reject
Moves-reject b now q m = more m (sends q b pair_reject (pos 0) now)

Moves-stop :
    {p : Plugin}
    → (b : ℕ) → (s : PairingState) → (q : Plugin) → Moves p q
    → Moves p (stop_pending_timeout b s q).0
unfolding stop_pending_timeout
Moves-stop b s q m = either_first _ _ _ (more m (cancels q _)) m

Moves-done : {p : Plugin} → (b : ℕ) → (q : Plugin) → Moves p q → Moves p (pairing_done b q).0
unfolding pairing_done
Moves-done b q m =
    let m1 = more m (completes q b) in
    either_first _ _ _ (more (more (more m1 (ends_dial _ b)) (forgets _ b)) (emits _ _ _ refl)) m1

Moves-accept_after :
    {p : Plugin}
    → (s : PairingState) → (b now : ℕ) → (q : Plugin) → Moves p q
    → Moves p (accept_after s b now q).0
unfolding accept_after
Moves-accept_after {p} s b now q m =
    let (q1, stopped) = stop_pending_timeout b s q in
    let m1 : Moves p q1 = Moves-stop b s q m in
    let m2 = Moves-done b _ (more m1 (sends q1 b pair_accept (pos 0) now)) in
    let (q2, done) = pairing_done b (send_packet b pair_accept (pos 0) now q1) in
    let yes : Plugin × AcceptResult = (q2, if done then accepted else request_expired) in
    let no : Plugin × AcceptResult = (q1, request_expired) in
    either_first (is_pending s) (if stopped then yes else no) (q, no_pending_request)
      (either_first stopped yes no m2 m1) m

Moves-accept :
    {p : Plugin} → (b now : ℕ) → (q : Plugin) → Moves p q → Moves p (accept_pairing b now q).0
unfolding accept_pairing
Moves-accept b now q m = Moves-accept_after (state_of b q) b now q m

Moves-request : (b now : ℕ) → (q : Plugin) → Moves q (request_pairing b now q).0
unfolding request_pairing store_timestamp send_packet on_device
Moves-request b now q =
    let t = pos (now / second) in
    let q0 = store_timestamp b t q in
    let asked : Moves q (change_state b pair_requested (send_packet b pair_accept t now q0)) =
      schedules (more (more still (stores q b t)) (sends q0 b pair_accept t now)) refl b
        pair_requested in
    either_first (is_state (state_of b q) paired) _ _ still (
      either_first (is_state (state_of b q) pair_requested_by_peer) _ _ (Moves-accept b now q still)
        asked)

Moves-drop : {p : Plugin} → (b : ℕ) → (q : Plugin) → Moves p q → Moves p (drop_pairing b q)
unfolding drop_pairing
Moves-drop b q m = more (more m (changes q b unpaired refl)) (clears _ b)

Moves-reject_pairing :
    {p : Plugin} → (b now : ℕ) → (q : Plugin) → Moves p q → Moves p (reject_pairing b now q)
unfolding reject_pairing
Moves-reject_pairing b now q m =
    more (more (more (Moves-reject b now q m) (changes _ b unpaired refl)) (clears _ b))
      (forgets _ b)

Moves-unpair : {p : Plugin} → (b now : ℕ) → (q : Plugin) → Moves p q → Moves p (unpair b now q)
unfolding unpair
Moves-unpair b now q m =
    more (more (more (Moves-reject b now q m) (changes _ b unpaired refl)) (clears _ b))
      (forgets _ b)

Moves-validate :
    {p : Plugin}
    → (b : ℕ) → (t : ℤ) → (now : ℕ) → (q : Plugin) → Moves p q
    → Moves p (validate_request_timestamp b t now q).0
unfolding validate_request_timestamp
Moves-validate b t now q m =
    let rejected : Plugin × Bool = (send_pair_reject b now q, false) in
    let valid : Plugin × Bool = (q, true) in
    let dated : Plugin × Bool = (store_timestamp b t q, true) in
    let m1 = Moves-reject b now q m in
    let old = leb protocol_version (dev b q).peer_protocol_version in
    let diff = pos (now / second) -ℤ t in
    let late = ltb_ℤ diff (negsuc 1799) || ltb_ℤ (pos allowed_timestamp_diff) diff in
    either_first (leb_ℤ t (pos 0)) (if old then rejected else valid)
      (if late then rejected else dated) (either_first old rejected valid m1 m)
      (either_first late rejected dated m1 (more m (stores q b t)))

-- A check of the timestamp schedules nothing.
generation-validate :
    (b : ℕ)
    → (t : ℤ) → (now : ℕ) → (q : Plugin)
    → (validate_request_timestamp b t now q).0.next_generation ≡ q.next_generation
unfolding validate_request_timestamp send_pair_reject send_packet on_device store_timestamp
generation-validate b t now q = ground arith

Moves-start :
    {p : Plugin}
    → (b : ℕ) → (q : Plugin) → Moves p q
    → q.next_generation ≡ p.next_generation
    → Moves p (start_incoming_request b q)
unfolding start_incoming_request
Moves-start b q m fresh = more (schedules m fresh b pair_requested_by_peer) (emits _ _ _ refl)

Moves-consider :
    (b : ℕ) → (body : PairBody) → (now : ℕ) → (q : Plugin) → Moves q (consider_request b body now q)
unfolding consider_request
Moves-consider b body now q =
    let m1 = Moves-validate b body.timestamp now q still in
    either _ (Moves-reject b now q still)
      (either _ (Moves-start b _ m1 (generation-validate b body.timestamp now q)) m1)

Moves-pair_request :
    (b : ℕ)
    → (body : PairBody) → (now : ℕ) → (q : Plugin) → Moves q (handle_pair_request b body now q)
unfolding handle_pair_request
Moves-pair_request b body now q = by_state (state_of b q) refl
  where
    by_state : (s : PairingState) → state_of b q ≡ s → Moves q (handle_pair_request b body now q)
    by_state pair_requested e = rw (e, handle_pair_request) (Moves-done b q still)
    by_state pair_requested_by_peer e = rw (e, handle_pair_request) still
    by_state paired e = rw (e, handle_pair_request) (Moves-consider b body now q)
    by_state unpaired e = rw (e, handle_pair_request) (Moves-consider b body now q)
    by_state unknown e = rw (e, handle_pair_request) (Moves-consider b body now q)
    by_state invalid e = rw (e, handle_pair_request) still

Moves-unpair_request : (b : ℕ) → (q : Plugin) → Moves q (handle_unpair_request b q)
unfolding handle_unpair_request
Moves-unpair_request b q = by_state (state_of b q) refl
  where
    gone : Moves q (drop_pairing b q)
    gone = Moves-drop b q still

    by_state : (s : PairingState) → state_of b q ≡ s → Moves q (handle_unpair_request b q)
    by_state pair_requested e =
        rw (e, handle_unpair_request) (more (Moves-emit_rejected b _ "" gone) (forgets _ b))
    by_state pair_requested_by_peer e =
        rw (e, handle_unpair_request) (more (Moves-emit_rejected b _ "" gone) (forgets _ b))
    by_state paired e = rw (e, handle_unpair_request) (more gone (forgets _ b))
    by_state unpaired e = rw (e, handle_unpair_request) (more still (forgets _ b))
    by_state unknown e = rw (e, handle_unpair_request) (more still (forgets _ b))
    by_state invalid e = rw (e, handle_unpair_request) (more still (forgets _ b))

Moves-handle :
    (sender : String)
    → (pkt : Packet) → (now : ℕ) → (q : Plugin) → Moves q (handle sender pkt now q).0
unfolding handle
Moves-handle sender pkt now q = elim (Option-cases (decode_pair_body pkt.body)) [
  | inl e ↦ rw (e, handle) still
  | inr (body, e) ↦ elim (Option-cases (get sender q.store)) [
    | inl g ↦ rw (e, g, handle) still
    | inr (b, g) ↦
        rw (e, g, handle)
          (either_first body.pair _ _ (Moves-pair_request b body now q) (Moves-unpair_request b q))
  ]
]

Moves-expire_device :
    (b : ℕ)
    → (id : String) → (s : PairingState) → (now : ℕ) → (q : Plugin)
    → Moves q (expire_device b id s now q)
unfolding expire_device after_expiry
Moves-expire_device b id s now q = elim (Bool-cases (is_state (state_of b q) s)) [
  | inl e ↦
      rw (done-transition b b q s unpaired, e, expire_device)
        (Moves-emit_rejected b _ "timeout"
          (Moves-reject b now _ (more (more still (runs_out q b id s e)) (clears _ b))))
  | inr e ↦ rw (done-transition b b q s unpaired, e, expire_device) (more still (cancels q id))
]

Moves-expire :
    (id : String)
    → (s : PairingState) → (g now : ℕ) → (q : Plugin) → Moves q (expire_pending id s g now q)
unfolding expire_pending
Moves-expire id s g now q = elim (Option-cases (get id q.store)) [
  | inl e ↦ rw (e, expire_pending) (either _ still (more still (cancels q id)))
  | inr (b, e) ↦ rw (e, expire_pending) (either _ still (Moves-expire_device b id s now q))
]

pub step-Moves : (c : Call) → (now : ℕ) → (p : Plugin) → Moves p (step c now p)
unfolding step
step-Moves (handles sender pkt) now p = Moves-handle sender pkt now p
step-Moves (accepts b) now p = Moves-accept b now p still
step-Moves (requests b) now p = Moves-request b now p
step-Moves (rejects b) now p = Moves-reject_pairing b now p still
step-Moves (unpairs b) now p = Moves-unpair b now p still
step-Moves (expires id s g) now p = Moves-expire id s g now p
