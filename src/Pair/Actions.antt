-- ===== src/Pair/Actions.antt =====
-- The methods of the pairing plugin that packets, users and timers call: handle.go, actions.go and
-- `expirePending` of lifecycle.go.
use kcd.Base.{
  ℕ, ◌/◌, String, Bool, true, false, not, ◌&&◌, ◌||◌, none, some, List, [], ◌∷◌, leb, ◌==◌,
  if◌then◌else◌, str_eq, lookup, delete,
}
use kcd.Base.Int.{ℤ, pos, negsuc, ◌-ℤ◌, ltb_ℤ, leb_ℤ}
use kcd.Protocol.{Packet, PairBody, decode_pair_body, pair_accept, protocol_version}
use kcd.Device.{
  PairingState, unknown, pair_requested, pair_requested_by_peer, paired, unpaired, invalid,
  is_state,
}
use kcd.Device.Discovery.{second, clear_pair_dial}
use kcd.Device.Telemetry.{peer_cert}
use kcd.Device.Registry.{get}
use kcd.Cert.{verification_key}
use kcd.Pair.{
  Plugin, dev, state_of, is_pending, allowed_timestamp_diff, pair_requested_event,
  pair_accepted_event, on_device, record_effect, pairing_timestamp_for, cancel_pending_timer,
  notify_state_changed, transition, change_state, transition_pending_to_paired,
  stop_pending_timeout, send_packet, send_pair_reject, emit_rejected, clear_intents,
  forget_timestamp, store_timestamp,
}

unfoldable pub pairing_done : ℕ → Plugin → Plugin × Bool
pairing_done a p =
    let (p1, done) = transition_pending_to_paired a p in
    let p2 = forget_timestamp a (on_device a clear_pair_dial p1) in
    let d = dev a p2 in
    if done
    then (record_effect p2.has_bus (pair_accepted_event d.id d.name d.dtype) p2, true)
    else (p1, false)

pub data AcceptResult : Type 0 where
  accepted no_pending_request request_expired : AcceptResult

-- The rest of `AcceptPairing` after it read the state.
unfoldable pub accept_after : PairingState → ℕ → ℕ → Plugin → Plugin × AcceptResult
accept_after state a now p =
    let (p1, stopped) = stop_pending_timeout a state p in
    let (p2, done) = pairing_done a (send_packet a pair_accept (pos 0) now p1) in
    if is_pending state
    then (if stopped
        then (p2, if done then accepted else request_expired)
        else (p1, request_expired))
    else (p, no_pending_request)

unfoldable pub accept_pairing : ℕ → ℕ → Plugin → Plugin × AcceptResult
accept_pairing a now p = accept_after (state_of a p) a now p

pub data RequestResult : Type 0 where
  -- The code to show, which is empty where there is no peer certificate.
  requested : List ℕ → RequestResult
  already_paired : RequestResult
  accept_instead : AcceptResult → RequestResult

unfoldable pub request_pairing : ℕ → ℕ → Plugin → Plugin × RequestResult
request_pairing a now p =
    let timestamp = pos (now / second) in
    let p1 = send_packet a pair_accept timestamp now (store_timestamp a timestamp p) in
    let key : List ℕ = elim (peer_cert (dev a p1)) [
      | none ↦ []
      | some c ↦ verification_key p1.sha256 p1.local_cert (some c) timestamp
    ] in
    let (p2, r) = accept_pairing a now p in
    if is_state (state_of a p) paired
    then (p, already_paired)
    else (if is_state (state_of a p) pair_requested_by_peer
        then (p2, accept_instead r)
        else (change_state a pair_requested p1, requested key))

-- `RejectPairing` and `Unpair`, which differ in what they log.
unfoldable pub reject_pairing : ℕ → ℕ → Plugin → Plugin
reject_pairing a now p =
    forget_timestamp a (clear_intents a (change_state a unpaired (send_pair_reject a now p)))

unfoldable pub unpair : ℕ → ℕ → Plugin → Plugin
unpair a now p =
    forget_timestamp a (clear_intents a (change_state a unpaired (send_pair_reject a now p)))

unfoldable pub validate_request_timestamp : ℕ → ℤ → ℕ → Plugin → Plugin × Bool
validate_request_timestamp a timestamp now p =
    let diff = pos (now / second) -ℤ timestamp in
    if leb_ℤ timestamp (pos 0)
    then (if leb protocol_version (dev a p).peer_protocol_version
        then (send_pair_reject a now p, false)
        else (p, true))
    else (if ltb_ℤ diff (negsuc 1799) || ltb_ℤ (pos allowed_timestamp_diff) diff
        then (send_pair_reject a now p, false)
        else (store_timestamp a timestamp p, true))

unfoldable pub start_incoming_request : ℕ → Plugin → Plugin
start_incoming_request a p =
    let key : List ℕ = elim (peer_cert (dev a p)) [
      | none ↦ []
      | some c ↦
          verification_key p.sha256 p.local_cert (some c) (pairing_timestamp_for (dev a p).id p)
    ] in
    let p1 = change_state a pair_requested_by_peer p in
    let d = dev a p1 in record_effect p1.has_bus (pair_requested_event d.id d.name d.dtype key) p1

-- The last case of the switch in `handlePairRequest`.
unfoldable pub consider_request : ℕ → PairBody → ℕ → Plugin → Plugin
consider_request a body now p =
    let (p1, valid) = validate_request_timestamp a body.timestamp now p in
    if not (is_state (state_of a p) unknown) && str_eq p.accept_requests "never"
    then send_pair_reject a now p
    else (if valid then start_incoming_request a p1 else p1)

unfoldable pub handle_pair_request : ℕ → PairBody → ℕ → Plugin → Plugin
handle_pair_request a body now p = elim (state_of a p) [
  | pair_requested ↦ (pairing_done a p).0
  | pair_requested_by_peer ↦ p
  | paired ↦ consider_request a body now p
  | unpaired ↦ consider_request a body now p
  | unknown ↦ consider_request a body now p
  | invalid ↦ p
]

-- What the three cases that end a pairing or a request share.
unfoldable pub drop_pairing : ℕ → Plugin → Plugin
drop_pairing a p = clear_intents a (change_state a unpaired p)

unfoldable pub handle_unpair_request : ℕ → Plugin → Plugin
handle_unpair_request a p = forget_timestamp a (elim (state_of a p) [
  | pair_requested ↦ emit_rejected a "" (drop_pairing a p)
  | pair_requested_by_peer ↦ emit_rejected a "" (drop_pairing a p)
  | paired ↦ drop_pairing a p
  | unpaired ↦ p
  | unknown ↦ p
  | invalid ↦ p
])

-- `Handle`, for a packet from the device with this id: whether the body decoded.
unfoldable pub handle : String → Packet → ℕ → Plugin → Plugin × Bool
handle sender pkt now p = elim (decode_pair_body pkt.body) [
  | none ↦ (p, false)
  | some body ↦ elim (get sender p.store) [
    | none ↦ (p, true)
    | some a ↦
        if body.pair
        then (handle_pair_request a body now p, true)
        else (handle_unpair_request a p, true)
  ]
]

-- What follows in `expirePending` once the state has changed.
unfoldable pub after_expiry : ℕ → PairingState → ℕ → Plugin → Plugin
after_expiry a expected now p =
    emit_rejected a "timeout"
      (send_pair_reject a now (clear_intents a (notify_state_changed a expected unpaired p)))

-- `expirePending` for a device that the registry still has: whether it was still waiting.
unfoldable pub expire_device : ℕ → String → PairingState → ℕ → Plugin → Plugin
expire_device a id expected now p =
    let (p1, done) = transition a expected unpaired p in
    let p2 = cancel_pending_timer id p1 in
    let p3 : Plugin = record p2 { pairing_timestamp = delete id p2.pairing_timestamp } in
    if done then after_expiry a expected now p3 else cancel_pending_timer id p

-- A timer that was set with these values fires.
unfoldable pub expire_pending : String → PairingState → ℕ → ℕ → Plugin → Plugin
expire_pending id expected generation now p =
    let current : ℕ = elim (lookup id p.pending_generation) [ none ↦ 0 | some g ↦ g ] in
    if not (current == generation) then p else elim (get id p.store) [
      | none ↦ cancel_pending_timer id p
      | some a ↦ expire_device a id expected now p
    ]

-- A call of the plugin from outside.
pub data Call : Type 0 where
  handles : String → Packet → Call
  accepts requests rejects unpairs : ℕ → Call
  expires : String → PairingState → ℕ → Call

unfoldable pub step : Call → ℕ → Plugin → Plugin
step (handles sender pkt) now p = (handle sender pkt now p).0
step (accepts a) now p = (accept_pairing a now p).0
step (requests a) now p = (request_pairing a now p).0
step (rejects a) now p = reject_pairing a now p
step (unpairs a) now p = unpair a now p
step (expires id expected generation) now p = expire_pending id expected generation now p

-- Calls at the times that stand with them.
unfoldable pub run : List (ℕ × Call) → Plugin → Plugin
run [] p = p
run ((now, c) ∷ cs) p = run cs (step c now p)
