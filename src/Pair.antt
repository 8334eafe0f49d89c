-- ===== src/Pair.antt =====
-- The pairing plugin, internal/plugins/pair (types.go, handle.go, actions.go, lifecycle.go).
--
-- The plugin and the registry it works on are one record. A device is an address of the registry's
-- heap, as in Go. A method is a function on the record; `now` is the clock's reading in nanoseconds.
-- What it does outside (events, the three callbacks) goes to `trace`, newest last; packets go to the
-- channel of the device by `Send`. `Send` and `NewPairPacket` return no error in any case, so the
-- branches for their errors are left out. A method runs without interleaving here, so that the retry
-- in `changeState` is never needed; `accept_after` and `expire_pending` take what was read earlier as
-- an argument, since other methods run between. A timer fires by `expire_pending`, which also stands
-- for a timer that was stopped too late.
pub mod Actions
pub mod Moves
pub mod Primitives
pub mod Expiry
pub mod Codes
pub mod Limits
pub mod Timers
pub mod Balance
pub mod Callbacks
pub mod States
pub mod Trust
mod Tests
use kcd.Base.{
  ℕ, zero, suc, ◌+◌, ◌-◌, ◌*◌, ◌/◌, ◌%◌, ◌^◌, String, Bool, true, false, not, ◌&&◌, ◌||◌, Option,
  none, some, List, [], ◌∷◌, ◌++◌, ltb, leb, ◌==◌, if◌then◌else◌, str_eq, lookup, insert, delete,
}
use kcd.Base.Int.{ℤ, pos, negsuc, ◌-ℤ◌, ltb_ℤ, leb_ℤ}
use kcd.Protocol.{
  Packet, PairBody, new_pair_packet, decode_pair_body, pair_accept, pair_reject, protocol_version,
}
use kcd.Device.{
  PairingState, unknown, pair_requested, pair_requested_by_peer, paired, unpaired, is_state,
  Certificate, Device, transition_state,
}
use kcd.Device.Discovery.{second, clear_pair_dial, clear_ephemeral}
use kcd.Device.Io.{send}
use kcd.Device.Telemetry.{peer_cert}
use kcd.Device.Registry.{Store, write, get}
use kcd.Cert.{verification_key}

abbrev pub allowed_timestamp_diff : ℕ
allowed_timestamp_diff = 1800

abbrev pub default_pending_pair_timeout : ℕ
default_pending_pair_timeout = 30 * second

abbrev pub android_outgoing_pair_wait : ℕ
android_outgoing_pair_wait = 30 * second

abbrev pub android_incoming_pair_wait : ℕ
android_incoming_pair_wait = 25 * second

-- (1 << 63 - 1) / second, the longest duration in whole seconds.
abbrev pub max_seconds : ℕ
max_seconds = 9223372036

-- An event carries the device's name and type.
pub data Effect : Type 0 where
  pair_requested_event : String → String → String → List ℕ → Effect
  pair_accepted_event : String → String → String → Effect
  pair_rejected_event : String → String → String → String → Effect
  state_saved : Effect
  on_paired on_unpaired : ℕ → Effect

pub record Timer : Type 0 where
  pub delay : ℕ
  pub expected : PairingState
  pub generation : ℕ

pub record Plugin : Type 0 where
  pub store : Store
  pub local_cert : Option Certificate
  pub sha256 : List ℕ → List ℕ
  pub timeout_secs : ℕ
  pub accept_requests : String
  pub has_bus : Bool
  pub has_on_state_changed : Bool
  pub has_on_paired : Bool
  pub has_on_unpaired : Bool
  pub pairing_timestamp : List (String × ℤ)
  pub pending_timers : List (String × Timer)
  pub pending_generation : List (String × ℕ)
  pub next_generation : ℕ
  pub trace : List Effect

abbrev pub dev : ℕ → Plugin → Device
dev a p = p.store.heap a

abbrev pub state_of : ℕ → Plugin → PairingState
state_of a p = (p.store.heap a).state

abbrev pub is_pending : PairingState → Bool
is_pending s = is_state s pair_requested || is_state s pair_requested_by_peer

-- A method of the device, called through its pointer.
unfoldable pub on_device : ℕ → (Device → Device) → Plugin → Plugin
unfolding write
on_device a f p = record p { store = write a (f (p.store.heap a)) p.store }

unfoldable pub record_effect : Bool → Effect → Plugin → Plugin
record_effect b e p = if b then record p { trace = p.trace ++ e ∷ [] } else p

unfoldable pub pairing_timestamp_for : String → Plugin → ℤ
pairing_timestamp_for id p = elim (lookup id p.pairing_timestamp) [ none ↦ pos 0 | some t ↦ t ]

unfoldable pub pending_timeout : PairingState → Plugin → ℕ
pending_timeout state p =
    let seconds = if ltb max_seconds p.timeout_secs then max_seconds else p.timeout_secs in
    let delay = seconds * second in
    if p.timeout_secs == 0
    then default_pending_pair_timeout
    else (if is_state state pair_requested && ltb android_outgoing_pair_wait delay
        then android_outgoing_pair_wait
        else (if is_state state pair_requested_by_peer && ltb android_incoming_pair_wait delay
            then android_incoming_pair_wait
            else delay))

unfoldable pub cancel_pending_timer : String → Plugin → Plugin
cancel_pending_timer id p = record p {
  pending_timers = delete id p.pending_timers;
  pending_generation = delete id p.pending_generation;
}

unfoldable pub schedule_pending_timer : String → PairingState → Plugin → Plugin
unfolding pending_timeout
schedule_pending_timer id expected p =
    let generation = (p.next_generation + 1) % 2 ^ 64 in
    let timer : Timer = record {
      delay = pending_timeout expected p;
      expected = expected;
      generation = generation;
    } in
    record p {
      next_generation = generation;
      pending_generation = insert id generation p.pending_generation;
      pending_timers = insert id timer p.pending_timers;
    }

unfoldable pub update_pending_timer : ℕ → PairingState → Plugin → Plugin
unfolding cancel_pending_timer schedule_pending_timer
update_pending_timer a next p =
    let p1 = cancel_pending_timer (dev a p).id p in
    if is_pending next then schedule_pending_timer (dev a p).id next p1 else p1

unfoldable pub notify_state_changed : ℕ → PairingState → PairingState → Plugin → Plugin
unfolding record_effect
notify_state_changed a previous next p =
    let p1 = record_effect p.has_on_state_changed state_saved p in
    let left = is_state previous paired && (not (is_state next paired) && p.has_on_unpaired) in
    let p2 = record_effect left (on_unpaired a) p1 in
    let entered = not (is_state previous paired) && (is_state next paired && p.has_on_paired) in
    record_effect entered (on_paired a) p2

-- `TransitionState` through the pointer.
unfoldable pub transition : ℕ → PairingState → PairingState → Plugin → Plugin × Bool
unfolding on_device transition_state
transition a expected next p =
    let (d, done) = transition_state expected next (dev a p) in (on_device a (λ _. d) p, done)

unfoldable pub change_state : ℕ → PairingState → Plugin → Plugin
unfolding transition update_pending_timer notify_state_changed
change_state a next p =
    let previous = state_of a p in
    let p1 = (transition a previous next p).0 in
    if is_state previous next
    then p
    else notify_state_changed a previous next (update_pending_timer a next p1)

unfoldable pub transition_pending_to_paired : ℕ → Plugin → Plugin × Bool
unfolding transition cancel_pending_timer notify_state_changed
transition_pending_to_paired a p =
    let previous = state_of a p in
    let p1 = (transition a previous paired p).0 in
    if is_pending previous
    then (notify_state_changed a previous paired (cancel_pending_timer (dev a p).id p1), true)
    else (p, false)

unfoldable pub stop_pending_timeout : ℕ → PairingState → Plugin → Plugin × Bool
unfolding cancel_pending_timer
stop_pending_timeout a expected p =
    if is_state (state_of a p) expected
    then (cancel_pending_timer (dev a p).id p, true)
    else (p, false)

unfoldable pub send_packet : ℕ → Bool → ℤ → ℕ → Plugin → Plugin
unfolding on_device
send_packet a pair timestamp now p =
    on_device a (send false (new_pair_packet pair timestamp (now / 1000000))) p

unfoldable pub send_pair_reject : ℕ → ℕ → Plugin → Plugin
unfolding send_packet
send_pair_reject a now p = send_packet a pair_reject (pos 0) now p

unfoldable pub emit_rejected : ℕ → String → Plugin → Plugin
unfolding record_effect
emit_rejected a reason p =
    let d = dev a p in record_effect p.has_bus (pair_rejected_event d.id d.name d.dtype reason) p

-- `ClearEphemeral` and `ClearPairDial`, which the methods call together.
unfoldable pub clear_intents : ℕ → Plugin → Plugin
unfolding on_device clear_pair_dial clear_ephemeral
clear_intents a p = on_device a (λ d. clear_pair_dial (clear_ephemeral d)) p

unfoldable pub forget_timestamp : ℕ → Plugin → Plugin
forget_timestamp a p = record p { pairing_timestamp = delete (dev a p).id p.pairing_timestamp }

unfoldable pub store_timestamp : ℕ → ℤ → Plugin → Plugin
store_timestamp a t p = record p { pairing_timestamp = insert (dev a p).id t p.pairing_timestamp }
