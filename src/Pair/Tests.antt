-- ===== src/Pair/Tests.antt =====
-- A laptop that pairs with one phone, for the theorems about internal/plugins/pair.
use kcd.Base.{
  ℕ, ◌≡◌, ◌+◌, if◌then◌else◌, str_eq_iff, refl, true, none, some, List, [], ◌∷◌, ◌++◌, lookup,
  arith,
}
use kcd.Base.Int.{pos}
use kcd.Protocol.{Packet, new_pair_packet, decode_pair_body}
use kcd.Device.{
  paired, is_state, PairingState, pair_requested, pair_requested_by_peer, unpaired, Certificate,
  Conn, Device, new_device, transition_state,
}
use kcd.Device.Discovery.{clear_pair_dial}
use kcd.Device.Telemetry.{peer_cert}
use kcd.Device.Registry.{get, write}
use kcd.Pair.{
  Plugin, Timer, state_of, transition, transition_pending_to_paired, forget_timestamp, on_device,
  record_effect, notify_state_changed, cancel_pending_timer,
}
use kcd.Pair.Actions.{
  request_pairing, requested, expire_pending, Call, handles, requests, expires, step, run, handle,
  handle_pair_request, pairing_done,
}
use kcd.Pair.Balance.{count, is_up, is_down}
use kcd.Pair.Callbacks.{count-run}
use kcd.Pair.Codes.{shown, request_pairing-handle}
use kcd.Pair.Expiry.{expire_pending-request_pairing}
use kcd.Pair.Timers.{expire_pending-run_stale}
use kcd.Pair.Trust.{Confirmed, step-Confirmed, is_untrusted, run-untrusted}

abbrev phone : PairingState → Device
unfolding new_device
phone s = record (new_device "id" "phone" "phone") { state = s }

-- The phone is at address 0.
abbrev plugin : PairingState → Plugin
plugin s = record {
  store = record { heap = λ a. phone s; devices = ("id", 0) ∷ []; next_addr = 1; has_bus = true };
  local_cert = none;
  sha256 = λ bs. bs;
  timeout_secs = 0;
  accept_requests = "ask";
  has_bus = true;
  has_on_state_changed = true;
  has_on_paired = true;
  has_on_unpaired = true;
  pairing_timestamp = [];
  pending_timers = [];
  pending_generation = [];
  next_generation = 0;
  trace = [];
}

abbrev accepting : Packet
unfolding new_pair_packet
accepting = new_pair_packet true (pos 0) 6

step-Confirmed_example : Confirmed 0 (plugin pair_requested) (handles "id" accepting)
unfolding step handle decode_pair_body get lookup handle_pair_request pairing_done
    transition_pending_to_paired transition transition_state forget_timestamp on_device
    clear_pair_dial record_effect notify_state_changed cancel_pending_timer write phone accepting
    new_pair_packet
step-Confirmed_example =
    step-Confirmed 0 (handles "id" accepting) 5 (plugin pair_requested) (ground arith) refl

abbrev unasked : List (ℕ × Call)
unasked =
    (5000000000, handles "id" accepting)
    ∷ (6000000000, handles "id" accepting)
    ∷ (7000000000, requests 3)
    ∷ (40000000000, expires "id" pair_requested_by_peer 1)
    ∷ []

run-untrusted_example : is_untrusted (state_of 0 (run unasked (plugin unpaired))) ≡ true
unfolding phone
run-untrusted_example = run-untrusted 0 unasked (plugin unpaired) refl refl

count-run_example :
    count (is_up 0) (run unasked (plugin unpaired)).trace
    ≡ count (is_down 0) (run unasked (plugin unpaired)).trace
      + (if is_state (state_of 0 (run unasked (plugin unpaired))) paired then 1 else 0)
unfolding phone
count-run_example = count-run 0 unasked (plugin unpaired) refl refl refl (ground arith)

-- Generation 1 is over, and 2 is current.
abbrev rearmed : Plugin
rearmed = record (plugin pair_requested) {
  pending_generation = ("id", 2) ∷ [];
  next_generation = 2;
}

expire_pending-run_stale_example :
    expire_pending "id" pair_requested 1 9 (run unasked rearmed) ≡ run unasked rearmed
unfolding lookup
expire_pending-run_stale_example =
    expire_pending-run_stale "id" pair_requested 1 9 unasked rearmed (omega arith) (omega arith)
      (omega arith) (ground arith)

abbrev hasty : Plugin
hasty = record (plugin unpaired) { timeout_secs = 60 }

abbrev mine : Certificate
mine = record { raw = 1 ∷ []; common_name = "laptop"; public_key = some (48 ∷ 1 ∷ []) }

abbrev theirs : Certificate
theirs = record { raw = 2 ∷ []; common_name = "phone"; public_key = some (48 ∷ 2 ∷ []) }

-- One side, with its own certificate and that of its peer.
abbrev side : Certificate → Certificate → Plugin
side own peer =
    let conn : Conn = record { handle = 1; tcp_ip = none; peer_cert = some peer } in
    let d : Device = record (phone unpaired) { conn = some conn } in
    record (plugin unpaired) {
      store = record { heap = λ a. d; devices = ("id", 0) ∷ []; next_addr = 1; has_bus = true };
      local_cert = some own;
    }

request_pairing-handle_example :
    let (p', result) = request_pairing 0 5000000000 (side mine theirs) in
    (code : List ℕ) × (sent : Packet) × ((p'.store.heap 0).send_chan
      ≡ ((side mine theirs).store.heap 0).send_chan ++ sent ∷ [])
    × (result ≡ requested code)
    × (shown (handle "id" sent 6000000000 (side theirs mine)).0.trace ≡ some code)
unfolding phone peer_cert get lookup
request_pairing-handle_example =
    request_pairing-handle 0 5000000000 (side mine theirs) "id" 0 6000000000 (side theirs mine) mine
      theirs (ground arith) (ground arith) (omega arith) refl refl refl refl
      (ground (arith, str_eq_iff "ask" "never")) refl refl refl refl (omega arith) (omega arith)
      (omega arith)

expire_pending-request_pairing_example :
    let p1 = (request_pairing 0 5000000000 (plugin unpaired)).0 in
    (t : Timer) × (lookup "id" p1.pending_timers ≡ some t)
    × (let p2 = expire_pending "id" t.expected t.generation 40000000000 p1 in
        (state_of 0 p2 ≡ unpaired)
        × (lookup "id" p2.pending_timers ≡ none)
        × (lookup "id" p2.pairing_timestamp ≡ none))
unfolding phone get lookup
expire_pending-request_pairing_example =
    expire_pending-request_pairing 0 5000000000 40000000000 (plugin unpaired) (ground arith)
      (ground arith) (ground arith) refl
