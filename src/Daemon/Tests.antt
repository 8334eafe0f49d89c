-- ===== src/Daemon/Tests.antt =====
-- Handshakes of a stranger, and of one who claims to be a paired device.
use kcd.Base.{
  ◌+◌, ◌⊎◌, ℕ, ◌++◌, is_some, ◌*◌, All, ◌≡◌, refl, String, true, false, Option, none, some, List,
  [], ◌∷◌, arith, ltb, lookup,
}
use kcd.Base.Text.{codes}
use kcd.Protocol.{Body, pair_body, other_body, IdentityBody, type_identity}
use kcd.Protocol.Names.{valid_device_id}
use kcd.Device.{
  is_connected, unpaired, Device, Conn, Certificate, paired, new_device, set_name,
  set_peer_protocol_version, set_last_seen,
}
use kcd.Device.Discovery.{second, set_discovery_addr, consume_pair_dial, ip_equal, set_last_port}
use kcd.Device.Session.{
  connect, connect_begin, connect_finish, close_done, ran_on_connect, started_loops,
}
use kcd.Device.Session as Session
use kcd.Device.Registry.{reconnect_backoff, Store, alloc, write, add, get}
use kcd.Device.Telemetry.{peer_cert}
use kcd.Cert.{matches_device_id, fingerprint}
use kcd.Daemon.{Env, valid_dial_port}
use kcd.Daemon.Handshake.{
  Exchange, pinned_mismatch, check_identity, check_packet, check_body, check_certificate, differs,
  enter, rejected, accepted, admit, handle_new_connection,
}
use kcd.Daemon.Sightings.{
  Announcement, Transport, dials, on_device_found, new_throttled, allow_ephemeral_dial,
}
use kcd.Daemon.Sightings.Throttle.{Request, allowed}
use kcd.Daemon.Sightings.Announced.{Justified, found, on_device_found-Justified}
use kcd.Daemon.Sightings.Unharmed.{Unharmed, on_device_found-Unharmed}
use kcd.Daemon.Dial.{Target, Attempt, ended, dial, exchange_of, clamp_version}
use kcd.Daemon.Dial.Reach.{Permitted, dial-accepted}
use kcd.Daemon.Reconnect.{
  Options, Wait, timed_out, woken, Lap, not_paired, waits, dials_peer, reconnect_is_done,
  reconnect_with_backoff, wait_cap, lap_step,
}
use kcd.Daemon.Reconnect.Pace.{Paced, reconnect_with_backoff-Paced, reconnect_with_backoff-stops}
use kcd.Daemon.Handshake.Authentic.{Proved}
use kcd.Daemon.Handshake.Sessions.{
  Admitted, SameSession, handle_new_connection-accepted, handle_new_connection-rejected,
}

abbrev phone_id : String
phone_id = "0123456789abcdef_0123456789abcdef"

abbrev phone_body : IdentityBody
phone_body = record {
  device_id = phone_id;
  device_name = "Phone";
  device_type = "phone";
  protocol_version = 8;
  tcp_port = 1716;
  incoming_capabilities = [];
  outgoing_capabilities = [];
  target_device_id = "";
  target_protocol_version = 0;
}

decode : Body → Option IdentityBody
decode (pair_body b) = none
decode (other_body text) = some phone_body

abbrev test_env : Env
test_env = record {
  unicode = record { is_control = λ c. ltb c 32; encode = codes; decode_valid = λ bs. "" };
  decode = decode;
  sha256 = λ bs. bs;
  hex = λ bs. "cafe";
}

abbrev phone_cert : Certificate
phone_cert = record { raw = 1 ∷ []; common_name = phone_id; public_key = none }

abbrev phone_conn : Conn
phone_conn = record { handle = 1; tcp_ip = none; peer_cert = some phone_cert }

abbrev hello : Exchange
hello = record {
  deadline_set = true;
  identity_sent = true;
  received = some (record { id = 1; typ = type_identity; body = other_body "identity" });
  pre_tls = some phone_body;
  expected_peer_id = "";
}

abbrev empty_store : Store
empty_store = record {
  heap = λ a. new_device "" "" "";
  devices = [];
  next_addr = 0;
  has_bus = false;
}

abbrev started : List Session.Effect
started = ran_on_connect ∷ started_loops 1 1 ∷ []

hello_accepted :
    (handle_new_connection test_env hello phone_conn 5 empty_store).2 ≡ accepted 0 started
unfolding handle_new_connection check_identity check_packet check_body check_certificate differs
    decode admit enter valid_device_id matches_device_id peer_cert get lookup write alloc
    set_last_seen set_peer_protocol_version add new_device connect valid_dial_port set_last_port
hello_accepted = refl

handle_new_connection-accepted_example :
    (b : IdentityBody) × (c : Certificate) × Proved test_env hello phone_conn.peer_cert b c
    × Admitted test_env b c phone_conn empty_store
        (handle_new_connection test_env hello phone_conn 5 empty_store).0
        0
handle_new_connection-accepted_example =
    handle_new_connection-accepted test_env hello phone_conn 5 empty_store 0 started hello_accepted

-- A dial to the phone.
abbrev phone_target : Target
phone_target = record { ip = some 7; port = 1716; id = phone_id; version = 8; force = false }

abbrev phone_attempt : Attempt
phone_attempt = record {
  reached = true;
  identity_written = true;
  secured = some phone_conn;
  deadline_set = true;
  identity_sent = true;
  received = hello.received;
}

phone_dialled :
    (dial test_env phone_body phone_target phone_attempt 5 empty_store).3
    ≡ ended (accepted 0 started)
unfolding dial handle_new_connection check_identity check_packet check_body check_certificate
    differs decode admit enter valid_device_id matches_device_id peer_cert get lookup write alloc
    set_last_seen set_peer_protocol_version add new_device connect valid_dial_port set_last_port
phone_dialled = refl

dial-accepted_example :
    let (r', events, sent, end) =
      dial test_env phone_body phone_target phone_attempt 5 empty_store in
    Permitted phone_target 5 empty_store
    × (conn : Conn) × (b : IdentityBody) × (c : Certificate) × Proved test_env
        (exchange_of phone_target phone_attempt)
        conn.peer_cert
        b
        c
    × Admitted test_env b c conn empty_store r' 0
    × ((phone_target.id ≡ "") ⊎ (b.device_id ≡ phone_target.id))
    × (b.protocol_version ≡ clamp_version phone_target.version)
dial-accepted_example =
    dial-accepted test_env phone_body phone_target phone_attempt 5 empty_store 0 started
      phone_dialled

-- The phone is paired, with another fingerprint.
abbrev paired_phone : Device
paired_phone = record (new_device phone_id "Phone" "phone") { state = paired; cert_fp = "beef" }

abbrev paired_store : Store
paired_store = record {
  heap = λ a. paired_phone;
  devices = (phone_id, 0) ∷ [];
  next_addr = 1;
  has_bus = false;
}

hello_rejected :
    (handle_new_connection test_env hello phone_conn 5 paired_store).2 ≡ rejected pinned_mismatch
unfolding handle_new_connection check_identity check_packet check_body check_certificate differs
    decode admit enter valid_device_id matches_device_id peer_cert get lookup write set_last_seen
    set_peer_protocol_version set_name new_device fingerprint
hello_rejected = refl

handle_new_connection-rejected_example :
    SameSession
      (paired_store.heap 0)
      ((handle_new_connection test_env hello phone_conn 5 paired_store).0.heap 0)
handle_new_connection-rejected_example =
    handle_new_connection-rejected test_env hello phone_conn 5 paired_store pinned_mismatch 0
      hello_rejected (omega arith)

-- Announcements of the phone.
abbrev seen : Announcement
seen = record {
  ip = some 7;
  tcp_port = 1716;
  body = phone_body;
  pairing_mode = false;
  now = 90 * second;
}

abbrev transport_of : Store → Transport
transport_of r = record { store = r; throttled = new_throttled 60 }

-- A stranger is dialled once.
seen_new :
    (on_device_found test_env "me" true seen (transport_of empty_store)).1
    ≡ dials (some 7) 1716 phone_id 8 false ∷ []
unfolding on_device_found valid_device_id valid_dial_port get lookup add alloc consume_pair_dial
    set_last_seen set_discovery_addr new_device new_throttled
seen_new = refl

on_device_found-Justified_example :
    All
      (Justified seen (transport_of empty_store).throttled (found seen (transport_of empty_store)))
      (on_device_found test_env "me" true seen (transport_of empty_store)).1
on_device_found-Justified_example =
    on_device_found-Justified test_env "me" true seen (transport_of empty_store)

paired_found : get seen.body.device_id paired_store ≡ some 0
unfolding get lookup
paired_found = refl

on_device_found-Unharmed_example :
    Unharmed
      (paired_store.heap 0)
      ((on_device_found test_env "me" true seen (transport_of paired_store)).0.store.heap 0)
on_device_found-Unharmed_example =
    on_device_found-Unharmed test_env "me" true seen (transport_of paired_store) 0 0 paired_found
      refl

abbrev requests : List Request
requests =
    (some 7, 70 * second)
    ∷ (some 8, 70 * second)
    ∷ (some 7, 72 * second)
    ∷ (some 7, 75 * second)
    ∷ []

throttle_run :
    (allowed requests (new_throttled 60)).0 ≡ (some 7, 70 * second) ∷ (some 7, 75 * second) ∷ []
unfolding allow_ephemeral_dial new_throttled ip_equal
throttle_run = refl

-- A paired device that is away: a dial that fails, a sighting that comes too soon, and an unpairing.
abbrev options : Options
options = record {
  max_backoff = 60 * second;
  fallback_max = 300 * second;
  stale_after = 86400 * second;
  initial = 2 * second;
  sighting_driven = true;
  tcp_port = 1716;
}

abbrev away : Device
away = record paired_phone { last_seen = some 0 }

abbrev lap_of : Wait → ℕ → Device → Lap
lap_of ending time d = record {
  shut_down = false;
  head = d;
  head_time = time;
  ending = ending;
  parked = d;
  parked_time = time;
  dialled = d;
  dialled_time = time;
}

abbrev laps : List Lap
laps = lap_of timed_out (10 * second) away ∷ lap_of woken (11 * second) away ∷ []

abbrev last_lap : Lap
last_lap = lap_of timed_out (20 * second) (record away { state = unpaired })

away_run : reconnect_with_backoff options away (some 7) (laps ++ (last_lap ∷ [])) ≡ (
  some not_paired,
  waits (2 * second) ∷ dials_peer (some 7) 1716 ∷ waits (4 * second) ∷ reconnect_is_done ∷ [],
)
unfolding reconnect_with_backoff lap_step is_connected new_device reconnect_backoff valid_dial_port
    wait_cap
away_run = refl

reconnect_with_backoff-Paced_example :
    let (stop, effects) = reconnect_with_backoff options away (some 7) laps in
    Paced options (is_some stop) 0 effects
unfolding wait_cap new_device
reconnect_with_backoff-Paced_example =
    reconnect_with_backoff-Paced options away (some 7) laps (omega arith)

-- The phone was seen last at 1000, and the laps begin a minute and more apart.
abbrev unseen_at : ℕ → Lap
unseen_at now =
    let d = record away { last_seen = some 1000 } in
    record last_lap {
      head = d;
      head_time = now;
      ending = timed_out;
      parked = d;
      parked_time = now + 50;
      dialled = d;
      dialled_time = now + 55;
    }

abbrev unseen_laps : List Lap
unseen_laps = unseen_at 1100 ∷ unseen_at 1160 ∷ unseen_at 1230 ∷ []

abbrev driven : Options
driven = record options { sighting_driven = true; stale_after = 150 }

reconnect_with_backoff-stops_example :
    (is_some (reconnect_with_backoff driven away (some 7) unseen_laps).0 ≡ true)
    × (reconnect_with_backoff driven away (some 7) (unseen_laps ++ laps)
        ≡ reconnect_with_backoff driven away (some 7) unseen_laps)
reconnect_with_backoff-stops_example =
    reconnect_with_backoff-stops driven away (some 7) unseen_laps laps 1000 60 1100 2 refl refl
      (refl, omega arith, (refl, omega arith, (refl, omega arith, tt))) (omega arith)
