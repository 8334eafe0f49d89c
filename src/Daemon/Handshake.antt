-- ===== src/Daemon/Handshake.antt =====
-- A new connection, internal/daemon/transport_handshake.go, from its TLS handshake to the device.
--
-- What the connection does is given: whether its deadline can be set, whether the identity can be
-- sent, and the packet that is read. A refusal is the error that is returned.
pub mod Authentic
pub mod Pinning
pub mod Sessions
use kcd.Base.{
  ℕ, ◌+◌, String, Bool, true, false, not, ◌&&◌, ◌||◌, Option, none, some, List, [], ◌∷◌, ltb, ◌==◌,
  if◌then◌else◌, str_eq,
}
use kcd.Protocol.{Packet, IdentityBody, type_identity}
use kcd.Protocol.Names.{Unicode, valid_device_id, sanitize_device_name}
use kcd.Device.{
  Device, Conn, Certificate, PairingState, paired, pair_requested, pair_requested_by_peer, is_state,
  new_device, set_name, set_peer_protocol_version, set_last_seen,
}
use kcd.Device.Discovery.{set_last_port, connection_age, reset_reconnect_attempt, try_reconnect}
use kcd.Device.Session.{connect}
use kcd.Device.Session as Session
use kcd.Device.Telemetry.{peer_cert}
use kcd.Device.Registry.{Store, Event, alloc, write, add, get}
use kcd.Cert.{matches_device_id}
use kcd.Daemon.{Env, fingerprint_in, valid_dial_port}

pub data Refusal : Type 0 where
  deadline_failed write_failed read_failed not_identity missing_pre_tls bad_body invalid_id
        identity_differs wrong_target no_certificate name_mismatch live_mismatch pinned_mismatch
        pairing_mismatch :
      Refusal

-- The handshake's input and output.
pub record Exchange : Type 0 where
  pub deadline_set : Bool
  pub identity_sent : Bool
  pub received : Option Packet
  pub pre_tls : Option IdentityBody
  pub expected_peer_id : String

-- What the checks before the registry give.
pub data Checked : Type 0 where
  refused : Refusal → Checked
  passed : IdentityBody → Certificate → Checked

unfoldable pub differs : IdentityBody → IdentityBody → Bool
differs pre b =
    (not (str_eq pre.device_id "") && not (str_eq b.device_id pre.device_id))
    || (ltb 0 pre.protocol_version && not (b.protocol_version == pre.protocol_version))

unfoldable pub check_certificate : IdentityBody → Option Certificate → Checked
check_certificate b none = refused no_certificate
check_certificate b (some c) =
    if matches_device_id (some c) b.device_id then passed b c else refused name_mismatch

unfoldable pub check_body : IdentityBody → IdentityBody → String → Option Certificate → Checked
unfolding differs check_certificate
check_body pre b expected cert =
    if not (valid_device_id b.device_id)
    then refused invalid_id
    else if differs pre b
    then refused identity_differs
    else if not (str_eq expected "") && not (str_eq b.device_id expected)
    then refused wrong_target
    else check_certificate b cert

unfoldable pub check_packet : Env → Exchange → Packet → Option Certificate → Checked
unfolding check_body
check_packet env x p cert =
    if not (str_eq p.typ type_identity) then refused not_identity else elim x.pre_tls [
      | none ↦ refused missing_pre_tls
      | some pre ↦ elim (env.decode p.body) [
        | none ↦ refused bad_body
        | some b ↦ check_body pre b x.expected_peer_id cert
      ]
    ]

unfoldable pub check_identity : Env → Exchange → Option Certificate → Checked
unfolding check_packet
check_identity env x cert =
    if not x.deadline_set
    then refused deadline_failed
    else if not x.identity_sent
    then refused write_failed
    else elim x.received [ none ↦ refused read_failed | some p ↦ check_packet env x p cert ]

unfoldable pub greet : IdentityBody → ℕ → Device → Device
greet b now d = set_last_seen now (set_peer_protocol_version b.protocol_version d)

-- The device of the peer, made where it is not known.
unfoldable pub enter : Env → IdentityBody → ℕ → Store → Store × ℕ × List Event
unfolding greet
enter env b now r =
    let safe_device_name = sanitize_device_name env.unicode b.device_name in
    elim (get b.device_id r) [
      | none ↦
          let (r1, a) = alloc (new_device b.device_id safe_device_name b.device_type) r in
          let (r2, events) = add a r1 in (write a (greet b now (r2.heap a)) r2, a, events)
      | some a ↦ (write a (greet b now (set_name safe_device_name (r.heap a))) r, a, [])
    ]

pub data Pinned : Type 0 where
  mismatched : Refusal → Pinned
  pinned : Device → Pinned

-- The fingerprint against the live link and against the pinned one.
unfoldable pub pin : Env → String → Device → Pinned
pin env cert_fp d =
    let live_differs : Bool = elim (peer_cert d) [
      | none ↦ false
      | some current ↦ not (str_eq (fingerprint_in env current) cert_fp)
    ] in
    let unpinned = str_eq d.cert_fp "" in
    let same = str_eq d.cert_fp cert_fp in
    if live_differs
    then mismatched live_mismatch
    else if is_state d.state paired
    then (if not unpinned && not same then mismatched pinned_mismatch else pinned d)
    else if is_state d.state pair_requested || is_state d.state pair_requested_by_peer
    then (if unpinned
        then pinned (record d { cert_fp = cert_fp })
        else (if not same then mismatched pairing_mismatch else pinned d))
    else pinned (record d { cert_fp = cert_fp })

unfoldable pub learn : IdentityBody → Device → Device
learn b d =
    let d' : Device = if valid_dial_port b.tcp_port then set_last_port b.tcp_port d else d in
    record d' { incoming_caps = b.incoming_capabilities; outgoing_caps = b.outgoing_capabilities }

-- How a handshake ends: with an error, with the device's address and what `Connect` did, or with the
-- panic of `Connect`.
pub data Verdict : Type 0 where
  rejected : Refusal → Verdict
  accepted : ℕ → List Session.Effect → Verdict
  panicked : Verdict

unfoldable pub admit :
    Env → IdentityBody → Certificate → Conn → ℕ → Store → Store × List Event × Verdict
unfolding enter pin learn
admit env b c conn now r =
    let (r1, a, events) = enter env b now r in
    elim (pin env (fingerprint_in env c) (r1.heap a)) [
      | mismatched e ↦ (r1, events, rejected e)
      | pinned d ↦ elim (connect conn true true now (learn b d)) [
        | none ↦ (write a (learn b d) r1, events, panicked)
        | some (d', effects) ↦ (write a d' r1, events, accepted a effects)
      ]
    ]

unfoldable pub handle_new_connection :
    Env → Exchange → Conn → ℕ → Store → Store × List Event × Verdict
unfolding check_identity admit
handle_new_connection env x conn now r = elim (check_identity env x conn.peer_cert) [
  | refused e ↦ (r, [], rejected e)
  | passed b c ↦ admit env b c conn now r
]

-- The callback of a lost connection: the device, and whether a reconnect loop is started.
unfoldable pub on_disconnect : ℕ → ℕ → Device → Device × Bool
on_disconnect flap_threshold now d =
    let stable = not (ltb (connection_age now d) flap_threshold) in
    let d1 : Device = if stable then reset_reconnect_attempt d else d in
    if not (is_state d.state paired)
    then (d, false)
    else elim d.last_ip [ none ↦ (d, false) | some ip ↦ try_reconnect d1 ]
