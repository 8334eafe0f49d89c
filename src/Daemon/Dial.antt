-- ===== src/Daemon/Dial.antt =====
-- A dial, internal/daemon/transport_dial.go: from the target to the new connection.
--
-- Whether the TCP dial succeeds, whether the identity can be written, and what the TLS handshake gives
-- are inputs, and so is what the connection then does.
pub mod Reach
use kcd.Base.{
  ℕ, String, Bool, true, false, not, ◌&&◌, ◌||◌, Option, none, some, List, [], ltb, ◌==◌,
  if◌then◌else◌, is_some,
}
use kcd.Protocol.{Packet, IdentityBody, protocol_version}
use kcd.Device.{Ip, Conn}
use kcd.Device.Discovery.{in_cooldown}
use kcd.Device.Registry.{Store, Event, get}
use kcd.Daemon.{Env, valid_dial_port}
use kcd.Daemon.Handshake.{Exchange, Verdict, handle_new_connection}

pub record Target : Type 0 where
  pub ip : Ip
  pub port : ℕ
  pub id : String
  pub version : ℕ
  pub force : Bool

pub record Attempt : Type 0 where
  pub reached : Bool
  pub identity_written : Bool
  pub secured : Option Conn
  pub deadline_set : Bool
  pub identity_sent : Bool
  pub received : Option Packet

pub data Dialled : Type 0 where
  bad_target cooling_down unreachable write_failed not_secured : Dialled
  ended : Verdict → Dialled

-- A version that is not positive counts as 0.
unfoldable pub clamp_version : ℕ → ℕ
clamp_version version =
    if version == 0 || ltb protocol_version version then protocol_version else version

-- The identity that is sent before the TLS handshake; `me` is what the own identity packet says.
unfoldable pub pre_tls_identity : IdentityBody → Target → IdentityBody
unfolding clamp_version
pre_tls_identity me target = record {
  device_id = me.device_id;
  device_name = me.device_name;
  device_type = me.device_type;
  protocol_version = me.protocol_version;
  tcp_port = me.tcp_port;
  incoming_capabilities = [];
  outgoing_capabilities = [];
  target_device_id = target.id;
  target_protocol_version = clamp_version target.version;
}

-- What the peer's identity is held against.
unfoldable pub expected_identity : Target → IdentityBody
unfolding clamp_version
expected_identity target = record {
  device_id = target.id;
  device_name = "";
  device_type = "";
  protocol_version = clamp_version target.version;
  tcp_port = 0;
  incoming_capabilities = [];
  outgoing_capabilities = [];
  target_device_id = "";
  target_protocol_version = 0;
}

unfoldable pub cooling : Target → ℕ → Store → Bool
cooling target now r =
    not target.force
    && (elim (get target.id r) [ none ↦ false | some a ↦ in_cooldown now (r.heap a) ])

abbrev pub exchange_of : Target → Attempt → Exchange
exchange_of target attempt = record {
  deadline_set = attempt.deadline_set;
  identity_sent = attempt.identity_sent;
  received = attempt.received;
  pre_tls = some (expected_identity target);
  expected_peer_id = target.id;
}

-- The store, the events, the identity that was handed to the socket, and how the dial ended.
unfoldable pub dial :
    Env
    → IdentityBody
    → Target
    → Attempt
    → ℕ
    → Store
    → Store × List Event × Option IdentityBody × Dialled
unfolding cooling pre_tls_identity expected_identity
dial env me target attempt now r =
    let sent = some (pre_tls_identity me target) in
    if not (is_some target.ip) || not (valid_dial_port target.port)
    then (r, [], none, bad_target)
    else if cooling target now r
    then (r, [], none, cooling_down)
    else if not attempt.reached
    then (r, [], none, unreachable)
    else if not attempt.identity_written
    then (r, [], sent, write_failed)
    else elim attempt.secured [
      | none ↦ (r, [], sent, not_secured)
      | some conn ↦
          let (r', events, verdict) =
            handle_new_connection env (exchange_of target attempt) conn now r in
          (r', events, sent, ended verdict)
    ]
