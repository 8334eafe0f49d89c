-- ===== src/Device.antt =====
-- One remote device, internal/device: the `Device` struct and its plain reads and writes.
--
-- A method that holds the mutex from its first to its last statement is one function on the record.
-- Times are nanoseconds of one clock, and `none` is the zero time. An IP is its canonical address,
-- by which net.IP.Equal compares, and `none` is nil. A channel that is only ever closed has a
-- number; `closed` lists those that are closed. `reconnect_wake` is the channel with one place.
pub mod Session
pub mod Io
pub mod Discovery
pub mod Telemetry
pub mod Registry
mod Tests
use kcd.Base.{
  ℕ, suc, String, Bool, true, false, not, Option, none, some, List, [], ◌∷◌, leb, ltb, ◌==◌,
  if◌then◌else◌, str_eq,
}
use kcd.Base.Int.{ℤ, pos}
use kcd.Protocol.{Packet, protocol_version}

-- In Go an int: `invalid` is any other number, which only a state file can hold.
pub data PairingState : Type 0 where
  unknown pair_requested pair_requested_by_peer paired unpaired invalid : PairingState

-- `==` on the enumeration.
abbrev pub code_of : PairingState → ℕ
code_of unknown = 0
code_of pair_requested = 1
code_of pair_requested_by_peer = 2
code_of paired = 3
code_of unpaired = 4
code_of invalid = 5

abbrev pub is_state : PairingState → PairingState → Bool
is_state s t = code_of s == code_of t

abbrev pub Ip : Type 0
Ip = Option ℕ

-- What the code reads of an x509 certificate; `public_key` is its DER form, if it has one.
pub record Certificate : Type 0 where
  pub raw : List ℕ
  pub common_name : String
  pub public_key : Option (List ℕ)

-- A connection: `handle` is the pointer, and `tcp_ip` the remote IP if the address is a TCP one.
pub record Conn : Type 0 where
  pub handle : ℕ
  pub tcp_ip : Option Ip
  pub peer_cert : Option Certificate

pub record Device : Type 0 where
  pub id : String
  pub name : String
  pub dtype : String
  pub incoming_caps : List String
  pub outgoing_caps : List String
  pub state : PairingState
  pub cert_fp : String
  pub peer_protocol_version : ℕ
  pub last_seen : Option ℕ
  pub last_ip : Ip
  pub last_port : ℕ
  pub discovery_ip : Ip
  pub discovery_port : ℕ
  pub pair_dial_requested : Bool
  pub pair_intent_until : ℕ
  pub last_discovery_dial : Option ℕ
  pub ephemeral_dialed : Bool
  pub conn : Option Conn
  pub send_chan : List Packet
  pub done : ℕ
  pub closed : List ℕ
  pub close_once : Bool
  pub last_connect : Option ℕ
  pub last_sighted_ip : Ip
  pub battery_charge : ℤ
  pub is_charging : Bool
  pub battery_seen : Bool
  pub last_battery_at : Option ℕ
  pub reconnecting : Bool
  pub reconnect_wake : Bool
  pub reconnect_attempt : ℕ
  pub connect_started : Option ℕ
  pub has_on_disconnect : Bool
  pub has_bus : Bool

abbrev pub send_capacity : ℕ
send_capacity = 32

unfoldable pub new_device : String → String → String → Device
new_device id name dtype = record {
  id = id;
  name = name;
  dtype = dtype;
  incoming_caps = [];
  outgoing_caps = [];
  state = unpaired;
  cert_fp = "";
  peer_protocol_version = protocol_version;
  last_seen = none;
  last_ip = none;
  last_port = 0;
  discovery_ip = none;
  discovery_port = 0;
  pair_dial_requested = false;
  pair_intent_until = 0;
  last_discovery_dial = none;
  ephemeral_dialed = false;
  conn = none;
  send_chan = [];
  done = 0;
  closed = [];
  close_once = false;
  last_connect = none;
  last_sighted_ip = none;
  battery_charge = pos 0;
  is_charging = false;
  battery_seen = false;
  last_battery_at = none;
  reconnecting = false;
  reconnect_wake = false;
  reconnect_attempt = 0;
  connect_started = none;
  has_on_disconnect = false;
  has_bus = false;
}

unfoldable pub set_bus : Bool → Device → Device
set_bus bus d = record d { has_bus = bus }

unfoldable pub set_name : String → Device → Device
set_name n d = record d { name = n }

-- A wakeup that finds one waiting is dropped.
unfoldable pub poke_reconnect : Device → Device
poke_reconnect d = record d { reconnect_wake = true }

unfoldable pub set_state : PairingState → Device → Device
unfolding poke_reconnect
set_state s d =
    let d' : Device = record d { state = s } in
    if is_state s unpaired then poke_reconnect d' else d'

unfoldable pub transition_state : PairingState → PairingState → Device → Device × Bool
unfolding poke_reconnect
transition_state expected next d =
    let d' : Device = record d { state = next } in
    if is_state d.state expected
    then (if is_state next unpaired then poke_reconnect d' else d', true)
    else (d, false)

-- A version that is not positive counts as 0 here.
unfoldable pub set_peer_protocol_version : ℕ → Device → Device
set_peer_protocol_version version d = record d {
  peer_protocol_version = if version == 0 then protocol_version else version;
}

unfoldable pub set_last_seen : ℕ → Device → Device
set_last_seen t d = record d { last_seen = some t }

unfoldable pub is_connected : Device → Bool
is_connected d = elim d.conn [ none ↦ false | some c ↦ true ]
