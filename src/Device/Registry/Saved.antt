-- ===== src/Device/Registry/Saved.antt =====
-- The registry in its state file: internal/device/registry_persistence.go, and of state.go the form
-- in which a device is saved, its JSON and the way in which the file is replaced.
--
-- encoding/json, the text of an address and the file system are parameters or inputs. The list that
-- a file holds is one of `Stored`: the fields of `DeviceInfo`, with the state in its JSON form. A time
-- is kept as it is. A port in the file is any integer.
pub mod Restored
use kcd.Base.{
  ℕ, suc, ◌+◌, ◌≡◌, String, Bool, true, false, ◌||◌, Option, none, some, List, [], ◌∷◌, ◌++◌, map,
  ltb, leb, ◌==◌, if◌then◌else◌, str_eq,
}
use kcd.Base.Int.{ℤ, pos, negsuc}
use kcd.Protocol.Names.{Unicode, sanitize_device_name}
use kcd.Device.{
  PairingState, unknown, pair_requested, pair_requested_by_peer, paired, unpaired, invalid, Ip,
  Device, new_device, set_state, set_last_seen, is_connected,
}
use kcd.Device.Discovery.{set_last_ip, set_last_port}
use kcd.Device.Registry.{Store, Event, alloc, add, list}

-- What a JSON value can be to the decoder of a state. `null` and a field that is absent read as 0.
pub data JsonState : Type 0 where
  number : ℤ → JsonState
  text : String → JsonState
  other : JsonState

unfoldable pub state_string : PairingState → String
state_string unknown = "UNKNOWN"
state_string pair_requested = "PAIR_REQUESTED"
state_string pair_requested_by_peer = "PAIR_REQUESTED_BY_PEER"
state_string paired = "PAIRED"
state_string unpaired = "UNPAIRED"
state_string invalid = "INVALID"

unfoldable pub marshal_state : PairingState → JsonState
unfolding state_string
marshal_state s = text (state_string s)

-- The conversion from an int.
unfoldable pub state_of_code : ℤ → PairingState
state_of_code (negsuc n) = invalid
state_of_code (pos n) =
    if n == 0
    then unknown
    else (if n == 1
        then pair_requested
        else (if n == 2
            then pair_requested_by_peer
            else (if n == 3 then paired else (if n == 4 then unpaired else invalid))))

unfoldable pub unmarshal_state : JsonState → Option PairingState
unfolding state_of_code
unmarshal_state (number n) = some (state_of_code n)
unmarshal_state (text s) =
    let state : PairingState =
      if str_eq s "UNKNOWN"
      then unknown
      else (if str_eq s "PAIR_REQUESTED"
          then pair_requested
          else (if str_eq s "PAIR_REQUESTED_BY_PEER"
              then pair_requested_by_peer
              else (if str_eq s "PAIRED"
                  then paired
                  else (if str_eq s "UNPAIRED" then unpaired else unknown)))) in
    some state
unmarshal_state other = none

-- The persistent form of a device, with the state as a value of type S.
pub record InfoWith (S : Type 0) : Type 0 where
  pub id : String
  pub name : String
  pub dtype : String
  pub state : S
  pub cert_fp : String
  pub last_seen : Option ℕ
  pub connected : Bool
  pub last_ip : String
  pub last_port : ℤ

abbrev pub DeviceInfo : Type 0
DeviceInfo = InfoWith PairingState

abbrev pub Stored : Type 0
Stored = InfoWith JsonState

abbrev pub with_state : {S T : Type 0} → T → InfoWith S → InfoWith T
with_state s i = record {
  id = i.id;
  name = i.name;
  dtype = i.dtype;
  state = s;
  cert_fp = i.cert_fp;
  last_seen = i.last_seen;
  connected = i.connected;
  last_ip = i.last_ip;
  last_port = i.last_port;
}

-- The text of addresses, and of the list in the file; T is the type of what a file holds.
pub record Codec (T : Type 0) : Type 0 where
  pub ip_string : ℕ → String
  pub parse_ip : String → Ip
  pub encode : List Stored → T
  pub decode : T → Option (List Stored)

-- What net and encoding/json promise: what is written is read as it was, and no address is empty.
pub record IsFaithful {T : Type 0} (codec : Codec T) : Type 0 where
  pub parse_ip-ip_string : (a : ℕ) → codec.parse_ip (codec.ip_string a) ≡ some a
  pub parse_ip_empty : codec.parse_ip "" ≡ none
  pub decode-encode : (l : List Stored) → codec.decode (codec.encode l) ≡ some l

unfoldable pub unmarshal_all : List Stored → Option (List DeviceInfo)
unfolding unmarshal_state
unmarshal_all [] = some []
unmarshal_all (s ∷ ss) = elim (unmarshal_state s.state) [
  | none ↦ none
  | some state ↦ elim (unmarshal_all ss) [ none ↦ none | some is ↦ some (with_state state s ∷ is) ]
]

-- Reading the file: it is absent, it cannot be read, or it has this text.
pub data ReadFile (T : Type 0) : Type 0 where
  absent unreadable : ReadFile T
  contents : T → ReadFile T

-- `none` is an error.
unfoldable pub load_devices : {T : Type 0} → Codec T → ReadFile T → Option (List DeviceInfo)
unfolding unmarshal_all
load_devices codec absent = some []
load_devices codec unreadable = none
load_devices codec (contents t) = elim (codec.decode t) [ none ↦ none | some ss ↦ unmarshal_all ss ]

-- The calls of the file system in `SaveDevices`, in their order, that may fail; `encode` does not.
pub data Fault : Type 0 where
  mkdir create write_temp sync_temp close_temp rename open_dir sync_dir : Fault

-- The first call that fails, if any. It gives what the file at the path then is, and the error.
unfoldable pub save_devices :
    {T : Type 0} → Codec T → Option Fault → ReadFile T → List DeviceInfo → ReadFile T × Option Fault
save_devices codec fault old infos =
    let new = contents (codec.encode (map (λ i. with_state (marshal_state i.state) i) infos)) in
    elim fault [
      | none ↦ (new, none)
      | some open_dir ↦ (new, some open_dir)
      | some sync_dir ↦ (new, some sync_dir)
      | some f ↦ (old, some f)
    ]

unfoldable pub info : {T : Type 0} → Codec T → Device → DeviceInfo
info codec d = record {
  id = d.id;
  name = d.name;
  dtype = d.dtype;
  state = d.state;
  cert_fp = d.cert_fp;
  last_seen = d.last_seen;
  connected = is_connected d;
  last_ip = elim d.last_ip [ none ↦ "" | some a ↦ codec.ip_string a ];
  last_port = pos d.last_port;
}

-- A port that is 0 is not known.
unfoldable pub valid_port : ℤ → ℕ
valid_port (negsuc n) = 0
valid_port (pos n) = if n == 0 || ltb 65535 n then 0 else n

unfoldable pub dial_target : {T : Type 0} → Codec T → DeviceInfo → Ip × ℕ
unfolding valid_port
dial_target codec i = elim (codec.parse_ip i.last_ip) [
  | none ↦ (none, 0)
  | some a ↦ (some a, valid_port i.last_port)
]

-- The state that a saved one becomes.
unfoldable pub restored_state : PairingState → PairingState
restored_state unknown = unpaired
restored_state pair_requested = unpaired
restored_state pair_requested_by_peer = unpaired
restored_state paired = paired
restored_state unpaired = unpaired
restored_state invalid = invalid

-- The device that one entry of the list becomes. A device whose time was zero has it set to zero.
unfoldable pub restore : {T : Type 0} → Unicode → Codec T → DeviceInfo → Device
unfolding new_device set_state set_last_ip set_last_port dial_target restored_state
restore unicode codec i =
    let d0 = new_device i.id (sanitize_device_name unicode i.name) i.dtype in
    let d1 = record (set_state (restored_state i.state) d0) {
      cert_fp = i.cert_fp;
      last_seen = i.last_seen;
    } in
    elim (dial_target codec i).0 [
      | none ↦ d1
      | some a ↦ set_last_port (dial_target codec i).1 (set_last_ip (some a) d1)
    ]

unfoldable pub restore_all :
    {T : Type 0} → Unicode → Codec T → List DeviceInfo → Store → Store × List Event
unfolding restore alloc add
restore_all unicode codec [] r = (r, [])
restore_all unicode codec (i ∷ is) r =
    let (r1, a) = alloc (restore unicode codec i) r in
    let (r2, event) = add a r1 in
    let (r3, events) = restore_all unicode codec is r2 in (r3, event ++ events)

-- The flag is whether it returned no error.
unfoldable pub load :
    {T : Type 0} → Unicode → Codec T → ReadFile T → Store → Store × List Event × Bool
unfolding load_devices restore_all
load unicode codec file r = elim (load_devices codec file) [
  | none ↦ (r, [], false)
  | some is ↦ let (r', events) = restore_all unicode codec is r in (r', events, true)
]

unfoldable pub save :
    {T : Type 0} → Codec T → Option Fault → ReadFile T → Store → ReadFile T × Option Fault
unfolding save_devices info list
save codec fault old r = save_devices codec fault old (map (λ a. info codec (r.heap a)) (list r))
