-- ===== src/Device/Io.antt =====
-- Sending, and the loops of a connection, internal/device/io.go.
pub mod Order
pub mod Gate
use kcd.Base.{
  ℕ, zero, suc, String, Bool, true, false, not, ◌&&◌, ◌||◌, Option, none, some, List, [], ◌∷◌, ◌++◌,
  ltb, if◌then◌else◌, length, str_eq,
}
use kcd.Protocol.{Packet, type_pair, type_identity}
use kcd.Device.{PairingState, paired, is_state, Conn, Device, send_capacity, is_connected}
use kcd.Device.Session.{Effect, member, disconnect_conn}

unfoldable pub packet_allowed : PairingState → String → Bool
packet_allowed state typ = is_state state paired || str_eq typ type_pair

-- The `select`: where `done` is closed and the buffer has room, either case may be taken, and
-- `pick_done` says which.
unfoldable pub send : Bool → Packet → Device → Device
unfolding packet_allowed is_connected
send pick_done p d =
    if not (is_connected d)
    then d
    else (if not (packet_allowed d.state p.typ)
        then d
        else (if ltb (length d.send_chan) send_capacity && not (member d.done d.closed && pick_done)
            then record d { send_chan = d.send_chan ++ p ∷ [] }
            else d))

pub data WriteResult : Type 0 where
  written timed_out failed : WriteResult

-- What a round of the writer did: the packet that it gave to the socket, if it did, whether or not
-- the write succeeded, and what the end of the session did.
pub record Round : Type 0 where
  pub wire : Option Packet
  pub effects : List Effect

abbrev quiet : Round
quiet = record { wire = none; effects = [] }

-- A round of the writer with the packet `p` taken off the channel, which held `rest` after it; the
-- socket answers `result` at time `now`. `none` is a panic.
unfoldable pub write_packet : Packet → WriteResult → ℕ → Device → Option (Device × Round)
unfolding packet_allowed disconnect_conn
write_packet p result now d =
    if not (packet_allowed d.state p.typ) then some (d, quiet) else elim d.conn [
      | none ↦ some (d, quiet)
      | some c ↦ elim result [
        | written ↦ some (d, record { wire = some p; effects = [] })
        | failed ↦ some (d, record { wire = some p; effects = [] })
        | timed_out ↦ elim (disconnect_conn c now d) [
          | none ↦ none
          | some (d', effects) ↦ some (d', record { wire = some p; effects = effects })
        ]
      ]
    ]

unfoldable pub write_next : WriteResult → ℕ → Device → Option (Device × Round)
write_next result now d = elim d.send_chan [
  | [] ↦ some (d, quiet)
  | p ∷ rest ↦ write_packet p result now (record d { send_chan = rest })
]

pub data ReadResult : Type 0 where
  packet : Packet → ReadResult
  too_large malformed broken : ReadResult

-- What a round of the reader meets: whether the context is done, what the socket gives, the pairing
-- state then, and whether the handler returned in time.
pub record Lap : Type 0 where
  pub cancelled : Bool
  pub read : ReadResult
  pub state : PairingState
  pub finished : Bool

-- What became of one packet.
pub record Handled : Type 0 where
  pub lap : Lap
  pub pkt : Packet
  pub dispatched : Bool
  pub released : Bool

unfoldable pub handle_packet : Bool → Lap → Packet → Handled
handle_packet has_dispatch lap p =
    if has_dispatch
    then (if not (is_state lap.state paired)
          && (not (str_eq p.typ type_identity) && not (str_eq p.typ type_pair))
        then record { lap = lap; pkt = p; dispatched = false; released = true }
        else record { lap = lap; pkt = p; dispatched = true; released = lap.finished })
    else record { lap = lap; pkt = p; dispatched = false; released = true }

-- The packets of the loop, and whether it ended (so that the deferred `disconnectConn` runs).
unfoldable pub read_loop : Bool → List Lap → List Handled × Bool
unfolding handle_packet
read_loop has_dispatch [] = ([], false)
read_loop has_dispatch (lap ∷ laps) =
    let (more, ended) = read_loop has_dispatch laps in
    if lap.cancelled then ([], true) else elim lap.read [
      | packet p ↦ (handle_packet has_dispatch lap p ∷ more, ended)
      | too_large ↦ (more, ended)
      | malformed ↦ (more, ended)
      | broken ↦ ([], true)
    ]

-- `Send` for each packet in turn, with no writer between.
unfoldable pub send_all : List Packet → Device → Device
send_all [] d = d
send_all (p ∷ ps) d = send_all ps (send false p d)

-- `n` rounds of the writer whose writes succeed: the device, and what reached the socket.
unfoldable pub drain : ℕ → ℕ → Device → Option (Device × List (Option Packet))
drain zero now d = some (d, [])
drain (suc n) now d = elim (write_next written now d) [
  | none ↦ none
  | some (d', r) ↦ elim (drain n now d') [
    | none ↦ none
    | some (d'', wires) ↦ some (d'', r.wire ∷ wires)
  ]
]
