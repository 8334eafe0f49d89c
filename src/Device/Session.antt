-- ===== src/Device/Session.antt =====
-- Connections of a device, internal/device/device_session.go.
--
-- `connect` is two steps, since the mutex is free between them and another goroutine may run:
-- `connect_begin` is the first locked region with the calls after it, `connect_finish` the rest.
-- The other two methods are one step each. A step returns what it did outside the record, in order,
-- or `none` where it closes a closed channel, which is a panic in Go.
pub mod Channels
pub mod Superseded
use kcd.Base.{
  ℕ, ◌+◌, String, Bool, true, false, ◌||◌, Option, none, some, List, [], ◌∷◌, ◌++◌, ◌==◌,
  if◌then◌else◌, any,
}
use kcd.Device.{Conn, Device}

pub data Effect : Type 0 where
  closed_conn : ℕ → Effect
  published : String → Effect
  ran_on_connect ran_on_disconnect : Effect
  -- The handle that the reader reads, and the channel that stops the writer.
  started_loops : ℕ → ℕ → Effect

abbrev pub type_device_connected : String
type_device_connected = "device.connected"

abbrev pub type_device_disconnected : String
type_device_disconnected = "device.disconnected"

infixl 5 ◌>>=◌
abbrev pub ◌>>=◌ {ℓ κ} : {A : Type ℓ} {B : Type κ} → Option A → (A → Option B) → Option B
none >>= f = none
some a >>= f = f a

abbrev pub member : ℕ → List ℕ → Bool
member g = any (λ h. h == g)

-- `closeOnce.Do`, closing `done`.
unfoldable pub close_done : Device → Option Device
close_done d =
    if d.close_once
    then some d
    else (if member d.done d.closed
        then none
        else some (record d { close_once = true; closed = d.done ∷ d.closed }))

abbrev when : Bool → Effect → List Effect
when b e = if b then e ∷ [] else []

abbrev close_old : Option Conn → List Effect
close_old none = []
close_old (some c) = closed_conn c.handle ∷ []

unfoldable pub connect_begin : Conn → Bool → Bool → Device → Option (Device × List Effect)
unfolding close_done
connect_begin c has_on_connect has_on_disconnect d = do
  d' ← elim d.conn [ none ↦ some d | some old ↦ close_done d ]
  some (
    record d' {
      has_on_disconnect = has_on_disconnect;
      conn = some c;
      send_chan = [];
      done = d'.done + 1;
      close_once = false;
    },
    close_old d.conn
        ++ when d.has_bus (published type_device_connected)
        ++ when has_on_connect ran_on_connect,
  )

-- `now` is read after the callback. The writer stops at the channel that it finds when it starts.
unfoldable pub connect_finish : Conn → ℕ → Device → Device × List Effect
connect_finish c now d = (
  record d {
    last_ip = elim c.tcp_ip [ none ↦ d.last_ip | some ip ↦ ip ];
    connect_started = some now;
    last_connect = some now;
  },
  started_loops c.handle d.done ∷ [],
)

unfoldable pub connect : Conn → Bool → Bool → ℕ → Device → Option (Device × List Effect)
unfolding connect_begin connect_finish
connect c has_on_connect has_on_disconnect now d = do
  (d1, effects) ← connect_begin c has_on_connect has_on_disconnect d
  let (d2, more) = connect_finish c now d1
  some (d2, effects ++ more)

-- The part that `Disconnect` and `disconnectConn` share, on the connection `c` of the device.
unfoldable pub drop_conn : Conn → ℕ → Device → Option (Device × List Effect)
unfolding close_done
drop_conn c now d = do
  d' ← close_done (record d { last_seen = some now; conn = none; last_connect = none })
  some (
    d',
    closed_conn c.handle ∷ when d.has_on_disconnect ran_on_disconnect
        ++ when d.has_bus (published type_device_disconnected),
  )

unfoldable pub disconnect : ℕ → Device → Option (Device × List Effect)
unfolding drop_conn
disconnect now d = elim d.conn [
  | none ↦ some (record d { last_seen = some now }, [])
  | some c ↦ drop_conn c now d
]

unfoldable pub disconnect_conn : Conn → ℕ → Device → Option (Device × List Effect)
unfolding drop_conn
disconnect_conn conn now d = elim d.conn [
  | none ↦ some (d, [])
  | some c ↦ if c.handle == conn.handle then drop_conn c now d else some (d, [])
]

pub data Step : Type 0 where
  begins : Conn → Bool → Bool → Step
  finishes : Conn → ℕ → Step
  disconnects : ℕ → Step
  dies : Conn → ℕ → Step

unfoldable pub step : Step → Device → Option (Device × List Effect)
unfolding connect_begin connect_finish disconnect disconnect_conn
step (begins c has_on_connect has_on_disconnect) d =
    connect_begin c has_on_connect has_on_disconnect d
step (finishes c now) d = some (connect_finish c now d)
step (disconnects now) d = disconnect now d
step (dies c now) d = disconnect_conn c now d

unfoldable pub run : List Step → Device → Option Device
run [] d = some d
run (s ∷ ss) d = elim (step s d) [ none ↦ none | some (d', effects) ↦ run ss d' ]
