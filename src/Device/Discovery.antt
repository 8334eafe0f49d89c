-- ===== src/Device/Discovery.antt =====
-- Sightings, dials and the bookkeeping of reconnects, internal/device/device_discovery.go.
pub mod Dials
use kcd.Base.{
  ℕ, ◌+◌, ◌-◌, ◌*◌, Bool, true, false, not, ◌&&◌, Option, none, some, ltb, ◌==◌, if◌then◌else◌,
}
use kcd.Device.{Ip, Device}

abbrev pub second : ℕ
second = 1000000000

abbrev pub reconnect_cooldown : ℕ
reconnect_cooldown = 1 * second

abbrev pub pair_dial_intent_ttl : ℕ
pair_dial_intent_ttl = 300 * second

-- net.IP.Equal.
unfoldable pub ip_equal : Ip → Ip → Bool
ip_equal none none = true
ip_equal (some a) (some b) = a == b
ip_equal a b = false

unfoldable pub set_discovery_addr : Ip → ℕ → Device → Device
set_discovery_addr ip port d = record d { discovery_ip = ip; discovery_port = port }

unfoldable pub discovery_addr : Device → Ip × ℕ
discovery_addr d = (d.discovery_ip, d.discovery_port)

-- An absent or non-positive time to live is 0 here.
unfoldable pub request_pair_dial : ℕ → ℕ → Device → Device
request_pair_dial intent_ttl now d = record d {
  pair_dial_requested = true;
  pair_intent_until = now + (if intent_ttl == 0 then pair_dial_intent_ttl else intent_ttl);
}

unfoldable pub consume_pair_dial : Device → Device × Bool
consume_pair_dial d = (record d { pair_dial_requested = false }, d.pair_dial_requested)

unfoldable pub pair_dial_pending : Device → Bool
pair_dial_pending d = d.pair_dial_requested

unfoldable pub pair_dial_active : ℕ → Device → Bool
pair_dial_active now d = ltb now d.pair_intent_until

unfoldable pub clear_pair_dial : Device → Device
clear_pair_dial d = record d { pair_dial_requested = false; pair_intent_until = 0 }

unfoldable pub set_last_port : ℕ → Device → Device
set_last_port port d = record d { last_port = port }

unfoldable pub set_last_ip : Ip → Device → Device
set_last_ip ip d = record d { last_ip = ip }

-- A dial that was never made lies longer back than any interval.
unfoldable pub should_discovery_dial : ℕ → ℕ → Device → Device × Bool
should_discovery_dial min_interval now d =
    let recent : Bool = elim d.last_discovery_dial [
      | none ↦ false
      | some t ↦ ltb (now - t) min_interval
    ] in
    if recent then (d, false) else (record d { last_discovery_dial = some now }, true)

unfoldable pub mark_ephemeral_dialed : Device → Device
mark_ephemeral_dialed d = record d { ephemeral_dialed = true }

unfoldable pub clear_ephemeral : Device → Device
clear_ephemeral d = record d { ephemeral_dialed = false }

unfoldable pub in_cooldown : ℕ → Device → Bool
in_cooldown now d = elim d.last_connect [ none ↦ false | some t ↦ ltb (now - t) reconnect_cooldown ]

-- The deferred write of the sighted address comes after the test.
unfoldable pub note_sighting : Ip → Device → Device × Bool
note_sighting sighted d = (
  record d { last_sighted_ip = sighted },
  (elim d.last_ip [
    | none ↦ ip_equal sighted d.last_sighted_ip
    | some a ↦ if not (ip_equal (some a) sighted) then ip_equal sighted d.last_sighted_ip else false
  ]),
)

unfoldable pub try_reconnect : Device → Device × Bool
try_reconnect d = (record d { reconnecting = true }, not d.reconnecting)

unfoldable pub reconnect_done : Device → Device
reconnect_done d = record d { reconnecting = false }

unfoldable pub set_reconnect_attempt : ℕ → Device → Device
set_reconnect_attempt n d = record d { reconnect_attempt = n }

unfoldable pub reset_reconnect_attempt : Device → Device
reset_reconnect_attempt d = record d { reconnect_attempt = 0 }

unfoldable pub connection_age : ℕ → Device → ℕ
connection_age now d = elim d.connect_started [ none ↦ 0 | some t ↦ now - t ]
