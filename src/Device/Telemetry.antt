-- ===== src/Device/Telemetry.antt =====
-- Battery, capabilities and addresses, internal/device/device_telemetry.go. A negative duration is
-- `none`.
use kcd.Base.{
  ℕ, ◌-◌, String, Bool, true, false, Option, none, some, List, [], ◌∷◌, if◌then◌else◌, str_eq,
}
use kcd.Base.Int.{ℤ}
use kcd.Device.{Ip, Certificate, Device}

-- The new device, and whether a battery.update event is published.
unfoldable pub update_battery : ℤ → Bool → ℕ → Device → Device × Bool
update_battery charge charging now d = (
  record d {
    battery_charge = charge;
    is_charging = charging;
    battery_seen = true;
    last_battery_at = some now;
  },
  d.has_bus,
)

unfoldable pub get_battery : Device → ℤ × Bool
get_battery d = (d.battery_charge, d.is_charging)

unfoldable pub has_battery : Device → Bool
has_battery d = d.battery_seen

-- The zero time, which a seen battery never has, counts as 0.
unfoldable pub battery_age : ℕ → Device → Option ℕ
battery_age now d =
    if d.battery_seen
    then elim d.last_battery_at [ none ↦ some now | some t ↦ some (now - t) ]
    else none

unfoldable pub lists_cap : String → List String → Bool
lists_cap cap [] = false
lists_cap cap (c ∷ cs) = if str_eq c cap then true else lists_cap cap cs

unfoldable pub has_capability : String → Device → Bool
unfolding lists_cap
has_capability cap d = if lists_cap cap d.incoming_caps then true else lists_cap cap d.outgoing_caps

unfoldable pub remote_ip : Device → Ip
remote_ip d = elim d.conn [ none ↦ none | some c ↦ elim c.tcp_ip [ none ↦ none | some ip ↦ ip ] ]

unfoldable pub peer_cert : Device → Option Certificate
peer_cert d = elim d.conn [ none ↦ none | some c ↦ c.peer_cert ]
