-- ===== src/Daemon/Sightings.antt =====
-- Announcements of other devices, `onDeviceFound` in internal/daemon/transport.go, and the refusal of
-- inbound connections there.
--
-- One announcement is one step. Dials and reconnect loops run in their own goroutines, so a step only
-- says that it starts them; so too for the broadcasts that follow a sighting. `pairing_mode` is
-- whether the broadcaster runs.
pub mod Throttle
pub mod Announced
pub mod Unharmed
use kcd.Base.{
  ℕ, ◌+◌, ◌-◌, ◌*◌, String, Bool, true, false, not, ◌&&◌, ◌||◌, Option, none, some, List, [], ◌∷◌,
  ◌++◌, ltb, ◌==◌, if◌then◌else◌, str_eq,
}
use kcd.Protocol.{Packet, IdentityBody}
use kcd.Protocol.Names.{Unicode, valid_device_id, sanitize_device_name}
use kcd.Device.{
  Device, Ip, PairingState, paired, unpaired, is_state, new_device, set_name, set_last_seen,
  poke_reconnect, is_connected,
}
use kcd.Device.Discovery.{
  second, ip_equal, set_discovery_addr, consume_pair_dial, pair_dial_active, should_discovery_dial,
  mark_ephemeral_dialed, in_cooldown, note_sighting, try_reconnect, reset_reconnect_attempt,
}
use kcd.Device.Session.{disconnect}
use kcd.Device.Session as Session
use kcd.Device.Telemetry.{remote_ip}
use kcd.Device.Registry.{Store, Event, alloc, write, add, get}
use kcd.Daemon.{Env, valid_dial_port}

abbrev pub discovery_dial_min_interval : ℕ
discovery_dial_min_interval = 2 * second

unfoldable pub should_ephemeral_close : ℕ → Device → Bool → Bool
should_ephemeral_close now d pairing_mode =
    if pairing_mode
    then false
    else if not d.ephemeral_dialed
    then false
    else if not (is_state d.state unpaired)
    then false
    else not (pair_dial_active now d)

-- The throttle of dials to strangers: the time of the last one, and of the last one to each address.
pub record Throttled : Type 0 where
  pub last_global : ℕ
  pub last_by_ip : List (Ip × ℕ)

-- `start` is the time when the transport starts.
unfoldable pub new_throttled : ℕ → Throttled
new_throttled start = record { last_global = start - 60 * second; last_by_ip = [] }

unfoldable pub last_dial : Ip → List (Ip × ℕ) → Option ℕ
last_dial ip [] = none
last_dial ip ((other, t) ∷ es) = if ip_equal other ip then some t else last_dial ip es

unfoldable pub prune_dials : ℕ → List (Ip × ℕ) → List (Ip × ℕ)
prune_dials now [] = []
prune_dials now ((ip, t) ∷ es) =
    let rest = prune_dials now es in if ltb (60 * second) (now - t) then rest else (ip, t) ∷ rest

unfoldable pub recent_dial : Ip → ℕ → List (Ip × ℕ) → Bool
unfolding last_dial
recent_dial ip now es = elim (last_dial ip es) [
  | none ↦ false
  | some t ↦ ltb (now - t) (5 * second)
]

-- A new entry hides an old one with its key.
unfoldable pub allow_ephemeral_dial : Ip → ℕ → Throttled → Throttled × Bool
unfolding recent_dial prune_dials
allow_ephemeral_dial ip now t =
    if ltb (now - t.last_global) second
    then (t, false)
    else if recent_dial ip now t.last_by_ip
    then (t, false)
    else (record { last_global = now; last_by_ip = (ip, now) ∷ prune_dials now t.last_by_ip }, true)

pub record Transport : Type 0 where
  pub store : Store
  pub throttled : Throttled

-- What an announcement makes the daemon do.
pub data Action : Type 0 where
  -- The address, the port, the id, the version and whether the cooldown is ignored.
  dials : Ip → ℕ → String → ℕ → Bool → Action
  reconnects : ℕ → Ip → Action
  closes : List Session.Effect → Action
  announces : Event → Action
  syncs_broadcast panics : Action

pub record Announcement : Type 0 where
  pub ip : Ip
  pub tcp_port : ℕ
  pub body : IdentityBody
  pub pairing_mode : Bool
  pub now : ℕ

-- A nil address, or another one.
unfoldable pub elsewhere : Ip → Ip → Bool
elsewhere known ip = elim known [ none ↦ true | some a ↦ not (ip_equal (some a) ip) ]

unfoldable pub needs_dial : Ip → Device → Bool
unfolding elsewhere
needs_dial ip d =
    if elsewhere d.last_ip ip then true else is_connected d && elsewhere (remote_ip d) ip

-- The port of the last authenticated exchange, if there is one.
unfoldable pub preferred_port : ℕ → Device → ℕ
preferred_port port d = if valid_dial_port d.last_port then d.last_port else port

unfoldable pub redial : Announcement → Device → Device × List Action
unfolding needs_dial preferred_port
redial s d =
    let (d', allowed) = should_discovery_dial discovery_dial_min_interval s.now d in
    let dial : Action =
      dials s.ip (preferred_port s.tcp_port d) s.body.device_id s.body.protocol_version false in
    if needs_dial s.ip d then (d', if allowed then dial ∷ [] else []) else (d, [])

-- `a` is the address of the device.
unfoldable pub wake : Bool → Announcement → ℕ → Device → Device × List Action
wake sighting_driven s a d =
    let poked = poke_reconnect d in
    let (started, first) = try_reconnect poked in
    if not sighting_driven
    then (d, [])
    else if is_connected d
    then (poked, [])
    else if first
    then (reset_reconnect_attempt started, reconnects a s.ip ∷ [])
    else (started, [])

unfoldable pub see_paired : Bool → Announcement → ℕ → Device → Device × List Action
unfolding redial wake
see_paired sighting_driven s a d =
    let (d1, roamed) = note_sighting s.ip (set_last_seen s.now d) in
    let d2 : Device = if roamed then reset_reconnect_attempt d1 else d1 in
    let (d3, dialled) = redial s d2 in
    let (d4, woken) = wake sighting_driven s a d3 in (d4, syncs_broadcast ∷ (dialled ++ woken))

unfoldable pub see_stranger : Announcement → Device → Throttled → Device × Throttled × List Action
unfolding allow_ephemeral_dial
see_stranger s d t =
    let d1 = set_last_seen s.now (set_discovery_addr s.ip s.tcp_port d) in
    let dial : Bool → Action =
      λ force. dials s.ip s.tcp_port s.body.device_id s.body.protocol_version force in
    let (d2, wanted) = consume_pair_dial d1 in
    let (t', allowed) = allow_ephemeral_dial s.ip s.now t in
    if s.pairing_mode
    then (d1, t, dial true ∷ [])
    else if wanted
    then (d2, t, dial true ∷ [])
    else if d2.ephemeral_dialed
    then (d2, t, [])
    else (mark_ephemeral_dialed d2, t', if allowed then dial false ∷ [] else [])

-- The device of the address is changed, and so the throttle.
abbrev put : ℕ → Transport → Device × Throttled × List Action → Transport × List Action
put a t (d, throttled, actions) =
    (record { store = write a d t.store; throttled = throttled }, actions)

abbrev put_device : ℕ → Transport → Device × List Action → Transport × List Action
put_device a t (d, actions) = (record t { store = write a d t.store }, actions)

unfoldable pub close_ephemeral : Announcement → ℕ → Transport → Transport × List Action
close_ephemeral s a t = elim (disconnect s.now (t.store.heap a)) [
  | none ↦ (t, panics ∷ [])
  | some (d, effects) ↦ put_device a t (d, closes effects ∷ [])
]

unfoldable pub see_known : Env → Bool → Announcement → ℕ → Transport → Transport × List Action
unfolding should_ephemeral_close see_paired see_stranger close_ephemeral
see_known env sighting_driven s a t =
    let d = t.store.heap a in
    let is_paired = is_state d.state paired in
    let name = sanitize_device_name env.unicode s.body.device_name in
    if is_connected d && should_ephemeral_close s.now d s.pairing_mode
    then close_ephemeral s a t
    else if is_paired
    then put_device a t (see_paired sighting_driven s a d)
    else if is_connected d
    then (t, [])
    else put a t (see_stranger s (set_name name d) t.throttled)

-- What the registry publishes, at most one event.
abbrev pub announcements : List Event → List Action
announcements [] = []
announcements (e ∷ es) = announces e ∷ []

unfoldable pub see_new : Env → Announcement → Transport → Transport × List Action
unfolding see_stranger
see_new env s t =
    let name = sanitize_device_name env.unicode s.body.device_name in
    let (r1, a) = alloc (new_device s.body.device_id name s.body.device_type) t.store in
    let (r2, events) = add a r1 in
    let t' : Transport = record t { store = r2 } in
    let (t'', actions) = put a t' (see_stranger s (r2.heap a) t.throttled) in
    (t'', announcements events ++ actions)

unfoldable pub ignored : String → Announcement → Bool
ignored local_device_id s =
    str_eq s.body.device_id local_device_id
    || not (valid_device_id s.body.device_id)
    || not (valid_dial_port s.tcp_port)

-- An announcement whose body was decoded; one that cannot be decoded is dropped before.
unfoldable pub on_device_found :
    Env → String → Bool → Announcement → Transport → Transport × List Action
unfolding ignored see_known see_new
on_device_found env local_device_id sighting_driven s t =
    if ignored local_device_id s then (t, []) else elim (get s.body.device_id t.store) [
      | none ↦ see_new env s t
      | some a ↦ see_known env sighting_driven s a t
    ]

unfoldable pub should_refuse_inbound_cooldown : String → Bool → ℕ → Store → Bool
should_refuse_inbound_cooldown device_id pairing_mode now r =
    if pairing_mode
    then false
    else elim (get device_id r) [ none ↦ false | some a ↦ in_cooldown now (r.heap a) ]

-- The checks on the packet before the TLS handshake, once it is decoded.
unfoldable pub accepts_inbound : Env → String → IdentityBody → Bool → ℕ → Store → Bool
unfolding should_refuse_inbound_cooldown
accepts_inbound env local_device_id b pairing_mode now r =
    if not (valid_device_id b.device_id)
    then false
    else if str_eq (sanitize_device_name env.unicode b.device_name) ""
    then false
    else if not (str_eq b.target_device_id "") && not (str_eq b.target_device_id local_device_id)
    then false
    else not (should_refuse_inbound_cooldown b.device_id pairing_mode now r)
