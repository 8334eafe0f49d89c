-- ===== src/Device/Registry.antt =====
-- The set of known devices, internal/device/registry.go and registry_persistence.go.
--
-- Devices are shared pointers, so a store has a heap of devices and a map from ids to addresses.
-- The order in which a sync.Map is walked is left open in Go; here it is that of the list.
pub mod Backoff
pub mod Pruning
pub mod Saved
use kcd.Base.{
  ℕ, zero, suc, ◌+◌, ◌-◌, ◌*◌, ◌/◌, String, Bool, true, false, not, ◌&&◌, ◌||◌, Option, none, some,
  List, [], ◌∷◌, ◌++◌, map, min, ltb, leb, ◌==◌, if◌then◌else◌, str_eq, lookup, insert, delete,
}
use kcd.Device.{
  PairingState, unknown, pair_requested, pair_requested_by_peer, paired, unpaired, is_state, Ip,
  Device, new_device, set_bus, set_state, set_last_seen, is_connected,
}
use kcd.Device.Discovery.{second, set_last_ip, set_last_port}

pub record Store : Type 0 where
  pub heap : ℕ → Device
  pub devices : List (String × ℕ)
  pub next_addr : ℕ
  pub has_bus : Bool

abbrev pub update : (ℕ → Device) → ℕ → Device → ℕ → Device
update h a d b = if a == b then d else h b

unfoldable pub alloc : Device → Store → Store × ℕ
alloc d r =
    (record r { heap = update r.heap r.next_addr d; next_addr = r.next_addr + 1 }, r.next_addr)

-- A write through a pointer.
unfoldable pub write : ℕ → Device → Store → Store
write a d r = record r { heap = update r.heap a d }

pub data Event : Type 0 where
  device_added device_removed : String → Event

unfoldable pub add : ℕ → Store → Store × List Event
unfolding set_bus write
add a r =
    let d = set_bus r.has_bus (r.heap a) in
    let r' = write a d r in
    (
      record r' { devices = insert d.id a r.devices },
      if r.has_bus then device_added d.id ∷ [] else [],
    )

unfoldable pub remove : String → Store → Store × List Event
remove id r =
    (record r { devices = delete id r.devices }, if r.has_bus then device_removed id ∷ [] else [])

unfoldable pub get : String → Store → Option ℕ
get id r = lookup id r.devices

unfoldable pub list : Store → List ℕ
list r = map (λ e. e.1) r.devices

connected_of : (ℕ → Device) → List (String × ℕ) → List ℕ
connected_of heap [] = []
connected_of heap ((id, a) ∷ es) =
    if is_connected (heap a) then a ∷ connected_of heap es else connected_of heap es

unfoldable pub connected : Store → List ℕ
unfolding connected_of
connected r = connected_of r.heap r.devices

-- The walk with its two flags; it stops at the first paired device that is not connected.
unfoldable pub all_paired_from : (ℕ → Device) → List (String × ℕ) → Bool → Bool
all_paired_from heap [] has_paired = has_paired
all_paired_from heap ((id, a) ∷ es) has_paired =
    if is_state (heap a).state paired
    then (if is_connected (heap a) then all_paired_from heap es true else false)
    else all_paired_from heap es has_paired

unfoldable pub all_paired_devices_connected : Store → Bool
unfolding all_paired_from
all_paired_devices_connected r = all_paired_from r.heap r.devices false

unfoldable pub prunable : ℕ → ℕ → Device → Bool
prunable threshold now d =
    if is_state d.state paired || is_connected d
    then false
    else elim d.last_seen [ none ↦ true | some t ↦ ltb threshold (now - t) ]

-- What the walk keeps, and how many entries it deletes.
unfoldable pub prune_from : (ℕ → Device) → ℕ → ℕ → List (String × ℕ) → List (String × ℕ) × ℕ
unfolding prunable
prune_from heap threshold now [] = ([], 0)
prune_from heap threshold now ((id, a) ∷ es) =
    let (kept, pruned) = prune_from heap threshold now es in
    if prunable threshold now (heap a) then (kept, suc pruned) else ((id, a) ∷ kept, pruned)

-- A threshold that is not positive is 0.
unfoldable pub prune : ℕ → ℕ → Store → Store × ℕ
unfolding prune_from
prune threshold now r =
    let (kept, pruned) = prune_from r.heap threshold now r.devices in
    if threshold == 0 then (r, 0) else (record r { devices = kept }, pruned)

abbrev pub reconnect_backoff_base : ℕ
reconnect_backoff_base = 2 * second

-- The loop, on the number of rounds left.
unfoldable pub backoff_loop : ℕ → ℕ → ℕ → ℕ
backoff_loop zero max_duration delay = delay
backoff_loop (suc n) max_duration delay =
    let rest = backoff_loop n max_duration (delay * 2) in
    if ltb delay max_duration
    then (if ltb (max_duration / 2) delay then max_duration else rest)
    else delay

-- Durations and attempts that are not positive are 0; so is an initial delay that is not given.
unfoldable pub reconnect_backoff : ℕ → ℕ → ℕ → ℕ
unfolding backoff_loop
reconnect_backoff attempt max_duration initial =
    let base = if initial == 0 then reconnect_backoff_base else initial in
    if max_duration == 0 then 0 else backoff_loop attempt max_duration (min base max_duration)
