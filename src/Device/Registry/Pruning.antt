-- ===== src/Device/Registry/Pruning.antt =====
-- registry.go, `Prune` and `AllPairedDevicesConnected`.
use kcd.Base.{
  ℕ, ◌+◌, ◌≤◌, ◌<◌, ◌≡◌, ◌↔◌, ◌⊎◌, inl, inr, refl, String, Bool, true, false, Option, none, some,
  List, [], ◌∷◌, arith, ◌==◌, if◌then◌else◌, str_eq_iff, lookup, length, All, Bool-cases,
  Option-cases,
}
use kcd.Device.{Device, paired, is_connected, is_state}
use kcd.Device.Registry.{
  Store, get, prunable, prune_from, prune, all_paired_from, all_paired_devices_connected,
}

-- A map has one entry for a key.
abbrev pub Distinct : List (String × ℕ) → Type 0
Distinct [] = Unit
Distinct ((id, a) ∷ es) = (lookup id es ≡ none) × Distinct es

module _ (heap : ℕ → Device) (threshold now : ℕ) where
  prune_from-missing :
      (id : String) (es : List (String × ℕ))
      → lookup id es ≡ none
      → lookup id (prune_from heap threshold now es).0 ≡ none
  unfolding prune_from lookup
  prune_from-missing id [] h = refl
  prune_from-missing id ((j, a) ∷ es) h = ground (arith, prune_from-missing id es)

  -- What a lookup finds after pruning, by what it found before.
  abbrev survivor : Option ℕ → Option ℕ
  survivor none = none
  survivor (some a) = if prunable threshold now (heap a) then none else some a

  prune_from-lookup :
      (id : String) (es : List (String × ℕ))
      → Distinct es
      → lookup id (prune_from heap threshold now es).0 ≡ survivor (lookup id es)
  unfolding prune_from lookup
  prune_from-lookup id [] h = refl
  prune_from-lookup id ((j, a) ∷ es) (fresh, h) =
      ground (arith, str_eq_iff j id, prune_from-lookup id es h, prune_from-missing j es fresh)

  prune_from-length :
      (es : List (String × ℕ))
      → let (kept, pruned) = prune_from heap threshold now es in pruned + length kept ≡ length es
  unfolding prune_from
  prune_from-length [] = refl
  prune_from-length ((j, a) ∷ es) = ground (arith, prune_from-length es)

-- What keeps a device.
abbrev pub IsKept : ℕ → ℕ → Device → Type 0
IsKept threshold now d =
    (d.state ≡ paired)
    ⊎ (is_connected d ≡ true)
    ⊎ ((t : ℕ) × (d.last_seen ≡ some t) × (now ≤ t + threshold))

prunable-IsKept :
    (threshold now : ℕ) (d : Device) → prunable threshold now d ≡ false → IsKept threshold now d
unfolding prunable
prunable-IsKept threshold now d h = elim (Option-cases d.last_seen) [
  | inl e ↦ ground arith
  | inr (t, e) ↦ elim (Bool-cases (is_state d.state paired)) [
    | inl p ↦ inl (ground arith)
    | inr q ↦ elim (Bool-cases (is_connected d)) [
      | inl c ↦ inr (inl c)
      | inr n ↦ inr (inr (t, e, ground arith))
    ]
  ]
]

IsKept-prunable :
    (threshold now : ℕ) (d : Device) → IsKept threshold now d → prunable threshold now d ≡ false
unfolding prunable
IsKept-prunable threshold now d h = ground arith

survivor_iff :
    (heap : ℕ → Device) (threshold now : ℕ) (o : Option ℕ) (a : ℕ)
    → (survivor heap threshold now o ≡ some a) ↔ ((o ≡ some a) × IsKept threshold now (heap a))
survivor_iff heap threshold now none a = (λ k. cc, λ k. cc)
survivor_iff heap threshold now (some b) a = elim (Bool-cases (prunable threshold now (heap b))) [
  | inl gone ↦ rw gone (
    λ k. cc,
    λ k.
        let e : b ≡ a = ground (arith, k.0) in
        let q : prunable threshold now (heap b) ≡ false =
          rw e (IsKept-prunable threshold now (heap a) k.1) in
        cc,
  )
  | inr stays ↦ rw stays (
    λ k.
        let e : b ≡ a = ground (arith, k) in
        (k, rw (← e) (prunable-IsKept threshold now (heap b) stays)),
    λ k. k.0,
  )
]

-- With a threshold, pruning keeps each device that is paired, connected or seen within the
-- threshold and drops every other one, and returns how many it dropped.
pub prune_lem :
    (threshold now : ℕ) (r : Store) (id : String) (a : ℕ)
    → 0 < threshold
    → Distinct r.devices
    → let (r', pruned) = prune threshold now r in
      ((get id r' ≡ some a) ↔ ((get id r ≡ some a) × IsKept threshold now (r.heap a)))
      × (pruned + length r'.devices ≡ length r.devices)
unfolding prune get
prune_lem threshold now r id a p h =
    let set : (threshold == 0) ≡ false = ground arith in
    rw (set, prune_from-lookup r.heap threshold now id r.devices h)
      (
        survivor_iff r.heap threshold now (lookup id r.devices) a,
        prune_from-length r.heap threshold now r.devices,
      )

-- The devices of the map that are paired: there is one, and all are connected.
abbrev pub HasPaired : (ℕ → Device) → List (String × ℕ) → Type 0
HasPaired heap [] = ⊥
HasPaired heap ((id, a) ∷ es) = ((heap a).state ≡ paired) ⊎ HasPaired heap es

abbrev pub PairedConnected : (ℕ → Device) → List (String × ℕ) → Type 0
PairedConnected heap = All λ e. (heap e.1).state ≡ paired → is_connected (heap e.1) ≡ true

all_paired_from_iff :
    (heap : ℕ → Device) (es : List (String × ℕ)) (flag : Bool)
    → (all_paired_from heap es flag ≡ true)
      ↔ (((flag ≡ true) ⊎ HasPaired heap es) × PairedConnected heap es)
unfolding all_paired_from
all_paired_from_iff heap [] flag = ground arith
all_paired_from_iff heap ((id, a) ∷ es) flag =
    ground (arith, all_paired_from_iff heap es true, all_paired_from_iff heap es flag)

-- The walk, which stops early, says yes exactly when some device is paired and every paired device
-- is connected.
pub all_paired_devices_connected_iff :
    (r : Store)
    → (all_paired_devices_connected r ≡ true)
      ↔ (HasPaired r.heap r.devices × PairedConnected r.heap r.devices)
unfolding all_paired_devices_connected
all_paired_devices_connected_iff r = ground (arith, all_paired_from_iff r.heap r.devices false)
