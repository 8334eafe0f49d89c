-- ===== src/Device/Registry/Saved/Restored.antt =====
-- registry_persistence.go: what a registry is after it was saved and loaded.
use kcd.Base.{
  ℕ, ◌+◌, ◌<◌, ◌≡◌, ◌⊎◌, refl, sym, ap, ◌∙◌, subst, String, Bool, true, false, not, Option, none,
  some, List, [], ◌∷◌, map, arith, ltb, if◌then◌else◌, str_eq, str_eq_iff, Bool-cases, Option-cases,
  inl, inr, lookup, lookup-insert, insert, delete,
}
use kcd.Protocol.Names.{Unicode, sanitize_device_name}
use kcd.Device.{
  PairingState, unknown, pair_requested, pair_requested_by_peer, paired, unpaired, invalid,
  is_state, Ip, Device, new_device, set_state, poke_reconnect, set_bus,
}
use kcd.Device.Discovery.{set_last_ip, set_last_port}
use kcd.Device.Registry.{Store, update, alloc, add, write, get, list}
use kcd.Device.Registry.Saved.{
  Codec, IsFaithful, DeviceInfo, Stored, with_state, marshal_state, unmarshal_state, state_string,
  unmarshal_all, info, valid_port, dial_target, restored_state, restore, restore_all, load_devices,
  ReadFile, Fault, mkdir, create, write_temp, sync_temp, close_temp, rename, open_dir, sync_dir,
  save_devices, save, load,
}

-- The device under an id, if there is one.
abbrev pub known : Store → String → Option Device
known r id = elim (get id r) [ none ↦ none | some a ↦ some (r.heap a) ]

-- What is left of a device. Its name is sanitised, only a paired device stays paired, the address
-- is kept, with a port that is one, and the rest is as in a new device.
abbrev pub kept : Unicode → Bool → Device → Device
unfolding new_device
kept unicode bus d = record (new_device d.id (sanitize_device_name unicode d.name) d.dtype) {
  state = if is_state d.state paired then paired else unpaired;
  cert_fp = d.cert_fp;
  last_seen = d.last_seen;
  last_ip = d.last_ip;
  last_port = elim d.last_ip [
    | none ↦ 0
    | some a ↦ if ltb 65535 d.last_port then 0 else d.last_port
  ];
  reconnect_wake = not (is_state d.state paired);
  has_bus = bus;
}

-- Each entry of the map stands under the id of its device, and once.
abbrev pub EntriesOf : (ℕ → Device) → List (String × ℕ) → Type 0
EntriesOf heap [] = Unit
EntriesOf heap ((id, a) ∷ es) = ((heap a).id ≡ id) × (lookup id es ≡ none) × EntriesOf heap es

abbrev pub IsRegistry : Store → Type 0
IsRegistry r = EntriesOf r.heap r.devices

reread : PairingState → PairingState
reread unknown = unknown
reread pair_requested = pair_requested
reread pair_requested_by_peer = pair_requested_by_peer
reread paired = paired
reread unpaired = unpaired
reread invalid = unknown

unmarshal-marshal : (s : PairingState) → unmarshal_state (marshal_state s) ≡ some (reread s)
unfolding unmarshal_state marshal_state state_string reread
unmarshal-marshal unknown = refl
unmarshal-marshal pair_requested = refl
unmarshal-marshal pair_requested_by_peer = refl
unmarshal-marshal paired = refl
unmarshal-marshal unpaired = refl
unmarshal-marshal invalid = refl

abbrev stored : DeviceInfo → Stored
stored i = with_state (marshal_state i.state) i

abbrev back : DeviceInfo → DeviceInfo
back i = with_state (reread i.state) i

unmarshal_all-map : (is : List DeviceInfo) → unmarshal_all (map stored is) ≡ some (map back is)
unfolding unmarshal_all
unmarshal_all-map [] = refl
unmarshal_all-map (i ∷ is) =
    rw (unmarshal-marshal i.state, unmarshal_all-map is, unmarshal_all) (refl)

restored-reread :
    (s : PairingState)
    → restored_state (reread s) ≡ (if is_state s paired then paired else unpaired)
unfolding restored_state reread
restored-reread s = ground arith

module _ {T : Type 0} (unicode : Unicode) (codec : Codec T) (faithful : IsFaithful codec) where
  parse-ip : (ip : Ip) → codec.parse_ip (elim ip [ none ↦ "" | some a ↦ codec.ip_string a ]) ≡ ip
  parse-ip none = faithful.parse_ip_empty
  parse-ip (some a) = faithful.parse_ip-ip_string a

  restore-info :
      (bus : Bool) (d : Device)
      → set_bus bus (restore unicode codec (back (info codec d))) ≡ kept unicode bus d
  unfolding restore info dial_target valid_port set_last_ip set_last_port set_state poke_reconnect
      set_bus new_device
  restore-info bus d = ground (arith, parse-ip d.last_ip, restored-reread d.state)

-- The last entry for an id in a list.
find : String → List DeviceInfo → Option DeviceInfo
find id [] = none
find id (i ∷ is) =
    let later = find id is in
    elim later [ none ↦ if str_eq i.id id then some i else none | some j ↦ some j ]

-- Every address in the map was handed out.
abbrev pub Below : ℕ → List (String × ℕ) → Type 0
Below n [] = Unit
Below n ((id, a) ∷ es) = (a < n) × Below n es

Below-step : (n : ℕ) (es : List (String × ℕ)) → Below n es → Below (n + 1) es
Below-step n [] h = tt
Below-step n ((id, a) ∷ es) (h, k) = (omega arith, Below-step n es k)

Below-delete : (n : ℕ) (id : String) (es : List (String × ℕ)) → Below n es → Below n (delete id es)
unfolding delete
Below-delete n id [] h = tt
Below-delete n id ((other, a) ∷ es) (h, k) = elim (Bool-cases (str_eq other id)) [
  | inl e ↦ rw e (Below-delete n id es k)
  | inr e ↦ rw e ((h, Below-delete n id es k))
]

lookup-Below :
    (n : ℕ) (id : String) (es : List (String × ℕ))
    → Below n es
    → (a : ℕ) → lookup id es ≡ some a
    → a < n
unfolding lookup
lookup-Below n id [] h a e = ground arith
lookup-Below n id ((other, b) ∷ es) (h, k) a e = elim (Bool-cases (str_eq other id)) [
  | inl t ↦ let e' : some b ≡ some a = rw (t, lookup) at e in subst (λ x. x < n) (cc e') h
  | inr t ↦ let e' : lookup id es ≡ some a = rw (t, lookup) at e in lookup-Below n id es k a e'
]

-- A device is entered under its id and at a new address: nothing else in the map changes.
abbrev entered : Device → Store → Store
entered d r = (add (alloc d r).1 (alloc d r).0).0

known-entered :
    (d : Device) (r : Store) (id : String)
    → Below r.next_addr r.devices
    → known (entered d r) id ≡ (if str_eq d.id id then some (set_bus r.has_bus d) else known r id)
unfolding add alloc write get set_bus
known-entered d r id h =
    let key : String = (update r.heap r.next_addr d r.next_addr).id in
    let e : update r.heap r.next_addr d r.next_addr ≡ d = ground arith in
    elim (Option-cases (lookup id r.devices)) [
      | inl f ↦ ground (arith, e, f, lookup-insert key id r.next_addr r.devices)
      | inr (a, f) ↦
          let below : a < r.next_addr = lookup-Below r.next_addr id r.devices h a f in
          ground (arith, e, f, below, lookup-insert key id r.next_addr r.devices)
    ]

Below-entered :
    (d : Device) (r : Store)
    → Below r.next_addr r.devices
    → Below (entered d r).next_addr (entered d r).devices
unfolding add alloc write set_bus insert
Below-entered d r h = (omega arith, Below-delete _ _ _ (Below-step _ _ h))

module _ {T : Type 0} (unicode : Unicode) (codec : Codec T) where
  id-restore : (i : DeviceInfo) → (restore unicode codec i).id ≡ i.id
  unfolding restore new_device set_state poke_reconnect set_last_ip set_last_port
  id-restore i = ground arith

  has_bus-restore_all :
      (i : DeviceInfo) (r : Store) → (entered (restore unicode codec i) r).has_bus ≡ r.has_bus
  unfolding alloc add write
  has_bus-restore_all i r = refl

  later-first :
      (f : DeviceInfo → Option Device) (t : Bool) (i : DeviceInfo) (x z : Option Device)
      → z ≡ (if t then f i else x)
      → (later : Option DeviceInfo)
      → ◌≡◌ {A = Option Device}
          (elim later [ none ↦ z | some j ↦ f j ])
          (elim (elim later as (λ o. Option DeviceInfo) [
            | none ↦ if t then some i else none
            | some j ↦ some j
          ]) [ none ↦ x | some j ↦ f j ])
  later-first f true i x z h none = h
  later-first f false i x z h none = h
  later-first f t i x z h (some j) = refl

  known-restore_all :
      (is : List DeviceInfo) (r : Store) (id : String)
      → Below r.next_addr r.devices
      → known (restore_all unicode codec is r).0 id ≡ elim (find id is) [
        | none ↦ known r id
        | some j ↦ some (set_bus r.has_bus (restore unicode codec j))
      ]
  unfolding restore_all find
  known-restore_all [] r id h = refl
  known-restore_all (i ∷ is) r id h =
      let d : Device = restore unicode codec i in
      let f : DeviceInfo → Option Device =
        λ j. some (set_bus r.has_bus (restore unicode codec j)) in
      let e =
        subst
          (λ key.
            known (entered d r) id
            ≡ (if str_eq key id then some (set_bus r.has_bus d) else known r id))
          (id-restore i) (known-entered d r id h) in
      known-restore_all is (entered d r) id (Below-entered d r h)
      ∙ later-first f (str_eq i.id id) i (known r id) (known (entered d r) id) e (find id is)

  find-map :
      (heap : ℕ → Device) (es : List (String × ℕ)) (id : String)
      → EntriesOf heap es
      → find id (map back (map (λ a. info codec (heap a)) (map (λ e. e.1) es)))
        ≡ elim (lookup id es) [ none ↦ none | some a ↦ some (back (info codec (heap a))) ]
  unfolding find lookup info
  find-map heap [] id h = refl
  find-map heap ((key, a) ∷ es) id (k, once, h) = elim (Bool-cases (str_eq key id)) [
    | inl t ↦ ground (arith, t, k, once, str_eq_iff key id, find-map heap es id h)
    | inr t ↦ ground (arith, t, k, find-map heap es id h)
  ]

  module _ (faithful : IsFaithful codec) where
    read_back :
        (old : ReadFile T) (infos : List DeviceInfo)
        → load_devices codec (save_devices codec none old infos).0 ≡ some (map back infos)
    unfolding load_devices save_devices
    read_back old infos =
        rw (faithful.decode-encode (map stored infos), load_devices, unmarshal_all-map infos) (refl)

    kept-found :
        (heap : ℕ → Device) (bus : Bool) (before : Option Device) (found : Option ℕ)
        → ◌≡◌ {A = Option Device}
            (elim (elim found as (λ o. Option DeviceInfo) [
              | none ↦ none
              | some a ↦ some (back (info codec (heap a)))
            ]) [ none ↦ before | some j ↦ some (set_bus bus (restore unicode codec j)) ])
            (elim (elim found as (λ o. Option Device) [ none ↦ none | some a ↦ some (heap a) ]) [
              | none ↦ before
              | some d ↦ some (kept unicode bus d)
            ])
    kept-found heap bus before none = refl
    kept-found heap bus before (some a) =
        ap (λ t. some t) (restore-info unicode codec faithful bus (heap a))

    -- The registry that was read, where the file was written.
    restored :
        (r r0 : Store) (old : ReadFile T)
        → IsRegistry r
        → Below r0.next_addr r0.devices
        → let (r', events, succeeded) = load unicode codec (save codec none old r).0 r0 in
          (succeeded ≡ true)
          × ((id : String)
              → known r' id ≡ elim (known r id) [
                | none ↦ known r0 id
                | some d ↦ some (kept unicode r0.has_bus d)
              ])
    unfolding load save list get
    restored r r0 old h below =
        let infos : List DeviceInfo = map (λ a. info codec (r.heap a)) (list r) in
        let e = read_back old infos in
        rw (e, load)
          ((
            refl,
            λ id.
                known-restore_all (map back infos) r0 id below
                ∙ rw (find-map r.heap r.devices id h)
                    (kept-found r.heap r0.has_bus (known r0 id) (lookup id r.devices)),
          ))

-- The call that failed comes no later than the one that puts the new file in the place of the old.
abbrev pub is_early : Option Fault → Bool
is_early none = false
is_early (some mkdir) = true
is_early (some create) = true
is_early (some write_temp) = true
is_early (some sync_temp) = true
is_early (some close_temp) = true
is_early (some rename) = true
is_early (some open_dir) = false
is_early (some sync_dir) = false

save-cases :
    {T : Type 0} (codec : Codec T) (fault : Option Fault) (old : ReadFile T) (r : Store)
    → let (file, error) = save codec fault old r in
      (error ≡ fault)
      × (((is_early fault ≡ true) × (file ≡ old))
          ⊎ ((is_early fault ≡ false) × (file ≡ (save codec none old r).0)))
unfolding save save_devices
save-cases codec none old r = (refl, inr (refl, refl))
save-cases codec (some open_dir) old r = (refl, inr (refl, refl))
save-cases codec (some sync_dir) old r = (refl, inr (refl, refl))
save-cases codec (some mkdir) old r = (refl, inl (refl, refl))
save-cases codec (some create) old r = (refl, inl (refl, refl))
save-cases codec (some write_temp) old r = (refl, inl (refl, refl))
save-cases codec (some sync_temp) old r = (refl, inl (refl, refl))
save-cases codec (some close_temp) old r = (refl, inl (refl, refl))
save-cases codec (some rename) old r = (refl, inl (refl, refl))

abbrev Reads : {T : Type 0} → Unicode → Codec T → Store → Store → ReadFile T → Type 0
Reads unicode codec r r0 file =
    let (r', events, succeeded) = load unicode codec file r0 in
    (succeeded ≡ true)
    × ((id : String)
        → known r' id
          ≡ elim (known r id) [ none ↦ known r0 id | some d ↦ some (kept unicode r0.has_bus d) ])

-- Whatever call fails while a registry is saved, what is loaded later is sound. The error of the save
-- is that of the call. Where that call is the rename or one before it, the file is the one from before;
-- where it is a later one, or none, loading the file succeeds, and under each id of the saved registry
-- it finds that device, with its address, fingerprint, time and type, its name sanitised, its port if
-- it is one, and paired if it was paired, else unpaired; under each other id it leaves what was there.
-- Addresses and JSON are read back as they were written.
pub load-save :
    {T : Type 0} (unicode : Unicode) (codec : Codec T) (fault : Option Fault) (old : ReadFile T)
    (r r0 : Store)
    → IsFaithful codec
    → IsRegistry r
    → Below r0.next_addr r0.devices
    → let (file, error) = save codec fault old r in
      let (r', events, succeeded) = load unicode codec file r0 in
      (error ≡ fault)
      × (((is_early fault ≡ true) × (file ≡ old))
          ⊎ ((is_early fault ≡ false)
              × (succeeded ≡ true)
              × ((id : String)
                  → known r' id ≡ elim (known r id) [
                    | none ↦ known r0 id
                    | some d ↦ some (kept unicode r0.has_bus d)
                  ])))
unfolding save save_devices list
load-save unicode codec fault old r r0 faithful h below =
    let (told, cases) = save-cases codec fault old r in
    (
      told,
      elim cases [
        | inl broken ↦ inl broken
        | inr (late, e) ↦
            let (read, found) =
              subst (Reads unicode codec r r0) (sym e)
                (restored unicode codec faithful r r0 old h below) in
            inr (late, read, found)
      ],
    )
