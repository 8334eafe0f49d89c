-- ===== src/Daemon/Sightings/Announced.antt =====
-- transport.go: what an announcement, which nobody has authenticated, can bring about.
use kcd.Base.{
  ℕ, ◌≡◌, ◌≢◌, ◌≤◌, ◌-◌, ◌∙◌, sym, ltb, ◌⊎◌, inl, inr, refl, String, Bool, true, false, ◌&&◌,
  Option, none, some, List, [], ◌∷◌, arith, ◌==◌, if◌then◌else◌, Bool-cases, Option-cases, All,
  All-append,
}
use kcd.Protocol.Names.{sanitize_device_name}
use kcd.Device.{
  Device, paired, unpaired, is_state, new_device, set_name, set_bus, set_last_seen, poke_reconnect,
  is_connected,
}
use kcd.Device.Telemetry.{remote_ip}
use kcd.Device.Discovery.{
  second, set_discovery_addr, consume_pair_dial, pair_dial_active, should_discovery_dial,
  note_sighting, try_reconnect, reset_reconnect_attempt,
}
use kcd.Device.Session.{disconnect}
use kcd.Device.Registry.{Store, Event, alloc, write, add, get}
use kcd.Daemon.{Env, valid_dial_port}
use kcd.Daemon.Sightings.{
  Announcement, Action, dials, reconnects, closes, announces, syncs_broadcast, panics, Transport,
  Throttled, should_ephemeral_close, allow_ephemeral_dial, recent_dial, needs_dial, preferred_port,
  redial, wake, see_paired, see_stranger, close_ephemeral, see_known, see_new, announcements,
  ignored, on_device_found, discovery_dial_min_interval,
}

-- Nobody pairs, and the known device is unpaired, was dialled only to be listed, and was not asked for.
abbrev pub Idle : Announcement → Option Device → Type 0
Idle s d =
    (s.pairing_mode ≡ false)
    × ((e : Device) × (d ≡ some e)
        × (e.state ≡ unpaired)
        × (e.ephemeral_dialed ≡ true)
        × (pair_dial_active s.now e ≡ false))

-- A dial that the user did not ask for: of a paired device, where it is not known at the announced
-- address, or connected from another, and was not dialled in the last interval; or, outside of pairing
-- mode, of one that is not paired and was never dialled to be listed, where the last such dial lies a
-- second back and none to the address is recent.
abbrev pub Unasked : Announcement → Throttled → Option Device → Type 0
Unasked s t d =
    ((e : Device) × (d ≡ some e)
      × (e.state ≡ paired)
      × (needs_dial s.ip e ≡ true)
      × ((u : ℕ) → e.last_discovery_dial ≡ some u → discovery_dial_min_interval ≤ s.now - u))
    ⊎ ((s.pairing_mode ≡ false)
        × ((e : Device)
            → d ≡ some e
            → (e.state ≢ paired) × (is_connected e ≡ false) × (e.ephemeral_dialed ≡ false))
        × (second ≤ s.now - t.last_global)
        × (recent_dial s.ip s.now t.last_by_ip ≡ false))

-- Why a dial ignores the cooldown: it is of one that is not paired, in pairing mode or where the user
-- asked for the device.
abbrev pub Asked : Announcement → Option Device → Type 0
Asked s d =
    ((e : Device) → d ≡ some e → (e.state ≢ paired) × (is_connected e ≡ false))
    × ((s.pairing_mode ≡ true) ⊎ ((e : Device) × (d ≡ some e) × (e.pair_dial_requested ≡ true)))

-- Why an action is taken. A dial is to the announced id and address, at the announced port, or the one
-- that the device authenticated, each of them a port.
abbrev pub Justified : Announcement → Throttled → Option Device → Action → Type 0
Justified s t d (dials ip port id version force) =
    (ip ≡ s.ip)
    × (id ≡ s.body.device_id)
    × (valid_dial_port port ≡ true)
    × (((force ≡ false) × Unasked s t d) ⊎ ((force ≡ true) × Asked s d))
Justified s t d (reconnects a ip) =
    (ip ≡ s.ip)
    × ((e : Device) × (d ≡ some e)
        × (e.state ≡ paired)
        × (is_connected e ≡ false)
        × (e.reconnecting ≡ false))
Justified s t d (closes effects) = Idle s d
Justified s t d (announces e) = d ≡ none
Justified s t d syncs_broadcast = (e : Device) × (d ≡ some e) × (e.state ≡ paired)
Justified s t d panics = Idle s d

-- The device that the registry has for the announced id.
abbrev pub found : Announcement → Transport → Option Device
found s t = elim (get s.body.device_id t.store) [ none ↦ none | some a ↦ some (t.store.heap a) ]

preferred_port-valid :
    (port : ℕ) (d : Device)
    → valid_dial_port port ≡ true
    → valid_dial_port (preferred_port port d) ≡ true
unfolding preferred_port
preferred_port-valid port d h = ground arith

-- `e` is the device before the sighting was noted.
redial-Justified :
    (s : Announcement) (t : Throttled) (d e : Device)
    → valid_dial_port s.tcp_port ≡ true
    → e.state ≡ paired
    → needs_dial s.ip d ≡ needs_dial s.ip e
    → d.last_discovery_dial ≡ e.last_discovery_dial
    → All (Justified s t (some e)) (redial s d).1
unfolding redial should_discovery_dial
redial-Justified s t d e h p same last = elim (Bool-cases (needs_dial s.ip d)) [
  | inl n ↦ elim (Option-cases d.last_discovery_dial) [
    | inl f ↦
        rw (n, f)
          (
            (
              refl,
              refl,
              preferred_port-valid s.tcp_port d h,
              inl (refl, inl (e, refl, p, sym same ∙ n, λ u g. absurd (cc (g, f, last)))),
            ),
            tt,
          )
    | inr (v, f) ↦ elim (Bool-cases (ltb (s.now - v) discovery_dial_min_interval)) [
      | inl k ↦ rw (n, f, k) (tt)
      | inr k ↦
          rw (n, f, k)
            (
              (
                refl,
                refl,
                preferred_port-valid s.tcp_port d h,
                inl (
                  refl,
                  inl (
                    e,
                    refl,
                    p,
                    sym same ∙ n,
                    λ u g. let w : u ≡ v = ground (arith, g, f, last) in ground (arith, k, w),
                  ),
                ),
              ),
              tt,
            )
    ]
  ]
  | inr n ↦ rw n (tt)
]

wake-Justified :
    (driven : Bool) (s : Announcement) (t : Throttled) (a : ℕ) (d e : Device)
    → e.state ≡ paired
    → is_connected d ≡ is_connected e
    → d.reconnecting ≡ e.reconnecting
    → All (Justified s t (some e)) (wake driven s a d).1
unfolding wake try_reconnect poke_reconnect
wake-Justified false s t a d e p c k = tt
wake-Justified true s t a d e p c k = elim (Bool-cases (is_connected d)) [
  | inl f ↦ rw f (tt)
  | inr f ↦ elim (Bool-cases d.reconnecting) [
    | inl g ↦ rw (f, g) (tt)
    | inr g ↦ rw (f, g) ((refl, (e, refl, p, sym c ∙ f, sym k ∙ g)), tt)
  ]
]

-- What was read of the device is not changed by noting the sighting.
noted : Announcement → Device → Device
unfolding note_sighting
noted s d =
    let n = note_sighting s.ip (set_last_seen s.now d) in
    if n.1 then reset_reconnect_attempt n.0 else n.0

noted_lem :
    (s : Announcement) (d : Device)
    → (needs_dial s.ip (noted s d) ≡ needs_dial s.ip d)
      × ((noted s d).last_discovery_dial ≡ d.last_discovery_dial)
      × (is_connected (noted s d) ≡ is_connected d)
      × ((noted s d).reconnecting ≡ d.reconnecting)
unfolding noted note_sighting set_last_seen reset_reconnect_attempt needs_dial is_connected
    remote_ip
noted_lem s d = elim (Bool-cases (note_sighting s.ip (set_last_seen s.now d)).1) [
  | inl e ↦ rw e ((refl, refl, refl, refl))
  | inr e ↦ rw e ((refl, refl, refl, refl))
]

redial_kept :
    (s : Announcement) (d : Device)
    → (is_connected (redial s d).0 ≡ is_connected d)
      × ((redial s d).0.reconnecting ≡ d.reconnecting)
unfolding redial should_discovery_dial is_connected
redial_kept s d = (ground arith, ground arith)

see_paired-Justified :
    (driven : Bool) (s : Announcement) (t : Throttled) (a : ℕ) (e : Device)
    → valid_dial_port s.tcp_port ≡ true
    → e.state ≡ paired
    → All (Justified s t (some e)) (see_paired driven s a e).1
unfolding see_paired noted
see_paired-Justified driven s t a e h p =
    let d = noted s e in
    let (dial, last, conn, loop) = noted_lem s e in
    let (conn', loop') = redial_kept s d in
    (
      (e, refl, p),
      All-append (Justified s t (some e)) (redial s d).1 (wake driven s a (redial s d).0).1
          (redial-Justified s t d e h p dial last)
          (wake-Justified driven s t a (redial s d).0 e p (conn' ∙ conn) (loop' ∙ loop)),
    )

-- `o` is the known device, which `d` is but for its name.
see_stranger-Justified :
    (s : Announcement) (d : Device) (t : Throttled) (o : Option Device)
    → valid_dial_port s.tcp_port ≡ true
    → (d.pair_dial_requested ≡ true → (e : Device) × (o ≡ some e) × (e.pair_dial_requested ≡ true))
    → ((e : Device)
        → o ≡ some e
        → (e.state ≢ paired) × (is_connected e ≡ false) × (e.ephemeral_dialed ≡ d.ephemeral_dialed))
    → All (Justified s t o) (see_stranger s d t).2
unfolding see_stranger set_last_seen set_discovery_addr consume_pair_dial allow_ephemeral_dial
see_stranger-Justified s d t o h wanted known =
    let idle : (e : Device) → o ≡ some e → (e.state ≢ paired) × (is_connected e ≡ false) =
      λ e f. ((known e f).0, (known e f).1) in
    elim (Bool-cases s.pairing_mode) [
      | inl m ↦ rw m ((refl, refl, h, inr (refl, (idle, inl refl))), tt)
      | inr m ↦ elim (Bool-cases d.pair_dial_requested) [
        | inl w ↦ rw (m, w) ((refl, refl, h, inr (refl, (idle, inr (wanted w)))), tt)
        | inr w ↦ elim (Bool-cases d.ephemeral_dialed) [
          | inl k ↦ rw (m, w, k) (tt)
          | inr k ↦ elim (Bool-cases (ltb (s.now - t.last_global) second)) [
            | inl l ↦ rw (m, w, k, l) (tt)
            | inr l ↦ elim (Bool-cases (recent_dial s.ip s.now t.last_by_ip)) [
              | inl n ↦ rw (m, w, k, l, n) (tt)
              | inr n ↦
                  rw (m, w, k, l, n)
                    (
                      (
                        refl,
                        refl,
                        h,
                        inl (
                          refl,
                          inr (
                            refl,
                            λ e f. ((known e f).0, (known e f).1, (known e f).2 ∙ k),
                            ground (arith, l),
                            n,
                          ),
                        ),
                      ),
                      tt,
                    )
            ]
          ]
        ]
      ]
    ]

should_ephemeral_close-Idle :
    (s : Announcement) (d : Device)
    → should_ephemeral_close s.now d s.pairing_mode ≡ true
    → Idle s (some d)
unfolding should_ephemeral_close
should_ephemeral_close-Idle s d h =
    (ground arith, (d, refl, ground arith, ground arith, ground arith))

close_ephemeral-Justified :
    (s : Announcement) (a : ℕ) (t : Transport)
    → Idle s (some (t.store.heap a))
    → All (Justified s t.throttled (some (t.store.heap a))) (close_ephemeral s a t).1
unfolding close_ephemeral
close_ephemeral-Justified s a t h = elim (Option-cases (disconnect s.now (t.store.heap a))) [
  | inl e ↦ rw (e, close_ephemeral) (h, tt)
  | inr ((d, effects), e) ↦ rw (e, close_ephemeral) (h, tt)
]

ignored-valid :
    (local_device_id : String) (s : Announcement)
    → ignored local_device_id s ≡ false
    → valid_dial_port s.tcp_port ≡ true
unfolding ignored
ignored-valid local_device_id s h = ground arith

see_known-Justified :
    (env : Env) (driven : Bool) (s : Announcement) (a : ℕ) (t : Transport)
    → valid_dial_port s.tcp_port ≡ true
    → All (Justified s t.throttled (some (t.store.heap a))) (see_known env driven s a t).1
unfolding see_known set_name
see_known-Justified env driven s a t h =
    let d = t.store.heap a in
    elim (Bool-cases (is_connected d && should_ephemeral_close s.now d s.pairing_mode)) [
      | inl e ↦
          let idle = should_ephemeral_close-Idle s d (ground arith) in
          rw (e, see_known) (close_ephemeral-Justified s a t idle)
      | inr e ↦ elim (Bool-cases (is_state d.state paired)) [
        | inl f ↦
            rw (e, f, see_known) (see_paired-Justified driven s t.throttled a d h (ground arith))
        | inr f ↦ elim (Bool-cases (is_connected d)) [
          | inl g ↦ rw (e, f, g, see_known) (tt)
          | inr g ↦
              let name = sanitize_device_name env.unicode s.body.device_name in
              rw (e, f, g, see_known)
                (see_stranger-Justified s (set_name name d) t.throttled (some d) h
                  (λ w. (d, refl, w)) (λ e k. ground (arith, f, g, k)))
        ]
      ]
    ]

announcements-Justified :
    (s : Announcement) (t : Throttled) (es : List Event)
    → All (Justified s t none) (announcements es)
announcements-Justified s t [] = tt
announcements-Justified s t (e ∷ es) = (refl, tt)

-- A new device has no pending dial.
new-unwanted :
    (id name dtype : String) (r : Store)
    → let (r1, a) = alloc (new_device id name dtype) r in
      ((add a r1).0.heap a).pair_dial_requested ≡ false
unfolding add alloc write set_bus new_device
new-unwanted id name dtype r =
    let e : (r.next_addr == r.next_addr) ≡ true = ground arith in rw e (refl)

see_new-Justified :
    (env : Env) (s : Announcement) (t : Transport)
    → valid_dial_port s.tcp_port ≡ true
    → All (Justified s t.throttled none) (see_new env s t).1
unfolding see_new
see_new-Justified env s t h =
    let name = sanitize_device_name env.unicode s.body.device_name in
    let (r1, a) = alloc (new_device s.body.device_id name s.body.device_type) t.store in
    let (r2, events) = add a r1 in
    All-append (Justified s t.throttled none) (announcements events)
      (see_stranger s (r2.heap a) t.throttled).2 (announcements-Justified s t.throttled events)
      (see_stranger-Justified s (r2.heap a) t.throttled none h
        (λ w. absurd (cc (w, new-unwanted s.body.device_id name s.body.device_type t.store)))
        (λ e f. absurd (cc f)))

-- Everything that an announcement starts has a reason in it and in the device as it was known. Dials
-- go to the announced address and id, at a valid port. One that heeds the cooldown is of a paired device
-- whose address differs and which was not dialled within the interval, or, outside of pairing mode, of
-- one that is not paired, not connected and was never dialled to be listed, where the throttle has room.
-- One that ignores the cooldown is of a device that is not paired and not connected, in pairing mode or
-- where the user asked for it. A reconnect loop starts for a paired device only, that is not connected
-- and has no loop; and only an unpaired one that was dialled to be listed, and that nobody asked for, is
-- disconnected, outside of pairing mode.
pub on_device_found-Justified :
    (env : Env) (local_device_id : String) (driven : Bool) (s : Announcement) (t : Transport)
    → All (Justified s t.throttled (found s t)) (on_device_found env local_device_id driven s t).1
unfolding on_device_found
on_device_found-Justified env local_device_id driven s t =
    elim (Bool-cases (ignored local_device_id s)) [
      | inl e ↦ rw e (tt)
      | inr e ↦
          let h = ignored-valid local_device_id s e in
          elim (Option-cases (get s.body.device_id t.store)) [
            | inl f ↦ rw (e, f, found) (see_new-Justified env s t h)
            | inr (a, f) ↦ rw (e, f, found) (see_known-Justified env driven s a t h)
          ]
    ]
