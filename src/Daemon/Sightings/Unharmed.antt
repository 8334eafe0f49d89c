-- ===== src/Daemon/Sightings/Unharmed.antt =====
-- transport.go: what an announcement leaves alone on a paired device.
use kcd.Base.{
  ℕ, ◌-◌, ◌≡◌, inl, inr, refl, ◌∙◌, String, Bool, true, false, ◌&&◌, some, arith, ltb,
  if◌then◌else◌, Bool-cases, Option-cases,
}
use kcd.Device.{Device, Ip, paired, is_state, is_connected, set_last_seen, poke_reconnect}
use kcd.Device.Discovery.{
  should_discovery_dial, note_sighting, try_reconnect, reset_reconnect_attempt,
}
use kcd.Device.Registry.{get}
use kcd.Daemon.{Env}
use kcd.Daemon.Handshake.Sessions.{SameSession, write-other}
use kcd.Daemon.Sightings.{
  Announcement, Transport, should_ephemeral_close, discovery_dial_min_interval, needs_dial, redial,
  wake, see_paired, see_known, ignored, on_device_found,
}

-- The device has its session, its pinned fingerprint and its name as before.
abbrev pub Unharmed : Device → Device → Type 0
Unharmed d d' = SameSession d d' × (d'.name ≡ d.name)

Unharmed-trans : (d d' d'' : Device) → Unharmed d d' → Unharmed d' d'' → Unharmed d d''
Unharmed-trans d d' d'' (h, n) (k, m) = (k ∙ h, m ∙ n)

poke-Unharmed : (d : Device) → Unharmed d (poke_reconnect d)
unfolding poke_reconnect
poke-Unharmed d = (refl, refl)

noted-Unharmed :
    (ip : Ip) (now : ℕ) (d : Device) → Unharmed d (note_sighting ip (set_last_seen now d)).0
unfolding note_sighting set_last_seen
noted-Unharmed ip now d = (refl, refl)

reset-Unharmed : (d : Device) → Unharmed d (reset_reconnect_attempt d)
unfolding reset_reconnect_attempt
reset-Unharmed d = (refl, refl)

try-Unharmed : (d : Device) → Unharmed d (try_reconnect d).0
unfolding try_reconnect
try-Unharmed d = (refl, refl)

dialled-Unharmed :
    (interval now : ℕ) (d : Device) → Unharmed d (should_discovery_dial interval now d).0
unfolding should_discovery_dial
dialled-Unharmed interval now d = elim (Option-cases d.last_discovery_dial) [
  | inl e ↦ rw (e, should_discovery_dial) ((refl, refl))
  | inr (t, e) ↦ elim (Bool-cases (ltb (now - t) interval)) [
    | inl f ↦ rw (e, f, should_discovery_dial) ((refl, refl))
    | inr f ↦ rw (e, f, should_discovery_dial) ((refl, refl))
  ]
]

redial-Unharmed : (s : Announcement) (d : Device) → Unharmed d (redial s d).0
unfolding redial
redial-Unharmed s d = elim (Bool-cases (needs_dial s.ip d)) [
  | inl e ↦ rw e (dialled-Unharmed discovery_dial_min_interval s.now d)
  | inr e ↦ rw e ((refl, refl))
]

wake-Unharmed :
    (driven : Bool) (s : Announcement) (a : ℕ) (d : Device) → Unharmed d (wake driven s a d).0
unfolding wake
wake-Unharmed false s a d = (refl, refl)
wake-Unharmed true s a d =
    let poked = poke_reconnect d in
    let started = (try_reconnect poked).0 in
    let h = Unharmed-trans d poked started (poke-Unharmed d) (try-Unharmed poked) in
    elim (Bool-cases (is_connected d)) [
      | inl e ↦ rw e (poke-Unharmed d)
      | inr e ↦ elim (Bool-cases (try_reconnect poked).1) [
        | inl f ↦
            rw (e, f)
              (Unharmed-trans d started (reset_reconnect_attempt started) h
                (reset-Unharmed started))
        | inr f ↦ rw (e, f) (h)
      ]
    ]

see_paired-Unharmed :
    (driven : Bool) (s : Announcement) (a : ℕ) (d : Device) → Unharmed d (see_paired driven s a d).0
unfolding see_paired
see_paired-Unharmed driven s a d =
    let noted = note_sighting s.ip (set_last_seen s.now d) in
    let d1 = noted.0 in
    let d2 : Device = if noted.1 then reset_reconnect_attempt d1 else d1 in
    let d3 = (redial s d2).0 in
    let h : Unharmed d1 d2 = elim (Bool-cases noted.1) [
      | inl e ↦ rw e (reset-Unharmed d1)
      | inr e ↦ rw e ((refl, refl))
    ] in
    Unharmed-trans d d1 (see_paired driven s a d).0 (noted-Unharmed s.ip s.now d) (
      Unharmed-trans d1 d2 (see_paired driven s a d).0 h (
        Unharmed-trans d2 d3 (see_paired driven s a d).0 (redial-Unharmed s d2)
          (wake-Unharmed driven s a d3)))

not_ephemeral :
    (now : ℕ) (d : Device) (pairing_mode : Bool)
    → d.state ≡ paired
    → should_ephemeral_close now d pairing_mode ≡ false
unfolding should_ephemeral_close
not_ephemeral now d pairing_mode h = ground arith

-- An announcement that names a paired device, from whoever it comes, harms no device: each keeps its
-- state, its session, its pinned fingerprint, the address and the port that it authenticated, its
-- capabilities and its name.
pub on_device_found-Unharmed :
    (env : Env) (local_device_id : String) (driven : Bool) (s : Announcement) (t : Transport)
    (a other : ℕ)
    → get s.body.device_id t.store ≡ some a
    → (t.store.heap a).state ≡ paired
    → Unharmed
        (t.store.heap other)
        ((on_device_found env local_device_id driven s t).0.store.heap other)
unfolding on_device_found see_known
on_device_found-Unharmed env local_device_id driven s t a other h p =
    let d = t.store.heap a in
    let not_closed : (is_connected d && should_ephemeral_close s.now d s.pairing_mode) ≡ false =
      ground (arith, not_ephemeral s.now d s.pairing_mode p) in
    let is_paired : is_state d.state paired ≡ true = ground arith in
    elim (Bool-cases (ignored local_device_id s)) [
      | inl e ↦ rw e ((refl, refl))
      | inr e ↦
          rw (e, h, see_known, not_closed, is_paired)
            (write-other Unharmed (λ d. (refl, refl)) a other (see_paired driven s a d).0 t.store
              (see_paired-Unharmed driven s a d))
    ]
