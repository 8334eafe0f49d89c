-- ===== src/Device/Discovery/Dials.antt =====
-- device_discovery.go: how often a device is dialled, and when it counts as roamed.
use kcd.Base.{
  ℕ, ◌+◌, ◌-◌, ◌≤◌, ◌<◌, ◌≡◌, ◌≢◌, ◌↔◌, ◌⊎◌, refl, Bool, true, false, Option, none, some, List, [],
  ◌∷◌, arith, ltb, ◌==◌, if◌then◌else◌, Option-cases, Bool-cases, inl, inr,
}
use kcd.Device.{Ip, Device, Conn}
use kcd.Device.Session.{Effect, connect, disconnect}
use kcd.Device.Discovery.{
  request_pair_dial, consume_pair_dial, pair_dial_active, clear_pair_dial, pair_dial_pending,
  should_discovery_dial, in_cooldown, note_sighting, ip_equal,
}

-- Sightings at the given times: the device after them, and the times that were allowed to dial.
unfoldable pub sightings : ℕ → List ℕ → Device → Device × List ℕ
sightings min_interval [] d = (d, [])
sightings min_interval (t ∷ ts) d =
    let (d1, dial) = should_discovery_dial min_interval t d in
    let (d2, dials) = sightings min_interval ts d1 in (d2, if dial then t ∷ dials else dials)

-- Each time is at least `gap` after the one before, and the first after `last`, if there is one.
abbrev pub Spaced : ℕ → Option ℕ → List ℕ → Type 0
Spaced gap last [] = Unit
Spaced gap none (t ∷ ts) = Spaced gap (some t) ts
Spaced gap (some l) (t ∷ ts) = (l + gap ≤ t) × Spaced gap (some t) ts

sighted_recently :
    (gap t : ℕ) (ts : List ℕ) (d : Device)
    → (should_discovery_dial gap t d) ≡ (d, false)
    → sightings gap (t ∷ ts) d ≡ sightings gap ts d
unfolding sightings
sighted_recently gap t ts d e = rw (e, sightings)

sighted_anew :
    (gap t : ℕ) (ts : List ℕ) (d : Device)
    → (should_discovery_dial gap t d) ≡ (record d { last_discovery_dial = some t }, true)
    → (sightings gap (t ∷ ts) d).1
      ≡ t ∷ (sightings gap ts (record d { last_discovery_dial = some t })).1
unfolding sightings
sighted_anew gap t ts d e = rw (e, sightings)

dial_cases :
    (gap t : ℕ) (d : Device) (last : Option ℕ)
    → d.last_discovery_dial ≡ last
    → 0 < gap
    → (should_discovery_dial gap t d ≡ (d, false))
      ⊎ ((should_discovery_dial gap t d ≡ (record d { last_discovery_dial = some t }, true))
          × Spaced gap last (t ∷ []))
unfolding should_discovery_dial
dial_cases gap t d none e p = inr (ground arith, tt)
dial_cases gap t d (some l) e p = elim (Bool-cases (ltb (t - l) gap)) [
  | inl recent ↦ inl (ground arith)
  | inr far ↦ inr (ground arith, (ground arith, tt))
]

Spaced-cons :
    (gap t : ℕ) (last : Option ℕ) (ts : List ℕ)
    → Spaced gap last (t ∷ [])
    → Spaced gap (some t) ts
    → Spaced gap last (t ∷ ts)
Spaced-cons gap t none ts h k = k
Spaced-cons gap t (some l) ts h k = (h.0, k)

-- Whatever sightings arrive and whenever, the dials that they trigger are at least the interval
-- (not 0) apart, counting the device's last dial before them.
pub sightings-Spaced :
    (min_interval : ℕ) (ts : List ℕ) (d : Device)
    → 0 < min_interval
    → Spaced min_interval d.last_discovery_dial (sightings min_interval ts d).1
sightings-Spaced min_interval [] d p = unfold sightings in tt
sightings-Spaced min_interval (t ∷ ts) d p =
    elim (dial_cases min_interval t d d.last_discovery_dial refl p) [
      | inl e ↦ rw (sighted_recently min_interval t ts d e) (sightings-Spaced min_interval ts d p)
      | inr (e, far) ↦ rw (sighted_anew min_interval t ts d e) (
          Spaced-cons min_interval t d.last_discovery_dial _ far
            (sightings-Spaced min_interval ts (record d { last_discovery_dial = some t }) p))
    ]

ip_equal_iff : (a b : Ip) → (ip_equal a b ≡ true) ↔ (a ≡ b)
unfolding ip_equal
ip_equal_iff none none = (λ h. refl, λ h. refl)
ip_equal_iff (some a) (some b) = ground arith
ip_equal_iff none (some b) = ground arith
ip_equal_iff (some a) none = ground arith

-- Of two sightings in a row, the second reports a roam exactly when both show the same address and
-- it is not the (known) address of the last connection.
pub note_sighting_twice_iff :
    (a b : Ip) (d : Device)
    → ((note_sighting b (note_sighting a d).0).1 ≡ true)
      ↔ ((a ≡ b) × ((d.last_ip ≡ none) ⊎ (d.last_ip ≢ b)))
unfolding note_sighting
note_sighting_twice_iff a b d = elim (Option-cases d.last_ip) [
  | inl e ↦ ground (arith, ip_equal_iff b a)
  | inr (l, e) ↦ ground (arith, ip_equal_iff b a, ip_equal_iff (some l) b)
]

-- An explicit pair request triggers one dial: the first to ask gets it, a second does not; the intent
-- lasts for the time to live (five minutes where none is given), unless it is cleared.
pub request_pair_dial_once :
    (ttl now later : ℕ) (d : Device)
    → let d1 = request_pair_dial ttl now d in
      let (d2, first) = consume_pair_dial d1 in
      (first ≡ true)
      × ((consume_pair_dial d2).1 ≡ false)
      × (pair_dial_active later d2 ≡ ltb later (now + (if ttl == 0 then 300000000000 else ttl)))
      × (pair_dial_active later (clear_pair_dial d2) ≡ false)
      × (pair_dial_pending (clear_pair_dial d1) ≡ false)
unfolding request_pair_dial consume_pair_dial pair_dial_active clear_pair_dial pair_dial_pending
request_pair_dial_once ttl now later d = ground arith

-- A handshake that completes at `now` keeps the device in cooldown for one second, and a disconnect
-- ends the cooldown at once.
pub in_cooldown-connect :
    (c : Conn) (f g : Bool) (now later last : ℕ) (d d1 d2 : Device) (e1 e2 : List Effect)
    → connect c f g now d ≡ some (d1, e1)
    → disconnect last d1 ≡ some (d2, e2)
    → (in_cooldown later d1 ≡ ltb (later - now) 1000000000) × (in_cooldown later d2 ≡ false)
unfolding connect disconnect in_cooldown
in_cooldown-connect c f g now later last d d1 d2 e1 e2 h k = ground arith
