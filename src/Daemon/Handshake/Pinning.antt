-- ===== src/Daemon/Handshake/Pinning.antt =====
-- transport_handshake.go: the fingerprint that a device is held to, and the session that it gets.
use kcd.Base.{
  ℕ, ◌≡◌, ◌⊎◌, inl, inr, refl, ap, ◌∙◌, subst, String, Bool, true, false, not, ◌&&◌, ◌||◌, none,
  some, List, if◌then◌else◌, str_eq, str_eq_iff, arith, Bool-cases, Option-cases,
}
use kcd.Protocol.{IdentityBody}
use kcd.Device.{
  Device, Conn, Certificate, PairingState, unknown, unpaired, invalid, paired, pair_requested,
  pair_requested_by_peer, is_state,
}
use kcd.Device.Discovery.{set_last_port}
use kcd.Device.Session.{connect, connect_begin, connect_finish, close_done}
use kcd.Device.Session as Session
use kcd.Device.Telemetry.{peer_cert}
use kcd.Device.Registry.{Store, Event, write}
use kcd.Daemon.{Env, fingerprint_in}
use kcd.Daemon.Handshake.{
  Refusal, live_mismatch, pinned_mismatch, pairing_mismatch, enter, Pinned, mismatched, pinned, pin,
  learn, rejected, accepted, panicked, admit,
}

-- A live link, if there is one, has the same certificate.
abbrev pub LiveAgrees : Env → String → Device → Type 0
LiveAgrees env fp d =
    (peer_cert d ≡ none)
    ⊎ ((c : Certificate) × (peer_cert d ≡ some c) × (fingerprint_in env c ≡ fp))

-- A state in which the certificate of a device is taken anew.
abbrev pub IsUnbound : PairingState → Type 0
IsUnbound s = (s ≡ unknown) ⊎ (s ≡ unpaired) ⊎ (s ≡ invalid)

-- The certificate is the pinned one, or none is pinned, or the device is in no state that pins it.
abbrev pub PinAgrees : String → Device → Type 0
PinAgrees fp d = (d.cert_fp ≡ fp) ⊎ (d.cert_fp ≡ "") ⊎ IsUnbound d.state

-- Afterwards it is pinned, but for a paired device with nothing pinned.
abbrev pub IsPinned : String → Device → Type 0
IsPinned fp d = (d.cert_fp ≡ fp) ⊎ ((d.cert_fp ≡ "") × (d.state ≡ paired))

abbrev live_differs : Env → String → Device → Bool
live_differs env fp d = elim (peer_cert d) [
  | none ↦ false
  | some current ↦ not (str_eq (fingerprint_in env current) fp)
]

live-LiveAgrees :
    (env : Env) (fp : String) (d : Device) → live_differs env fp d ≡ false → LiveAgrees env fp d
live-LiveAgrees env fp d h = elim (Option-cases (peer_cert d)) [
  | inl e ↦ inl e
  | inr (c, e) ↦
      let h' : not (str_eq (fingerprint_in env c) fp) ≡ false = rw (e, live_differs) at h in
      inr (c, e, ground (arith, h', str_eq_iff (fingerprint_in env c) fp))
]

-- What a device is held to, from `d` to `d'`.
abbrev pub Held : String → Device → Device → Type 0
Held fp d d' = (d'.state ≡ d.state) × (d'.conn ≡ d.conn) × PinAgrees fp d × IsPinned fp d'

past :
    (t : Bool) (e : Refusal) (x : Pinned) {d' : Device}
    → (if t then mismatched e else x) ≡ pinned d'
    → (t ≡ false) × (x ≡ pinned d')
past true e x h = absurd (cc h)
past false e x h = (refl, h)

-- The switch on the state, on each of its arms.
arm_paired :
    (fp : String) (d d' : Device)
    → d.state ≡ paired
    → (if not (str_eq d.cert_fp "") && not (str_eq d.cert_fp fp)
        then mismatched pinned_mismatch
        else pinned d)
      ≡ pinned d'
    → Held fp d d'
arm_paired fp d d' s h =
    let (t, k) =
      past (not (str_eq d.cert_fp "") && not (str_eq d.cert_fp fp)) pinned_mismatch (pinned d) h in
    let e : d ≡ d' = cc k in
    let f : (d.cert_fp ≡ "") ⊎ (d.cert_fp ≡ fp) =
      ground (arith, t, str_eq_iff d.cert_fp "", str_eq_iff d.cert_fp fp) in
    subst (Held fp d) e (
      refl,
      refl,
      elim f [ inl u ↦ inr (inl u) | inr u ↦ inl u ],
      elim f [ inl u ↦ inr (u, s) | inr u ↦ inl u ],
    )

arm_pairing :
    (fp : String) (d d' : Device)
    → (if str_eq d.cert_fp ""
        then pinned (record d { cert_fp = fp })
        else (if not (str_eq d.cert_fp fp) then mismatched pairing_mismatch else pinned d))
      ≡ pinned d'
    → Held fp d d'
arm_pairing fp d d' h = elim (Bool-cases (str_eq d.cert_fp "")) [
  | inl u ↦
      let e : record d { cert_fp = fp } ≡ d' = cc (h, u) in
      let f : d.cert_fp ≡ "" = ground (arith, u, str_eq_iff d.cert_fp "") in
      subst (Held fp d) e (refl, refl, inr (inl f), inl refl)
  | inr u ↦
      let (t, k) = past (not (str_eq d.cert_fp fp)) pairing_mismatch (pinned d) (rw u at h) in
      let e : d ≡ d' = cc k in
      let f : d.cert_fp ≡ fp = ground (arith, t, str_eq_iff d.cert_fp fp) in
      subst (Held fp d) e (refl, refl, inl f, inl f)
]

arm_other :
    (fp : String) (d d' : Device)
    → IsUnbound d.state
    → pinned (record d { cert_fp = fp }) ≡ pinned d'
    → Held fp d d'
arm_other fp d d' s h =
    let e : record d { cert_fp = fp } ≡ d' = cc h in
    subst (Held fp d) e (refl, refl, inr (inr s), inl refl)

other_state :
    (s : PairingState)
    → is_state s paired ≡ false
    → (is_state s pair_requested || is_state s pair_requested_by_peer) ≡ false
    → IsUnbound s
other_state s h k = ground arith

pub pin-Held :
    (env : Env) (fp : String) (d d' : Device)
    → pin env fp d ≡ pinned d'
    → LiveAgrees env fp d × Held fp d d'
unfolding pin
pin-Held env fp d d' h =
    let (t, k) = past (live_differs env fp d) live_mismatch _ h in
    (
      live-LiveAgrees env fp d t,
      elim (Bool-cases (is_state d.state paired)) [
        | inl e ↦ arm_paired fp d d' (ground arith) (rw e at k)
        | inr e ↦
            elim (Bool-cases
              (is_state d.state pair_requested || is_state d.state pair_requested_by_peer)) [
                | inl f ↦ arm_pairing fp d d' (rw (e, f) at k)
                | inr f ↦ arm_other fp d d' (other_state d.state e f) (rw (e, f) at k)
              ]
      ],
    )

-- What of a device a session rests on, and the connection that it has.
abbrev pub Linked : Conn → Device → Device → Type 0
Linked c d d' = (d'.conn ≡ some c) × (d'.state ≡ d.state) × (d'.cert_fp ≡ d.cert_fp)

connect-Linked :
    (c : Conn) (now : ℕ) (d d' : Device) (effects : List Session.Effect)
    → connect c true true now d ≡ some (d', effects)
    → Linked c d d'
unfolding connect connect_begin connect_finish close_done
connect-Linked c now d d' effects h = ground arith

learn-kept :
    (b : IdentityBody) (d : Device)
    → ((learn b d).state ≡ d.state)
      × ((learn b d).cert_fp ≡ d.cert_fp)
      × ((learn b d).conn ≡ d.conn)
unfolding learn set_last_port
learn-kept b d = ground arith

pub write-same : (a : ℕ) (d : Device) (r : Store) → (write a d r).heap a ≡ d
unfolding write
write-same a d r = ground arith

pub Pinned-cases :
    (p : Pinned) → ((e : Refusal) × (p ≡ mismatched e)) ⊎ ((d : Device) × (p ≡ pinned d))
Pinned-cases (mismatched e) = inl (e, refl)
Pinned-cases (pinned d) = inr (d, refl)

module _ (env : Env) (b : IdentityBody) (c : Certificate) (conn : Conn) (now : ℕ) (r : Store) where
  abbrev pub entered : Store
  entered = (enter env b now r).0

  abbrev pub place : ℕ
  place = (enter env b now r).1

  abbrev pub news : List Event
  news = (enter env b now r).2

  abbrev pub fp : String
  fp = fingerprint_in env c

  pub admit-mismatched :
      (e : Refusal)
      → pin env fp (entered.heap place) ≡ mismatched e
      → admit env b c conn now r ≡ (entered, news, rejected e)
  unfolding admit
  admit-mismatched e p = rw (p, admit) (refl)

  pub admit-panicked :
      (d : Device)
      → pin env fp (entered.heap place) ≡ pinned d
      → connect conn true true now (learn b d) ≡ none
      → admit env b c conn now r ≡ (write place (learn b d) entered, news, panicked)
  unfolding admit
  admit-panicked d p q = rw (p, q, admit) (refl)

  pub admit-connected :
      (d d' : Device) (effects : List Session.Effect)
      → pin env fp (entered.heap place) ≡ pinned d
      → connect conn true true now (learn b d) ≡ some (d', effects)
      → admit env b c conn now r ≡ (write place d' entered, news, accepted place effects)
  unfolding admit
  admit-connected d d' effects p q = rw (p, q, admit) (refl)

  -- How a new connection ends, by the device that it leaves.
  pub admit-accepted :
      (a : ℕ) (effects : List Session.Effect)
      → (admit env b c conn now r).2 ≡ accepted a effects
      → (place ≡ a)
        × (d : Device) × (d' : Device) × (pin env fp (entered.heap place) ≡ pinned d)
        × Linked conn d d'
        × ((admit env b c conn now r).0 ≡ write a d' entered)
  admit-accepted a effects h = elim (Pinned-cases (pin env fp (entered.heap place))) [
    | inl (e, p) ↦ absurd (cc (ap (λ t. t.2) (admit-mismatched e p), h))
    | inr (d, p) ↦ elim (Option-cases (connect conn true true now (learn b d))) [
      | inl q ↦ absurd (cc (ap (λ t. t.2) (admit-panicked d p q), h))
      | inr ((d', effects'), q) ↦
          let z = admit-connected d d' effects' p q in
          let v : accepted place effects' ≡ accepted a effects = cc (ap (λ t. t.2) z, h) in
          let w : place ≡ a = cc v in
          let (l, m, n) = connect-Linked conn now (learn b d) d' effects' q in
          let (u, x, y) = learn-kept b d in
          (w, d, d', p, (l, m ∙ u, n ∙ x), ap (λ t. t.0) z ∙ ap (λ k. write k d' entered) w)
    ]
  ]
