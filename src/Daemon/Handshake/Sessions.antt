-- ===== src/Daemon/Handshake/Sessions.antt =====
-- transport_handshake.go: the store after a handshake that was accepted, and after one that was not.
use kcd.Base.{
  ℕ, Option, ◌≡◌, ◌≢◌, ◌⊎◌, inl, inr, refl, sym, ap, ◌∙◌, subst, String, Bool, true, false, none,
  some, List, [], ◌==◌, if◌then◌else◌, str_eq_refl, arith, Bool-cases, Option-cases, lookup,
  lookup-insert,
}
use kcd.Protocol.{IdentityBody, Packet}
use kcd.Protocol.Names.{sanitize_device_name}
use kcd.Device.{
  Ip, PairingState, Device, Conn, Certificate, unpaired, new_device, set_name, set_bus,
  set_peer_protocol_version, set_last_seen,
}
use kcd.Device.Session.{connect}
use kcd.Device.Session as Session
use kcd.Device.Registry.{Store, alloc, write, add, get}
use kcd.Device.Telemetry.{peer_cert}
use kcd.Daemon.{Env, fingerprint_in}
use kcd.Daemon.Handshake.{
  Exchange, Refusal, Checked, greet, refused, passed, check_identity, enter, pin, learn, rejected,
  accepted, admit, handle_new_connection,
}
use kcd.Daemon.Handshake.Authentic.{Proved, check_identity-Proved}
use kcd.Daemon.Handshake.Pinning.{
  LiveAgrees, PinAgrees, IsPinned, pin-Held, write-same, admit-accepted, Pinned-cases,
  admit-mismatched, admit-connected, admit-panicked,
}

-- A device that was not known, and one that was: the certificate is that of its live link, if it has
-- one, and the pinned one, if one is pinned.
abbrev pub Newcomer : IdentityBody → Store → Device → Type 0
Newcomer b r d = (get b.device_id r ≡ none) × (d.state ≡ unpaired)

abbrev pub Acquainted : Env → IdentityBody → Certificate → Store → ℕ → Device → Type 0
Acquainted env b c r a d =
    (get b.device_id r ≡ some a)
    × LiveAgrees env (fingerprint_in env c) (r.heap a)
    × PinAgrees (fingerprint_in env c) (r.heap a)
    × (d.state ≡ (r.heap a).state)

-- The store `r'` after the peer of `b` and `c` got its session at the address `a`.
pub record Admitted (env : Env) (b : IdentityBody) (c : Certificate) (conn : Conn) (r r' : Store)
    (a : ℕ) : Type 0 where
  registered : get b.device_id r' ≡ some a
  linked : (r'.heap a).conn ≡ some conn
  held : IsPinned (fingerprint_in env c) (r'.heap a)
  standing : Newcomer b r (r'.heap a) ⊎ Acquainted env b c r a (r'.heap a)

abbrev renamed : Env → IdentityBody → ℕ → Device → Device
renamed env b now d = greet b now (set_name (sanitize_device_name env.unicode b.device_name) d)

abbrev fresh : Env → IdentityBody → ℕ → Bool → Device
fresh env b now has_bus = greet b now (
    set_bus has_bus
      (new_device b.device_id (sanitize_device_name env.unicode b.device_name) b.device_type))

enter-known :
    (env : Env) (b : IdentityBody) (now : ℕ) (r : Store) (a : ℕ)
    → get b.device_id r ≡ some a
    → enter env b now r ≡ (write a (renamed env b now (r.heap a)) r, a, [])
unfolding enter
enter-known env b now r a h = rw (h, enter) (refl)

-- The store and the address after a new device is made.
abbrev made : Env → IdentityBody → Store → Store × ℕ
made env b r =
    alloc (new_device b.device_id (sanitize_device_name env.unicode b.device_name) b.device_type) r

abbrev added : Env → IdentityBody → Store → Store
added env b r = let (r1, a) = made env b r in (add a r1).0

added-heap :
    (env : Env) (b : IdentityBody) (now : ℕ) (r : Store)
    → greet b now ((added env b r).heap (made env b r).1) ≡ fresh env b now r.has_bus
unfolding add write alloc
added-heap env b now r = ap (greet b now) (ground arith)

added-get :
    (env : Env) (b : IdentityBody) (r : Store)
    → get b.device_id (added env b r) ≡ some (made env b r).1
unfolding add write alloc get set_bus new_device
added-get env b r =
    let e : (r.next_addr == r.next_addr) ≡ true = ground arith in
    rw e (
      lookup-insert b.device_id b.device_id r.next_addr r.devices
      ∙ ap (λ t. if t then some r.next_addr else lookup b.device_id r.devices)
          (str_eq_refl b.device_id))

get-write : (id : String) (a : ℕ) (d : Device) (r : Store) → get id (write a d r) ≡ get id r
unfolding get write
get-write id a d r = refl

enter-new :
    (env : Env) (b : IdentityBody) (now : ℕ) (r : Store)
    → get b.device_id r ≡ none
    → ((enter env b now r).0.heap (enter env b now r).1 ≡ fresh env b now r.has_bus)
      × (get b.device_id (enter env b now r).0 ≡ some (enter env b now r).1)
unfolding enter
enter-new env b now r h =
    let a = (made env b r).1 in
    let r2 = added env b r in
    rw (h, enter)
      (
        write-same a (greet b now (r2.heap a)) r2 ∙ added-heap env b now r,
        get-write b.device_id a (greet b now (r2.heap a)) r2 ∙ added-get env b r,
      )

-- The session of a device, what it is held to, and what was learned of it.
abbrev pub session :
    Device
    → PairingState
      × String
      × Option Conn
      × List Packet
      × ℕ
      × List ℕ
      × Ip
      × ℕ
      × List String
      × List String
session d = (
  d.state, d.cert_fp, d.conn, d.send_chan, d.done, d.closed, d.last_ip, d.last_port,
  d.incoming_caps, d.outgoing_caps,
)

abbrev pub SameSession : Device → Device → Type 0
SameSession d d' = session d' ≡ session d

renamed-SameSession :
    (env : Env) (b : IdentityBody) (now : ℕ) (d : Device) → SameSession d (renamed env b now d)
unfolding greet set_name set_peer_protocol_version set_last_seen
renamed-SameSession env b now d = refl

fresh-state :
    (env : Env) (b : IdentityBody) (now : ℕ) (has_bus : Bool)
    → (fresh env b now has_bus).state ≡ unpaired
unfolding greet set_bus new_device set_peer_protocol_version set_last_seen
fresh-state env b now has_bus = refl

-- The device on which the fingerprint is checked, and how it stood before.
abbrev Standing : IdentityBody → Store → Store → ℕ → Type 0
Standing b r r1 a =
    ((get b.device_id r ≡ none) × ((r1.heap a).state ≡ unpaired))
    ⊎ ((get b.device_id r ≡ some a)
        × ((r1.heap a).state ≡ (r.heap a).state)
        × ((r1.heap a).cert_fp ≡ (r.heap a).cert_fp)
        × ((r1.heap a).conn ≡ (r.heap a).conn))

enter-Standing :
    (env : Env) (b : IdentityBody) (now : ℕ) (r : Store)
    → let (r1, a, events) = enter env b now r in (get b.device_id r1 ≡ some a) × Standing b r r1 a
enter-Standing env b now r = elim (Option-cases (get b.device_id r)) [
  | inl e ↦
      let (h, k) = enter-new env b now r e in
      (k, inl (e, ap (λ d. d.state) h ∙ fresh-state env b now r.has_bus))
  | inr (a, e) ↦
      let w = write-same a (renamed env b now (r.heap a)) r in
      let same =
        subst (SameSession (r.heap a)) (sym w) (renamed-SameSession env b now (r.heap a)) in
      rw (enter-known env b now r a e) (
        get-write b.device_id a (renamed env b now (r.heap a)) r ∙ e,
        inr (e, ap (λ t. t.0) same, ap (λ t. t.1) same, ap (λ t. t.2) same),
      )
]

module _ (env : Env) (b : IdentityBody) (c : Certificate) where
  -- What was agreed on the entered device was agreed on the device as it was.
  LiveAgrees-conn :
      (d d' : Device)
      → d'.conn ≡ d.conn
      → LiveAgrees env (fingerprint_in env c) d'
      → LiveAgrees env (fingerprint_in env c) d
  unfolding peer_cert
  LiveAgrees-conn d d' e h = rw e at h

  IsPinned-same :
      (d d' : Device)
      → d'.state ≡ d.state
      → d'.cert_fp ≡ d.cert_fp
      → IsPinned (fingerprint_in env c) d
      → IsPinned (fingerprint_in env c) d'
  IsPinned-same d d' s f h = elim h [ inl e ↦ inl (f ∙ e) | inr (e, p) ↦ inr (f ∙ e, s ∙ p) ]

  PinAgrees-same :
      (d d' : Device)
      → d'.state ≡ d.state
      → d'.cert_fp ≡ d.cert_fp
      → PinAgrees (fingerprint_in env c) d'
      → PinAgrees (fingerprint_in env c) d
  PinAgrees-same d d' s f h = elim h [
    | inl e ↦ inl (sym f ∙ e)
    | inr (inl e) ↦ inr (inl (sym f ∙ e))
    | inr (inr (inl e)) ↦ inr (inr (inl (sym s ∙ e)))
    | inr (inr (inr (inl e))) ↦ inr (inr (inr (inl (sym s ∙ e))))
    | inr (inr (inr (inr e))) ↦ inr (inr (inr (inr (sym s ∙ e))))
  ]

  -- The device as it stands after the fingerprint agreed, from `d1`, which was entered, to `d2`.
  settled :
      (r r1 : Store) (a : ℕ) (d2 : Device)
      → Standing b r r1 a
      → LiveAgrees env (fingerprint_in env c) (r1.heap a)
      → PinAgrees (fingerprint_in env c) (r1.heap a)
      → d2.state ≡ (r1.heap a).state
      → Newcomer b r d2 ⊎ Acquainted env b c r a d2
  settled r r1 a d2 (inl (e, s)) live agrees t = inl (e, t ∙ s)
  settled r r1 a d2 (inr (e, s, f, n)) live agrees t = inr (
    e,
    LiveAgrees-conn (r.heap a) (r1.heap a) n live,
    PinAgrees-same (r.heap a) (r1.heap a) s f agrees,
    t ∙ s,
  )

  admit-Admitted :
      (conn : Conn) (now : ℕ) (r : Store) (a : ℕ) (effects : List Session.Effect)
      → (admit env b c conn now r).2 ≡ accepted a effects
      → Admitted env b c conn r (admit env b c conn now r).0 a
  admit-Admitted conn now r a effects h =
      let (p, d, d', q, (linked, s, f), w) = admit-accepted env b c conn now r a effects h in
      let r1 = (enter env b now r).0 in
      let d1 = r1.heap a in
      let (live, (s', n, agrees, pinned_now)) =
        pin-Held env (fingerprint_in env c) d1 d
          (ap (λ k. pin env (fingerprint_in env c) (r1.heap k)) (sym p) ∙ q) in
      let (k, standing) = enter-Standing env b now r in
      let same = write-same a d' r1 in
      let z : (admit env b c conn now r).0.heap a ≡ d' = ap (λ t. t.heap a) w ∙ same in
      record {
        registered = ap (get b.device_id) w ∙ get-write b.device_id a d' r1 ∙ k ∙ ap some p;
        linked = ap (λ t. t.conn) z ∙ linked;
        held = subst (IsPinned (fingerprint_in env c)) (sym z) (IsPinned-same d d' s f pinned_now);
        standing =
            subst (λ t. Newcomer b r t ⊎ Acquainted env b c r a t) (sym z)
              (settled r r1 a d' (subst (Standing b r r1) p standing) live agrees (s ∙ s'));
      }

-- What entering the peer does to the other devices, and to its own.
pub write-other :
    (P : Device → Device → Type 0)
    → ((d : Device) → P d d)
    → (a other : ℕ) (d : Device) (r : Store) → P (r.heap a) d
    → P (r.heap other) ((write a d r).heap other)
unfolding write
write-other P same a other d r h = elim (Bool-cases (a == other)) [
  | inl e ↦ let p : a ≡ other = ground arith in rw e (subst (λ k. P (r.heap k) d) p h)
  | inr e ↦ rw e (same (r.heap other))
]

added-other :
    (env : Env) (b : IdentityBody) (d : Device) (r : Store) (other : ℕ)
    → other ≢ r.next_addr
    → (write (made env b r).1 d (added env b r)).heap other ≡ r.heap other
unfolding write add alloc
added-other env b d r other h = let e : (r.next_addr == other) ≡ false = ground arith in rw e (refl)

enter-other :
    (env : Env) (b : IdentityBody) (now : ℕ) (r : Store) (other : ℕ)
    → other ≢ r.next_addr
    → SameSession (r.heap other) ((enter env b now r).0.heap other)
unfolding enter
enter-other env b now r other h = elim (Option-cases (get b.device_id r)) [
  | inl e ↦
      let d = greet b now ((added env b r).heap (made env b r).1) in
      rw (e, enter)
        (subst (SameSession (r.heap other)) (sym (added-other env b d r other h)) (refl))
  | inr (a, e) ↦
      rw (e, enter)
        (write-other SameSession (λ d. refl) a other (renamed env b now (r.heap a)) r
          (renamed-SameSession env b now (r.heap a)))
]

admit-rejected :
    (env : Env) (b : IdentityBody) (c : Certificate) (conn : Conn) (now : ℕ) (r : Store)
    (e : Refusal)
    → (admit env b c conn now r).2 ≡ rejected e
    → (admit env b c conn now r).0 ≡ (enter env b now r).0
admit-rejected env b c conn now r e h =
    let (r1, a, events) = enter env b now r in
    elim (Pinned-cases (pin env (fingerprint_in env c) (r1.heap a))) [
      | inl (f, p) ↦ ap (λ t. t.0) (admit-mismatched env b c conn now r f p)
      | inr (d, p) ↦ elim (Option-cases (connect conn true true now (learn b d))) [
        | inl q ↦ absurd (cc (ap (λ t. t.2) (admit-panicked env b c conn now r d p q), h))
        | inr ((d', effects), q) ↦
            absurd (cc (ap (λ t. t.2) (admit-connected env b c conn now r d d' effects p q), h))
      ]
    ]

Checked-cases :
    (k : Checked)
    → ((e : Refusal) × (k ≡ refused e))
      ⊎ ((b : IdentityBody) × (c : Certificate) × (k ≡ passed b c))
Checked-cases (refused e) = inl (e, refl)
Checked-cases (passed b c) = inr (b, c, refl)

module _ (env : Env) (x : Exchange) (conn : Conn) (now : ℕ) (r : Store) where
  handle-refused :
      (e : Refusal)
      → check_identity env x conn.peer_cert ≡ refused e
      → handle_new_connection env x conn now r ≡ (r, [], rejected e)
  unfolding handle_new_connection
  handle-refused e h = rw (h, handle_new_connection) (refl)

  handle-passed :
      (b : IdentityBody) (c : Certificate)
      → check_identity env x conn.peer_cert ≡ passed b c
      → handle_new_connection env x conn now r ≡ admit env b c conn now r
  unfolding handle_new_connection
  handle-passed b c h = rw (h, handle_new_connection) (refl)

-- A peer gets a session only where it proved who it is, by a certificate for the id in the identity
-- that it sent, which is the id that was expected. The session is then the device's connection, in the
-- registry under that id, and the device is held to the certificate, but for one that is paired with
-- no fingerprint pinned. A device that was known keeps its state, and had no live link with another
-- certificate and no other fingerprint pinned, unless its state pins none; one that was not known is
-- unpaired.
pub handle_new_connection-accepted :
    (env : Env) (x : Exchange) (conn : Conn) (now : ℕ) (r : Store) (a : ℕ)
    (effects : List Session.Effect)
    → let (r', events, verdict) = handle_new_connection env x conn now r in
      verdict ≡ accepted a effects
      → (b : IdentityBody) × (c : Certificate) × Proved env x conn.peer_cert b c
        × Admitted env b c conn r r' a
handle_new_connection-accepted env x conn now r a effects h =
    elim (Checked-cases (check_identity env x conn.peer_cert)) [
      | inl (e, p) ↦ absurd (cc (ap (λ t. t.2) (handle-refused env x conn now r e p), h))
      | inr (b, c, p) ↦
          let z = handle-passed env x conn now r b c p in
          (
            b,
            c,
            check_identity-Proved env x conn.peer_cert b c p,
            subst (λ t. Admitted env b c conn r t.0 a) (sym z)
                (admit-Admitted env b c conn now r a effects (sym (ap (λ t. t.2) z) ∙ h)),
          )
    ]

-- A peer that is refused takes no session and gives none: whatever the reason, every device of before,
-- its own included, keeps its state, its connection, its queue, the fingerprint that it is held to, its
-- address and its capabilities. Its name, its version and the time when it was last seen may change.
pub handle_new_connection-rejected :
    (env : Env) (x : Exchange) (conn : Conn) (now : ℕ) (r : Store) (e : Refusal) (other : ℕ)
    → let (r', events, verdict) = handle_new_connection env x conn now r in
      verdict ≡ rejected e → other ≢ r.next_addr → SameSession (r.heap other) (r'.heap other)
handle_new_connection-rejected env x conn now r e other h old =
    elim (Checked-cases (check_identity env x conn.peer_cert)) [
      | inl (f, p) ↦
          subst (λ t. SameSession (r.heap other) (t.0.heap other))
            (sym (handle-refused env x conn now r f p)) (refl)
      | inr (b, c, p) ↦
          let z = handle-passed env x conn now r b c p in
          let w = admit-rejected env b c conn now r e (sym (ap (λ t. t.2) z) ∙ h) in
          subst (λ t. SameSession (r.heap other) (t.heap other)) (sym (ap (λ t. t.0) z ∙ w))
            (enter-other env b now r other old)
    ]
