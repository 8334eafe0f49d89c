-- ===== src/Daemon/Dial/Reach.antt =====
-- transport_dial.go: whom a dial reaches.
use kcd.Base.{
  ℕ, ◌≡◌, ◌≢◌, ◌⊎◌, inl, inr, refl, sym, ap, ◌∙◌, subst, Bool, true, false, not, ◌||◌, Option, none,
  some, List, [], arith, if◌then◌else◌, is_some, Bool-cases, Option-cases,
}
use kcd.Protocol.{IdentityBody}
use kcd.Device.{Certificate, Conn}
use kcd.Device.Session as Session
use kcd.Device.Discovery.{in_cooldown}
use kcd.Device.Registry.{Store, Event, get}
use kcd.Daemon.{Env, valid_dial_port}
use kcd.Daemon.Handshake.{Verdict, accepted, handle_new_connection}
use kcd.Daemon.Handshake.Authentic.{Proved, Agrees}
use kcd.Daemon.Handshake.Sessions.{Admitted, handle_new_connection-accepted}
use kcd.Daemon.Dial.{
  Target, Attempt, Dialled, bad_target, cooling_down, unreachable, write_failed, ended,
  clamp_version, expected_identity, pre_tls_identity, cooling, exchange_of, dial,
}

-- A target that may be dialled: an address and a port, and a device that is not in its cooldown,
-- unless the dial is forced.
abbrev pub Permitted : Target → ℕ → Store → Type 0
Permitted target now r =
    (is_some target.ip ≡ true)
    × (valid_dial_port target.port ≡ true)
    × ((target.force ≡ true)
        ⊎ (get target.id r ≡ none)
        ⊎ ((a : ℕ) × (get target.id r ≡ some a) × (in_cooldown now (r.heap a) ≡ false)))

abbrev Result : Type 0
Result = Store × List Event × Option IdentityBody × Dialled

-- A chain of refusals that ended in a verdict is past the first of them.
past :
    (t : Bool) (x y : Result) {v : Verdict}
    → (x.3 ≡ ended v → ⊥)
    → (if t then x else y).3 ≡ ended v
    → (t ≡ false) × ((if t then x else y) ≡ y)
past true x y f h = absurd (f h)
past false x y f h = (refl, refl)

cooling-Permitted :
    (target : Target) (now : ℕ) (r : Store)
    → cooling target now r ≡ false
    → (target.force ≡ true)
      ⊎ (get target.id r ≡ none)
      ⊎ ((a : ℕ) × (get target.id r ≡ some a) × (in_cooldown now (r.heap a) ≡ false))
unfolding cooling
cooling-Permitted target now r h = elim (Bool-cases target.force) [
  | inl e ↦ inl e
  | inr e ↦ elim (Option-cases (get target.id r)) [
    | inl f ↦ inr (inl f)
    | inr (a, f) ↦ inr (inr (a, f, rw (e, f, cooling) at h))
  ]
]

clamp_version-pos : (version : ℕ) → clamp_version version ≢ 0
unfolding clamp_version
clamp_version-pos version h = ground arith

expected-version :
    (target : Target) → (expected_identity target).protocol_version ≡ clamp_version target.version
unfolding expected_identity
expected-version target = refl

-- The dial once nothing stood in its way.
handled :
    (env : Env) (me : IdentityBody) (target : Target) (attempt : Attempt) (now : ℕ) (r : Store)
    (v : Verdict)
    → (dial env me target attempt now r).3 ≡ ended v
    → (conn : Conn) × Permitted target now r
      × (let (r', events, verdict) =
            handle_new_connection env (exchange_of target attempt) conn now r in
          (verdict ≡ v) × ((dial env me target attempt now r).0 ≡ r'))
unfolding dial
handled env me target attempt now r v h =
    let (good, e) =
      past (not (is_some target.ip) || not (valid_dial_port target.port)) (r, [], none, bad_target)
        _ (λ k. cc k) h in
    let h1 = sym (ap (λ t. t.3) e) ∙ h in
    let (warm, e1) = past (cooling target now r) (r, [], none, cooling_down) _ (λ k. cc k) h1 in
    let h2 = sym (ap (λ t. t.3) e1) ∙ h1 in
    let (reached, e2) = past (not attempt.reached) (r, [], none, unreachable) _ (λ k. cc k) h2 in
    let h3 = sym (ap (λ t. t.3) e2) ∙ h2 in
    let (written, e3) =
      past (not attempt.identity_written) (r, [], some (pre_tls_identity me target), write_failed) _
        (λ k. cc k) h3 in
    let h4 = sym (ap (λ t. t.3) e3) ∙ h3 in
    let whole = e ∙ e1 ∙ e2 ∙ e3 in
    elim (Option-cases attempt.secured) [
      | inl q ↦ absurd (cc (rw q at h4))
      | inr (conn, q) ↦
          let z : ended (handle_new_connection env (exchange_of target attempt) conn now r).2
              ≡ ended v =
            rw q at h4 in
          (
            conn,
            (ground arith, ground arith, cooling-Permitted target now r warm),
            (cc z, ap (λ t. t.0) whole ∙ rw q (refl)),
          )
    ]

same_version :
    (target : Target) (b : IdentityBody)
    → (pre : IdentityBody) × (◌≡◌ {A = Option IdentityBody}
        (some (expected_identity target))
        (some pre))
      × Agrees pre b
    → b.protocol_version ≡ clamp_version target.version
same_version target b (pre, e, agrees) =
    let p : expected_identity target ≡ pre = cc e in
    let v : pre.protocol_version ≡ clamp_version target.version =
      sym (ap (λ (z : IdentityBody). z.protocol_version) p) ∙ expected-version target in
    elim (agrees.1) [
      | inl z ↦ absurd (clamp_version-pos target.version (sym v ∙ z))
      | inr z ↦ z ∙ v
    ]

-- A dial that ends with a session reached the device that it was for, if it was for one: the peer
-- proved an identity that has this id and the version that was asked for, and the session is
-- registered under the id. The dial was made to an address and a port, and to a device in its cooldown
-- only if it was forced.
pub dial-accepted :
    (env : Env) (me : IdentityBody) (target : Target) (attempt : Attempt) (now : ℕ) (r : Store)
    (a : ℕ) (effects : List Session.Effect)
    → let (r', events, sent, end) = dial env me target attempt now r in
      end ≡ ended (accepted a effects)
      → Permitted target now r
        × (conn : Conn) × (b : IdentityBody) × (c : Certificate) × Proved env
            (exchange_of target attempt)
            conn.peer_cert
            b
            c
        × Admitted env b c conn r r' a
        × ((target.id ≡ "") ⊎ (b.device_id ≡ target.id))
        × (b.protocol_version ≡ clamp_version target.version)
dial-accepted env me target attempt now r a effects h =
    let (conn, permitted, (e, z)) = handled env me target attempt now r (accepted a effects) h in
    let (b, c, proved, admitted) =
      handle_new_connection-accepted env (exchange_of target attempt) conn now r a effects e in
    (
      permitted,
      conn,
      b,
      c,
      proved,
      subst (λ t. Admitted env b c conn r t a) (sym z) admitted,
      proved.expected,
      same_version target b proved.agrees,
    )
