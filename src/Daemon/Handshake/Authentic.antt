-- ===== src/Daemon/Handshake/Authentic.antt =====
-- transport_handshake.go: who gets a session, and what a refused peer leaves behind.
use kcd.Base.{
  ◌≡◌, ◌⊎◌, inl, inr, refl, ap, subst, String, Bool, true, false, not, ◌&&◌, Option, none, some,
  if◌then◌else◌, str_eq, str_eq_iff, arith, Bool-cases, Option-cases,
}
use kcd.Protocol.{Packet, IdentityBody, type_identity}
use kcd.Protocol.Names.{valid_device_id}
use kcd.Device.{Certificate}
use kcd.Cert.{matches_device_id}
use kcd.Daemon.{Env}
use kcd.Daemon.Handshake.{
  Exchange, Refusal, invalid_id, identity_differs, wrong_target, not_identity, deadline_failed,
  write_failed, Checked, refused, passed, differs, check_certificate, check_body, check_packet,
  check_identity,
}

-- The identity after the TLS handshake says what the one before it said.
abbrev pub Agrees : IdentityBody → IdentityBody → Type 0
Agrees pre b =
    ((pre.device_id ≡ "") ⊎ (b.device_id ≡ pre.device_id))
    × ((pre.protocol_version ≡ 0) ⊎ (b.protocol_version ≡ pre.protocol_version))

-- What a peer has proved: a certificate for the valid id that its identity packet names, where that
-- is the id that was expected, if one was.
pub record Proved (env : Env) (x : Exchange) (cert : Option Certificate) (b : IdentityBody)
    (c : Certificate) : Type 0 where
  pub packet : Packet
  pub received : x.received ≡ some packet
  pub typ : packet.typ ≡ type_identity
  pub decoded : env.decode packet.body ≡ some b
  pub valid : valid_device_id b.device_id ≡ true
  pub expected : (x.expected_peer_id ≡ "") ⊎ (b.device_id ≡ x.expected_peer_id)
  pub agrees : (pre : IdentityBody) × (x.pre_tls ≡ some pre) × Agrees pre b
  pub presented : cert ≡ some c
  pub named : matches_device_id (some c) b.device_id ≡ true

differs-Agrees : (pre b : IdentityBody) → differs pre b ≡ false → Agrees pre b
unfolding differs
differs-Agrees pre b h = (
  ground (arith, str_eq_iff pre.device_id "", str_eq_iff b.device_id pre.device_id),
  ground arith,
)

-- A chain of checks that passed is past the first of them.
past :
    (t : Bool) (e : Refusal) (x : Checked) {b : IdentityBody} {c : Certificate}
    → (if t then refused e else x) ≡ passed b c
    → (t ≡ false) × (x ≡ passed b c)
past true e x h = absurd (cc h)
past false e x h = (refl, h)

check_certificate-passed :
    (b b' : IdentityBody) (cert : Option Certificate) (c : Certificate)
    → check_certificate b cert ≡ passed b' c
    → (b ≡ b') × (cert ≡ some c) × (matches_device_id (some c) b'.device_id ≡ true)
unfolding check_certificate
check_certificate-passed b b' none c h = absurd (cc h)
check_certificate-passed b b' (some d) c h =
    elim (Bool-cases (matches_device_id (some d) b.device_id)) [
      | inl e ↦
          let h' : passed b d ≡ passed b' c = rw e at h in
          let p : b ≡ b' = cc h' in
          let q : d ≡ c = cc h' in
          (
            p,
            ap some q,
            cc (
              ap (λ (z : Certificate). matches_device_id (some z) b.device_id) q,
              ap (λ (z : IdentityBody). matches_device_id (some c) z.device_id) p,
              e,
            ),
          )
      | inr e ↦ absurd (cc (h, e))
    ]

abbrev Vouched :
    IdentityBody → IdentityBody → String → Option Certificate → IdentityBody → Certificate → Type 0
Vouched pre b expected cert b' c =
    (b ≡ b')
    × (valid_device_id b.device_id ≡ true)
    × ((expected ≡ "") ⊎ (b.device_id ≡ expected))
    × Agrees pre b
    × (cert ≡ some c)
    × (matches_device_id (some c) b.device_id ≡ true)

check_body-passed :
    (pre b b' : IdentityBody) (expected : String) (cert : Option Certificate) (c : Certificate)
    → check_body pre b expected cert ≡ passed b' c
    → Vouched pre b expected cert b' c
unfolding check_body
check_body-passed pre b b' expected cert c h =
    let (valid, k) = past (not (valid_device_id b.device_id)) invalid_id _ h in
    let (same, k') = past (differs pre b) identity_differs _ k in
    let (target, k'') =
      past (not (str_eq expected "") && not (str_eq b.device_id expected)) wrong_target _ k' in
    let (p, q, n) = check_certificate-passed b b' cert c k'' in
    (
      p,
      ground (arith, valid),
      ground (arith, target, str_eq_iff expected "", str_eq_iff b.device_id expected),
      differs-Agrees pre b same,
      q,
      cc (ap (λ (z : IdentityBody). matches_device_id (some c) z.device_id) p, n),
    )

check_packet-Proved :
    (env : Env) (x : Exchange) (p : Packet) (cert : Option Certificate) (b : IdentityBody)
    (c : Certificate)
    → x.received ≡ some p
    → check_packet env x p cert ≡ passed b c
    → Proved env x cert b c
unfolding check_packet
check_packet-Proved env x p cert b c r h =
    let (typ, k) = past (not (str_eq p.typ type_identity)) not_identity _ h in
    elim (Option-cases x.pre_tls) [
      | inl e ↦ absurd (cc (rw e at k))
      | inr (pre, e) ↦ elim (Option-cases (env.decode p.body)) [
        | inl f ↦ absurd (cc (rw (e, f) at k))
        | inr (b', f) ↦
            let (q, valid, expected, agrees, presented, named) =
              check_body-passed pre b' b x.expected_peer_id cert c (rw (e, f) at k) in
            subst (λ z. Proved env x cert z c) q
              (record {
                packet = p;
                received = r;
                typ = ground (arith, typ, str_eq_iff p.typ type_identity);
                decoded = f;
                valid = valid;
                expected = expected;
                agrees = (pre, e, agrees);
                presented = presented;
                named = named;
              })
      ]
    ]

pub check_identity-Proved :
    (env : Env) (x : Exchange) (cert : Option Certificate) (b : IdentityBody) (c : Certificate)
    → check_identity env x cert ≡ passed b c
    → Proved env x cert b c
unfolding check_identity
check_identity-Proved env x cert b c h =
    let (deadline, k) = past (not x.deadline_set) deadline_failed _ h in
    let (sent, k') = past (not x.identity_sent) write_failed _ k in
    elim (Option-cases x.received) [
      | inl e ↦ absurd (cc (rw e at k'))
      | inr (p, e) ↦ check_packet-Proved env x p cert b c e (rw e at k')
    ]
