-- ===== src/Daemon/Sightings/Throttle.antt =====
-- transport.go: how often strangers are dialled.
use kcd.Base.{
  ℕ, ◌+◌, ◌-◌, ◌*◌, ◌≤◌, ◌<◌, ◌≡◌, ◌⊎◌, inl, inr, refl, ap, true, false, none, some, List, [], ◌∷◌,
  arith, ltb, if◌then◌else◌, Bool-cases,
}
use kcd.Device.{Ip}
use kcd.Device.Discovery.{second, ip_equal}
use kcd.Daemon.Sightings.{Throttled, last_dial, prune_dials, recent_dial, allow_ephemeral_dial}

-- The dials that the throttle allows, oldest last, over requests at given times.
abbrev pub Request : Type 0
Request = Ip × ℕ

abbrev pub allowed : List Request → Throttled → List Request × Throttled
allowed [] t = ([], t)
allowed ((ip, now) ∷ rs) t =
    let (t', ok) = allow_ephemeral_dial ip now t in
    let (more, t'') = allowed rs t' in (if ok then (ip, now) ∷ more else more, t'')

-- The times do not go back.
abbrev pub Ordered : ℕ → List Request → Type 0
Ordered now [] = Unit
Ordered now ((ip, later) ∷ rs) = (now ≤ later) × Ordered later rs

-- A dial at `now` to `ip` keeps its distance from those after it: a second from all, five seconds
-- from those to the same address.
abbrev pub Distant : Ip → ℕ → List Request → Type 0
Distant ip now [] = Unit
Distant ip now ((other, later) ∷ rs) =
    (now + second ≤ later)
    × ((ip_equal other ip ≡ false) ⊎ (now + 5 * second ≤ later))
    × Distant ip now rs

abbrev pub Spaced : List Request → Type 0
Spaced [] = Unit
Spaced ((ip, now) ∷ rs) = Distant ip now rs × Spaced rs

-- The throttle remembers the dial at `now` to `ip`, unless it lies back far enough.
record Remembers (ip : Ip) (now : ℕ) (at : ℕ) (t : Throttled) : Type 0 where
  global : now ≤ t.last_global
  by_ip : (now + 60 * second < at) ⊎ ((u : ℕ) × (last_dial ip t.last_by_ip ≡ some u) × (now ≤ u))

ip_equal-eq : (a b : Ip) → ip_equal a b ≡ true → a ≡ b
unfolding ip_equal
ip_equal-eq none none h = refl
ip_equal-eq none (some b) h = absurd (cc h)
ip_equal-eq (some a) none h = absurd (cc h)
ip_equal-eq (some a) (some b) h = let e : a ≡ b = ground arith in ap some e

prune-last_dial :
    (ip : Ip) (at u : ℕ) (es : List (Ip × ℕ))
    → last_dial ip es ≡ some u
    → at ≤ u + 60 * second
    → last_dial ip (prune_dials at es) ≡ some u
unfolding last_dial prune_dials
prune-last_dial ip at u [] h k = h
prune-last_dial ip at u ((other, t) ∷ es) h k = elim (Bool-cases (ip_equal other ip)) [
  | inl e ↦
      let h' : some t ≡ some u = rw e at h in
      let p : t ≡ u = cc h' in
      let f : ltb (60 * second) (at - t) ≡ false = ground arith in rw (f, e) (h')
  | inr e ↦
      let h' : last_dial ip es ≡ some u = rw e at h in
      let ih = prune-last_dial ip at u es h' k in
      elim (Bool-cases (ltb (60 * second) (at - t))) [ inl f ↦ rw f (ih) | inr f ↦ rw (f, e) (ih) ]
]

-- What the throttle tests when it allows a dial.
abbrev Allows : Ip → ℕ → Throttled → Type 0
Allows ip now t =
    (t.last_global + second ≤ now)
    × (recent_dial ip now t.last_by_ip ≡ false)
    × (allow_ephemeral_dial ip now t ≡ (
      record { last_global = now; last_by_ip = (ip, now) ∷ prune_dials now t.last_by_ip },
      true,
    ))

allow-cases :
    (ip : Ip) (now : ℕ) (t : Throttled)
    → (allow_ephemeral_dial ip now t ≡ (t, false)) ⊎ Allows ip now t
unfolding allow_ephemeral_dial
allow-cases ip now t = elim (Bool-cases (ltb (now - t.last_global) second)) [
  | inl e ↦ inl (rw e (refl))
  | inr e ↦ elim (Bool-cases (recent_dial ip now t.last_by_ip)) [
    | inl f ↦ inl (rw (e, f) (refl))
    | inr f ↦ inr (ground arith, f, rw (e, f) (refl))
  ]
]

Remembers-later :
    (ip : Ip) (now at at' : ℕ) (t : Throttled)
    → at ≤ at'
    → Remembers ip now at t
    → Remembers ip now at' t
Remembers-later ip now at at' t h r = record {
  global = r.global;
  by_ip = elim r.by_ip [ inl e ↦ inl (omega arith) | inr e ↦ inr e ];
}

Remembers-allowed :
    (ip other : Ip) (now at : ℕ) (t : Throttled)
    → now ≤ at
    → Remembers ip now at t
    → Remembers ip now at
        (record { last_global = at; last_by_ip = (other, at) ∷ prune_dials at t.last_by_ip })
unfolding last_dial
Remembers-allowed ip other now at t h r = record {
  global = h;
  by_ip = elim (Bool-cases (ip_equal other ip)) [
    | inl e ↦ inr (at, rw e (refl), h)
    | inr e ↦ elim r.by_ip [
      | inl k ↦ inl k
      | inr (u, k, l) ↦ elim (Bool-cases (ltb (u + 60 * second) at)) [
        | inl f ↦ inl (ground arith)
        | inr f ↦ inr (u, rw e (prune-last_dial ip at u t.last_by_ip k (ground arith)), l)
      ]
    ]
  ];
}

-- A dial that is allowed keeps its distance from one that is remembered.
Allows-distant :
    (ip other : Ip) (now at : ℕ) (t : Throttled)
    → Remembers ip now at t
    → Allows other at t
    → (now + second ≤ at) × ((ip_equal other ip ≡ false) ⊎ (now + 5 * second ≤ at))
unfolding recent_dial
Allows-distant ip other now at t r (g, f, e) = (
  omega (arith, r.global),
  elim (Bool-cases (ip_equal other ip)) [
    | inr k ↦ inl k
    | inl k ↦ elim r.by_ip [
      | inl l ↦ inr (omega arith)
      | inr (u, l, m) ↦
          let p : last_dial other t.last_by_ip ≡ some u = rw (ip_equal-eq other ip k) (l) in
          let q : ltb (at - u) (5 * second) ≡ false = rw (p, recent_dial) at f in inr (ground arith)
    ]
  ],
)

allowed-Distant :
    (rs : List Request) (ip : Ip) (now at : ℕ) (t : Throttled)
    → now ≤ at
    → Ordered at rs
    → Remembers ip now at t
    → Distant ip now (allowed rs t).0
allowed-Distant [] ip now at t h o r = tt
allowed-Distant ((other, later) ∷ rs) ip now at t h (o, os) r =
    let r' = Remembers-later ip now at later t o r in
    elim (allow-cases other later t) [
      | inl e ↦ rw e (allowed-Distant rs ip now later t (omega arith) os r')
      | inr a ↦
          let (d, d') = Allows-distant ip other now later t r' a in
          rw (a.2) (
            d,
            d',
            allowed-Distant rs ip now later _ (omega arith) os
                (Remembers-allowed ip other now later t (omega arith) r'),
          )
    ]

ip_equal_refl : (ip : Ip) → ip_equal ip ip ≡ true
unfolding ip_equal
ip_equal_refl none = refl
ip_equal_refl (some a) = ground arith

Remembers-new :
    (ip : Ip) (now : ℕ) (es : List (Ip × ℕ))
    → Remembers ip now now (record { last_global = now; last_by_ip = (ip, now) ∷ es })
unfolding last_dial
Remembers-new ip now es = record {
  global = omega arith;
  by_ip = inr (now, rw (ip_equal_refl ip) (refl), omega arith);
}

-- Over any requests whose times do not go back, two dials to strangers that are allowed are at least a
-- second apart, and two to the same address five seconds, although the entries of the last minute are
-- all that is kept.
pub allowed-Spaced :
    (rs : List Request) (start : ℕ) (t : Throttled) → Ordered start rs → Spaced (allowed rs t).0
allowed-Spaced [] start t o = tt
allowed-Spaced ((ip, now) ∷ rs) start t (o, os) = elim (allow-cases ip now t) [
  | inl e ↦ rw e (allowed-Spaced rs now t os)
  | inr a ↦ rw (a.2) (
    allowed-Distant rs ip now now _ (omega arith) os
        (Remembers-new ip now (prune_dials now t.last_by_ip)),
    allowed-Spaced rs now _ os,
  )
]
