-- ===== src/Sftp/Args/Safe.antt =====
-- mount.go: what a phone can put on the command line of sshfs.
use kcd.Base.{
  ℕ, ◌≤◌, ◌≡◌, refl, ap, ◌∙◌, Bool, true, false, not, ◌||◌, some, List, [], ◌∷◌, ◌++◌, arith, ltb,
  ◌==◌, if◌then◌else◌, length, any, Bool-cases, Option-cases, inl, inr,
}
use kcd.Base.Int.{ℤ, pos, negsuc}
use kcd.Base.Text.{codes, decimal}
use kcd.Sftp.{Text, has_prefix}
use kcd.Sftp.Args.{
  Library, SftpBody, Local, is_alnum, all_of, matches_user, matches_host_rest, matches_host,
  BadArgument, suspicious_user, suspicious_host, invalid_host, suspicious_path, Built, refused,
  built, sshfs_options, extra, empty, bad_host, port_of, build_sshfs_args,
}

abbrev pub mentions : ℕ → Text → Bool
mentions b s = any (λ c. c == b) s

-- An address is hexadecimal digits, dots and colons.
abbrev pub is_address_char : ℕ → Bool
is_address_char c = is_alnum c || (c == b'.' || c == b':')

abbrev pub Documented : Library → Type 0
Documented lib = (s : Text) → lib.is_ip s ≡ true → all_of is_address_char s ≡ true

all_of-mentions :
    (p : ℕ → Bool) (s : Text) → p b'@' ≡ false → all_of p s ≡ true → mentions b'@' s ≡ false
unfolding all_of
all_of-mentions p [] h k = refl
all_of-mentions p (c ∷ s) h k = elim (Bool-cases (c == b'@')) [
  | inl e ↦
      let f : c ≡ b'@' = ground (arith, e) in
      let g : p c ≡ false = ap p f ∙ h in ground (arith, g, k)
  | inr e ↦ ground (arith, e, k, all_of-mentions p s h)
]

-- The first byte is a letter, a digit or an underscore.
abbrev pub StartsWord : Text → Type 0
StartsWord [] = ⊥
StartsWord (c ∷ s) = (is_alnum c || c == b'_') ≡ true

matches_user-StartsWord :
    (u : Text) → matches_user u ≡ true → StartsWord u × (mentions b'@' u ≡ false)
unfolding matches_user is_alnum
matches_user-StartsWord [] h = absurd (cc h)
matches_user-StartsWord (c ∷ s) h =
    let rest : ℕ → Bool = λ d. is_alnum d || (d == b'_' || (d == b'.' || d == b'-')) in
    let k : all_of rest s ≡ true = ground (arith, h) in
    (ground (arith, h), ground (arith, h, all_of-mentions rest s refl k))

matches_host_rest-mentions : (s : Text) → matches_host_rest s ≡ true → mentions b'@' s ≡ false
unfolding matches_host_rest is_alnum
matches_host_rest-mentions [] h = refl
matches_host_rest-mentions (c ∷ []) h = ground (arith, h)
matches_host_rest-mentions (c ∷ d ∷ s) h = ground (arith, h, matches_host_rest-mentions (d ∷ s))

matches_host-mentions : (s : Text) → matches_host s ≡ true → mentions b'@' s ≡ false
unfolding matches_host is_alnum
matches_host-mentions [] h = refl
matches_host-mentions (c ∷ s) h = ground (arith, h, matches_host_rest-mentions s)

host-mentions :
    (lib : Library) (ip : Text)
    → Documented lib
    → bad_host lib ip ≡ false
    → mentions b'@' ip ≡ false
unfolding bad_host is_alnum
host-mentions lib ip doc h = elim (Bool-cases (lib.is_ip ip)) [
  | inl e ↦ all_of-mentions is_address_char ip refl (doc ip e)
  | inr e ↦ matches_host-mentions ip (ground (arith, e, h))
]

port_of-Bounded :
    (lib : Library) (t : Text) (n : ℕ) → port_of lib t ≡ some n → (1 ≤ n) × (n ≤ 65535)
unfolding port_of
port_of-Bounded lib t n h = elim (Option-cases (lib.atoi (lib.trim_port t))) [
  | inl e ↦ ground (arith, e, h)
  | inr (z, e) ↦ by_sign z e
]
  where
    by_sign : (z : ℤ) → lib.atoi (lib.trim_port t) ≡ some z → (1 ≤ n) × (n ≤ 65535)
    by_sign (pos k) e = ground (arith, e, h)
    by_sign (negsuc k) e = ground (arith, e, h)

past :
    (t : Bool) (e : BadArgument) (x : Built) (argv : List Text)
    → (if t then refused e else x) ≡ built argv
    → (t ≡ false) × (x ≡ built argv)
past true e x argv h = absurd (cc h)
past false e x argv h = (refl, h)

-- The arguments, of a port.
abbrev pub arguments : Library → SftpBody → Text → Text → Local → ℕ → List Text
arguments lib body remote_path mount_point l port =
    (body.user ++ (b'@' ∷ (body.ip ++ (b':' ∷ lib.clean remote_path))))
    ∷ mount_point
    ∷ codes "-p"
    ∷ decimal port
    ∷ (sshfs_options l
        ++ ((if l.read_only then codes "-o" ∷ codes "ro" ∷ [] else []) ++ extra l.extra_opts))

-- A phone cannot put an option on the command line of sshfs. Where one is built at all, what the phone
-- sent is in two arguments only: the number of the port, which is one from 1 to 65535 in decimal, and
-- the first, user@host:path. That one starts with a letter, a digit or an underscore, neither the user
-- nor the host contains an @, and the host is not empty and does not start with a dash. An address is
-- taken to have hexadecimal digits, dots and colons only.
pub build_sshfs_args-Safe :
    (lib : Library) (body : SftpBody) (remote_path mount_point : Text) (l : Local)
    (argv : List Text)
    → Documented lib
    → build_sshfs_args lib body remote_path mount_point l ≡ built argv
    → (port : ℕ) × (argv ≡ arguments lib body remote_path mount_point l port)
      × (1 ≤ port)
      × (port ≤ 65535)
      × StartsWord body.user
      × (mentions b'@' body.user ≡ false)
      × (mentions b'@' body.ip ≡ false)
      × (empty body.ip ≡ false)
      × (has_prefix body.ip (b'-' ∷ []) ≡ false)
unfolding build_sshfs_args
build_sshfs_args-Safe lib body remote_path mount_point l argv doc h =
    let (u, h1) =
      past (not (matches_user body.user) || ltb 64 (length body.user)) suspicious_user _ argv h in
    let (d, h2) =
      past (empty body.ip || has_prefix body.ip (b'-' ∷ [])) suspicious_host _ argv h1 in
    let (b, h3) = past (bad_host lib body.ip) invalid_host _ argv h2 in
    elim (Option-cases (port_of lib body.port)) [
      | inl e ↦ absurd (cc (rw e at h3))
      | inr (port, e) ↦
          let (q, h4) =
            past (empty remote_path || has_prefix remote_path (b'-' ∷ [])) suspicious_path
              (built (arguments lib body remote_path mount_point l port)) argv (rw e at h3) in
          let (lo, hi) = port_of-Bounded lib body.port port e in
          let (w, at) = matches_user-StartsWord body.user (ground (arith, u)) in
          (
            port,
            cc h4,
            lo,
            hi,
            w,
            at,
            host-mentions lib body.ip doc b,
            ground (arith, d),
            ground (arith, d),
          )
    ]
