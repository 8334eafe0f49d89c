-- ===== src/Sftp/Table/Found.antt =====
-- mounttable.go: the paths that are read are those that the kernel wrote.
use kcd.Base.{
  ℕ, none, some, is_some, ◌+◌, ◌-◌, ◌*◌, ◌/◌, ◌%◌, ◌<◌, ◌≡◌, refl, sym, ap, ◌∙◌, Bool, true, false,
  ◌&&◌, ◌||◌, List, [], ◌∷◌, map, arith, ◌==◌, if◌then◌else◌, any, All, Bool-cases, inl, inr,
}
use kcd.Base.Text.{codes, same_codes}
use kcd.Sftp.{Text, has_prefix}
use kcd.Sftp.Table.{
  fields, is_octal, unescape_bytes, unescape_mount_path, fuse_point, each_mount, mount_exists,
}
use kcd.Sftp.Table.Split.{Solid, join, fields-join}

-- A byte as the kernel writes it: those that are special as a backslash and three octal digits.
abbrev pub escape_byte : (ℕ → Bool) → ℕ → Text → Text
escape_byte special b rest =
    if special b
    then b'\\' ∷ (b'0' + b / 64) ∷ (b'0' + b / 8 % 8) ∷ (b'0' + b % 8) ∷ rest
    else b ∷ rest

abbrev pub escape : (ℕ → Bool) → Text → Text
escape special [] = []
escape special (b ∷ bs) = escape_byte special b (escape special bs)

unescape_bytes-plain :
    (b : ℕ) (rest : Text)
    → (b == b'\\') ≡ false
    → unescape_bytes (b ∷ rest) ≡ b ∷ unescape_bytes rest
unfolding unescape_bytes
unescape_bytes-plain b [] h = refl
unescape_bytes-plain b (x ∷ []) h = refl
unescape_bytes-plain b (x ∷ y ∷ []) h = refl
unescape_bytes-plain b (x ∷ y ∷ z ∷ rest) h = rw (h, unescape_bytes) refl

unescape_bytes-octal :
    (b : ℕ) (rest : Text)
    → b < 256
    → unescape_bytes (b'\\' ∷ (b'0' + b / 64) ∷ (b'0' + b / 8 % 8) ∷ (b'0' + b % 8) ∷ rest)
      ≡ b ∷ unescape_bytes rest
unfolding unescape_bytes
unescape_bytes-octal b rest h =
    let x : is_octal (b'0' + b / 64) ≡ true = ground (arith, h) in
    let y : is_octal (b'0' + b / 8 % 8) ≡ true = ground arith in
    let z : is_octal (b'0' + b % 8) ≡ true = ground arith in
    let v : (((b'0' + b / 64) - b'0') * 64
            + ((b'0' + b / 8 % 8) - b'0') * 8
            + ((b'0' + b % 8) - b'0'))
          % 256
        ≡ b =
      omega (arith, h) in
    rw (x, y, z, unescape_bytes) (ap (λ t. t ∷ unescape_bytes rest) v)

is_backslash : (b : ℕ) → (b == b'\\') ≡ true → b ≡ b'\\'
is_backslash b h = ground (arith, h)

unescape_bytes_same : (s : Text) → any (λ c. c == b'\\') s ≡ false → unescape_bytes s ≡ s
unfolding unescape_bytes
unescape_bytes_same [] h = refl
unescape_bytes_same (b ∷ s) h =
    let p : (b == b'\\') ≡ false = ground (arith, h) in
    let q : any (λ c. c == b'\\') s ≡ false = ground (arith, h) in
    unescape_bytes-plain b s p ∙ ap (λ t. b ∷ t) (unescape_bytes_same s q)

unescape_mount_path_lem : (s : Text) → unescape_mount_path s ≡ unescape_bytes s
unfolding unescape_mount_path
unescape_mount_path_lem s = elim (Bool-cases (any (λ c. c == b'\\') s)) [
  | inl e ↦ rw e refl
  | inr e ↦ rw e (sym (unescape_bytes_same s e))
]

-- A mount of the kernel.
pub record Mount : Type 0 where
  pub device : Text
  pub point : Text
  pub fstype : Text
  pub options : List Text

-- Its fields in the table, and its line.
abbrev pub fields_of : (ℕ → Bool) → Mount → List Text
fields_of special m = m.device ∷ escape special m.point ∷ m.fstype ∷ m.options

abbrev pub line_of : (ℕ → Bool) → Mount → Text
line_of special m = join (fields_of special m)

-- The path is of bytes, and no field, as it is written, is empty or has white space.
abbrev pub IsWritable : (ℕ → Bool) → Mount → Type 0
IsWritable special m = All (λ b. b < 256) m.point × All Solid (fields_of special m)

abbrev pub is_fuse_at : Text → Mount → Bool
is_fuse_at path m = has_prefix m.fstype (codes "fuse") && same_codes m.point path

module _ (path line : Text) (lines : List Text) where
  exists-other :
      fuse_point (fields line) ≡ none → mount_exists path (line ∷ lines) ≡ mount_exists path lines
  unfolding mount_exists each_mount
  exists-other e =
      ap
        (λ o. is_some (elim o [
          | none ↦ each_mount (λ point. same_codes point path) lines
          | some point ↦
              if same_codes point path
              then some point
              else each_mount (λ q. same_codes q path) lines
        ]))
        e

  exists-found :
      (point : Text)
      → fuse_point (fields line) ≡ some point
      → mount_exists path (line ∷ lines) ≡ (same_codes point path || mount_exists path lines)
  unfolding mount_exists each_mount
  exists-found point e =
      ap
        (λ o. is_some (elim o [
          | none ↦ each_mount (λ q. same_codes q path) lines
          | some p ↦ if same_codes p path then some p else each_mount (λ q. same_codes q path) lines
        ]))
        e
      ∙ ground arith

module _ (special : ℕ → Bool) (backslash : special b'\\' ≡ true) where
  unescape_bytes-escape :
      (bs : Text) → All (λ b. b < 256) bs → unescape_bytes (escape special bs) ≡ bs
  unfolding unescape_bytes
  unescape_bytes-escape [] h = refl
  unescape_bytes-escape (b ∷ bs) (h, k) = elim (Bool-cases (special b)) [
    | inl e ↦ rw e (
        unescape_bytes-octal b (escape special bs) h ∙ ap (λ t. b ∷ t) (unescape_bytes-escape bs k))
    | inr e ↦
        let p : (b == b'\\') ≡ false = elim (Bool-cases (b == b'\\')) [
          | inl q ↦ absurd (cc (backslash, e, ap special (is_backslash b q)))
          | inr q ↦ q
        ] in
        rw e (
          unescape_bytes-plain b (escape special bs) p
          ∙ ap (λ t. b ∷ t) (unescape_bytes-escape bs k))
  ]

  fuse_point-line_of :
      (m : Mount)
      → IsWritable special m
      → fuse_point (fields (line_of special m))
        ≡ (if has_prefix m.fstype (codes "fuse") then some m.point else none)
  unfolding fuse_point
  fuse_point-line_of m (h, solid) =
      let e : unescape_mount_path (escape special m.point) ≡ m.point =
        unescape_mount_path_lem (escape special m.point) ∙ unescape_bytes-escape m.point h in
      ap fuse_point (fields-join (fields_of special m) solid)
      ∙ ap (λ t. if has_prefix m.fstype (codes "fuse") then some t else none) e

  mount_exists-cons :
      (path : Text) (m : Mount) (lines : List Text)
      → IsWritable special m
      → mount_exists path (line_of special m ∷ lines)
        ≡ (is_fuse_at path m || mount_exists path lines)
  mount_exists-cons path m lines w =
      let f = fuse_point-line_of m w in
      elim (Bool-cases (has_prefix m.fstype (codes "fuse"))) [
        | inl g ↦
            let at = exists-found path (line_of special m) lines m.point (f ∙ rw g (refl)) in
            at ∙ rw g (refl)
        | inr g ↦
            let skip = exists-other path (line_of special m) lines (f ∙ rw g (refl)) in
            skip ∙ rw g (refl)
      ]

  -- The daemon sees the mounts that the kernel has. In a table that the kernel wrote, where it
  -- escapes the backslash and whatever else it escapes in the paths, and where no field as it is then
  -- written is empty or has a white space of Unicode, a mount is found at a path exactly where some
  -- FUSE mount has that path.
  pub mount_exists-line_of :
      (ms : List Mount) (path : Text)
      → All (IsWritable special) ms
      → mount_exists path (map (line_of special) ms) ≡ any (is_fuse_at path) ms
  unfolding mount_exists each_mount
  mount_exists-line_of [] path h = refl
  mount_exists-line_of (m ∷ ms) path (h, hs) =
      mount_exists-cons path m (map (line_of special) ms) h
      ∙ ap (λ t. is_fuse_at path m || t) (mount_exists-line_of ms path hs)
