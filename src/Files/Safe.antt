-- ===== src/Files/Safe.antt =====
-- fsutil.go: what a sanitized file name can be.
use kcd.Base.{
  ℕ, ◌-◌, ◌≤◌, ◌≡◌, ◌≢◌, ◌⊎◌, inl, inr, refl, String, Bool, ◌&&◌, ◌||◌, arith, ltb, leb, ◌==◌,
  if◌then◌else◌, str_eq, str_eq_iff, Bool-cases,
}
use kcd.Protocol.Names.{keep_runes}
use kcd.Protocol.Names.Laws.{Passes, keep_runes-Passes}
use kcd.Files.{
  Library, max_filename_bytes, default_fallback_filename, byte_len, normalize, may_stay, trim_left,
  trim_right, trim_space, truncate, sanitize_filename,
}
use Prim.Native.Char.{code, len_utf8}
use Prim.Native.String as S

module _ (p q : ℕ → Bool) where
  trim_left-Passes : (s : String) → Passes q s → Passes q (trim_left p s)
  unfolding trim_left
  trim_left-Passes S.[] h = tt
  trim_left-Passes (S.◌∷◌ c s) (h, k) = elim (Bool-cases (p (code c))) [
    | inl e ↦ rw e (trim_left-Passes s k)
    | inr e ↦ rw e ((h, k))
  ]

  trim_right-Passes : (s : String) → Passes q s → Passes q (trim_right p s)
  unfolding trim_right
  trim_right-Passes S.[] h = tt
  trim_right-Passes (S.◌∷◌ c s) (h, k) =
      elim (Bool-cases (p (code c) && str_eq (trim_right p s) "")) [
        | inl e ↦ rw e (tt)
        | inr e ↦ rw e ((h, trim_right-Passes s k))
      ]

truncate-Passes : (q : ℕ → Bool) (n : ℕ) (s : String) → Passes q s → Passes q (truncate n s)
unfolding truncate
truncate-Passes q n S.[] h = tt
truncate-Passes q n (S.◌∷◌ c s) (h, k) = elim (Bool-cases (leb (len_utf8 c) n)) [
  | inl e ↦ rw e ((h, truncate-Passes q (n - len_utf8 c) s k))
  | inr e ↦ rw e (tt)
]

byte_len-truncate : (n : ℕ) (s : String) → byte_len (truncate n s) ≤ n
unfolding truncate byte_len
byte_len-truncate n S.[] = omega arith
byte_len-truncate n (S.◌∷◌ c s) = elim (Bool-cases (leb (len_utf8 c) n)) [
  | inl e ↦ rw e (ground (arith, byte_len-truncate (n - len_utf8 c) s))
  | inr e ↦ rw e (omega arith)
]

-- A name of one element, with no control character, that a directory entry can have.
abbrev pub IsEntry : Library → String → Type 0
IsEntry lib s =
    Passes (may_stay lib) s × (byte_len s ≤ max_filename_bytes) × (s ≢ "") × (s ≢ ".") × (s ≢ "..")

-- The name before the last test.
short-Passes :
    (lib : Library) (s : String)
    → Passes (may_stay lib) s
    → let t = (if ltb max_filename_bytes (byte_len s) then truncate max_filename_bytes s else s) in
      Passes (may_stay lib) t × (byte_len t ≤ max_filename_bytes)
short-Passes lib s h = elim (Bool-cases (ltb max_filename_bytes (byte_len s))) [
  | inl e ↦ rw e (
      (
        truncate-Passes (may_stay lib) max_filename_bytes s h,
        byte_len-truncate max_filename_bytes s,
      ))
  | inr e ↦ rw e ((h, ground arith))
]

named :
    (lib : Library) (s chosen : String)
    → Passes (may_stay lib) s × (byte_len s ≤ max_filename_bytes)
    → let r = (if str_eq s "" || str_eq s "." || str_eq s ".." then chosen else s) in
      (r ≡ chosen) ⊎ IsEntry lib r
named lib s chosen (h, k) = elim (Bool-cases (str_eq s "" || str_eq s "." || str_eq s "..")) [
  | inl e ↦ rw e (inl refl)
  | inr e ↦ rw e (
      inr (
        h,
        k,
        ground (arith, e, str_eq_iff s ""),
        ground (arith, e, str_eq_iff s "."),
        ground (arith, e, str_eq_iff s ".."),
      ))
]

-- A sanitized name is the fallback (the default one where none is given), or one element of a path: no
-- separator of either kind, no zero and no control character, at most 255 bytes, not empty and neither
-- of the names of the directory itself and of its parent. So only the fallback could lead out of a
-- directory, whatever the peer sent.
pub sanitize_filename_lem :
    (lib : Library) (name fallback : String)
    → let clean = sanitize_filename lib name fallback in
      (clean ≡ (if str_eq fallback "" then default_fallback_filename else fallback))
      ⊎ IsEntry lib clean
unfolding sanitize_filename trim_space
sanitize_filename_lem lib name fallback =
    let dot = λ (r : ℕ). r == b'.' in
    let clean = keep_runes (may_stay lib) (lib.base (normalize name)) in
    let undotted = trim_left dot clean in
    let trimmed = trim_right lib.is_space (trim_left lib.is_space undotted) in
    let h = keep_runes-Passes (may_stay lib) (lib.base (normalize name)) in
    let k = trim_right-Passes lib.is_space (may_stay lib) (trim_left lib.is_space undotted) (
      trim_left-Passes lib.is_space (may_stay lib) undotted
        (trim_left-Passes dot (may_stay lib) clean h)) in
    named lib
      (if ltb max_filename_bytes (byte_len trimmed)
        then truncate max_filename_bytes trimmed
        else trimmed)
      (if str_eq fallback "" then default_fallback_filename else fallback)
      (short-Passes lib trimmed k)
