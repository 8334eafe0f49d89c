-- ===== src/Protocol/Names/Laws.antt =====
-- identity.go: what is left in a sanitized name, and the bytes that escapes write.
use kcd.Base.{
  ℕ, zero, suc, ◌+◌, ◌-◌, ◌*◌, ◌/◌, ◌%◌, ◌≤◌, ◌<◌, ◌≡◌, refl, ap, inl, inr, String, Bool, true,
  false, not, some, List, [], ◌∷◌, arith, leb, ◌==◌, Bool-cases, le→leb, length, any, All,
}
use kcd.Base.Text.{codes}
use kcd.Protocol.Names.{
  Unicode, max_device_name_length, is_invalid_name_char, invalid_name_chars, keep_runes, take_runes,
  truncate_runes, escape_value, unescape, decode_device_name, strip_control_runes,
  sanitize_device_name,
}
use Prim.Native.Char.{code}
use Prim.Native.String as S

-- Every rune of the name passes the test.
abbrev pub Passes : (ℕ → Bool) → String → Type 0
Passes p s = All (λ c. p c ≡ true) (codes s)

pub keep_runes-Passes : (p : ℕ → Bool) (s : String) → Passes p (keep_runes p s)
unfolding keep_runes
keep_runes-Passes p S.[] = tt
keep_runes-Passes p (S.◌∷◌ c s) = elim (Bool-cases (p (code c))) [
  | inl e ↦ rw e ((e, keep_runes-Passes p s))
  | inr e ↦ rw e (keep_runes-Passes p s)
]

-- A test that held before a filter holds after it.
pub keep_runes-keeps : (p q : ℕ → Bool) (s : String) → Passes q s → Passes q (keep_runes p s)
unfolding keep_runes
keep_runes-keeps p q S.[] h = tt
keep_runes-keeps p q (S.◌∷◌ c s) (h, k) = elim (Bool-cases (p (code c))) [
  | inl e ↦ rw e ((h, keep_runes-keeps p q s k))
  | inr e ↦ rw e (keep_runes-keeps p q s k)
]

take_runes-keeps : (n : ℕ) (q : ℕ → Bool) (s : String) → Passes q s → Passes q (take_runes n s)
unfolding take_runes
take_runes-keeps zero q s h = tt
take_runes-keeps (suc n) q S.[] h = tt
take_runes-keeps (suc n) q (S.◌∷◌ c s) (h, k) = (h, take_runes-keeps n q s k)

length-take_runes : (n : ℕ) (s : String) → length (codes (take_runes n s)) ≤ n
unfolding take_runes
length-take_runes zero s = omega arith
length-take_runes (suc n) S.[] = omega arith
length-take_runes (suc n) (S.◌∷◌ c s) = omega (arith, length-take_runes n s)

keep_runes_all : (p : ℕ → Bool) (s : String) → Passes p s → keep_runes p s ≡ s
unfolding keep_runes
keep_runes_all p S.[] h = refl
keep_runes_all p (S.◌∷◌ c s) (h, k) = rw h (ap (λ t. S.◌∷◌ c t) (keep_runes_all p s k))

truncate_runes-keeps :
    (n : ℕ) (q : ℕ → Bool) (s : String) → Passes q s → Passes q (truncate_runes n s)
unfolding truncate_runes
truncate_runes-keeps n q s h = elim (Bool-cases (leb (length (codes s)) n)) [
  | inl e ↦ rw e (h)
  | inr e ↦ rw e (take_runes-keeps n q s h)
]

length-truncate_runes : (n : ℕ) (s : String) → length (codes (truncate_runes n s)) ≤ n
unfolding truncate_runes
length-truncate_runes n s = elim (Bool-cases (leb (length (codes s)) n)) [
  | inl e ↦ rw e (ground arith)
  | inr e ↦ rw e (length-take_runes n s)
]

abbrev plain : ℕ → Bool
plain c = not (is_invalid_name_char c)

abbrev visible : Unicode → ℕ → Bool
visible unicode c = not (unicode.is_control c)

backslash-is_invalid : is_invalid_name_char b'\\' ≡ true
unfolding is_invalid_name_char invalid_name_chars
backslash-is_invalid = refl

no_backslash : (s : String) → Passes plain s → any (λ b. b == b'\\') (codes s) ≡ false
no_backslash S.[] h = refl
no_backslash (S.◌∷◌ c s) (h, k) =
    let e : (code c == b'\\') ≡ false =
      ground (arith, ap is_invalid_name_char, backslash-is_invalid) in
    rw (e, no_backslash s k) (refl)

-- What a name that is safe to print and to paste is: at most 32 runes, no control or format rune and
-- no rune of the list.
pub record SafeName (unicode : Unicode) (s : String) : Type 0 where
  short : length (codes s) ≤ max_device_name_length
  seen : Passes (λ c. not (unicode.is_control c)) s
  pasted : Passes (λ c. not (is_invalid_name_char c)) s

sanitize-SafeName :
    (unicode : Unicode) (name : String) → SafeName unicode (sanitize_device_name unicode name)
unfolding sanitize_device_name strip_control_runes
sanitize-SafeName unicode name =
    let seen = visible unicode in
    let stripped = keep_runes seen (decode_device_name unicode name) in
    let kept = keep_runes plain stripped in
    record {
      short = length-truncate_runes max_device_name_length kept;
      seen = truncate_runes-keeps max_device_name_length seen kept (
          keep_runes-keeps plain seen stripped
            (keep_runes-Passes seen (decode_device_name unicode name)));
      pasted =
          truncate_runes-keeps max_device_name_length plain kept (keep_runes-Passes plain stripped);
    }

-- A safe name is left as it is.
sanitize_of_SafeName :
    (unicode : Unicode)
    → ((s : String)
        → any (λ b. b == b'\\') (codes s) ≡ false
        → any (λ b. b == b'\\') (unicode.encode s) ≡ false)
    → (s : String) → SafeName unicode s
    → sanitize_device_name unicode s ≡ s
unfolding sanitize_device_name strip_control_runes decode_device_name truncate_runes
sanitize_of_SafeName unicode ascii s h =
    let short : leb (length (codes s)) max_device_name_length ≡ true = le→leb _ _ h.short in
    rw
      (
        ascii s (no_backslash s h.pasted),
        keep_runes_all (visible unicode) s h.seen,
        keep_runes_all plain s h.pasted,
        short,
      )
      (refl)

-- What a sanitized name is, where the bytes of a string hold a backslash only if the string does: it
-- has at most 32 runes, none of them a control or format rune or one that a shell or a terminal reads,
-- and it is left alone when it is sanitized again.
pub sanitize_device_name_lem :
    (unicode : Unicode)
    → ((s : String)
        → any (λ b. b == b'\\') (codes s) ≡ false
        → any (λ b. b == b'\\') (unicode.encode s) ≡ false)
    → (name : String)
    → let clean = sanitize_device_name unicode name in
      SafeName unicode clean × (sanitize_device_name unicode clean ≡ clean)
sanitize_device_name_lem unicode ascii name =
    let h = sanitize-SafeName unicode name in
    (h, sanitize_of_SafeName unicode ascii (sanitize_device_name unicode name) h)

-- A byte as a backslash and three decimal digits.
abbrev pub escape : List ℕ → List ℕ
escape [] = []
escape (v ∷ vs) = b'\\' ∷ (b'0' + v / 100) ∷ (b'0' + v / 10 % 10) ∷ (b'0' + v % 10) ∷ escape vs

escape_value-digits :
    (v : ℕ) (rest : List ℕ)
    → v < 256
    → escape_value ((b'0' + v / 100) ∷ (b'0' + v / 10 % 10) ∷ (b'0' + v % 10) ∷ rest) ≡ some v
unfolding escape_value
escape_value-digits v rest h =
    let e : (b'0' + v / 100 - b'0') * 100
          + (b'0' + v / 10 % 10 - b'0') * 10
          + (b'0' + v % 10 - b'0')
        ≡ v =
      omega arith in
    rw e (ground arith)

-- Bytes that a sender escapes, each as a backslash and three digits, are decoded to themselves.
pub unescape-escape : (bs : List ℕ) → All (λ v. v < 256) bs → unescape 0 (escape bs) ≡ bs
unfolding unescape
unescape-escape [] h = refl
unescape-escape (v ∷ vs) (h, k) =
    rw (escape_value-digits v (escape vs) h, unescape) (ap (λ ws. v ∷ ws) (unescape-escape vs k))
