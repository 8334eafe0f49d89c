-- ===== src/Protocol/Names.antt =====
-- Device ids and names, internal/protocol/identity.go. A Go string that is valid UTF-8 is its runes.
--
-- What unicode and utf8 do is a parameter: which runes are control or format runes, the bytes of a
-- string, and the string that is left of bytes when those that are no UTF-8 are dropped.
pub mod Laws
use kcd.Base.{
  ℕ, zero, suc, ◌+◌, ◌-◌, ◌*◌, String, Bool, true, false, not, ◌&&◌, ◌||◌, Option, none, some, List,
  [], ◌∷◌, leb, ltb, ◌==◌, if◌then◌else◌, length, any,
}
use kcd.Base.Text.{codes, same_codes}
use Prim.Native.Char.{Char, code}
use Prim.Native.String as S

pub record Unicode : Type 0 where
  pub is_control : ℕ → Bool
  pub encode : String → List ℕ
  pub decode_valid : List ℕ → String

abbrev pub max_device_name_length : ℕ
max_device_name_length = 32

abbrev between : ℕ → ℕ → ℕ → Bool
between low high c = leb low c && leb c high

unfoldable pub is_id_char : ℕ → Bool
is_id_char c =
    between b'A' b'Z' c || between b'a' b'z' c || between b'0' b'9' c || c == b'_' || c == b'-'

unfoldable pub every : (ℕ → Bool) → List ℕ → Bool
every p [] = true
every p (c ∷ cs) = p c && every p cs

unfoldable pub valid_device_id : String → Bool
unfolding is_id_char every
valid_device_id id =
    leb 32 (length (codes id)) && leb (length (codes id)) 38 && every is_id_char (codes id)

unfoldable pub invalid_name_chars : List ℕ
invalid_name_chars = codes "`'\";:.!?()[]<>$&|\\*~#%^{}=/"

unfoldable pub is_invalid_name_char : ℕ → Bool
unfolding invalid_name_chars
is_invalid_name_char c = any (λ d. c == d) invalid_name_chars

-- The runes that pass a test, and the first `n` runes.
unfoldable pub keep_runes : (ℕ → Bool) → String → String
keep_runes p S.[] = S.[]
keep_runes p (S.◌∷◌ c s) = if p (code c) then S.◌∷◌ c (keep_runes p s) else keep_runes p s

unfoldable pub take_runes : ℕ → String → String
take_runes zero s = S.[]
take_runes (suc n) S.[] = S.[]
take_runes (suc n) (S.◌∷◌ c s) = S.◌∷◌ c (take_runes n s)

unfoldable pub truncate_runes : ℕ → String → String
unfolding take_runes
truncate_runes max_runes s = if leb (length (codes s)) max_runes then s else take_runes max_runes s

abbrev is_digit : ℕ → Bool
is_digit c = between b'0' b'9' c

-- The number that the three bytes after a backslash write, where they do and it is a byte.
unfoldable pub escape_value : List ℕ → Option ℕ
escape_value (d ∷ e ∷ f ∷ rest) =
    let v = (d - b'0') * 100 + (e - b'0') * 10 + (f - b'0') in
    if is_digit d && is_digit e && is_digit f && leb v 255 then some v else none
escape_value other = none

-- The bytes with their escapes decoded; the first argument counts the bytes of an escape that are
-- still to be skipped. Three digits that write no byte stay as they are, and so no escape begins
-- within them.
unfoldable pub unescape : ℕ → List ℕ → List ℕ
unfolding escape_value
unescape skip [] = []
unescape (suc skip) (b ∷ bs) = unescape skip bs
unescape zero (b ∷ bs) = elim (if b == b'\\' then escape_value bs else none) [
  | none ↦ b ∷ unescape zero bs
  | some v ↦ v ∷ unescape 3 bs
]

module _ (unicode : Unicode) where
  unfoldable pub decode_device_name : String → String
  unfolding unescape
  decode_device_name name =
      let bytes = unicode.encode name in
      let decoded = unescape 0 bytes in
      if any (λ b. b == b'\\') bytes
      then (if same_codes decoded bytes then name else unicode.decode_valid decoded)
      else name

  unfoldable pub strip_control_runes : String → String
  unfolding keep_runes
  strip_control_runes s = keep_runes (λ c. not (unicode.is_control c)) s

  unfoldable pub sanitize_device_name : String → String
  unfolding decode_device_name strip_control_runes keep_runes truncate_runes
  sanitize_device_name name =
      let clean = strip_control_runes (decode_device_name name) in
      truncate_runes max_device_name_length (keep_runes (λ c. not (is_invalid_name_char c)) clean)
