-- ===== src/Files.antt =====
-- File names from a peer, internal/fsutil/fsutil.go. A name that is valid UTF-8 is its runes.
--
-- What filepath and unicode do is a parameter: the last element of a path, and which runes are control
-- characters or spaces.
pub mod Safe
mod Tests
use kcd.Base.{
  ℕ, ◌+◌, ◌-◌, String, Bool, true, false, not, ◌&&◌, ◌||◌, ltb, leb, ◌==◌, if◌then◌else◌, str_eq,
}
use kcd.Protocol.Names.{keep_runes}
use Prim.Native.Char.{Char, code, len_utf8}
use Prim.Native.String as S

pub record Library : Type 0 where
  pub base : String → String
  pub is_control : ℕ → Bool
  pub is_space : ℕ → Bool

abbrev pub max_filename_bytes : ℕ
max_filename_bytes = 255

abbrev pub default_fallback_filename : String
default_fallback_filename = "downloaded_file"

unfoldable pub byte_len : String → ℕ
byte_len S.[] = 0
byte_len (S.◌∷◌ c s) = len_utf8 c + byte_len s

unfoldable pub normalize : String → String
normalize S.[] = S.[]
normalize (S.◌∷◌ c s) =
    let rest = normalize s in if code c == b'\\' then S.◌++◌ "/" rest else S.◌∷◌ c rest

-- The runes that stay.
abbrev pub may_stay : Library → ℕ → Bool
may_stay lib r = not (lib.is_control r || r == b'/' || r == b'\\' || r == 0)

unfoldable pub trim_left : (ℕ → Bool) → String → String
trim_left p S.[] = S.[]
trim_left p (S.◌∷◌ c s) = if p (code c) then trim_left p s else S.◌∷◌ c s

unfoldable pub trim_right : (ℕ → Bool) → String → String
trim_right p S.[] = S.[]
trim_right p (S.◌∷◌ c s) =
    let rest = trim_right p s in if p (code c) && str_eq rest "" then S.[] else S.◌∷◌ c rest

unfoldable pub trim_space : Library → String → String
unfolding trim_left trim_right
trim_space lib s = trim_right lib.is_space (trim_left lib.is_space s)

-- The longest prefix of whole runes that fits.
unfoldable pub truncate : ℕ → String → String
truncate n S.[] = S.[]
truncate n (S.◌∷◌ c s) =
    let rest = truncate (n - len_utf8 c) s in if leb (len_utf8 c) n then S.◌∷◌ c rest else S.[]

-- An empty fallback counts as none.
unfoldable pub sanitize_filename : Library → String → String → String
unfolding normalize trim_left trim_space truncate byte_len
sanitize_filename lib name fallback =
    let chosen = if str_eq fallback "" then default_fallback_filename else fallback in
    let clean = keep_runes (may_stay lib) (lib.base (normalize name)) in
    let trimmed = trim_space lib (trim_left (λ r. r == b'.') clean) in
    let short =
      if ltb max_filename_bytes (byte_len trimmed)
      then truncate max_filename_bytes trimmed
      else trimmed in
    if str_eq short "" || str_eq short "." || str_eq short ".." then chosen else short
