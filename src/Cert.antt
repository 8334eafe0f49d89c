-- ===== src/Cert.antt =====
-- Peer identity and the pairing code, internal/cert/cert.go. SHA-256 is a parameter, from bytes to
-- bytes. Text that is printed is a list of code points.
pub mod Laws
mod Tests
use kcd.Base.{
  ℕ, zero, suc, ◌+◌, ◌-◌, ◌/◌, ◌%◌, String, Bool, true, false, ◌||◌, Option, none, some, List, [],
  ◌∷◌, ◌++◌, map, ltb, ◌==◌, if◌then◌else◌, take, str_eq,
}
use kcd.Base.Int.{ℤ, pos, negsuc}
use kcd.Base.Text.{codes, same_codes, decimal}
use kcd.Device.{Certificate}

-- `bytes.Compare(a, b) < 0`.
unfoldable pub bytes_less : List ℕ → List ℕ → Bool
bytes_less a [] = false
bytes_less [] (y ∷ ys) = true
bytes_less (x ∷ xs) (y ∷ ys) = if x == y then bytes_less xs ys else ltb x y

abbrev pub key_bytes : Option Certificate → List ℕ
key_bytes none = []
key_bytes (some c) = elim c.public_key [ none ↦ [] | some k ↦ k ]

unfoldable pub combined : List ℕ → List ℕ → List ℕ
unfolding bytes_less
combined local_key remote_key =
    if bytes_less local_key remote_key then remote_key ++ local_key else local_key ++ remote_key

-- strconv.FormatInt, for the values that the code prints.
abbrev pub stamp_bytes : ℤ → List ℕ
stamp_bytes (pos zero) = []
stamp_bytes (pos (suc n)) = decimal (suc n)
stamp_bytes (negsuc n) = []

-- A hexadecimal digit in upper case.
unfoldable pub hex_digit : ℕ → ℕ
hex_digit n = if ltb n 10 then b'0' + n else b'A' + (n - 10)

unfoldable pub hex_upper : List ℕ → List ℕ
unfolding hex_digit
hex_upper [] = []
hex_upper (b ∷ bs) = hex_digit (b / 16) ∷ hex_digit (b % 16) ∷ hex_upper bs

unfoldable pub verification_key :
    (List ℕ → List ℕ) → Option Certificate → Option Certificate → ℤ → List ℕ
unfolding combined hex_upper
verification_key sha256 local_cert remote_cert timestamp = hex_upper (
    take 4
      (sha256 (combined (key_bytes local_cert) (key_bytes remote_cert) ++ stamp_bytes timestamp)))

-- `strings.ReplaceAll(s, "-", "_")`.
unfoldable pub underscored : List ℕ → List ℕ
underscored = map λ c. if c == b'-' then b'_' else c

-- Of SHA-256, with the function that prints bytes in hexadecimal.
unfoldable pub fingerprint : (List ℕ → List ℕ) → (List ℕ → String) → Certificate → String
fingerprint sha256 hex c = hex (sha256 c.raw)

unfoldable pub matches_device_id : Option Certificate → String → Bool
unfolding underscored
matches_device_id none device_id = false
matches_device_id (some peer) device_id =
    str_eq peer.common_name device_id
    || same_codes (underscored (codes peer.common_name)) (underscored (codes device_id))
