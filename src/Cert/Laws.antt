-- ===== src/Cert/Laws.antt =====
-- cert.go: both sides of a pairing show one code, and what the name check accepts.
use kcd.Base.{
  ℕ, ◌≡◌, ◌↔◌, ◌⊎◌, refl, String, true, false, Option, some, List, [], ◌∷◌, map, arith, ◌==◌,
  if◌then◌else◌, str_eq_iff, Bool-cases, inl, inr,
}
use kcd.Base.Int.{ℤ}
use kcd.Base.Text.{codes, same_codes_iff}
use kcd.Device.{Certificate}
use kcd.Cert.{bytes_less, combined, key_bytes, verification_key, underscored, matches_device_id}

bytes_less_antisymm : (a b : List ℕ) → bytes_less a b ≡ false → bytes_less b a ≡ false → a ≡ b
unfolding bytes_less
bytes_less_antisymm [] [] h k = refl
bytes_less_antisymm [] (y ∷ ys) h k = cc
bytes_less_antisymm (x ∷ xs) [] h k = cc
bytes_less_antisymm (x ∷ xs) (y ∷ ys) h k = ground (arith, bytes_less_antisymm xs ys)

bytes_less_asymm : (a b : List ℕ) → bytes_less a b ≡ true → bytes_less b a ≡ false
unfolding bytes_less
bytes_less_asymm [] [] h = cc
bytes_less_asymm [] (y ∷ ys) h = refl
bytes_less_asymm (x ∷ xs) [] h = cc
bytes_less_asymm (x ∷ xs) (y ∷ ys) h = ground (arith, bytes_less_asymm xs ys)

combined_comm : (a b : List ℕ) → combined a b ≡ combined b a
unfolding combined
combined_comm a b = elim (Bool-cases (bytes_less a b)) [
  | inl less ↦ rw (less, bytes_less_asymm a b less)
  | inr more ↦ elim (Bool-cases (bytes_less b a)) [
    | inl less ↦ rw (more, less)
    | inr same ↦ rw (bytes_less_antisymm a b more same)
  ]
]

-- Both peers compute the same code: it does not depend on which certificate is the local one.
pub verification_key_comm :
    (sha256 : List ℕ → List ℕ) (a b : Option Certificate) (timestamp : ℤ)
    → verification_key sha256 a b timestamp ≡ verification_key sha256 b a timestamp
unfolding verification_key
verification_key_comm sha256 a b timestamp = rw (combined_comm (key_bytes a) (key_bytes b))

-- A certificate matches a device id exactly when its common name is the id, up to the choice
-- between hyphen and underscore at each place. No certificate matches nothing.
pub matches_device_id_iff :
    (peer : Certificate) (device_id : String)
    → (matches_device_id (some peer) device_id ≡ true) ↔ (
        (peer.common_name ≡ device_id)
        ⊎ (map (λ c. if c == 45 then 95 else c) (codes peer.common_name)
            ≡ map (λ c. if c == 45 then 95 else c) (codes device_id)))
unfolding matches_device_id
matches_device_id_iff peer device_id = ground (
  arith,
  str_eq_iff peer.common_name device_id,
  same_codes_iff (underscored (codes peer.common_name)) (underscored (codes device_id)),
)
