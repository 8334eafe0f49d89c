-- ===== src/Base/Maps.antt =====
-- Go maps with string keys as association lists: reading, writing and deleting an entry. A write
-- takes the old entry out and puts the new one first; the order of a map is not defined in Go.
use Prim.Native.String.{String}
use mathlib.Core.Path.{◌≡◌}
use mathlib.Core.Option.{Option, none, some}
use mathlib.Core.List.{List, [], ◌∷◌}
use native.Mathlib.Omega.{arith}
use text.Mathlib.Text.{◌==◌}
use text.Mathlib.TextEquality.{eq_iff}
use kcd.Base.Tests.{if◌then◌else◌}

module _ {ℓ} {Value : Type ℓ} where
  unfoldable pub delete : String → List (String × Value) → List (String × Value)
  delete key [] = []
  delete key ((other, value) ∷ entries) =
      let rest = delete key entries in if other == key then rest else (other, value) ∷ rest

  unfoldable pub insert : String → Value → List (String × Value) → List (String × Value)
  insert key value entries = (key, value) ∷ delete key entries

  unfoldable pub lookup : String → List (String × Value) → Option Value
  lookup wanted [] = none
  lookup wanted ((key, value) ∷ entries) =
      let later = lookup wanted entries in if key == wanted then some value else later

  pub lookup-delete :
      (key wanted : String) (entries : List (String × Value))
      → lookup wanted (delete key entries) ≡ (if key == wanted then none else lookup wanted entries)
  unfolding delete lookup
  lookup-delete key wanted [] = ground arith
  lookup-delete key wanted ((other, value) ∷ entries) = ground (
    arith,
    lookup-delete key wanted entries,
    eq_iff other key,
    eq_iff other wanted,
    eq_iff key wanted,
  )

  pub lookup-insert :
      (key wanted : String) (value : Value) (entries : List (String × Value))
      → lookup wanted (insert key value entries)
        ≡ (if key == wanted then some value else lookup wanted entries)
  unfolding insert lookup
  lookup-insert key wanted value entries =
      ground (arith, lookup-delete key wanted entries, eq_iff key wanted)
