-- ===== src/Sftp/Table/Split.antt =====
-- strings.Fields, which mounttable.go calls: the fields of a line that was put together from them.
use kcd.Base.{
  ℕ, zero, ◌≡◌, refl, ap, ◌∙◌, Bool, true, false, not, ◌||◌, List, [], ◌∷◌, ◌++◌, arith, ◌==◌, All,
}
use kcd.Sftp.{Text}
use kcd.Sftp.Table.{space_width, push_field, split_fields, fields}

abbrev pub has_space : Text → Bool
has_space [] = false
has_space (b ∷ s) = not (space_width (b ∷ s) == 0) || has_space s

abbrev pub is_blank : Text → Bool
is_blank [] = true
is_blank (b ∷ s) = false

-- A text that is not empty and in which no white space of Unicode stands.
abbrev pub Solid : Text → Type 0
Solid f = (is_blank f ≡ false) × (has_space f ≡ false)

-- The fields with a space between each two.
abbrev pub join : List Text → Text
join [] = []
join (f ∷ []) = f
join (f ∷ g ∷ fs) = f ++ 32 ∷ join (g ∷ fs)

-- A space after a text makes no white space of its end.
space_width-append :
    (b : ℕ) (s more : Text) → space_width (b ∷ s) ≡ 0 → space_width (b ∷ (s ++ 32 ∷ more)) ≡ 0
unfolding space_width
space_width-append b [] [] h = ground (arith, h)
space_width-append b [] (m ∷ more) h = ground (arith, h)
space_width-append b (c ∷ []) more h = ground (arith, h)
space_width-append b (c ∷ d ∷ s) more h = h

split_fields-append :
    (f more : Text) → has_space f ≡ false → split_fields zero (f ++ 32 ∷ more) ≡ (f, fields more)
unfolding split_fields fields space_width
split_fields-append [] [] h = refl
split_fields-append [] (m ∷ []) h = refl
split_fields-append [] (m ∷ n ∷ more) h = refl
split_fields-append (b ∷ f) more h =
    let e : space_width (b ∷ f) ≡ 0 = ground (arith, h) in
    let g = space_width-append b f more e in
    let ih = split_fields-append f more (ground (arith, h)) in
    rw (g, split_fields) (ap (λ t. (b ∷ t.0, t.1)) ih)

split_fields-last : (f : Text) → has_space f ≡ false → split_fields zero f ≡ (f, [])
unfolding split_fields
split_fields-last [] h = refl
split_fields-last (b ∷ f) h =
    let e : space_width (b ∷ f) ≡ 0 = ground (arith, h) in
    let ih = split_fields-last f (ground (arith, h)) in
    rw (e, split_fields) (ap (λ t. (b ∷ t.0, t.1)) ih)

push_field-full : (f : Text) (fs : List Text) → is_blank f ≡ false → push_field f fs ≡ f ∷ fs
unfolding push_field
push_field-full [] fs h = absurd (cc h)
push_field-full (b ∷ f) fs h = refl

-- What was put together from fields is split into them.
pub fields-join : (fs : List Text) → All Solid fs → fields (join fs) ≡ fs
unfolding fields split_fields push_field
fields-join [] h = refl
fields-join (f ∷ []) ((full, solid), h) =
    ap (λ t. push_field t.0 t.1) (split_fields-last f solid) ∙ push_field-full f [] full
fields-join (f ∷ g ∷ fs) ((full, solid), h) =
    ap (λ t. push_field t.0 t.1) (split_fields-append f (join (g ∷ fs)) solid)
    ∙ (push_field-full f (fields (join (g ∷ fs))) full ∙ ap (λ t. f ∷ t) (fields-join (g ∷ fs) h))
