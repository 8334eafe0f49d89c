-- ===== src/Protocol/Framing/Lines.antt =====
-- packet.go: the lines that are read do not depend on how the buffer cuts them.
use kcd.Base.{
  ℕ, ◌-◌, ◌≤◌, ◌<◌, ◌≡◌, refl, ap, ◌∙◌, false, Option, none, some, List, [], ◌∷◌, ◌++◌, map, arith,
  ltb, leb, ◌==◌, if◌then◌else◌, length, length-append, Bool-cases, All, inl, inr,
}
use mathlib.Core.List.{append_assoc}
use kcd.Protocol.Framing.{
  Slice, ended, full, ends_line, LineRead, line, too_large, discard_rest, discard_line, read_slices,
  read_line_bounded, Read, packet, unmarshal_error, no_line, packet_of, read_packet_bounded,
  read_packets,
}

-- A line in the pieces that the buffer cuts it into; the last is what stands before the newline.
pub record Cut : Type 0 where
  pub pieces : List (List ℕ)
  pub last : List ℕ

abbrev pub joined : List (List ℕ) → List ℕ → List ℕ
joined [] last = last
joined (c ∷ cs) last = c ++ joined cs last

abbrev pub whole : Cut → List ℕ
whole l = joined l.pieces (l.last ++ b'\n' ∷ [])

abbrev pub fulls : List (List ℕ) → List ℕ → List Slice → List Slice
fulls [] last ss = ended last ∷ ss
fulls (c ∷ cs) last ss = full c ∷ fulls cs last ss

abbrev pub slices : Cut → List Slice → List Slice
slices l ss = fulls l.pieces (l.last ++ b'\n' ∷ []) ss

-- No newline stands at the end of a piece before the last.
abbrev pub Open : List (List ℕ) → Type 0
Open [] = Unit
Open (c ∷ cs) = (ends_line c ≡ false) × Open cs

discard_rest-fulls :
    (cs : List (List ℕ)) (last : List ℕ) (ss : List Slice)
    → Open cs
    → discard_rest (fulls cs last ss) ≡ ss
unfolding discard_rest
discard_rest-fulls [] last ss h = refl
discard_rest-fulls (c ∷ cs) last ss (h, k) = rw (h, discard_rest) (discard_rest-fulls cs last ss k)

-- What a line of these bytes is read as.
abbrev pub bounded : ℕ → List ℕ → LineRead
bounded max bs = if leb (length bs) max then line bs else too_large

read_slices-fulls :
    (max : ℕ) (cs : List (List ℕ)) (last : List ℕ) (ss : List Slice) (sofar : List ℕ)
    → Open cs
    → length sofar ≤ max
    → read_slices max (fulls cs last ss) sofar ≡ (bounded max (sofar ++ joined cs last), ss)
unfolding read_slices discard_line
read_slices-fulls max [] last ss sofar h b = ground (arith, b, length-append sofar last)
read_slices-fulls max (c ∷ cs) last ss sofar (h, k) b =
    elim (Bool-cases (ltb (max - length sofar) (length c))) [
      | inl e ↦
          rw (e, read_slices, h, discard_line, discard_rest-fulls cs last ss k)
            (ground (
              arith,
              e,
              b,
              length-append sofar (c ++ joined cs last),
              length-append c (joined cs last),
            ))
      | inr e ↦
          rw (e, read_slices)
            (read_slices-fulls max cs last ss (sofar ++ c) k
                (ground (arith, e, b, length-append sofar c))
              ∙ rw (append_assoc sofar c (joined cs last)) refl)
    ]

abbrev pub all_slices : List Cut → List Slice → List Slice
all_slices [] ss = ss
all_slices (l ∷ ls) ss = slices l (all_slices ls ss)

-- What a line is read as: the packet that it decodes to, or the reason why there is none.
abbrev pub outcome : {P : Type 0} → (List ℕ → Option P) → ℕ → List ℕ → Read P
outcome decode max bs =
    if leb (length bs) max
    then (elim (decode bs) [ none ↦ unmarshal_error | some p ↦ packet p ])
    else no_line too_large

module _ {P : Type 0} (decode : List ℕ → Option P) (max : ℕ) where
  joined-full : (cs : List (List ℕ)) (bs : List ℕ) → 0 < length bs → 0 < length (joined cs bs)
  joined-full [] bs h = h
  joined-full (c ∷ cs) bs h = omega (arith, length-append c (joined cs bs), joined-full cs bs h)

  packet_of-bounded :
      (bs : List ℕ) → 0 < length bs → packet_of decode (bounded max bs) ≡ outcome decode max bs
  unfolding packet_of
  packet_of-bounded [] h = absurd (omega arith)
  packet_of-bounded (b ∷ bs) h = elim (Bool-cases (leb (length (b ∷ bs)) max)) [
    | inl e ↦ rw (e, packet_of) refl
    | inr e ↦ rw (e, packet_of) refl
  ]

  read_packet_bounded-slices :
      (l : Cut) (ss : List Slice)
      → 0 < max
      → Open l.pieces
      → read_packet_bounded decode max (slices l ss) ≡ (outcome decode max (whole l), ss)
  unfolding read_packet_bounded read_line_bounded
  read_packet_bounded-slices l ss h k =
      let e = read_slices-fulls max l.pieces (l.last ++ b'\n' ∷ []) ss [] k (omega arith) in
      let z : (max == 0) ≡ false = ground (arith, h) in
      let full' =
        joined-full l.pieces (l.last ++ b'\n' ∷ [])
          (omega (arith, length-append l.last (b'\n' ∷ []))) in
      rw (z, e, packet_of-bounded (whole l) full') refl

  -- Packets are read as they were sent, however the buffer cuts them. Where lines arrive one after
  -- the other, each in pieces of which only the last ends in a newline, as many reads give for each
  -- line, in order, the packet that it decodes to, the decoding error, or, exactly where the line is
  -- longer than the limit, the news that it is too large; each leaves the reader at the next line.
  pub read_packets-slices :
      (ls : List Cut) (ss : List Slice)
      → 0 < max
      → All (λ l. Open l.pieces) ls
      → read_packets decode max (length ls) (all_slices ls ss)
        ≡ (map (λ l. outcome decode max (whole l)) ls, ss)
  unfolding read_packets
  read_packets-slices [] ss h k = refl
  read_packets-slices (l ∷ ls) ss h (k, ks) =
      ap
        (λ t. (
          t.0 ∷ (read_packets decode max (length ls) t.1).0,
          (read_packets decode max (length ls) t.1).1,
        ))
        (read_packet_bounded-slices l (all_slices ls ss) h k)
      ∙ ap (λ t. (outcome decode max (whole l) ∷ t.0, t.1)) (read_packets-slices ls ss h ks)
