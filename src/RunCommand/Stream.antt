-- ===== src/RunCommand/Stream.antt =====
-- output.go: what the batches carry, however lines, ticks and the end of the context interleave.
use mathlib.Core.List.{append_assoc, append-nil}
use kcd.Base.{
  ℕ, suc, ◌-◌, ◌≡◌, refl, sym, subst, ◌∙◌, Bool, true, false, not, ◌||◌, List, [], ◌∷◌, ◌++◌, arith,
  ltb, leb, if◌then◌else◌, Bool-cases, inl, inr, length, length-append, take, take-append, take-nil,
  nil_of_length,
}
use kcd.RunCommand.{
  Text, Line, OutputStream, Effect, sent, published, clip, add, take_batch, new_stream, pending,
  flush, drain_lines, Choice, got, closed, ticked, cancelled, Lap, choose, lap_body, loop,
  stream_max_lines,
}

-- The lines of one of the two streams, cut.
abbrev pub of_stream : Bool → List Line → List Text
of_stream b [] = []
of_stream b (l ∷ ls) =
    if (if l.is_stderr then b else not b) then clip l.text ∷ of_stream b ls else of_stream b ls

-- What is left of the cap.
abbrev pub room : OutputStream → ℕ
room s = stream_max_lines - s.total

abbrev pub pick : Bool → OutputStream → List Text
pick true s = s.stderr
pick false s = s.stdout

of_stream-append :
    (b : Bool) (xs ys : List Line) → of_stream b (xs ++ ys) ≡ of_stream b xs ++ of_stream b ys
of_stream-append b [] ys = refl
of_stream-append b (x ∷ xs) ys = ground (arith, of_stream-append b xs ys)

-- What one effect sends of a stream, and the batches of the stream in what was sent, one after the
-- other.
abbrev pub batch_of : Bool → Effect → List Text
batch_of true (sent stdout stderr note) = stderr
batch_of false (sent stdout stderr note) = stdout
batch_of b e = []

abbrev pub batches : Bool → List Effect → List Text
batches b [] = []
batches b (e ∷ es) = batch_of b e ++ batches b es

-- From `s`, with `ls` coming in, to `s'` and what was sent: nothing of the lines within the cap is
-- lost, doubled or moved.
record Carries (s : OutputStream) (ls : List Line) (s' : OutputStream) (es : List Effect)
    : Type 0 where
  kept : (b : Bool) → batches b es ++ pick b s' ≡ pick b s ++ of_stream b (take (room s) ls)
  left : room s' ≡ room s - length ls
  note : s'.dropped ≡ (s.dropped || ltb (room s) (length ls))

add-full :
    (b : Bool) (l : Line) (s : OutputStream)
    → leb stream_max_lines s.total ≡ true
    → pick b (add l s) ≡ pick b s
unfolding add
add-full true l s h = rw h (refl)
add-full false l s h = rw h (refl)

add-below :
    (b : Bool) (l : Line) (s : OutputStream)
    → leb stream_max_lines s.total ≡ false
    → pick b (add l s) ≡ pick b s ++ of_stream b (l ∷ [])
unfolding add
add-below true l s h = elim (Bool-cases l.is_stderr) [
  | inl e ↦ rw (h, e) (refl)
  | inr e ↦ rw (h, e) (sym (append-nil s.stderr))
]
add-below false l s h = elim (Bool-cases l.is_stderr) [
  | inl e ↦ rw (h, e) (sym (append-nil s.stdout))
  | inr e ↦ rw (h, e) (refl)
]

add-pick :
    (b : Bool) (l : Line) (s : OutputStream)
    → pick b (add l s) ≡ pick b s ++ of_stream b (take (room s) (l ∷ []))
add-pick b l s = elim (Bool-cases (leb stream_max_lines s.total)) [
  | inl e ↦
      let z : room s ≡ 0 = ground arith in rw z (add-full b l s e ∙ sym (append-nil (pick b s)))
  | inr e ↦
      let z : room s ≡ suc (room s - 1) = ground arith in
      rw (z, take-nil {A = Line} (room s - 1)) (add-below b l s e)
]

add-room : (l : Line) (s : OutputStream) → room (add l s) ≡ room s - 1
unfolding add
add-room l s = ground arith

batches-append :
    (b : Bool) (es fs : List Effect) → batches b (es ++ fs) ≡ batches b es ++ batches b fs
batches-append b [] fs = refl
batches-append b (e ∷ es) fs =
    rw (batches-append b es fs, append_assoc (batch_of b e) (batches b es) (batches b fs)) (refl)

-- What two steps carry one after the other.
Carries-append :
    {s s' s'' : OutputStream} {ls ms : List Line} {es fs : List Effect}
    → Carries s ls s' es
    → Carries s' ms s'' fs
    → Carries s (ls ++ ms) s'' (es ++ fs)
Carries-append {s} {s'} {s''} {ls} {ms} {es} {fs} h k = record {
  kept = λ b. cc (
    batches-append b es fs,
    append_assoc (batches b es) (batches b fs) (pick b s''),
    k.kept b,
    append_assoc (batches b es) (pick b s') (of_stream b (take (room s') ms)),
    h.kept b,
    append_assoc (pick b s) (of_stream b (take (room s) ls)) (of_stream b (take (room s') ms)),
    of_stream-append b (take (room s) ls) (take (room s') ms),
    take-append (room s) ls ms,
    h.left,
  );
  left = omega (arith, length-append ls ms, h.left, k.left);
  note = ground (arith, length-append ls ms, h.left, k.left, h.note, k.note);
}

add-note : (l : Line) (s : OutputStream) → (add l s).dropped ≡ (s.dropped || ltb (room s) 1)
unfolding add
add-note l s = elim (Bool-cases (leb stream_max_lines s.total)) [
  | inl e ↦ let z : ltb (room s) 1 ≡ true = ground arith in rw (e, z) (ground arith)
  | inr e ↦ let z : ltb (room s) 1 ≡ false = ground arith in rw (e, z) (ground arith)
]

add-Carries : (l : Line) (s : OutputStream) → Carries s (l ∷ []) (add l s) []
add-Carries l s = record { kept = λ b. add-pick b l s; left = add-room l s; note = add-note l s }

idle-Carries : (s : OutputStream) → Carries s [] s []
idle-Carries s = record {
  kept = λ b. rw (take-nil {A = Line} (room s)) (sym (append-nil (pick b s)));
  left = omega arith;
  note = ground arith;
}

drain-Carries : (ls : List Line) (s : OutputStream) → Carries s ls (drain_lines ls s) []
unfolding drain_lines
drain-Carries [] s = idle-Carries s
drain-Carries (l ∷ ls) s = Carries-append (add-Carries l s) (drain-Carries ls (add l s))

-- Nothing is left in the buffers.
abbrev pub IsFlushed : OutputStream → Type 0
IsFlushed s = (s.stdout ≡ []) × (s.stderr ≡ [])

nil_of_not_ltb : {A : Type 0} → (xs : List A) → ltb 0 (length xs) ≡ false → xs ≡ []
nil_of_not_ltb xs h = nil_of_length xs (ground arith)

pending-IsFlushed : (s : OutputStream) → pending s ≡ false → IsFlushed s
unfolding pending
pending-IsFlushed s h =
    (nil_of_not_ltb s.stdout (ground arith), nil_of_not_ltb s.stderr (ground arith))

-- A flush empties the buffers, and sends what was in them.
record Flushed (s : OutputStream) (r : OutputStream × List Effect) : Type 0 where
  empty : IsFlushed r.0
  kept : (b : Bool) → batches b r.1 ≡ pick b s
  total : r.0.total ≡ s.total
  note : r.0.dropped ≡ s.dropped

batches-listened :
    (b : Bool) (s : OutputStream) (listened : Bool) (more : List Effect)
    → batches b (
        sent s.stdout s.stderr s.dropped
        ∷ (if listened then published s.stdout s.stderr s.dropped ∷ [] else []))
      ≡ pick b s
batches-listened true s true more = append-nil s.stderr
batches-listened true s false more = append-nil s.stderr
batches-listened false s true more = append-nil s.stdout
batches-listened false s false more = append-nil s.stdout

flush-pending :
    (listened : Bool) (s : OutputStream)
    → pending s ≡ true
    → flush listened s ≡ (
      record s { stdout = []; stderr = [] },
      sent s.stdout s.stderr s.dropped
          ∷ (if listened then published s.stdout s.stderr s.dropped ∷ [] else []),
    )
unfolding flush take_batch
flush-pending listened s h = rw h (refl)

pub flush-idle :
    (listened : Bool) (s : OutputStream) → pending s ≡ false → flush listened s ≡ (s, [])
unfolding flush take_batch
flush-idle listened s h = rw h (refl)

pick-IsFlushed : (b : Bool) (s : OutputStream) → IsFlushed s → pick b s ≡ []
pick-IsFlushed true s (h, k) = k
pick-IsFlushed false s (h, k) = h

flush-Flushed : (listened : Bool) (s : OutputStream) → Flushed s (flush listened s)
flush-Flushed listened s = elim (Bool-cases (pending s)) [
  | inl e ↦ subst (Flushed s) (sym (flush-pending listened s e)) (record {
    empty = (refl, refl);
    kept = λ b. batches-listened b s listened [];
    total = refl;
    note = refl;
  })
  | inr e ↦ subst (Flushed s) (sym (flush-idle listened s e)) (record {
    empty = pending-IsFlushed s e;
    kept = λ b. sym (pick-IsFlushed b s (pending-IsFlushed s e));
    total = refl;
    note = refl;
  })
]

flush-Carries :
    (listened : Bool) (s : OutputStream) → Carries s [] (flush listened s).0 (flush listened s).1
flush-Carries listened s =
    let f = flush-Flushed listened s in
    record {
      kept = λ b.
          rw (f.kept b, pick-IsFlushed b (flush listened s).0 f.empty, take-nil {A = Line} (room s))
            (refl);
      left = omega (arith, f.total);
      note = ground (arith, f.note);
    }

-- The line that the `select` takes.
abbrev pub chosen : Choice → List Line
chosen (got l) = l ∷ []
chosen closed = []
chosen ticked = []
chosen cancelled = []

pick-stopped : (b : Bool) (s : OutputStream) → pick b (record s { stopped = true }) ≡ pick b s ++ []
pick-stopped true s = sym (append-nil s.stderr)
pick-stopped false s = sym (append-nil s.stdout)

choose-Carries :
    (c : Choice) (listened : Bool) (s : OutputStream)
    → Carries s (chosen c) (choose c listened s).0 (choose c listened s).1
unfolding choose
choose-Carries (got l) listened s = add-Carries l s
choose-Carries closed listened s = idle-Carries s
choose-Carries ticked listened s = flush-Carries listened s
choose-Carries cancelled listened s = record {
  kept = λ b. rw (take-nil {A = Line} (room s)) (pick-stopped b s);
  left = omega arith;
  note = ground arith;
}

-- The lines of a lap and of all laps, in the order in which they arrive.
abbrev pub lap_lines : Lap → List Line
lap_lines lap = lap.drained ++ chosen lap.choice

abbrev pub arrived : List Lap → List Line → List Line
arrived [] last = last
arrived (lap ∷ laps) last = lap_lines lap ++ arrived laps last

lap-Carries :
    (lap : Lap) (s : OutputStream) → Carries s (lap_lines lap) (lap_body lap s).0 (lap_body lap s).1
unfolding lap_body
lap-Carries lap s =
    let s1 = drain_lines lap.drained s in
    let s2 = (flush lap.listened s1).0 in
    Carries-append (drain-Carries lap.drained s)
      (Carries-append (flush-Carries lap.listened s1) (choose-Carries lap.choice lap.listened s2))

loop-Carries :
    (laps : List Lap) (last : List Line) (listened : Bool) (s : OutputStream)
    → Carries s (arrived laps last) (loop laps last listened s).0 (loop laps last listened s).1
unfolding loop
loop-Carries [] last listened s =
    let s1 = drain_lines last s in
    subst (λ ls. Carries s ls (flush listened s1).0 (flush listened s1).1) (append-nil last)
      (Carries-append (drain-Carries last s) (flush-Carries listened s1))
loop-Carries (lap ∷ laps) last listened s =
    Carries-append (lap-Carries lap s) (loop-Carries laps last listened (lap_body lap s).0)

loop-IsFlushed :
    (laps : List Lap) (last : List Line) (listened : Bool) (s : OutputStream)
    → IsFlushed (loop laps last listened s).0
unfolding loop
loop-IsFlushed [] last listened s = (flush-Flushed listened (drain_lines last s)).empty
loop-IsFlushed (lap ∷ laps) last listened s = loop-IsFlushed laps last listened (lap_body lap s).0

-- However the lines of the two pipes, the ticks and the end of the context interleave, the batches
-- that a run sends, put one after the other, hold for each of the two streams its lines among the
-- first two thousand that arrived, cut, in the order of their arrival: none is lost, doubled or moved
-- by the batching, and nothing stays behind in the buffers. The run knows that lines were dropped
-- exactly when more than two thousand arrived.
pub loop-batches :
    (laps : List Lap) (last : List Line) (listened : Bool)
    → let r = loop laps last listened new_stream in
      ((b : Bool) → batches b r.1 ≡ of_stream b (take stream_max_lines (arrived laps last)))
      × IsFlushed r.0
      × (r.0.dropped ≡ ltb stream_max_lines (length (arrived laps last)))
unfolding new_stream
loop-batches laps last listened =
    let r = loop laps last listened new_stream in
    let c = loop-Carries laps last listened new_stream in
    let f = loop-IsFlushed laps last listened new_stream in
    (
      λ b.
          let k : batches b r.1 ++ pick b r.0
              ≡ pick b new_stream ++ of_stream b (take stream_max_lines (arrived laps last)) =
            c.kept b in
          cc (
            k,
            append-nil (batches b r.1),
            pick-IsFlushed b r.0 f,
            pick-IsFlushed b new_stream (refl, refl),
          ),
      f,
      c.note,
    )
