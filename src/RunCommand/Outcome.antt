-- ===== src/RunCommand/Outcome.antt =====
-- output.go: the lifecycle of an execution, and what happens past the cap on its lines.
use mathlib.Core.List.{append_assoc}
use kcd.Base.{
  ◌≤◌, ◌≡◌, refl, ◌∙◌, Bool, true, false, not, ◌&&◌, ◌||◌, List, [], ◌∷◌, ◌++◌, arith, leb,
  if◌then◌else◌, Bool-cases, inl, inr, All, All-append,
}
use kcd.Base.Int.{negsuc}
use kcd.RunCommand.{
  Text, Line, OutputStream, Effect, sent, published, published_started, published_finished,
  sent_finished, add, take_batch, new_stream, pending, flush, drain_lines, Choice, got, closed,
  ticked, cancelled, Lap, choose, lap_body, loop, Execution, not_started, ran, finish,
  stream_output, summary, stream_max_lines,
}
use kcd.RunCommand.Stream.{IsFlushed, flush-idle}

-- A packet or an event of one batch, as opposed to those of the lifecycle.
abbrev pub IsBatch : Effect → Type 0
IsBatch (sent stdout stderr note) = Unit
IsBatch (published stdout stderr note) = Unit
IsBatch published_started = ⊥
IsBatch (published_finished success transcript exit_code) = ⊥
IsBatch (sent_finished success exit_code) = ⊥

abbrev is_cancel : Choice → Bool
is_cancel (got l) = false
is_cancel closed = false
is_cancel ticked = false
is_cancel cancelled = true

-- Whether the end of the context was seen in one of the laps.
abbrev pub was_cancelled : List Lap → Bool
was_cancelled [] = false
was_cancelled (lap ∷ laps) = is_cancel lap.choice || was_cancelled laps

flush-IsBatch : (listened : Bool) (s : OutputStream) → All IsBatch (flush listened s).1
unfolding flush take_batch
flush-IsBatch true s = elim (Bool-cases (pending s)) [
  | inl e ↦ rw e (tt, (tt, tt))
  | inr e ↦ rw e (tt)
]
flush-IsBatch false s = elim (Bool-cases (pending s)) [ inl e ↦ rw e (tt, tt) | inr e ↦ rw e (tt) ]

choose-IsBatch :
    (c : Choice) (listened : Bool) (s : OutputStream) → All IsBatch (choose c listened s).1
unfolding choose
choose-IsBatch (got l) listened s = tt
choose-IsBatch closed listened s = tt
choose-IsBatch ticked listened s = flush-IsBatch listened s
choose-IsBatch cancelled listened s = tt

loop-IsBatch :
    (laps : List Lap) (last : List Line) (listened : Bool) (s : OutputStream)
    → All IsBatch (loop laps last listened s).1
unfolding loop lap_body
loop-IsBatch [] last listened s = flush-IsBatch listened (drain_lines last s)
loop-IsBatch (lap ∷ laps) last listened s =
    let s1 = drain_lines lap.drained s in
    let s2 = (flush lap.listened s1).0 in
    All-append IsBatch _ _
      (All-append IsBatch _ _ (flush-IsBatch lap.listened s1)
        (choose-IsBatch lap.choice lap.listened s2))
      (loop-IsBatch laps last listened (choose lap.choice lap.listened s2).0)

-- From `s` to `s'` the context ended or not, and nothing is announced.
abbrev Marked : Bool → OutputStream → OutputStream → Type 0
Marked ended s s' = (s'.stopped ≡ (s.stopped || ended)) × (s'.announced ≡ s.announced)

same-Marked : (s : OutputStream) → Marked false s s
same-Marked s = (ground arith, refl)

Marked-trans :
    (c d : Bool) (s s' s'' : OutputStream) → Marked c s s' → Marked d s' s'' → Marked (c || d) s s''
Marked-trans c d s s' s'' (h, h') (k, k') = (ground arith, k' ∙ h')

flush-Marked : (listened : Bool) (s : OutputStream) → Marked false s (flush listened s).0
unfolding flush take_batch
flush-Marked listened s = elim (Bool-cases (pending s)) [
  | inl e ↦ rw e (same-Marked s)
  | inr e ↦ rw e (same-Marked s)
]

add-Marked : (l : Line) (s : OutputStream) → Marked false s (add l s)
unfolding add
add-Marked l s = elim (Bool-cases (leb stream_max_lines s.total)) [
  | inl e ↦ rw e (same-Marked s)
  | inr e ↦ rw e (same-Marked s)
]

drain-Marked : (ls : List Line) (s : OutputStream) → Marked false s (drain_lines ls s)
unfolding drain_lines
drain-Marked [] s = same-Marked s
drain-Marked (l ∷ ls) s =
    Marked-trans false false s (add l s) (drain_lines ls (add l s)) (add-Marked l s)
      (drain-Marked ls (add l s))

choose-Marked :
    (c : Choice) (listened : Bool) (s : OutputStream)
    → Marked (is_cancel c) s (choose c listened s).0
unfolding choose
choose-Marked (got l) listened s = add-Marked l s
choose-Marked closed listened s = same-Marked s
choose-Marked ticked listened s = flush-Marked listened s
choose-Marked cancelled listened s = (ground arith, refl)

drained-Marked :
    (ls : List Line) (listened : Bool) (s : OutputStream)
    → Marked false s (flush listened (drain_lines ls s)).0
drained-Marked ls listened s =
    let s1 = drain_lines ls s in
    Marked-trans false false s s1 (flush listened s1).0 (drain-Marked ls s)
      (flush-Marked listened s1)

loop-Marked :
    (laps : List Lap) (last : List Line) (listened : Bool) (s : OutputStream)
    → Marked (was_cancelled laps) s (loop laps last listened s).0
unfolding loop lap_body
loop-Marked [] last listened s = drained-Marked last listened s
loop-Marked (lap ∷ laps) last listened s =
    let s2 = (flush lap.listened (drain_lines lap.drained s)).0 in
    let s3 = (choose lap.choice lap.listened s2).0 in
    Marked-trans (is_cancel lap.choice) (was_cancelled laps) s s3 (loop laps last listened s3).0
      (Marked-trans false (is_cancel lap.choice) s s2 s3 (drained-Marked lap.drained lap.listened s)
        (choose-Marked lap.choice lap.listened s2))
      (loop-Marked laps last listened s3)

-- What an execution tells the phone and the bus: one that did not start, only that it failed; one
-- that ran, its start, the batches, its end on the bus and its end to the phone, with the success of
-- the process unless the context ended first.
abbrev pub Told : Bool → Execution → Text × List Effect → Type 0
Told has_bus not_started r = r.1 ≡ sent_finished false (negsuc 0) ∷ []
Told has_bus (ran laps last listened waited exit_code) r =
    let success = waited && not (was_cancelled laps) in
    (bs : List Effect) × All IsBatch bs
    × (r.1
        ≡ (if has_bus then published_started ∷ [] else [])
          ++ (bs
              ++ ((if has_bus then published_finished success r.0 exit_code ∷ [] else [])
                  ++ sent_finished success exit_code ∷ [])))

-- An execution ends with exactly one finish packet, after every batch, and the packet reports success
-- only when the process succeeded and the context had not ended. On the bus the start comes first and
-- the end comes after every batch, with the same success; an execution that did not start publishes
-- nothing.
pub stream_output-Told : (has_bus : Bool) (e : Execution) → Told has_bus e (stream_output has_bus e)
unfolding stream_output finish new_stream
stream_output-Told has_bus not_started = refl
stream_output-Told has_bus (ran laps last listened waited exit_code) =
    let s0 : OutputStream = record new_stream { announced = true } in
    let (s, effects) = loop laps last listened s0 in
    let (h, k) = loop-Marked laps last listened s0 in
    (
      effects,
      loop-IsBatch laps last listened s0,
      rw (h, k)
          (append_assoc (if has_bus then published_started ∷ [] else []) effects (
            (if has_bus
              then published_finished (waited && not (was_cancelled laps)) (summary s) exit_code
                ∷ []
              else [])
            ++ sent_finished (waited && not (was_cancelled laps)) exit_code ∷ [])),
    )

abbrev IsFull : OutputStream → Type 0
IsFull s = (stream_max_lines ≤ s.total) × IsFlushed s

add-IsFull : (l : Line) (s : OutputStream) → IsFull s → IsFull (add l s)
unfolding add
add-IsFull l s h = let e : leb stream_max_lines s.total ≡ true = ground (arith, h.0) in rw e (h)

drain-IsFull : (ls : List Line) (s : OutputStream) → IsFull s → IsFull (drain_lines ls s)
unfolding drain_lines
drain-IsFull [] s h = h
drain-IsFull (l ∷ ls) s h = drain-IsFull ls (add l s) (add-IsFull l s h)

flush-IsFull : (listened : Bool) (s : OutputStream) → IsFull s → flush listened s ≡ (s, [])
unfolding pending
flush-IsFull listened s (full, (h, k)) = flush-idle listened s (rw (h, k) (refl))

choose-IsFull :
    (c : Choice) (listened : Bool) (s : OutputStream)
    → IsFull s
    → IsFull (choose c listened s).0 × ((choose c listened s).1 ≡ [])
unfolding choose
choose-IsFull (got l) listened s h = (add-IsFull l s h, refl)
choose-IsFull closed listened s h = (h, refl)
choose-IsFull ticked listened s h = rw (flush-IsFull listened s h) (h, refl)
choose-IsFull cancelled listened s h = (h, refl)

-- Once the cap is reached and the buffers are empty, nothing more is sent, whatever arrives: so the
-- note that lines were dropped is not sent either.
pub loop-full :
    (laps : List Lap) (last : List Line) (listened : Bool) (s : OutputStream)
    → stream_max_lines ≤ s.total
    → IsFlushed s
    → (loop laps last listened s).1 ≡ []
unfolding loop lap_body
loop-full [] last listened s full empty =
    rw (flush-IsFull listened (drain_lines last s) (drain-IsFull last s (full, empty))) (refl)
loop-full (lap ∷ laps) last listened s full empty =
    let s1 = drain_lines lap.drained s in
    let h = drain-IsFull lap.drained s (full, empty) in
    let (k, e) = choose-IsFull lap.choice lap.listened s1 h in
    rw (flush-IsFull lap.listened s1 h, e)
      (loop-full laps last listened (choose lap.choice lap.listened s1).0 k.0 k.1)
