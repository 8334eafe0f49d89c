-- ===== src/Events/Replay.antt =====
-- bus.go, `Publish` and `EventsSince`: what a client that reconnects gets back.
use mathlib.Core.List.{append-nil, append_assoc}
use kcd.Base.{
  ℕ, suc, ◌+◌, ◌-◌, ◌≤◌, ◌<◌, ◌≡◌, ◌↔◌, refl, sym, ap, ◌∙◌, String, Bool, true, false, not, ◌&&◌,
  List, [], ◌∷◌, ◌++◌, arith, ltb, leb, length, drop, take, keep, keep-append, length-append,
  Bool-cases, inl, inr, zero, nil_of_length, drop-drop, drop-append, length-drop, take-append-drop,
}
use kcd.Events.{
  Event, Bus, Call, publishes, subscribes, unsubscribes, hooks, u64_mod, event_replay_capacity,
  matches_filters, trim, replay, new_bus, subscribe, unsubscribe, on_subscriber_change, make_event,
  publish, events_since, step, run, published, history,
}

module _ {P : Type 0} where
  -- The numbers of a list run on from `n + 1`.
  abbrev pub Consecutive : ℕ → List (Event P) → Type 0
  Consecutive n [] = Unit
  Consecutive n (e ∷ es) = (e.seq ≡ suc n) × Consecutive (suc n) es

  Consecutive-append :
      (n : ℕ) (es : List (Event P)) (e : Event P)
      → Consecutive n es
      → e.seq ≡ suc (n + length es)
      → Consecutive n (es ++ e ∷ [])
  Consecutive-append n [] e h k = (omega arith, tt)
  Consecutive-append n (x ∷ es) e (p, h) k = (p, Consecutive-append (suc n) es e h (omega arith))

  Consecutive-drop :
      (k n m : ℕ) (es : List (Event P))
      → m ≡ n + k
      → Consecutive n es
      → k ≤ length es
      → Consecutive m (drop k es)
  Consecutive-drop zero n m es e h l = let e' : m ≡ n = omega arith in rw e' h
  Consecutive-drop (suc k) n m [] e h l = absurd (omega arith)
  Consecutive-drop (suc k) n m (x ∷ es) e h l =
      Consecutive-drop k (suc n) m es (omega arith) h.1 (omega arith)

  length-trim : (es : List (Event P)) → length (trim es) ≤ event_replay_capacity
  unfolding trim
  length-trim es = ground (arith, length-drop (length es - event_replay_capacity) es)

  length_window :
      (n : ℕ) (es : List (Event P)) (e : Event P)
      → n ≡ length es
      → length (drop (n - event_replay_capacity) (es ++ e ∷ []))
        ≡ suc n - (n - event_replay_capacity)
  length_window n es e h =
      omega
        (arith, length-drop (n - event_replay_capacity) (es ++ e ∷ []), length-append es (e ∷ []))

  -- Trimming after every append keeps the last 256 of all that was appended.
  trim-append :
      (n : ℕ) (es : List (Event P)) (e : Event P)
      → n ≡ length es
      → trim (drop (n - event_replay_capacity) es ++ e ∷ [])
        ≡ drop (suc n - event_replay_capacity) (es ++ e ∷ [])
  unfolding trim
  trim-append n es e h =
      rw (← drop-append (n - event_replay_capacity) es (e ∷ []) (omega arith))
        (elim (Bool-cases (ltb event_replay_capacity (length r))) [
          | inl full ↦
              rw full (drop-drop _ _ _ (es ++ e ∷ []) (ground (arith, length_window n es e h)))
          | inr room ↦ rw room (
              let k : n - event_replay_capacity ≡ suc n - event_replay_capacity =
                ground (arith, length_window n es e h) in
              ap (λ m. drop m (es ++ e ∷ [])) k)
        ])
    where
      r : List (Event P)
      r = drop (n - event_replay_capacity) (es ++ e ∷ [])

  -- The test of `replay`.
  abbrev pub after : ℕ → List String → Event P → Bool
  after since filters e = not (leb e.seq since) && matches_filters e.typ filters

  keep_old :
      (since n : ℕ) (filters : List String) (k : ℕ) (es : List (Event P))
      → Consecutive n es
      → n + k ≤ since
      → keep (after since filters) (take k es) ≡ []
  keep_old since n filters zero es h l = refl
  keep_old since n filters (suc k) [] h l = refl
  keep_old since n filters (suc k) (x ∷ es) h l =
      ground (arith, keep_old since (suc n) filters k es h.1)

  length-snoc : (hist : List (Event P)) (e : Event P) → length (hist ++ e ∷ []) ≡ suc (length hist)
  length-snoc hist e = omega (arith, length-append hist (e ∷ []))

  keep_window :
      (since : ℕ) (filters : List String) (k : ℕ) (hist : List (Event P))
      → Consecutive 0 hist
      → k ≤ since
      → keep (after since filters) (drop k hist) ≡ keep (after since filters) hist
  keep_window since filters k hist c l = sym (
      ap (keep (after since filters)) (sym (take-append-drop k hist))
      ∙ keep-append (after since filters) (take k hist) (drop k hist)
      ∙ ap (λ es. es ++ keep (after since filters) (drop k hist))
          (keep_old since 0 filters k hist c (omega arith)))

module _ {P H : Type 0} where
  -- The ring is the end of all that was published, which is numbered from 1.
  pub record Tracks (b : Bus P H) (hist : List (Event P)) : Type 0 where
    pub window : b.ring ≡ drop (length hist - event_replay_capacity) hist
    pub numbered : b.seq ≡ length hist
    pub consecutive : Consecutive 0 hist

  publish-Tracks :
      (typ device_id : String) (payload : P) (now : ℕ) (b : Bus P H) (hist : List (Event P))
      → Tracks b hist
      → suc (length hist) < u64_mod
      → Tracks
          (publish typ device_id payload now b)
          (hist ++ make_event typ device_id payload now b ∷ [])
  unfolding publish
  publish-Tracks typ device_id payload now b hist t l = record {
    window =
        rw (t.window, length-snoc hist (make_event typ device_id payload now b))
          (trim-append (length hist) hist (make_event typ device_id payload now b) refl);
    numbered = grind (arith, length-snoc hist (make_event typ device_id payload now b), t.numbered);
    consecutive = Consecutive-append 0 hist _ t.consecutive (omega (arith, t.numbered));
  }

  step-Tracks :
      (c : Call P H) (b : Bus P H) (hist : List (Event P))
      → Tracks b hist
      → suc (length hist) < u64_mod
      → Tracks (step c b) (hist ++ published c b)
  unfolding step subscribe unsubscribe on_subscriber_change
  step-Tracks (publishes typ device_id payload now) b hist t l =
      publish-Tracks typ device_id payload now b hist t l
  step-Tracks (subscribes capacity filters) b hist t l =
      rw (append-nil hist)
        (record { window = t.window; numbered = t.numbered; consecutive = t.consecutive })
  step-Tracks (unsubscribes id) b hist t l = rw (append-nil hist) (record {
    window = ground (arith, t.window);
    numbered = ground (arith, t.numbered);
    consecutive = t.consecutive;
  })
  step-Tracks (hooks fn) b hist t l =
      rw (append-nil hist)
        (record { window = t.window; numbered = t.numbered; consecutive = t.consecutive })

  length-published : (c : Call P H) (b : Bus P H) → length (published c b) ≤ 1
  length-published (publishes typ device_id payload now) b = omega arith
  length-published c b = omega arith

  run-Tracks :
      (cs : List (Call P H)) (b : Bus P H) (hist : List (Event P))
      → Tracks b hist
      → length hist + length cs < u64_mod
      → Tracks (run cs b) (hist ++ history cs b)
  unfolding run history
  run-Tracks [] b hist t l = rw (append-nil hist) t
  run-Tracks (c ∷ cs) b hist t l =
      rw (← append_assoc hist (published c b) (history cs (step c b))) (
        run-Tracks cs (step c b) (hist ++ published c b) (step-Tracks c b hist t (omega arith))
          (omega (arith, length-append hist (published c b), length-published c b)))

  -- From a new bus.
  pub run-new_bus-Tracks :
      (cs : List (Call P H)) → length cs < u64_mod → Tracks (run cs new_bus) (history cs new_bus)
  unfolding new_bus
  run-new_bus-Tracks cs l =
      run-Tracks cs new_bus [] (record { window = refl; numbered = refl; consecutive = tt })
        (omega arith)

  -- The ring's first event has the number after those that fell out.
  oldest_seq :
      (b : Bus P H) (hist : List (Event P)) (o : Event P) (r : List (Event P))
      → Tracks b hist
      → b.ring ≡ o ∷ r
      → o.seq ≡ suc (length hist - event_replay_capacity)
  oldest_seq b hist o r t e =
      let h : Consecutive (length hist - event_replay_capacity) (o ∷ r) = rw window at first in h.0
    where
      window : drop (length hist - event_replay_capacity) hist ≡ o ∷ r
      window = sym t.window ∙ e

      first :
          Consecutive
            (length hist - event_replay_capacity)
            (drop (length hist - event_replay_capacity) hist)
      first =
          Consecutive-drop (length hist - event_replay_capacity) 0 _ hist (omega arith)
            t.consecutive (omega arith)

  hist_nil : (b : Bus P H) (hist : List (Event P)) → Tracks b hist → b.ring ≡ [] → hist ≡ []
  hist_nil b hist t e = nil_of_length hist (
      omega (
        arith,
        ap length (sym t.window ∙ e),
        length-drop (length hist - event_replay_capacity) hist,
      ))

  -- With a ring that tracks the history, a reply without a gap is all of the history that is asked
  -- for.
  events_since_complete :
      (since : ℕ) (filters : List String) (b : Bus P H) (hist : List (Event P))
      (ring : List (Event P))
      → Tracks b hist
      → b.ring ≡ ring
      → 0 < since
      → (events_since since filters b).1 ≡ false
      → (events_since since filters b).0 ≡ keep (after since filters) hist
  unfolding events_since replay
  events_since_complete since filters b hist [] t e pos gap =
      rw (hist_nil b hist t e, e, events_since)
  events_since_complete since filters b hist (o ∷ r) t e pos gap =
      rw
        (
          ← keep_window since filters (length hist - event_replay_capacity) hist t.consecutive
              (ground (arith, oldest_seq b hist o r t e)),
          ← t.window,
          e,
          events_since,
        )
        (ground arith)

  events_since_gap :
      (since : ℕ) (filters : List String) (b : Bus P H) (hist : List (Event P))
      (ring : List (Event P))
      → Tracks b hist
      → b.ring ≡ ring
      → 0 < since
      → suc since < u64_mod
      → ((events_since since filters b).1 ≡ true) ↔ (since + event_replay_capacity < length hist)
  unfolding events_since
  events_since_gap since filters b hist [] t e pos l =
      rw (hist_nil b hist t e, e, events_since) (ground arith)
  events_since_gap since filters b hist (o ∷ r) t e pos l =
      rw (e, events_since) (ground (arith, oldest_seq b hist o r t e))

  -- After fewer than 2 ^ 64 calls on a new bus, a client that names the last number it saw (not 0)
  -- and is told of no gap receives exactly the published events with a greater number that pass its
  -- filters, in the order of publication.
  pub events_since-run_complete :
      (cs : List (Call P H)) (since : ℕ) (filters : List String)
      → length cs < u64_mod
      → 0 < since
      → (events_since since filters (run cs new_bus)).1 ≡ false
      → (events_since since filters (run cs new_bus)).0
        ≡ keep (after since filters) (history cs new_bus)
  events_since-run_complete cs since filters l pos gap =
      events_since_complete since filters _ _ _ (run-new_bus-Tracks cs l) refl pos gap

  -- After fewer than 2 ^ 64 calls on a new bus, the reply for a number that is not 0 and below
  -- 2 ^ 64 - 1 reports a gap exactly when more than 256 events were published after that number.
  pub events_since-run_gap_iff :
      (cs : List (Call P H)) (since : ℕ) (filters : List String)
      → length cs < u64_mod
      → 0 < since
      → suc since < u64_mod
      → ((events_since since filters (run cs new_bus)).1 ≡ true)
        ↔ (since + event_replay_capacity < length (history cs new_bus))
  events_since-run_gap_iff cs since filters l pos small =
      events_since_gap since filters _ _ _ (run-new_bus-Tracks cs l) refl pos small
