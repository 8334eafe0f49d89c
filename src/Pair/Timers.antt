-- ===== src/Pair/Timers.antt =====
-- The timer of a pending request: one that was stopped or replaced but fires nevertheless.
use kcd.Base.{
  ℕ, ◌+◌, ◌%◌, ◌^◌, ◌<◌, length, sym, subst, ◌∙◌, ◌≤◌, ◌≡◌, ◌≢◌, refl, String, Bool, true, false,
  some, List, [], ◌∷◌, arith, Bool-cases, inl, inr, lookup, lookup-insert, lookup-delete,
}
use kcd.Device.{PairingState, paired, unpaired, is_state}
use kcd.Pair.{
  Plugin, Effect, dev, state_of, is_pending, record_effect, cancel_pending_timer,
  schedule_pending_timer, update_pending_timer, notify_state_changed, transition, change_state,
  transition_pending_to_paired, send_packet, clear_intents, forget_timestamp, store_timestamp,
}
use kcd.Pair.Actions.{Call, expire_pending, step, run}
use kcd.Pair.Primitives.{
  running_out, Move, emits, sends, clears, ends_dial, forgets, stores, cancels, changes, completes,
  runs_out, Moves, still, more, schedules, step-Moves,
}

-- Generation `g` was given out, and is not that of the timer for `id`; `n` is the last one.
pub record IsStale (id : String) (g n : ℕ) (p : Plugin) : Type 0 where
  pub other : lookup id p.pending_generation ≢ some g
  pub past : g ≤ n
  pub last : p.next_generation ≡ n

-- So too after at most one more.
abbrev StaleSoon : String → ℕ → ℕ → Plugin → Type 0
StaleSoon id g n p = (m : ℕ) × (m ≤ n + 1) × IsStale id g m p

-- `q` has the timers of `p`.
pub record SameTimers (p q : Plugin) : Type 0 where
  pub current : q.pending_generation ≡ p.pending_generation
  pub last : q.next_generation ≡ p.next_generation

module _ (id : String) (g n : ℕ) where
  same-IsStale : (p q : Plugin) → SameTimers p q → IsStale id g n p → IsStale id g n q
  same-IsStale p q i v = record {
    other = rw i.current v.other;
    past = v.past;
    last = i.last ∙ v.last;
  }

  soon : (p : Plugin) → IsStale id g n p → StaleSoon id g n p
  soon p v = (n, omega arith, v)

  cancel-IsStale :
      (j : String) → (p : Plugin) → IsStale id g n p → IsStale id g n (cancel_pending_timer j p)
  unfolding cancel_pending_timer
  cancel-IsStale j p v = record {
    other = ground (arith, v.other, lookup-delete j id p.pending_generation);
    past = v.past;
    last = v.last;
  }

  update-IsStale :
      (b : ℕ)
      → (s : PairingState) → (p : Plugin) → is_pending s ≡ false
      → IsStale id g n p
      → IsStale id g n (update_pending_timer b s p)
  unfolding update_pending_timer
  update-IsStale b s p e v = rw (e, update_pending_timer) (cancel-IsStale (dev b p).id p v)

  schedule-IsStale :
      (j : String)
      → (s : PairingState) → (p : Plugin) → n + 1 < 2 ^ 64
      → IsStale id g n p
      → IsStale id g (n + 1) (schedule_pending_timer j s p)
  unfolding schedule_pending_timer
  schedule-IsStale j s p bound v =
      let e : (p.next_generation + 1) % 2 ^ 64 ≡ n + 1 = omega (arith, bound, v.last) in
      rw e (record {
        other = ground (arith, v.other, v.past, lookup-insert j id (n + 1) p.pending_generation);
        past = omega (arith, v.past);
        last = refl;
      })

  update-StaleSoon :
      (b : ℕ)
      → (s : PairingState) → (p : Plugin) → n + 1 < 2 ^ 64
      → IsStale id g n p
      → StaleSoon id g n (update_pending_timer b s p)
  unfolding update_pending_timer
  update-StaleSoon b s p bound v =
      let v1 = cancel-IsStale (dev b p).id p v in
      let p1 = cancel_pending_timer (dev b p).id p in
      elim (Bool-cases (is_pending s)) [
        | inl e ↦
            rw (e, update_pending_timer)
              ((n + 1, omega arith, schedule-IsStale (dev b p).id s p1 bound v1))
        | inr e ↦ rw (e, update_pending_timer) (soon p1 v1)
      ]

effect-SameTimers : (c : Bool) → (e : Effect) → (p : Plugin) → SameTimers p (record_effect c e p)
unfolding record_effect
effect-SameTimers true e p = record { current = refl; last = refl }
effect-SameTimers false e p = record { current = refl; last = refl }

notify-SameTimers :
    (b : ℕ) → (s t : PairingState) → (p : Plugin) → SameTimers p (notify_state_changed b s t p)
unfolding notify_state_changed record_effect
notify-SameTimers b s t p = record { current = ground arith; last = ground arith }

module _ (id : String) (g n : ℕ) where
  changes-IsStale :
      (b : ℕ)
      → (next : PairingState) → (p : Plugin) → is_pending next ≡ false
      → IsStale id g n p
      → IsStale id g n (change_state b next p)
  unfolding change_state transition
  changes-IsStale b next p h v = elim (Bool-cases (is_state (state_of b p) next)) [
    | inl e ↦ rw (e, change_state) v
    | inr e ↦
        rw (e, change_state)
          (let s = state_of b p in
            let p1 = (transition b s next p).0 in
            let v1 = same-IsStale id g n p p1 (record { current = refl; last = refl }) v in
            same-IsStale id g n _ _ (notify-SameTimers b s next (update_pending_timer b next p1))
              (update-IsStale id g n b next p1 h v1))
  ]

  changes-StaleSoon :
      (b : ℕ)
      → (next : PairingState) → (p : Plugin) → n + 1 < 2 ^ 64
      → IsStale id g n p
      → StaleSoon id g n (change_state b next p)
  unfolding change_state transition
  changes-StaleSoon b next p bound v = elim (Bool-cases (is_state (state_of b p) next)) [
    | inl e ↦ rw (e, change_state) (soon id g n p v)
    | inr e ↦
        rw (e, change_state)
          (let s = state_of b p in
            let p1 = (transition b s next p).0 in
            let v1 = same-IsStale id g n p p1 (record { current = refl; last = refl }) v in
            let (m, l, v2) = update-StaleSoon id g n b next p1 bound v1 in
            (
              m,
              l,
              same-IsStale id g m _ _ (notify-SameTimers b s next (update_pending_timer b next p1))
                  v2,
            ))
  ]

  completes-IsStale :
      (b : ℕ)
      → (p : Plugin) → IsStale id g n p
      → IsStale id g n (transition_pending_to_paired b p).0
  unfolding transition_pending_to_paired transition
  completes-IsStale b p v = elim (Bool-cases (is_pending (state_of b p))) [
    | inl e ↦
        rw (e, transition_pending_to_paired)
          (let s = state_of b p in
            let p1 = (transition b s paired p).0 in
            let v1 = same-IsStale id g n p p1 (record { current = refl; last = refl }) v in
            same-IsStale id g n _ _
              (notify-SameTimers b s paired (cancel_pending_timer (dev b p).id p1))
              (cancel-IsStale id g n (dev b p).id p1 v1))
    | inr e ↦ rw (e, transition_pending_to_paired) v
  ]

  Move-IsStale : {p q : Plugin} → Move p q → IsStale id g n p → IsStale id g n q
  unfolding send_packet clear_intents forget_timestamp store_timestamp transition
  Move-IsStale (emits p c e h) v = same-IsStale id g n p _ (effect-SameTimers c e p) v
  Move-IsStale (sends p b c t now) v =
      same-IsStale id g n p _ (record { current = refl; last = refl }) v
  Move-IsStale (clears p b) v = same-IsStale id g n p _ (record { current = refl; last = refl }) v
  Move-IsStale (ends_dial p b) v =
      same-IsStale id g n p _ (record { current = refl; last = refl }) v
  Move-IsStale (forgets p b) v = same-IsStale id g n p _ (record { current = refl; last = refl }) v
  Move-IsStale (stores p b t) v = same-IsStale id g n p _ (record { current = refl; last = refl }) v
  Move-IsStale (cancels p j) v = cancel-IsStale id g n j p v
  Move-IsStale (changes p b next e) v = changes-IsStale b next p e v
  Move-IsStale (completes p b) v = completes-IsStale b p v
  Move-IsStale (runs_out p b j s h) v =
      let p1 = (transition b s unpaired p).0 in
      let v1 = same-IsStale id g n p p1 (record { current = refl; last = refl }) v in
      same-IsStale id g n (running_out b j s p) _ (notify-SameTimers b s unpaired _) (
        same-IsStale id g n (cancel_pending_timer j p1) _ (record { current = refl; last = refl })
          (cancel-IsStale id g n j p1 v1))

module _ (id : String) (g n : ℕ) where
  Moves-StaleSoon :
      {p q : Plugin} → n + 1 < 2 ^ 64 → Moves p q → IsStale id g n p → StaleSoon id g n q
  Moves-StaleSoon {p} bound still v = soon id g n p v
  Moves-StaleSoon bound (more ms m) v =
      let (k, l, v1) = Moves-StaleSoon bound ms v in (k, l, Move-IsStale id g k m v1)
  Moves-StaleSoon bound (schedules {q} ms fresh b next) v =
      let (k, l, v1) = Moves-StaleSoon bound ms v in
      let e : k ≡ n = sym v1.last ∙ fresh ∙ v.last in
      changes-StaleSoon id g n b next q bound (subst (λ i. IsStale id g i q) e v1)

module _ (id : String) (g : ℕ) where
  run-IsStale :
      (cs : List (ℕ × Call))
      → (n : ℕ) → (p : Plugin) → n + length cs < 2 ^ 64
      → IsStale id g n p
      → (m : ℕ) × IsStale id g m (run cs p)
  unfolding run
  run-IsStale [] n p bound v = (n, v)
  run-IsStale ((now, c) ∷ cs) n p bound v =
      let (k, l, v1) = Moves-StaleSoon id g n (omega (arith, bound)) (step-Moves c now p) v in
      run-IsStale cs k (step c now p) (omega (arith, bound, l)) v1

expire_stale :
    (id : String)
    → (s : PairingState) → (g n now : ℕ) → (p : Plugin) → 1 ≤ g
    → IsStale id g n p
    → expire_pending id s g now p ≡ p
unfolding expire_pending
expire_stale id s g n now p h v = ground (arith, v.other)

-- A timer that was given out but is no longer the current one for its device does nothing when it
-- fires, however late: whatever calls come between, its generation never becomes current again. The
-- generations are counted in a uint64, which must not wrap before: the last one that was given out and
-- the number of calls stay below 2 ^ 64 together.
pub expire_pending-run_stale :
    (id : String)
    → (s : PairingState) → (g now : ℕ) → (cs : List (ℕ × Call)) → (p : Plugin) → 1 ≤ g
    → g ≤ p.next_generation
    → p.next_generation + length cs < 2 ^ 64
    → lookup id p.pending_generation ≢ some g
    → expire_pending id s g now (run cs p) ≡ run cs p
expire_pending-run_stale id s g now cs p h past bound other =
    let (m, v) =
      run-IsStale id g cs p.next_generation p bound
        (record { other = other; past = past; last = refl }) in
    expire_stale id s g m now (run cs p) h v
