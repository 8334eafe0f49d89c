-- ===== src/Pair/Callbacks.antt =====
-- The callbacks of a pairing, which start and stop what runs for a paired device.
use kcd.Base.{
  ℕ, ◌+◌, ◌≡◌, ◌≢◌, ◌∙◌, refl, sym, ap, String, Bool, true, false, List, [], ◌∷◌, arith, ◌==◌,
  if◌then◌else◌, Bool-cases, inl, inr,
}
use kcd.Device.{PairingState, paired, unpaired, is_state}
use kcd.Pair.{
  Plugin, Effect, dev, state_of, is_pending, record_effect, cancel_pending_timer,
  update_pending_timer, notify_state_changed, transition, change_state,
  transition_pending_to_paired, send_packet, clear_intents, forget_timestamp, store_timestamp,
}
use kcd.Pair.Actions.{Call, step, run}
use kcd.Pair.States.{
  is_state_eq, state-cancel, state-update, state-send, state-clear, state-clear_dial,
  state-transition, at, state-forget, state-store,
}
use kcd.Pair.Primitives.{
  is_callback, running_out, expired, Move, emits, sends, clears, ends_dial, forgets, stores,
  cancels, changes, completes, runs_out, Moves, still, more, schedules, step-Moves,
}
use kcd.Pair.Balance.{
  count, count-append, is_up, is_down, IsBalanced, not_up, not_down, notify-IsBalanced,
}

-- `q` differs from `p` in nothing that the callbacks depend on, but for states.
pub record IsSilent (p q : Plugin) : Type 0 where
  pub up : q.has_on_paired ≡ p.has_on_paired
  pub down : q.has_on_unpaired ≡ p.has_on_unpaired
  pub same : q.trace ≡ p.trace

silent-IsBalanced :
    (a : ℕ)
    → (p q : Plugin) → IsSilent p q
    → state_of a q ≡ state_of a p
    → IsBalanced a p
    → IsBalanced a q
silent-IsBalanced a p q i e v = record {
  has_up = i.up ∙ v.has_up;
  has_down = i.down ∙ v.has_down;
  owed = rw (i.same, e) v.owed;
}

update-IsSilent :
    (b : ℕ) → (s : PairingState) → (p : Plugin) → IsSilent p (update_pending_timer b s p)
unfolding update_pending_timer
update-IsSilent b s p = record { up = ground arith; down = ground arith; same = ground arith }

emits-IsBalanced :
    (a : ℕ)
    → (p : Plugin) → (c : Bool) → (e : Effect) → is_callback e ≡ false
    → IsBalanced a p
    → IsBalanced a (record_effect c e p)
unfolding record_effect
emits-IsBalanced a p true e h v = record {
  has_up = v.has_up;
  has_down = v.has_down;
  owed = ground (
    arith,
    v.owed,
    count-append (is_up a) p.trace (e ∷ []),
    count-append (is_down a) p.trace (e ∷ []),
    not_up a e h,
    not_down a e h,
  );
}
emits-IsBalanced a p false e h v = v

-- The device at `b` goes from `s` to `t`, and then its callbacks run.
moved-IsBalanced :
    (a b : ℕ)
    → (s t : PairingState) → (p q : Plugin) → IsSilent p q
    → state_of b p ≡ s
    → state_of a q ≡ at b a t (state_of a p)
    → IsBalanced a p
    → IsBalanced a (notify_state_changed b s t q)
moved-IsBalanced a b s t p q i e m v = elim (Bool-cases (b == a)) [
  | inl same ↦
      let f : b ≡ a = ground arith in
      let g : state_of a p ≡ s = ap (λ c. state_of c p) (sym f) ∙ e in
      notify-IsBalanced a b s t q (i.up ∙ v.has_up) (i.down ∙ v.has_down)
        (rw i.same (ground (arith, v.owed, g, same))) (λ k. ground (arith, m, same))
  | inr other ↦
      notify-IsBalanced a b s t q (i.up ∙ v.has_up) (i.down ∙ v.has_down)
        (rw i.same (ground (arith, v.owed, m, other))) (λ k. ground arith)
]

changes-IsBalanced :
    (a b : ℕ)
    → (next : PairingState) → (p : Plugin) → IsBalanced a p
    → IsBalanced a (change_state b next p)
unfolding change_state
changes-IsBalanced a b next p v = elim (Bool-cases (is_state (state_of b p) next)) [
  | inl e ↦ rw (e, change_state) v
  | inr e ↦
      rw (e, change_state)
        (let s = state_of b p in
          let p1 = (transition b s next p).0 in
          let i = update-IsSilent b next p1 in
          moved-IsBalanced a b s next p (update_pending_timer b next p1)
            (record { up = i.up; down = i.down; same = i.same }) refl
            (state-update a b p1 next ∙ state-transition a b p s next refl) v)
]

completes-IsBalanced :
    (a b : ℕ) → (p : Plugin) → IsBalanced a p → IsBalanced a (transition_pending_to_paired b p).0
unfolding transition_pending_to_paired
completes-IsBalanced a b p v = elim (Bool-cases (is_pending (state_of b p))) [
  | inl e ↦
      rw (e, transition_pending_to_paired)
        (let s = state_of b p in
          let p1 = (transition b s paired p).0 in
          moved-IsBalanced a b s paired p (cancel_pending_timer (dev b p).id p1)
            (record { up = refl; down = refl; same = refl }) refl
            (state-cancel a b p1 (dev b p).id ∙ state-transition a b p s paired refl) v)
  | inr e ↦ rw (e, transition_pending_to_paired) v
]

runs_out-IsBalanced :
    (a b : ℕ)
    → (id : String) → (s : PairingState) → (p : Plugin) → is_state (state_of b p) s ≡ true
    → IsBalanced a p
    → IsBalanced a (expired b id s p)
unfolding transition cancel_pending_timer
runs_out-IsBalanced a b id s p e v =
    let f = is_state_eq (state_of b p) s e in
    let p1 = (transition b s unpaired p).0 in
    moved-IsBalanced a b s unpaired p (running_out b id s p)
      (record { up = refl; down = refl; same = refl }) f
      (state-cancel a b p1 id ∙ state-transition a b p s unpaired f) v

Move-IsBalanced : (a : ℕ) → {p q : Plugin} → Move p q → IsBalanced a p → IsBalanced a q
unfolding send_packet clear_intents forget_timestamp store_timestamp cancel_pending_timer
Move-IsBalanced a (emits p c e h) v = emits-IsBalanced a p c e h v
Move-IsBalanced a (sends p b c t now) v =
    silent-IsBalanced a p _ (record { up = refl; down = refl; same = refl })
      (state-send a b p c t now) v
Move-IsBalanced a (clears p b) v =
    silent-IsBalanced a p _ (record { up = refl; down = refl; same = refl }) (state-clear a b p) v
Move-IsBalanced a (ends_dial p b) v =
    silent-IsBalanced a p _ (record { up = refl; down = refl; same = refl })
      (state-clear_dial a b p) v
Move-IsBalanced a (forgets p b) v =
    silent-IsBalanced a p _ (record { up = refl; down = refl; same = refl }) (state-forget a b p) v
Move-IsBalanced a (stores p b t) v =
    silent-IsBalanced a p _ (record { up = refl; down = refl; same = refl }) (state-store a b p t) v
Move-IsBalanced a (cancels p id) v =
    silent-IsBalanced a p _ (record { up = refl; down = refl; same = refl }) (state-cancel a a p id)
      v
Move-IsBalanced a (changes p b next e) v = changes-IsBalanced a b next p v
Move-IsBalanced a (completes p b) v = completes-IsBalanced a b p v
Move-IsBalanced a (runs_out p b id s h) v = runs_out-IsBalanced a b id s p h v

Moves-IsBalanced : (a : ℕ) → {p q : Plugin} → Moves p q → IsBalanced a p → IsBalanced a q
Moves-IsBalanced a still v = v
Moves-IsBalanced a (more ms m) v = Move-IsBalanced a m (Moves-IsBalanced a ms v)
Moves-IsBalanced a (schedules {q} ms fresh b next) v =
    changes-IsBalanced a b next q (Moves-IsBalanced a ms v)

run-IsBalanced :
    (a : ℕ) → (cs : List (ℕ × Call)) → (p : Plugin) → IsBalanced a p → IsBalanced a (run cs p)
unfolding run
run-IsBalanced a [] p v = v
run-IsBalanced a ((now, c) ∷ cs) p v =
    run-IsBalanced a cs (step c now p) (Moves-IsBalanced a (step-Moves c now p) v)

-- In any run from a plugin that has both callbacks and has done nothing yet, for a device that is
-- not paired, `onPaired` has run once more than `onUnpaired` if the device is then paired, and as
-- often if it is not: what one starts for the device, the other stops.
pub count-run :
    (a : ℕ)
    → (cs : List (ℕ × Call)) → (p : Plugin) → p.has_on_paired ≡ true
    → p.has_on_unpaired ≡ true
    → p.trace ≡ []
    → state_of a p ≢ paired
    → count (is_up a) (run cs p).trace
      ≡ count (is_down a) (run cs p).trace
        + (if is_state (state_of a (run cs p)) paired then 1 else 0)
count-run a cs p u d n s =
    let v : IsBalanced a p = record {
      has_up = u;
      has_down = d;
      owed = rw n (ground (arith, is_state_eq (state_of a p) paired));
    } in
    (run-IsBalanced a cs p v).owed
