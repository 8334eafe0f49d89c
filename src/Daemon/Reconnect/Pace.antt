-- ===== src/Daemon/Reconnect/Pace.antt =====
-- transport_reconnect.go: how the waits grow, and how the loop ends.
use kcd.Base.{
  ℕ, zero, suc, ◌≤◌, sym, ◌∙◌, length, ◌+◌, ◌*◌, ◌^◌, ◌<◌, ◌≡◌, ◌≢◌, ◌⊎◌, inl, inr, refl, ap, subst,
  Bool, true, false, not, ◌&&◌, ◌||◌, none, some, List, [], ◌∷◌, ◌++◌, arith, min, ◌==◌,
  if◌then◌else◌, Bool-cases, Option-cases, is_some,
}
use kcd.Device.{Device, Ip, paired, is_state, is_connected}
use kcd.Device.Registry.Backoff.{reconnect_backoff_lem}
use kcd.Daemon.Reconnect.{
  Options, wait_cap, Wait, context_done, woken, timed_out, Lap, Stop, Effect, waits, dials_peer,
  sets_attempt, reconnect_is_done, Progress, Outcome, stops, goes_on, must_stop, is_stale, too_soon,
  after_dial, dial_step, recheck, waited, lap_step, run_laps, reconnect_with_backoff,
}

-- The effects of a loop whose counter stands at `k` and which stopped or not: each wait is the initial
-- one, doubled for each dial on the counter, up to the cap; the counter that is kept is that number;
-- the loop is done once it stopped, and never before.
abbrev pub Paced : Options → Bool → ℕ → List Effect → Type 0
Paced o stopped k [] = stopped ≡ false
Paced o stopped k (waits w ∷ es) =
    (w ≡ min ((if o.initial == 0 then 2000000000 else o.initial) * 2 ^ k) (wait_cap o))
    × Paced o stopped k es
Paced o stopped k (dials_peer ip port ∷ es) = Paced o stopped (k + 1) es
Paced o stopped k (sets_attempt n ∷ es) = (n ≡ k) × Paced o stopped k es
Paced o stopped k (reconnect_is_done ∷ es) = (stopped ≡ true) × (es ≡ [])

Outcome-cases : (r : Outcome) → ((s : Stop) × (r ≡ stops s)) ⊎ ((p : Progress) × (r ≡ goes_on p))
Outcome-cases (stops s) = inl (s, refl)
Outcome-cases (goes_on p) = inr (p, refl)

module _ (o : Options) (ip : Ip) where
  -- What a lap does fits what comes after it.
  abbrev Fits : ℕ → Outcome × List Effect → Type 0
  Fits k (stops s, es) = Paced o true k (es ++ (reconnect_is_done ∷ []))
  Fits k (goes_on p, es) =
      (more : List Effect) (stopped : Bool)
      → Paced o stopped p.attempt more
      → Paced o stopped k (es ++ more)

  after_dial-Fits : (lap : Lap) (p : Progress) → Fits (p.attempt + 1) (after_dial lap p)
  unfolding after_dial
  after_dial-Fits lap p = elim (Bool-cases (is_connected lap.dialled)) [
    | inl e ↦ rw e ((refl, (refl, refl)))
    | inr e ↦ rw e (λ more stopped h. h)
  ]

  -- One more effect in front of those of a lap.
  cons-Fits :
      (k l : ℕ) (e : Effect) (r : Outcome × List Effect)
      → ((es : List Effect) (stopped : Bool) → Paced o stopped l es → Paced o stopped k (e ∷ es))
      → Fits l r
      → Fits k (r.0, e ∷ r.1)
  cons-Fits k l e (stops s, es) f h = f (es ++ (reconnect_is_done ∷ [])) true h
  cons-Fits k l e (goes_on p, es) f h = λ more stopped g. f (es ++ more) stopped (h more stopped g)

  dial_step-Fits : (lap : Lap) (p : Progress) → Fits p.attempt (dial_step o ip lap p)
  unfolding dial_step
  dial_step-Fits lap p =
      cons-Fits p.attempt (p.attempt + 1) _ (after_dial lap p) (λ es stopped h. h)
        (after_dial-Fits lap p)

  recheck-Fits :
      (triggered : Bool) (lap : Lap) (p : Progress) → Fits p.attempt (recheck o ip triggered lap p)
  unfolding recheck
  recheck-Fits triggered lap p =
      elim (Bool-cases (is_connected lap.parked || not (is_state lap.parked.state paired))) [
        | inl e ↦ rw e ((refl, refl))
        | inr e ↦ elim (Bool-cases (triggered && too_soon lap p.dialled_at)) [
          | inl f ↦ rw (e, f) (λ more stopped h. h)
          | inr f ↦ rw (e, f) (dial_step-Fits lap p)
        ]
      ]

  waited-Fits :
      (lap : Lap) (p : Progress) (w : Wait) → lap.ending ≡ w → Fits p.attempt (waited o ip lap p)
  unfolding waited
  waited-Fits lap p context_done e = rw (e, waited) ((refl, refl))
  waited-Fits lap p woken e = rw (e, waited) (recheck-Fits true lap p)
  waited-Fits lap p timed_out e = rw (e, waited) (recheck-Fits false lap p)

  lap_step-Fits : 0 < wait_cap o → (lap : Lap) (p : Progress) → Fits p.attempt (lap_step o ip lap p)
  unfolding lap_step
  lap_step-Fits h lap p = elim (Option-cases (must_stop o lap)) [
    | inl e ↦
        rw (e, lap_step)
          (cons-Fits p.attempt p.attempt _ (waited o ip lap p)
            (λ es stopped g. (reconnect_backoff_lem p.attempt (wait_cap o) o.initial h, g))
            (waited-Fits lap p lap.ending refl))
    | inr (s, e) ↦ rw (e, lap_step) ((refl, refl))
  ]

  run_laps-Paced :
      0 < wait_cap o
      → (laps : List Lap) (p : Progress)
      → let (stop, effects) = run_laps o ip laps p in Paced o (is_some stop) p.attempt effects
  unfolding run_laps
  run_laps-Paced h [] p = refl
  run_laps-Paced h (lap ∷ laps) p =
      let r = lap_step o ip lap p in
      let fits = lap_step-Fits h lap p in
      elim (Outcome-cases r.0) [
        | inl (s, e) ↦ rw (e, run_laps) (subst (λ t. Fits p.attempt (t, r.1)) e fits)
        | inr (q, e) ↦
            rw (e, run_laps)
              (subst (λ t. Fits p.attempt (t, r.1)) e fits (run_laps o ip laps q).1
                (is_some (run_laps o ip laps q).0) (run_laps-Paced h laps q))
      ]

-- Each wait of a reconnect loop is the initial delay (two seconds where none is given), doubled once
-- for each count of the counter that it started with and for each dial since, up to its cap, which is
-- positive. The counter that it leaves on a success is that number of counts. It says that it is done
-- once, at its very end, exactly when it stopped, for whatever reason.
pub reconnect_with_backoff-Paced :
    (o : Options) (d : Device) (ip : Ip) (laps : List Lap)
    → 0 < wait_cap o
    → let (stop, effects) = reconnect_with_backoff o d ip laps in
      Paced o (is_some stop) d.reconnect_attempt effects
unfolding reconnect_with_backoff
reconnect_with_backoff-Paced o d ip laps h =
    run_laps-Paced o ip h laps (record { attempt = d.reconnect_attempt; dialled_at = none })

-- At the head of a lap: shutdown, a device that is not paired, one that is connected, or, where
-- sightings drive the loop, one that nobody saw for longer than the horizon.
abbrev pub Ends : Options → Lap → Type 0
Ends o lap =
    (lap.shut_down ≡ true)
    ⊎ (lap.head.state ≢ paired)
    ⊎ (is_connected lap.head ≡ true)
    ⊎ ((o.sighting_driven ≡ true)
        × ((t : ℕ) × (lap.head.last_seen ≡ some t) × (t + o.stale_after < lap.head_time)))

must_stop-Ends : (o : Options) (lap : Lap) → Ends o lap → is_some (must_stop o lap) ≡ true
unfolding must_stop is_stale
must_stop-Ends o lap (inl e) = ground arith
must_stop-Ends o lap (inr (inl e)) = ground arith
must_stop-Ends o lap (inr (inr (inl e))) = ground arith
must_stop-Ends o lap (inr (inr (inr (e, (t, f, g))))) = ground arith

lap_step-must_stop :
    (o : Options) (ip : Ip) (lap : Lap) (p : Progress)
    → is_some (must_stop o lap) ≡ true
    → (s : Stop) × (lap_step o ip lap p ≡ (stops s, []))
unfolding lap_step
lap_step-must_stop o ip lap p h = elim (Option-cases (must_stop o lap)) [
  | inl e ↦ absurd (cc (h, ap is_some e))
  | inr (s, e) ↦ (s, rw (e, lap_step) (refl))
]

run_laps-stops :
    (o : Options) (ip : Ip) (lap : Lap) (rest : List Lap)
    → is_some (must_stop o lap) ≡ true
    → (laps : List Lap) (p : Progress)
    → (is_some (run_laps o ip (laps ++ (lap ∷ [])) p).0 ≡ true)
      × (run_laps o ip (laps ++ (lap ∷ rest)) p ≡ run_laps o ip (laps ++ (lap ∷ [])) p)
unfolding run_laps
run_laps-stops o ip lap rest h [] p =
    let (s, e) = lap_step-must_stop o ip lap p h in rw (e, run_laps) ((refl, refl))
run_laps-stops o ip lap rest h (l ∷ ls) p = elim (Outcome-cases (lap_step o ip l p).0) [
  | inl (s, e) ↦ rw (e, run_laps) ((refl, refl))
  | inr (q, e) ↦
      let (g, k) = run_laps-stops o ip lap rest h ls q in
      rw (e, run_laps) ((g, ap (λ t. (t.0, (lap_step o ip l p).1 ++ t.1)) k))
]

-- Whatever the laps before, the loop stops at a lap that finds the daemon shutting down, the device not
-- paired, connected, or, where sightings drive the loop, out of sight for longer than the horizon; no
-- lap after it is made.
reconnect_with_backoff-Ends :
    (o : Options) (d : Device) (ip : Ip) (laps : List Lap) (lap : Lap) (rest : List Lap)
    → Ends o lap
    → (is_some (reconnect_with_backoff o d ip (laps ++ (lap ∷ []))).0 ≡ true)
      × (reconnect_with_backoff o d ip (laps ++ (lap ∷ rest))
          ≡ reconnect_with_backoff o d ip (laps ++ (lap ∷ [])))
unfolding reconnect_with_backoff
reconnect_with_backoff-Ends o d ip laps lap rest h =
    run_laps-stops o ip lap rest (must_stop-Ends o lap h) laps
      (record { attempt = d.reconnect_attempt; dialled_at = none })

-- The device was seen last at `t`, and each lap begins at least `pause` after the one before, the
-- first not before `now`.
abbrev pub Unseen : ℕ → ℕ → ℕ → List Lap → Type 0
Unseen t pause now [] = Unit
Unseen t pause now (lap ∷ laps) =
    (lap.head.last_seen ≡ some t) × (now ≤ lap.head_time) × Unseen t pause (now + pause) laps

run_laps-append :
    (o : Options) (ip : Ip) (rest laps : List Lap) (p : Progress)
    → is_some (run_laps o ip laps p).0 ≡ true
    → run_laps o ip (laps ++ rest) p ≡ run_laps o ip laps p
unfolding run_laps
run_laps-append o ip rest [] p h = absurd (cc h)
run_laps-append o ip rest (l ∷ ls) p h = elim (Outcome-cases (lap_step o ip l p).0) [
  | inl (s, e) ↦ rw (e, run_laps) (refl)
  | inr (q, e) ↦
      let ran : run_laps o ip (l ∷ ls) p
          ≡ ((run_laps o ip ls q).0, (lap_step o ip l p).1 ++ (run_laps o ip ls q).1) =
        rw (e, run_laps) (refl) in
      let h' : is_some (run_laps o ip ls q).0 ≡ true = sym (ap (λ r. is_some r.0) ran) ∙ h in
      rw (e, run_laps)
        (ap (λ t. (t.0, (lap_step o ip l p).1 ++ t.1)) (run_laps-append o ip rest ls q h'))
]

run_laps-Unseen :
    (o : Options) (ip : Ip) (t pause : ℕ)
    → o.sighting_driven ≡ true
    → (laps : List Lap) (n now : ℕ) (p : Progress) → length laps ≡ n + 1
    → Unseen t pause now laps
    → t + o.stale_after < now + pause * n
    → is_some (run_laps o ip laps p).0 ≡ true
unfolding run_laps
run_laps-Unseen o ip t pause driven [] n now p size h late = absurd (omega (arith, size))
run_laps-Unseen o ip t pause driven (l ∷ ls) zero now p size (seen, begun, h) late =
    let gone : t + o.stale_after < l.head_time = omega (arith, late, begun) in
    let must = must_stop-Ends o l (inr (inr (inr (driven, (t, seen, gone))))) in
    let (s, f) = lap_step-must_stop o ip l p must in rw (f, run_laps) (refl)
run_laps-Unseen o ip t pause driven (l ∷ ls) (suc m) now p size (seen, begun, h) late =
    elim (Outcome-cases (lap_step o ip l p).0) [
      | inl (s, e) ↦ rw (e, run_laps) (refl)
      | inr (q, e) ↦
          rw (e, run_laps)
            (run_laps-Unseen o ip t pause driven ls m (now + pause) q (omega (arith, size)) h
              (omega (arith, late)))
    ]

-- A loop that sightings drive comes to its end when they cease. Where every lap finds that the device
-- was seen last at `t`, the first lap begins at `start` or later, and each other at least `pause` after
-- the one before, the loop has stopped by lap `n`, counted from 0, if `start` and `n` pauses lie beyond
-- `t` and the horizon; it may have stopped before, for whatever reason, and no lap after it is made.
pub reconnect_with_backoff-stops :
    (o : Options) (d : Device) (ip : Ip) (laps rest : List Lap) (t pause start n : ℕ)
    → o.sighting_driven ≡ true
    → length laps ≡ n + 1
    → Unseen t pause start laps
    → t + o.stale_after < start + pause * n
    → (is_some (reconnect_with_backoff o d ip laps).0 ≡ true)
      × (reconnect_with_backoff o d ip (laps ++ rest) ≡ reconnect_with_backoff o d ip laps)
unfolding reconnect_with_backoff
reconnect_with_backoff-stops o d ip laps rest t pause start n driven size unseen late =
    let p : Progress = record { attempt = d.reconnect_attempt; dialled_at = none } in
    let stopped = run_laps-Unseen o ip t pause driven laps n start p size unseen late in
    (stopped, run_laps-append o ip rest laps p stopped)
