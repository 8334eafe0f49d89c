-- ===== src/RunCommand/Executions/Tracked.antt =====
-- runcommand.go: what holds of the running executions after any interleaving.
use kcd.Base.{
  ℕ, ◌+◌, ◌<◌, ◌≤◌, ◌≡◌, ◌≢◌, ◌⊎◌, refl, subst, inl, inr, String, true, some, List, [], ◌∷◌, map,
  arith, ◌==◌, str_eq, str_eq_iff, str_eq_refl, lookup, Bool-cases, Option-cases, length,
}
use kcd.RunCommand.Executions.{
  Executions, Commands, find_id, running_of, register_running, stop_running, stop_all,
  finish_output, next_exec_id, handle_request, command_list, find_command, RequestBody, no_answer,
  lists, launches, LaunchPhase, absent, waiting, live, finished, Launch, World, change, Step,
  handles, disconnects, registers, finishes, spawn, step, run, new_world,
}
use kcd.RunCommand.Executions.Running.{
  find_id-delete_id, running_of-register_running, running_of-stop_all, running_of-finish_output,
  delete_id-UniqueIds, find_id-holds, holds-find_id, holds-append, found_nothing,
  reached-register_running, reached-finish_output, UniqueIds, holds, reached,
}

-- Ids count the requests. What stands under an id is the live goroutine of that id and device, and each
-- live one that is not cancelled stands there. One that waits to be entered is not cancelled.
pub record IsTracked (p : Executions) (launch : ℕ → Launch) (count : ℕ) : Type 0 where
  pub counted : p.exec_seq ≡ count
  pub unique : (dev : String) → UniqueIds (running_of dev p)
  pub entered :
      (dev : String) (id n : ℕ)
      → reached dev id p ≡ some n
      → ((launch n).device ≡ dev) × (id ≡ n + 1) × ((launch n).phase ≡ live)
  pub found :
      (n : ℕ)
      → (launch n).phase ≡ live
      → (holds n p.contexts ≡ true) ⊎ (reached (launch n).device (n + 1) p ≡ some n)
  pub numbered : (n : ℕ) → (launch n).phase ≢ absent → (n < count) × ((launch n).exec_id ≡ n + 1)
  pub early :
      (n : ℕ)
      → holds n p.contexts ≡ true
      → ((launch n).phase ≡ live) ⊎ ((launch n).phase ≡ finished)

module _ (launch : ℕ → Launch) (count : ℕ) where
  stop_running-IsTracked :
      (dev : String) (id : ℕ) (p : Executions)
      → IsTracked p launch count
      → IsTracked (stop_running dev id p) launch count
  unfolding stop_running
  stop_running-IsTracked dev id p h = elim (Option-cases (reached dev id p)) [
    | inl e ↦ rw (e, stop_running) h
    | inr (n, e) ↦
        let (d, i, l) = h.entered dev id n e in
        rw (e, stop_running)
          (record {
            counted = h.counted;
            unique = h.unique;
            entered = h.entered;
            found = λ m f. elim (h.found m f) [ inl g ↦ inl (ground (arith, g)) | inr g ↦ inr g ];
            numbered = h.numbered;
            early = λ m f. elim (Bool-cases (n == m)) [
              | inl g ↦ inl (subst (λ x. (launch x).phase ≡ live) (ground (arith, g)) l)
              | inr g ↦ h.early m (rw g at f)
            ];
          })
  ]

  pub stop_all-IsTracked :
      (dev : String) (p : Executions)
      → IsTracked p launch count
      → IsTracked (stop_all dev p) launch count
  unfolding stop_all
  stop_all-IsTracked dev p h = record {
    counted = h.counted;
    unique = λ dev'. elim (Bool-cases (str_eq dev dev')) [
      | inl e ↦ rw (running_of-stop_all dev p dev', e) (tt)
      | inr e ↦ rw (running_of-stop_all dev p dev', e) (h.unique dev')
    ];
    entered = λ dev' id n f. elim (Bool-cases (str_eq dev dev')) [
      | inl e ↦ absurd (found_nothing id n (rw (running_of-stop_all dev p dev', e) at f))
      | inr e ↦ h.entered dev' id n (rw (running_of-stop_all dev p dev', e) at f)
    ];
    found = λ n f. elim (h.found n f) [
      | inl g ↦
          inl (ground (arith, g, holds-append n (map (λ e. e.1) (running_of dev p)) p.contexts))
      | inr g ↦ elim (Bool-cases (str_eq dev (launch n).device)) [
        | inl e ↦
            let g' : reached dev (n + 1) p ≡ some n =
              ground (arith, g, e, str_eq_iff dev (launch n).device) in
            inl (
              ground (
                arith,
                find_id-holds (n + 1) n (running_of dev p) g',
                holds-append n (map (λ e. e.1) (running_of dev p)) p.contexts,
              ))
        | inr e ↦ inr (rw (running_of-stop_all dev p (launch n).device, e) (g))
      ]
    ];
    numbered = h.numbered;
    early = λ n f. elim (Bool-cases (holds n (map (λ e. e.1) (running_of dev p)))) [
      | inl e ↦
          let (id, k) = holds-find_id n (running_of dev p) (h.unique dev) e in
          let (d, i, l) = h.entered dev id n k in inl l
      | inr e ↦
          h.early n
            (ground (arith, e, f, holds-append n (map (λ e. e.1) (running_of dev p)) p.contexts))
    ];
  }

module _ (launch : ℕ → Launch) (count n : ℕ) where
  abbrev moved : LaunchPhase → ℕ → Launch
  moved phase = change n (record (launch n) { phase = phase }) launch

  abbrev registered : Executions → Executions
  registered p = register_running (launch n).device (launch n).exec_id n p

  register_running-IsTracked :
      (p : Executions)
      → (launch n).phase ≡ waiting
      → IsTracked p launch count
      → IsTracked (registered p) (moved live) count
  unfolding register_running
  register_running-IsTracked p q h =
      let (below, i) = h.numbered n (λ e. absurd (cc (q, e))) in
      record {
        counted = h.counted;
        unique = λ dev'. elim (Bool-cases (str_eq (launch n).device dev')) [
          | inl e ↦
              rw (running_of-register_running (launch n).device (launch n).exec_id n p dev', e)
                ((
                  ground (
                    arith,
                    find_id-delete_id (launch n).exec_id (launch n).exec_id
                        (running_of (launch n).device p),
                  ),
                  delete_id-UniqueIds (launch n).exec_id _ (h.unique (launch n).device),
                ))
          | inr e ↦
              rw (running_of-register_running (launch n).device (launch n).exec_id n p dev', e)
                (h.unique dev')
        ];
        entered = λ dev' id' m f. ground (
          arith,
          f,
          q,
          i,
          str_eq_iff (launch n).device dev',
          reached-register_running (launch n).device (launch n).exec_id n p dev' id',
          h.entered dev' id' m,
        );
        found = λ m f. elim (Bool-cases (n == m)) [
          | inl e ↦ inr (
              ground (
                arith,
                e,
                i,
                str_eq_refl (launch n).device,
                reached-register_running (launch n).device (launch n).exec_id n p (launch n).device
                    (m + 1),
              ))
          | inr e ↦ ground (
            arith,
            e,
            f,
            i,
            h.found m,
            reached-register_running (launch n).device (launch n).exec_id n p (launch m).device
                (m + 1),
          )
        ];
        numbered = λ m f. ground (arith, h.numbered m, h.numbered n, q, f);
        early = λ m f. ground (arith, f, q, h.early m);
      }

  abbrev ended : Executions → Executions
  ended p = finish_output (launch n).device (launch n).exec_id n p

  finish_output-IsTracked :
      (p : Executions)
      → (launch n).phase ≡ live
      → IsTracked p launch count
      → IsTracked (ended p) (moved finished) count
  unfolding finish_output
  finish_output-IsTracked p q h =
      let (below, i) = h.numbered n (λ e. absurd (cc (q, e))) in
      record {
        counted = h.counted;
        unique = λ dev'. elim (Bool-cases (str_eq (launch n).device dev')) [
          | inl e ↦
              rw (running_of-finish_output (launch n).device (launch n).exec_id n p dev', e)
                (delete_id-UniqueIds (launch n).exec_id _ (h.unique (launch n).device))
          | inr e ↦
              rw (running_of-finish_output (launch n).device (launch n).exec_id n p dev', e)
                (h.unique dev')
        ];
        entered = λ dev' id' m f. ground (
          arith,
          f,
          q,
          i,
          str_eq_iff (launch n).device dev',
          reached-finish_output (launch n).device (launch n).exec_id n p dev' id',
          h.entered dev' id' m,
        );
        found = λ m f. elim (Bool-cases (n == m)) [
          | inl e ↦ ground (arith, e, f)
          | inr e ↦ ground (
            arith,
            e,
            f,
            i,
            h.found m,
            reached-finish_output (launch n).device (launch n).exec_id n p (launch m).device
                (m + 1),
          )
        ];
        numbered = λ m f. ground (arith, h.numbered m, h.numbered n, q, f);
        early = λ m f. ground (arith, f, q, h.early m);
      }

only_absent : (q : LaunchPhase) → (q ≢ absent → ⊥) → q ≡ absent
only_absent absent h = refl
only_absent waiting h = absurd (h (λ e. cc e))
only_absent live h = absurd (h (λ e. cc e))
only_absent finished h = absurd (h (λ e. cc e))

next_exec_id-IsTracked :
    (dev : String) (launch : ℕ → Launch) (count : ℕ) (p : Executions)
    → count + 1 < 4294967296
    → IsTracked p launch count
    → let (p', id) = next_exec_id p in
      IsTracked p'
        (change count (record { device = dev; exec_id = id; phase = waiting }) launch)
        (count + 1)
unfolding next_exec_id running_of
next_exec_id-IsTracked dev launch count p bound h =
    let fresh : (launch count).phase ≡ absent =
      only_absent (launch count).phase (λ e. ground (arith, h.numbered count e)) in
    record {
      counted = ground (arith, h.counted);
      unique = h.unique;
      entered = λ dev' id' m f. ground (arith, fresh, h.entered dev' id' m f);
      found = λ m f. ground (arith, fresh, f, h.found m);
      numbered = λ m f. ground (arith, fresh, f, h.numbered m, h.counted);
      early = λ m f. ground (arith, fresh, f, h.early m);
    }

abbrev pub Tracked : World → Type 0
Tracked w = IsTracked w.plugin w.launch w.count

-- What a request can do.
handle_request-cases :
    (dev : String) (body : RequestBody) (p : Executions)
    → let (p', answer) = handle_request dev body p in
      ((p' ≡ stop_all dev p) × (answer ≡ no_answer))
      ⊎ ((id : ℕ) × (p' ≡ stop_running dev id p) × (answer ≡ no_answer))
      ⊎ ((p' ≡ p) × ((answer ≡ no_answer) ⊎ ((cs : Commands) × (answer ≡ lists cs))))
      ⊎ ((key : String) × (c : String) × (p' ≡ (next_exec_id p).0)
          × (answer ≡ launches (next_exec_id p).1 key c))
unfolding handle_request
handle_request-cases dev body p = elim (Bool-cases body.stop) [
  | inl e ↦ elim (Option-cases body.id) [
    | inl f ↦ inl (ground (arith, e, f))
    | inr (id, f) ↦ inr (inl (id, ground (arith, e, f), ground (arith, e, f)))
  ]
  | inr e ↦ elim (Bool-cases body.request_command_list) [
    | inl f ↦ inr (inr (inl (ground (arith, e, f), inr (command_list dev p, ground (arith, e, f)))))
    | inr f ↦ elim (Bool-cases (str_eq body.key "")) [
      | inl g ↦ inr (inr (inl (ground (arith, e, f, g), inl (ground (arith, e, f, g)))))
      | inr g ↦ elim (Option-cases (find_command dev body.key p)) [
        | inl k ↦ inr (inr (inl (ground (arith, e, f, g, k), inl (ground (arith, e, f, g, k)))))
        | inr (c, k) ↦
            inr (inr (inr (body.key, c, ground (arith, e, f, g, k), ground (arith, e, f, g, k))))
      ]
    ]
  ]
]

pub step-Tracked :
    (s : Step) (w : World) → w.count + 1 < 4294967296 → Tracked w → Tracked (step s w)
unfolding step spawn
step-Tracked (handles dev body) w bound h = elim (handle_request-cases dev body w.plugin) [
  | inl (e, f) ↦ rw (e, f, spawn) (stop_all-IsTracked w.launch w.count dev w.plugin h)
  | inr (inl (id, e, f)) ↦
      rw (e, f, spawn) (stop_running-IsTracked w.launch w.count dev id w.plugin h)
  | inr (inr (inl (e, inl f))) ↦ rw (e, f, spawn) h
  | inr (inr (inl (e, inr (cs, f)))) ↦ rw (e, f, spawn) h
  | inr (inr (inr (key, c, e, f))) ↦
      rw (e, f, spawn) (next_exec_id-IsTracked dev w.launch w.count w.plugin bound h)
]
step-Tracked (disconnects dev) w bound h = stop_all-IsTracked w.launch w.count dev w.plugin h
step-Tracked (registers n) w bound h = by_phase (w.launch n).phase refl
  where
    by_phase : (q : LaunchPhase) → (w.launch n).phase ≡ q → Tracked (step (registers n) w)
    by_phase absent e = rw (e, step) h
    by_phase waiting e = rw (e, step) (register_running-IsTracked w.launch w.count n w.plugin e h)
    by_phase live e = rw (e, step) h
    by_phase finished e = rw (e, step) h
step-Tracked (finishes n) w bound h = by_phase (w.launch n).phase refl
  where
    by_phase : (q : LaunchPhase) → (w.launch n).phase ≡ q → Tracked (step (finishes n) w)
    by_phase absent e = rw (e, step) h
    by_phase waiting e = rw (e, step) h
    by_phase live e = rw (e, step) (finish_output-IsTracked w.launch w.count n w.plugin e h)
    by_phase finished e = rw (e, step) h

count-step : (s : Step) (w : World) → (step s w).count ≤ w.count + 1
unfolding step spawn
count-step (handles dev body) w = elim (handle_request-cases dev body w.plugin) [
  | inl (e, f) ↦ rw (f, spawn) (omega arith)
  | inr (inl (id, e, f)) ↦ rw (f, spawn) (omega arith)
  | inr (inr (inl (e, inl f))) ↦ rw (f, spawn) (omega arith)
  | inr (inr (inl (e, inr (cs, f)))) ↦ rw (f, spawn) (omega arith)
  | inr (inr (inr (key, c, e, f))) ↦ rw (f, spawn) (omega arith)
]
count-step (disconnects dev) w = omega arith
count-step (registers n) w = ground arith
count-step (finishes n) w = ground arith

pub run-Tracked :
    (ss : List Step) (w : World)
    → w.count + length ss < 4294967296
    → Tracked w
    → Tracked (run ss w) × ((run ss w).count ≤ w.count + length ss)
unfolding run
run-Tracked [] w bound h = (h, omega arith)
run-Tracked (s ∷ ss) w bound h =
    let b = count-step s w in
    let (t, c) =
      run-Tracked ss (step s w) (omega (arith, b, bound))
        (step-Tracked s w (omega (arith, bound)) h) in
    (t, omega (arith, c, b))

pub new_world-Tracked :
    (global : Commands) (per_dev : List (String × Commands)) → Tracked (new_world global per_dev)
unfolding new_world running_of find_id lookup
new_world-Tracked global per_dev = record {
  counted = refl;
  unique = λ dev. tt;
  entered = λ dev id n e. ground arith;
  found = λ n e. ground arith;
  numbered = λ n e. absurd (e refl);
  early = λ n e. ground arith;
}
