-- ===== src/RunCommand/Executions/Stops.antt =====
-- runcommand.go and exec.go: which executions a stop reaches.
use kcd.Base.{
  ℕ, ◌+◌, ◌<◌, ◌≡◌, ◌⊎◌, ◌↔◌, sym, ap, ◌∙◌, subst, inl, inr, String, true, false, Option, none,
  some, List, [], ◌∷◌, map, arith, ◌==◌, str_eq, Bool-cases, Option-cases, length,
}
use kcd.RunCommand.Executions.{
  Executions, Commands, running_of, register_running, stop_running, stop_all, next_exec_id,
  handle_request, find_command, RequestBody, waiting, live, World, Step, handles, disconnects,
  registers, spawn, step, run, new_world,
}
use kcd.RunCommand.Executions.Running.{find_id-holds, holds-find_id, holds-append, holds, reached}
use kcd.RunCommand.Executions.Tracked.{
  Tracked, run-Tracked, step-Tracked, stop_all-IsTracked, new_world-Tracked,
}

-- The execution that a stop means: any one, or the one with this id.
abbrev pub Meant : Option ℕ → ℕ → Type 0
Meant none n = Unit
Meant (some id) n = n ≡ id

cancelled-stop_all :
    (dev : String) (w : World) (n : ℕ)
    → Tracked w
    → (holds n (stop_all dev w.plugin).contexts ≡ true) ↔ (
        (holds n w.plugin.contexts ≡ true)
        ⊎ (((w.launch n).phase ≡ live) × ((w.launch n).device ≡ dev)))
unfolding stop_all
cancelled-stop_all dev w n h =
    let a = holds-append n (map (λ e. e.1) (running_of dev w.plugin)) w.plugin.contexts in
    (
      λ c. elim (Bool-cases (holds n (map (λ e. e.1) (running_of dev w.plugin)))) [
        | inl e ↦
            let (id, k) = holds-find_id n (running_of dev w.plugin) (h.unique dev) e in
            let (d, i, l) = h.entered dev id n k in inr (l, d)
        | inr e ↦ inl (ground (arith, a, c, e))
      ],
      λ c. elim c [
        | inl e ↦ ground (arith, a, e)
        | inr (l, d) ↦ elim (h.found n l) [
          | inl e ↦ ground (arith, a, e)
          | inr e ↦
              let e' : reached dev (n + 1) w.plugin ≡ some n =
                subst (λ t. reached t (n + 1) w.plugin ≡ some n) d e in
              ground (arith, a, find_id-holds (n + 1) n (running_of dev w.plugin) e')
        ]
      ],
    )

cancelled-stop_running :
    (dev : String) (id : ℕ) (w : World) (n : ℕ)
    → Tracked w
    → (holds n (stop_running dev id w.plugin).contexts ≡ true) ↔ (
        (holds n w.plugin.contexts ≡ true)
        ⊎ (((w.launch n).phase ≡ live) × ((w.launch n).device ≡ dev) × ((w.launch n).exec_id ≡ id)))
unfolding stop_running
cancelled-stop_running dev id w n h = (
  λ c. elim (Option-cases (reached dev id w.plugin)) [
    | inl e ↦ inl (rw (e, stop_running) at c)
    | inr (m, e) ↦
        let (d, i, l) = h.entered dev id m e in
        let (b, k) = h.numbered m (λ x. absurd (cc (x, l))) in
        elim (Bool-cases (m == n)) [
          | inl f ↦
              let g : m ≡ n = ground (arith, f) in
              inr (
                subst
                  (λ t.
                    ((w.launch t).phase ≡ live)
                    × ((w.launch t).device ≡ dev)
                    × ((w.launch t).exec_id ≡ id))
                  g (l, d, k ∙ sym i))
          | inr f ↦ inl (ground (arith, f, rw (e, stop_running) at c))
        ]
  ],
  λ c. elim c [
    | inl e ↦ ground (arith, e)
    | inr (l, d, k) ↦
        let (b, j) = h.numbered n (λ x. absurd (cc (x, l))) in
        elim (h.found n l) [
          | inl e ↦ ground (arith, e)
          | inr e ↦
              let e' : reached dev (n + 1) w.plugin ≡ some n =
                subst (λ t. reached t (n + 1) w.plugin ≡ some n) d e in
              let e'' : reached dev id w.plugin ≡ some n =
                subst (λ t. reached dev t w.plugin ≡ some n) (sym j ∙ k) e' in
              rw (e'', stop_running) (ground arith)
        ]
  ],
)

stopped : String → Option ℕ → Executions → Executions
stopped dev none p = stop_all dev p
stopped dev (some id) p = stop_running dev id p

plugin-stop :
    (dev : String) (body : RequestBody) (w : World)
    → body.stop ≡ true
    → (step (handles dev body) w).plugin ≡ stopped dev body.id w.plugin
unfolding step handle_request spawn stopped
plugin-stop dev body w e = elim (Option-cases body.id) [
  | inl f ↦ ground (arith, e, f)
  | inr (id, f) ↦ ground (arith, e, f)
]

cancelled-stopped :
    (dev : String) (id : Option ℕ) (w : World) (n : ℕ)
    → Tracked w
    → (holds n (stopped dev id w.plugin).contexts ≡ true) ↔ (
        (holds n w.plugin.contexts ≡ true)
        ⊎ (((w.launch n).phase ≡ live)
            × ((w.launch n).device ≡ dev)
            × Meant id (w.launch n).exec_id))
unfolding stopped
cancelled-stopped dev none w n h =
    let (there, back) = cancelled-stop_all dev w n h in
    (
      λ c. elim (there c) [ inl e ↦ inl e | inr (l, d) ↦ inr (l, d, tt) ],
      λ c. back (elim c [ inl e ↦ inl e | inr (l, d, m) ↦ inr (l, d) ]),
    )
cancelled-stopped dev (some id) w n h = cancelled-stop_running dev id w n h

-- A stop reaches what it means to, after any run of less than 2 ^ 32 steps. A request of a device to
-- stop cancels the live executions of that device, all or the one with the id that it names, and no
-- other: a goroutine is cancelled afterwards exactly when it was before or is one of these. The end of
-- the device's connection does so for all its live executions.
pub handle_request-stop :
    (ss : List Step) (global : Commands) (per_dev : List (String × Commands)) (dev : String)
    (body : RequestBody) (n : ℕ)
    → length ss < 4294967296
    → body.stop ≡ true
    → let w = run ss (new_world global per_dev) in
      ((holds n (step (handles dev body) w).plugin.contexts ≡ true) ↔ (
        (holds n w.plugin.contexts ≡ true)
        ⊎ (((w.launch n).phase ≡ live)
            × ((w.launch n).device ≡ dev)
            × Meant body.id (w.launch n).exec_id)))
      × ((holds n (step (disconnects dev) w).plugin.contexts ≡ true) ↔ (
          (holds n w.plugin.contexts ≡ true)
          ⊎ (((w.launch n).phase ≡ live) × ((w.launch n).device ≡ dev))))
unfolding step new_world
handle_request-stop ss global per_dev dev body n bound e =
    let w : World = run ss (new_world global per_dev) in
    let (h, c) =
      run-Tracked ss (new_world global per_dev) (omega (arith, bound))
        (new_world-Tracked global per_dev) in
    (
      rw (plugin-stop dev body w e) (cancelled-stopped dev body.id w n h),
      cancelled-stop_all dev w n h,
    )

-- A goroutine that waits is entered uncancelled, whatever was stopped before.
registers-disconnects_waiting :
    (w : World) (dev : String) (n : ℕ)
    → Tracked w
    → (w.launch n).phase ≡ waiting
    → let w' = step (registers n) (step (disconnects dev) w) in
      ((w'.launch n).phase ≡ live)
      × ((w'.launch n).device ≡ (w.launch n).device)
      × (holds n w'.plugin.contexts ≡ false)
unfolding step register_running
registers-disconnects_waiting w dev n h e =
    let t : Tracked (step (disconnects dev) w) =
      stop_all-IsTracked w.launch w.count dev w.plugin h in
    let c : holds n (stop_all dev w.plugin).contexts ≡ false =
      elim (Bool-cases (holds n (stop_all dev w.plugin).contexts)) [
        | inl f ↦ elim (t.early n f) [ inl g ↦ absurd (cc (e, g)) | inr g ↦ absurd (cc (e, g)) ]
        | inr f ↦ f
      ] in
    (ground (arith, e), ground (arith, e), rw (e, step) c)

launch-handles :
    (dev : String) (body : RequestBody) (c : String) (w : World)
    → body.stop ≡ false
    → body.request_command_list ≡ false
    → str_eq body.key "" ≡ false
    → find_command dev body.key w.plugin ≡ some c
    → ((step (handles dev body) w).launch w.count
        ≡ record { device = dev; exec_id = (next_exec_id w.plugin).1; phase = waiting })
unfolding step handle_request spawn
launch-handles dev body c w e f g k = ground (arith, e, f, g, k)

-- The end of a connection does not stop every command of the device. After any run of less than
-- 2 ^ 32 - 1 steps, where a request starts a command and the connection ends before the goroutine has
-- entered its context, the command goes on: it is live, and not cancelled.
pub registers-disconnects :
    (ss : List Step) (global : Commands) (per_dev : List (String × Commands)) (dev : String)
    (body : RequestBody) (c : String)
    → length ss + 1 < 4294967296
    → body.stop ≡ false
    → body.request_command_list ≡ false
    → str_eq body.key "" ≡ false
    → find_command dev body.key (run ss (new_world global per_dev)).plugin ≡ some c
    → let w = run ss (new_world global per_dev) in
      let n = w.count in
      let w' = run (handles dev body ∷ disconnects dev ∷ registers n ∷ []) w in
      ((w'.launch n).phase ≡ live)
      × ((w'.launch n).device ≡ dev)
      × (holds n w'.plugin.contexts ≡ false)
unfolding run new_world
registers-disconnects ss global per_dev dev body c bound e f g k =
    let w : World = run ss (new_world global per_dev) in
    let (h, b) =
      run-Tracked ss (new_world global per_dev) (omega (arith, bound))
        (new_world-Tracked global per_dev) in
    let l = launch-handles dev body c w e f g k in
    let w1 : World = step (handles dev body) w in
    let t : Tracked w1 = step-Tracked (handles dev body) w (omega (arith, b, bound)) h in
    let (live', device', free) =
      registers-disconnects_waiting w1 dev w.count t (ap (λ x. x.phase) l) in
    (live', device' ∙ ap (λ x. x.device) l, free)
