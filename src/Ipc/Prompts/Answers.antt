-- ===== src/Ipc/Prompts/Answers.antt =====
-- prompts.go: what Ask returns, however its parts and the answers of clients interleave.
use kcd.Base.{
  ℕ, ◌≡◌, ◌⊎◌, inl, inr, refl, sym, ap, ◌∙◌, String, Bool, true, false, Option, none, some, List,
  [], ◌∷◌, ◌==◌, if◌then◌else◌, arith, str_eq_refl, lookup, lookup-insert, lookup-delete,
  Bool-cases, Option-cases, All,
}
use kcd.Ipc.Prompts.{
  Prompt, Waiter, asking, leaving, gone, Phase, Manager, Answer, new_prompt_manager, put, ask,
  take_choice, give_up, forget, is_option, offer, respond, Step, asks, takes, gives_up, forgets,
  offers, step, run,
}

-- The default of the prompt or one of its options.
abbrev pub IsAnswer : Answer → Type 0
IsAnswer (p, c) = (c ≡ p.fallback) ⊎ (is_option c p.options ≡ true)

abbrev Answered : Option Answer → Type 0
Answered none = Unit
Answered (some a) = IsAnswer a

-- A choice that waits is an option of its prompt.
abbrev WellChosen : Waiter → Type 0
WellChosen w =
    (w.choice ≡ none) ⊎ ((c : String) × (w.choice ≡ some c) × (is_option c w.prompt.options ≡ true))

abbrev Sound : Manager → Type 0
Sound m = (a : ℕ) → WellChosen (m.heap a)

put-Sound : (a : ℕ) (w : Waiter) (m : Manager) → Sound m → WellChosen w → Sound (put a w m)
put-Sound a w m h k b = elim (Bool-cases (a == b)) [ inl e ↦ rw e (k) | inr e ↦ rw e (h b) ]

-- What a step leaves and answers.
abbrev Good : Manager × Option Answer → Type 0
Good (m, answer) = Sound m × Answered answer

ask-Good : (p : Prompt) (heard : Bool) (m : Manager) → Sound m → Good (ask p heard m)
unfolding ask
ask-Good p true m h = (
  put-Sound m.next_addr (record { prompt = p; choice = none; phase = asking }) m h (inl refl),
  tt,
)
ask-Good p false m h = (h, inl refl)

take-Good :
    (a : ℕ) (m : Manager) (ph : Phase) → (m.heap a).phase ≡ ph → Sound m → Good (take_choice a m)
unfolding take_choice
take-Good a m asking e h = elim (h a) [
  | inl f ↦ rw (e, f, take_choice) ((h, tt))
  | inr (c, f, k) ↦
      rw (e, f, take_choice)
        ((put-Sound a (record (m.heap a) { choice = none; phase = leaving }) m h (inl refl), inr k))
]
take-Good a m leaving e h = rw (e, take_choice) ((h, tt))
take-Good a m gone e h = rw (e, take_choice) ((h, tt))

give_up-Good :
    (a : ℕ) (m : Manager) (ph : Phase) → (m.heap a).phase ≡ ph → Sound m → Good (give_up a m)
unfolding give_up
give_up-Good a m asking e h =
    rw (e, give_up) ((put-Sound a (record (m.heap a) { phase = leaving }) m h (h a), inl refl))
give_up-Good a m leaving e h = rw (e, give_up) ((h, tt))
give_up-Good a m gone e h = rw (e, give_up) ((h, tt))

forget-Sound :
    (a : ℕ) (m : Manager) (ph : Phase) → (m.heap a).phase ≡ ph → Sound m → Sound (forget a m)
unfolding forget
forget-Sound a m asking e h = rw (e, forget) (h)
forget-Sound a m leaving e h =
    rw (e, forget) (put-Sound a (record (m.heap a) { phase = gone }) m h (h a))
forget-Sound a m gone e h = rw (e, forget) (h)

offer-Sound : (a : ℕ) (choice : String) (m : Manager) → Sound m → Sound (offer a choice m).0
unfolding offer
offer-Sound a choice m h = elim (Bool-cases (is_option choice (m.heap a).prompt.options)) [
  | inl e ↦ elim (Option-cases (m.heap a).choice) [
    | inl f ↦
        rw (e, f, offer)
          (put-Sound a (record (m.heap a) { choice = some choice }) m h (inr (choice, refl, e)))
    | inr (c, f) ↦ rw (e, f, offer) (h)
  ]
  | inr e ↦ rw (e, offer) (h)
]

step-Good : (s : Step) (m : Manager) → Sound m → Good (step s m)
unfolding step
step-Good (asks p heard) m h = ask-Good p heard m h
step-Good (takes a) m h = take-Good a m (m.heap a).phase refl h
step-Good (gives_up a) m h = give_up-Good a m (m.heap a).phase refl h
step-Good (forgets a) m h = (forget-Sound a m (m.heap a).phase refl h, tt)
step-Good (offers a choice) m h = (offer-Sound a choice m h, tt)

run-IsAnswer : (ss : List Step) (m : Manager) → Sound m → All IsAnswer (run ss m).1
unfolding run
run-IsAnswer [] m h = tt
run-IsAnswer (s ∷ ss) m h =
    let (k, l) = step-Good s m h in
    let rest = run-IsAnswer ss (step s m).0 k in
    elim (Option-cases (step s m).1) [
      | inl e ↦ rw (e, run) (rest)
      | inr (a, e) ↦ rw (e, run) ((rw e at l, rest))
    ]

-- However the prompts, their timers and the clients' choices interleave, every call of Ask that
-- returns gives the default of its own prompt or one of its options.
pub run-new_prompt_manager_sound : (ss : List Step) → All IsAnswer (run ss new_prompt_manager).1
unfolding new_prompt_manager
run-new_prompt_manager_sound ss = run-IsAnswer ss new_prompt_manager (λ a. inl refl)

put-same : (a : ℕ) (w : Waiter) (m : Manager) → (put a w m).heap a ≡ w
put-same a w m = let e : (a == a) ≡ true = ground arith in rw e (refl)

respond-found :
    (id choice : String) (a : ℕ) (m : Manager)
    → lookup id m.pending ≡ some a
    → respond id choice m ≡ offer a choice m
unfolding respond
respond-found id choice a m e = rw (e, respond) (refl)

offer-first :
    (a : ℕ) (choice : String) (m : Manager)
    → (m.heap a).choice ≡ none
    → is_option choice (m.heap a).prompt.options ≡ true
    → offer a choice m ≡ (put a (record (m.heap a) { choice = some choice }) m, true)
unfolding offer
offer-first a choice m e f = rw (f, e, offer) (refl)

offer-second :
    (a : ℕ) (c other : String) (m : Manager)
    → (m.heap a).choice ≡ some c
    → (offer a other m).1 ≡ false
unfolding offer
offer-second a c other m e = elim (Bool-cases (is_option other (m.heap a).prompt.options)) [
  | inl f ↦ rw (f, e, offer) (refl)
  | inr f ↦ rw (f, offer) (refl)
]

offer-invalid :
    (a : ℕ) (other : String) (m : Manager)
    → is_option other (m.heap a).prompt.options ≡ false
    → offer a other m ≡ (m, false)
unfolding offer
offer-invalid a other m e = rw (e, offer) (refl)

take-chosen :
    (a : ℕ) (c : String) (m : Manager)
    → (m.heap a).phase ≡ asking
    → (m.heap a).choice ≡ some c
    → take_choice a m ≡ (
      put a (record (m.heap a) { choice = none; phase = leaving }) m,
      some ((m.heap a).prompt, c),
    )
unfolding take_choice
take-chosen a c m e f = rw (e, f, take_choice) (refl)

forget-leaving :
    (a : ℕ) (m : Manager)
    → (m.heap a).phase ≡ leaving
    → lookup (m.heap a).prompt.prompt_id (forget a m).pending ≡ none
unfolding forget
forget-leaving a m e =
    let id = (m.heap a).prompt.prompt_id in
    rw (e, forget)
      (lookup-delete id id m.pending
        ∙ ap (λ t. if t then none else lookup id m.pending) (str_eq_refl id))

-- A question that is heard, and then answered by a first client with one of its options: the client
-- is told that it was found, any client after it is refused, Ask returns the choice, and once it is
-- gone nobody finds the question. A choice that is no option is refused and changes nothing.
pub respond-ask :
    (p : Prompt) (choice other : String) (m : Manager)
    → is_option choice p.options ≡ true
    → let asked = (ask p true m).0 in
      let (chosen, found) = respond p.prompt_id choice asked in
      let (left, answer) = take_choice m.next_addr chosen in
      (found ≡ true)
      × ((respond p.prompt_id other chosen).1 ≡ false)
      × (answer ≡ some (p, choice))
      × (lookup p.prompt_id (forget m.next_addr left).pending ≡ none)
      × ((is_option other p.options ≡ true) ⊎ (respond p.prompt_id other asked ≡ (asked, false)))
unfolding ask
respond-ask p choice other m h =
    let a = m.next_addr in
    let id = p.prompt_id in
    let m1 = (ask p true m).0 in
    let e1 = put-same a (record { prompt = p; choice = none; phase = asking }) m in
    let l1 : lookup id m1.pending ≡ some a =
      lookup-insert id id a m.pending
      ∙ ap (λ t. if t then some a else lookup id m.pending) (str_eq_refl id) in
    let o1 : (m1.heap a).prompt.options ≡ p.options = ap (λ w. w.prompt.options) e1 in
    let z1 =
      respond-found id choice a m1 l1
      ∙ offer-first a choice m1 (ap (λ w. w.choice) e1) (ap (is_option choice) o1 ∙ h) in
    let m2 = put a (record (m1.heap a) { choice = some choice }) m1 in
    let e2 = put-same a (record (m1.heap a) { choice = some choice }) m1 in
    let z2 =
      take-chosen a choice m2 (ap (λ w. w.phase) e2 ∙ ap (λ w. w.phase) e1)
        (ap (λ w. w.choice) e2) in
    let p2 : (m2.heap a).prompt ≡ p = ap (λ w. w.prompt) e2 ∙ ap (λ w. w.prompt) e1 in
    let m3 = put a (record (m2.heap a) { choice = none; phase = leaving }) m2 in
    let e3 = put-same a (record (m2.heap a) { choice = none; phase = leaving }) m2 in
    let p3 : (m3.heap a).prompt.prompt_id ≡ id =
      ap (λ w. w.prompt.prompt_id) e3 ∙ ap (λ (q : Prompt). q.prompt_id) p2 in
    let z3 = ap (λ (t : Manager × Bool). (take_choice a t.0)) z1 ∙ z2 in
    (
      ap (λ t. t.1) z1,
      ap (λ (t : Manager × Bool). (respond id other t.0).1) z1
          ∙ (ap (λ t. t.1) (respond-found id other a m2 l1)
              ∙ offer-second a choice other m2 (ap (λ w. w.choice) e2)),
      ap (λ t. t.1) z3 ∙ ap (λ q. some (q, choice)) p2,
      ap (λ (t : Manager × Option Answer). lookup id (forget a t.0).pending) z3
          ∙ (ap (λ k. lookup k (forget a m3).pending) (sym p3)
              ∙ forget-leaving a m3 (ap (λ w. w.phase) e3)),
      elim (Bool-cases (is_option other p.options)) [
        | inl f ↦ inl f
        | inr f ↦ inr (
            respond-found id other a m1 l1 ∙ offer-invalid a other m1 (ap (is_option other) o1 ∙ f))
      ],
    )
