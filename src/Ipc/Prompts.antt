-- ===== src/Ipc/Prompts.antt =====
-- Questions to the user, internal/ipc/prompts.go.
--
-- A waiter is a pointer that Ask and Respond share, so there is a heap of them. Ask blocks between its
-- parts, and Respond finds the waiter under the lock but hands its choice over after it, so both are
-- sequences of steps, which interleave. A waiter's channel has one place.
pub mod Answers
use kcd.Base.{
  ℕ, ◌+◌, String, Bool, true, false, ◌||◌, Option, none, some, List, [], ◌∷◌, map, ◌==◌,
  if◌then◌else◌, str_eq, any, lookup, insert, delete,
}

pub record Prompt : Type 0 where
  pub prompt_id : String
  pub device_id : String
  pub kind : String
  pub summary : String
  pub options : List String
  pub fallback : String
  pub expires_at : ℕ

-- Where the call of Ask is: in its `select`, past it, or done.
pub data Phase : Type 0 where
  asking leaving gone : Phase

pub record Waiter : Type 0 where
  pub prompt : Prompt
  pub choice : Option String
  pub phase : Phase

pub record Manager : Type 0 where
  pub heap : ℕ → Waiter
  pub next_addr : ℕ
  pub pending : List (String × ℕ)

-- What a call of Ask returns, with its prompt.
abbrev pub Answer : Type 0
Answer = Prompt × String

abbrev no_prompt : Prompt
no_prompt = record {
  prompt_id = "";
  device_id = "";
  kind = "";
  summary = "";
  options = [];
  fallback = "";
  expires_at = 0;
}

unfoldable pub new_prompt_manager : Manager
new_prompt_manager = record {
  heap = λ a. record { prompt = no_prompt; choice = none; phase = gone };
  next_addr = 0;
  pending = [];
}

abbrev pub put : ℕ → Waiter → Manager → Manager
put a w m = record m { heap = λ b. if a == b then w else m.heap b }

-- The part before the `select`; `heard` is whether the bus has an explicit subscriber. That the prompt
-- is published changes nothing here.
unfoldable pub ask : Prompt → Bool → Manager → Manager × Option Answer
ask p heard m =
    let a = m.next_addr in
    let m' = put a (record { prompt = p; choice = none; phase = asking }) m in
    if heard
    then (record m' { next_addr = a + 1; pending = insert p.prompt_id a m.pending }, none)
    else (m, some (p, p.fallback))

-- The `select` takes a choice.
unfoldable pub take_choice : ℕ → Manager → Manager × Option Answer
take_choice a m =
    let w = m.heap a in
    elim w.phase [
      | asking ↦ elim w.choice [
        | none ↦ (m, none)
        | some c ↦ (put a (record w { choice = none; phase = leaving }) m, some (w.prompt, c))
      ]
      | leaving ↦ (m, none)
      | gone ↦ (m, none)
    ]

-- The `select` takes the timer or the end of the context.
unfoldable pub give_up : ℕ → Manager → Manager × Option Answer
give_up a m =
    let w = m.heap a in
    elim w.phase [
      | asking ↦ (put a (record w { phase = leaving }) m, some (w.prompt, w.prompt.fallback))
      | leaving ↦ (m, none)
      | gone ↦ (m, none)
    ]

-- The deferred call; it deletes by the prompt's id.
unfoldable pub forget : ℕ → Manager → Manager
forget a m =
    let w = m.heap a in
    let m' = put a (record w { phase = gone }) m in
    elim w.phase [
      | asking ↦ m
      | leaving ↦ record m' { pending = delete w.prompt.prompt_id m.pending }
      | gone ↦ m
    ]

unfoldable pub is_option : String → List String → Bool
is_option choice = any λ option. str_eq option choice

-- Respond after it has found the waiter.
unfoldable pub offer : ℕ → String → Manager → Manager × Bool
unfolding is_option
offer a choice m =
    let w = m.heap a in
    if is_option choice w.prompt.options
    then (elim w.choice [
      | none ↦ (put a (record w { choice = some choice }) m, true)
      | some c ↦ (m, false)
    ])
    else (m, false)

-- Respond with nothing between its parts.
unfoldable pub respond : String → String → Manager → Manager × Bool
unfolding offer
respond prompt_id choice m = elim (lookup prompt_id m.pending) [
  | none ↦ (m, false)
  | some a ↦ offer a choice m
]

pub data Step : Type 0 where
  asks : Prompt → Bool → Step
  takes gives_up forgets : ℕ → Step
  offers : ℕ → String → Step

unfoldable pub step : Step → Manager → Manager × Option Answer
unfolding ask take_choice give_up forget offer
step (asks p heard) m = ask p heard m
step (takes a) m = take_choice a m
step (gives_up a) m = give_up a m
step (forgets a) m = (forget a m, none)
step (offers a choice) m = ((offer a choice m).0, none)

-- The answers of a run, in order.
unfoldable pub run : List Step → Manager → Manager × List Answer
run [] m = (m, [])
run (s ∷ ss) m =
    let (m1, answer) = step s m in
    let (m2, more) = run ss m1 in (m2, elim answer [ none ↦ more | some a ↦ a ∷ more ])

unfoldable pub pending_prompts : Manager → List Prompt
pending_prompts m = map (λ e. (m.heap e.1).prompt) m.pending
