-- ===== src/RunCommand/Executions.antt =====
-- Which command a phone may run, and which of those that run it can stop: runcommand.go, list.go and
-- exec.go of internal/plugins/runcommand.
--
-- Each goroutine that runs a command has a number, in the order of the requests; `contexts` that were
-- cancelled are listed by it. An id is an int32, kept as its bit pattern. A timeout is not a step.
pub mod Commands
pub mod Running
pub mod Tracked
pub mod Stops
use kcd.Base.{
  ℕ, ◌+◌, ◌%◌, String, Bool, true, false, not, ◌&&◌, Option, none, some, List, [], ◌∷◌, ◌++◌, map,
  ltb, ◌==◌, if◌then◌else◌, str_eq, lookup, insert, delete,
}

-- A label of the configuration and its command line.
abbrev pub Commands : Type 0
Commands = List (String × String)

pub record Executions : Type 0 where
  pub commands : Commands
  pub commands_per_device : List (String × Commands)
  -- For each device, the executions that it can stop: the id and the goroutine.
  pub running : List (String × List (ℕ × ℕ))
  pub exec_seq : ℕ
  pub contexts : List ℕ

unfoldable pub set_commands : Commands → List (String × Commands) → Executions → Executions
set_commands global per_dev p = record p { commands = global; commands_per_device = per_dev }

-- A read of a map that may be nil.
unfoldable pub per_device : String → Executions → Commands
per_device dev p = elim (lookup dev p.commands_per_device) [ none ↦ [] | some cs ↦ cs ]

-- The command line that `Handle` runs for a key.
unfoldable pub find_command : String → String → Executions → Option String
unfolding per_device
find_command dev key p = elim (lookup key (per_device dev p)) [
  | none ↦ lookup key p.commands
  | some c ↦ some c
]

unfoldable pub merge : Commands → Commands → Commands
merge [] list = list
merge ((label, command) ∷ cs) list = merge cs (insert label command list)

-- What `SendCommandList` tells the phone; the name of an entry is its label.
unfoldable pub command_list : String → Executions → Commands
unfolding merge per_device
command_list dev p = merge (per_device dev p) (merge p.commands [])

unfoldable pub next_exec_id : Executions → Executions × ℕ
next_exec_id p = let id = (p.exec_seq + 1) % 4294967296 in (record p { exec_seq = id }, id)

unfoldable pub find_id : ℕ → List (ℕ × ℕ) → Option ℕ
find_id id [] = none
find_id id ((other, n) ∷ es) = let later = find_id id es in if other == id then some n else later

unfoldable pub delete_id : ℕ → List (ℕ × ℕ) → List (ℕ × ℕ)
delete_id id [] = []
delete_id id ((other, n) ∷ es) =
    let rest = delete_id id es in if other == id then rest else (other, n) ∷ rest

unfoldable pub running_of : String → Executions → List (ℕ × ℕ)
running_of dev p = elim (lookup dev p.running) [ none ↦ [] | some es ↦ es ]

-- The goroutine makes its context and enters it.
unfoldable pub register_running : String → ℕ → ℕ → Executions → Executions
unfolding running_of
register_running dev id n p = record p {
  running = insert dev ((id, n) ∷ delete_id id (running_of dev p)) p.running;
}

unfoldable pub stop_running : String → ℕ → Executions → Executions
unfolding running_of find_id
stop_running dev id p = elim (find_id id (running_of dev p)) [
  | none ↦ p
  | some n ↦ record p { contexts = n ∷ p.contexts }
]

unfoldable pub stop_all : String → Executions → Executions
unfolding running_of
stop_all dev p = record p {
  running = delete dev p.running;
  contexts = map (λ e. e.1) (running_of dev p) ++ p.contexts;
}

-- The lock-protected part of `finishOutput`, and the deferred cancel.
unfoldable pub finish_output : String → ℕ → ℕ → Executions → Executions
unfolding delete_id
finish_output dev id n p = record p {
  running = elim (lookup dev p.running) [
    | none ↦ p.running
    | some es ↦ elim (delete_id id es) [
      | [] ↦ delete dev p.running
      | e ∷ rest ↦ insert dev (e ∷ rest) p.running
    ]
  ];
  contexts = n ∷ p.contexts;
}

-- The body of a request; an id that is absent is `none`.
pub record RequestBody : Type 0 where
  pub request_command_list : Bool
  pub key : String
  pub stop : Bool
  pub id : Option ℕ

pub data Reaction : Type 0 where
  no_answer : Reaction
  lists : Commands → Reaction
  -- The id, the key and the command line of the goroutine that starts.
  launches : ℕ → String → String → Reaction

-- `Handle` of a request from this device.
unfoldable pub handle_request : String → RequestBody → Executions → Executions × Reaction
unfolding stop_running stop_all command_list find_command next_exec_id
handle_request dev body p =
    let stopped : Executions = elim body.id [
      | none ↦ stop_all dev p
      | some id ↦ stop_running dev id p
    ] in
    let asked : Executions × Reaction = elim (find_command dev body.key p) [
      | none ↦ (p, no_answer)
      | some c ↦ let (p', id) = next_exec_id p in (p', launches id body.key c)
    ] in
    if body.stop
    then (stopped, no_answer)
    else (if body.request_command_list
        then (p, lists (command_list dev p))
        else (if str_eq body.key "" then (p, no_answer) else asked))

-- The goroutines: what each runs for, and how far it is.
pub data LaunchPhase : Type 0 where
  absent waiting live finished : LaunchPhase

pub record Launch : Type 0 where
  pub device : String
  pub exec_id : ℕ
  pub phase : LaunchPhase

pub record World : Type 0 where
  pub plugin : Executions
  pub launch : ℕ → Launch
  pub count : ℕ

abbrev pub change : ℕ → Launch → (ℕ → Launch) → ℕ → Launch
change n l f m = if n == m then l else f m

pub data Step : Type 0 where
  handles : String → RequestBody → Step
  disconnects : String → Step
  registers finishes : ℕ → Step

unfoldable pub spawn : String → Reaction → World → World
spawn dev no_answer w = w
spawn dev (lists cs) w = w
spawn dev (launches id key command) w = record w {
  launch = change w.count (record { device = dev; exec_id = id; phase = waiting }) w.launch;
  count = w.count + 1;
}

unfoldable pub step : Step → World → World
unfolding handle_request stop_all register_running finish_output spawn
step (handles dev body) w =
    let (p, answer) = handle_request dev body w.plugin in spawn dev answer (record w { plugin = p })
step (disconnects dev) w = record w { plugin = stop_all dev w.plugin }
step (registers n) w =
    let l = w.launch n in
    elim l.phase [
      | waiting ↦ record w {
        plugin = register_running l.device l.exec_id n w.plugin;
        launch = change n (record l { phase = live }) w.launch;
      }
      | _ ↦ w
    ]
step (finishes n) w =
    let l = w.launch n in
    elim l.phase [
      | live ↦ record w {
        plugin = finish_output l.device l.exec_id n w.plugin;
        launch = change n (record l { phase = finished }) w.launch;
      }
      | _ ↦ w
    ]

unfoldable pub run : List Step → World → World
run [] w = w
run (s ∷ ss) w = run ss (step s w)

-- Before the first request.
unfoldable pub new_world : Commands → List (String × Commands) → World
new_world global per_dev = record {
  plugin = record {
    commands = global;
    commands_per_device = per_dev;
    running = [];
    exec_seq = 0;
    contexts = [];
  };
  launch = λ n. record { device = ""; exec_id = 0; phase = absent };
  count = 0;
}
