-- ===== src/RunCommand/Tests.antt =====
-- Runs of the command output on small inputs.
use kcd.Base.{
  ◌⊎◌, ◌↔◌, none, some, String, lookup, ◌≡◌, refl, Bool, true, false, List, [], ◌∷◌, arith, take,
  length, ltb,
}
use kcd.Base.Int.{pos}
use kcd.Base.Text.{codes}
use kcd.RunCommand.{
  Line, OutputStream, Effect, sent, clip, add, pending, take_batch, flush, drain_lines, got,
  cancelled, Lap, choose, lap_body, loop, new_stream, ran, stream_output, stream_max_lines,
}
use kcd.RunCommand.Executions.{
  Commands, Executions, RequestBody, find_command, per_device, Step, handles, disconnects,
  registers, live, run, step, new_world, handle_request, spawn, register_running, next_exec_id,
}
use kcd.RunCommand.Executions.Running.{holds}
use kcd.RunCommand.Executions.Stops.{Meant, handle_request-stop, registers-disconnects}
use kcd.RunCommand.Stream.{of_stream, batches, arrived, IsFlushed, loop-batches}
use kcd.RunCommand.Outcome.{Told, stream_output-Told, loop-full}

abbrev out_a : Line
out_a = record { text = codes "a"; is_stderr = false }

abbrev err_b : Line
err_b = record { text = codes "b"; is_stderr = true }

abbrev two_laps : List Lap
two_laps =
    record { drained = out_a ∷ err_b ∷ []; listened = false; choice = got out_a }
    ∷ record { drained = []; listened = true; choice = cancelled }
    ∷ []

two_laps_run :
    (loop two_laps [] true new_stream).1
    ≡ sent (codes "a" ∷ []) (codes "b" ∷ []) false
      ∷ sent (codes "a" ∷ []) [] false
      ∷ Effect.published (codes "a" ∷ []) [] false
      ∷ []
unfolding loop lap_body choose flush pending take_batch drain_lines add clip new_stream
two_laps_run = refl

loop-batches_example :
    let r = loop two_laps (err_b ∷ []) true new_stream in
    ((b : Bool)
      → batches b r.1 ≡ of_stream b (take stream_max_lines (arrived two_laps (err_b ∷ []))))
    × IsFlushed r.0
    × (r.0.dropped ≡ ltb stream_max_lines (length (arrived two_laps (err_b ∷ []))))
loop-batches_example = loop-batches two_laps (err_b ∷ []) true

stream_output-Told_example :
    Told true
      (ran two_laps [] true true (pos 0))
      (stream_output true (ran two_laps [] true true (pos 0)))
stream_output-Told_example = stream_output-Told true (ran two_laps [] true true (pos 0))

abbrev full_stream : OutputStream
full_stream = record {
  stdout = [];
  stderr = [];
  total = 2000;
  notif = [];
  notif_bytes = 4000;
  dropped = false;
  announced = true;
  stopped = false;
}

loop-full_example : (loop two_laps (err_b ∷ []) true full_stream).1 ≡ []
loop-full_example = loop-full two_laps (err_b ∷ []) true full_stream (omega arith) (refl, refl)

-- Two phones that may list files; the second has a command of its own under that label.
abbrev global : Commands
global = ("files", "ls") ∷ ("who", "whoami") ∷ []

abbrev per_dev : List (String × Commands)
per_dev = ("b", ("files", "ls /srv") ∷ []) ∷ []

abbrev configured : Executions
configured = record {
  commands = global;
  commands_per_device = per_dev;
  running = [];
  exec_seq = 0;
  contexts = [];
}

abbrev asks : String → RequestBody
asks key = record { request_command_list = false; key = key; stop = false; id = none }

abbrev stops : RequestBody
stops = record { request_command_list = false; key = ""; stop = true; id = some 1 }

abbrev two_started : List Step
two_started = handles "a" (asks "files") ∷ handles "b" (asks "who") ∷ registers 0 ∷ registers 1 ∷ []

handle_request-stop_example :
    let w = run two_started (new_world global per_dev) in
    ((holds 0 (step (handles "a" stops) w).plugin.contexts ≡ true) ↔ (
      (holds 0 w.plugin.contexts ≡ true)
      ⊎ (((w.launch 0).phase ≡ live)
          × ((w.launch 0).device ≡ "a")
          × Meant (some 1) (w.launch 0).exec_id)))
    × ((holds 0 (step (disconnects "a") w).plugin.contexts ≡ true) ↔ (
        (holds 0 w.plugin.contexts ≡ true)
        ⊎ (((w.launch 0).phase ≡ live) × ((w.launch 0).device ≡ "a"))))
handle_request-stop_example =
    handle_request-stop two_started global per_dev "a" stops 0 (omega arith) refl

registers-disconnects_example :
    let w = run two_started (new_world global per_dev) in
    let w' = run (handles "a" (asks "who") ∷ disconnects "a" ∷ registers w.count ∷ []) w in
    ((w'.launch w.count).phase ≡ live)
    × ((w'.launch w.count).device ≡ "a")
    × (holds w.count w'.plugin.contexts ≡ false)
unfolding run step handle_request find_command per_device lookup spawn register_running next_exec_id
    new_world
registers-disconnects_example =
    registers-disconnects two_started global per_dev "a" (asks "who") "whoami" (omega arith) refl
      refl refl refl
