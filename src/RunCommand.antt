-- ===== src/RunCommand.antt =====
-- The output of a remote command, internal/plugins/runcommand/output.go.
--
-- A line is its bytes. The scanners of the two pipes, the ticker and the context are inputs: a lap of
-- the loop is what was in the channel when it was drained, and what the `select` then took. The last
-- lap is the one whose drain finds the channel closed. Packets and events go to a list, oldest first.
pub mod Stream
pub mod Outcome
pub mod Executions
mod Tests
use kcd.Base.{
  ℕ, ◌+◌, String, Bool, true, false, not, ◌&&◌, ◌||◌, Option, none, some, List, [], ◌∷◌, ◌++◌, ltb,
  leb, if◌then◌else◌, length, take,
}
use kcd.Base.Int.{ℤ, pos, negsuc}
use kcd.Base.Text.{codes}

abbrev pub stream_max_lines : ℕ
stream_max_lines = 2000

abbrev pub stream_max_line_len : ℕ
stream_max_line_len = 1024

abbrev pub stream_notif_max_bytes : ℕ
stream_notif_max_bytes = 4000

-- Bytes of a line.
abbrev pub Text : Type 0
Text = List ℕ

pub record Line : Type 0 where
  pub text : Text
  pub is_stderr : Bool

pub record OutputStream : Type 0 where
  pub stdout : List Text
  pub stderr : List Text
  pub total : ℕ
  pub notif : List Text
  pub notif_bytes : ℕ
  pub dropped : Bool
  pub announced : Bool
  pub stopped : Bool

unfoldable pub new_stream : OutputStream
new_stream = record {
  stdout = [];
  stderr = [];
  total = 0;
  notif = [];
  notif_bytes = 0;
  dropped = false;
  announced = false;
  stopped = false;
}

pub data Effect : Type 0 where
  -- The packet of one batch: both lists, and whether the note about the cap stands at the end of the
  -- second.
  sent : List Text → List Text → Bool → Effect
  -- The event of one batch.
  published : List Text → List Text → Bool → Effect
  published_started : Effect
  -- Success, transcript and exit code.
  published_finished : Bool → Text → ℤ → Effect
  sent_finished : Bool → ℤ → Effect

-- A line that is too long is cut, and three dots say so.
unfoldable pub clip : Text → Text
clip t = if ltb stream_max_line_len (length t) then take stream_max_line_len t ++ codes "..." else t

unfoldable pub add : Line → OutputStream → OutputStream
unfolding clip
add l s =
    let t = clip l.text in
    let notified = ltb s.notif_bytes stream_notif_max_bytes in
    if leb stream_max_lines s.total then record s { dropped = true } else record s {
      total = s.total + 1;
      stderr = if l.is_stderr then s.stderr ++ t ∷ [] else s.stderr;
      stdout = if l.is_stderr then s.stdout else s.stdout ++ t ∷ [];
      notif = if notified then s.notif ++ t ∷ [] else s.notif;
      notif_bytes = if notified then s.notif_bytes + length t + 1 else s.notif_bytes;
    }

-- `strings.Join` with a line feed.
unfoldable pub join_lines : List Text → Text
join_lines [] = []
join_lines (t ∷ []) = t
join_lines (t ∷ u ∷ ts) = t ++ (b'\n' ∷ join_lines (u ∷ ts))

unfoldable pub summary : OutputStream → Text
unfolding join_lines
summary s =
    if s.dropped then join_lines s.notif ++ codes "\n...[output truncated]" else join_lines s.notif

unfoldable pub pending : OutputStream → Bool
pending s = ltb 0 (length s.stdout) || ltb 0 (length s.stderr)

unfoldable pub take_batch : OutputStream → OutputStream × List Text × List Text × Bool
take_batch s = (record s { stdout = []; stderr = [] }, s.stdout, s.stderr, s.dropped)

-- `listened` is whether the bus has a subscriber for the output.
unfoldable pub flush : Bool → OutputStream → OutputStream × List Effect
unfolding pending take_batch
flush listened s =
    let (s', stdout, stderr, dropped) = take_batch s in
    let event = if listened then published stdout stderr dropped ∷ [] else [] in
    if pending s then (s', sent stdout stderr dropped ∷ event) else (s, [])

unfoldable pub drain_lines : List Line → OutputStream → OutputStream
drain_lines [] s = s
drain_lines (l ∷ ls) s = drain_lines ls (add l s)

-- What the `select` takes: a line, the news that the channel is closed, a tick or the context's end.
pub data Choice : Type 0 where
  got : Line → Choice
  closed ticked cancelled : Choice

pub record Lap : Type 0 where
  pub drained : List Line
  pub listened : Bool
  pub choice : Choice

unfoldable pub choose : Choice → Bool → OutputStream → OutputStream × List Effect
choose (got l) listened s = (add l s, [])
choose closed listened s = (s, [])
choose ticked listened s = flush listened s
choose cancelled listened s = (record s { stopped = true }, [])

unfoldable pub lap_body : Lap → OutputStream → OutputStream × List Effect
lap_body lap s =
    let (s1, effects) = flush lap.listened (drain_lines lap.drained s) in
    let (s2, more) = choose lap.choice lap.listened s1 in (s2, effects ++ more)

-- The laps, and the lines and the listener of the last one.
unfoldable pub loop : List Lap → List Line → Bool → OutputStream → OutputStream × List Effect
loop [] last listened s = flush listened (drain_lines last s)
loop (lap ∷ laps) last listened s =
    let (s1, effects) = lap_body lap s in
    let (s2, more) = loop laps last listened s1 in (s2, effects ++ more)

-- How an execution goes: no pipe or no process, or the laps with what `Wait` answers and the exit
-- code of the process.
pub data Execution : Type 0 where
  not_started : Execution
  ran : List Lap → List Line → Bool → Bool → ℤ → Execution

-- The deferred function, with the stream, the success, the transcript and the exit code.
unfoldable pub finish : Bool → OutputStream → Bool → Text → ℤ → List Effect
finish has_bus s success transcript exit_code =
    let succeeded = success && not s.stopped in
    let event = published_finished succeeded transcript exit_code ∷ [] in
    (if s.announced && has_bus then event else []) ++ sent_finished succeeded exit_code ∷ []

-- `streamOutput`: the transcript that it returns, and what it did.
unfoldable pub stream_output : Bool → Execution → Text × List Effect
stream_output has_bus not_started = ([], finish has_bus new_stream false [] (negsuc 0))
stream_output has_bus (ran laps last listened waited exit_code) =
    let s0 : OutputStream = record new_stream { announced = true } in
    let started = if has_bus then published_started ∷ [] else [] in
    let (s, effects) = loop laps last listened s0 in
    (summary s, started ++ effects ++ finish has_bus s waited (summary s) exit_code)
