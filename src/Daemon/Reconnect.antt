-- ===== src/Daemon/Reconnect.antt =====
-- The reconnect loop of a paired device, internal/daemon/transport_reconnect.go.
--
-- Other goroutines change the device while the loop runs, so a lap is given the device as it reads it:
-- at its head, after the wait, and after the dial; with the times of these reads and how the wait
-- ended. The laps are those that the loop makes; `none` as a result is that it still runs after them.
pub mod Pace
use kcd.Base.{
  ℕ, ◌+◌, ◌-◌, ◌*◌, String, Bool, true, false, not, ◌&&◌, ◌||◌, Option, none, some, List, [], ◌∷◌,
  ◌++◌, ltb, ◌==◌, if◌then◌else◌,
}
use kcd.Device.{Device, Ip, paired, is_state, is_connected}
use kcd.Device.Discovery.{second}
use kcd.Device.Registry.{reconnect_backoff}
use kcd.Daemon.{valid_dial_port}

abbrev pub reconnect_trigger_min_gap : ℕ
reconnect_trigger_min_gap = 5 * second

pub record Options : Type 0 where
  pub max_backoff : ℕ
  pub fallback_max : ℕ
  pub stale_after : ℕ
  pub initial : ℕ
  pub sighting_driven : Bool
  pub tcp_port : ℕ

unfoldable pub wait_cap : Options → ℕ
wait_cap o = if o.sighting_driven then o.fallback_max else o.max_backoff

unfoldable pub reconnect_port : ℕ → Device → ℕ
reconnect_port fallback d = if valid_dial_port d.last_port then d.last_port else fallback

pub data Wait : Type 0 where
  context_done woken timed_out : Wait

pub record Lap : Type 0 where
  pub shut_down : Bool
  pub head : Device
  pub head_time : ℕ
  pub ending : Wait
  pub parked : Device
  pub parked_time : ℕ
  pub dialled : Device
  pub dialled_time : ℕ

pub data Stop : Type 0 where
  shutting_down not_paired already_connected stale done_waiting settled reconnected : Stop

pub data Effect : Type 0 where
  waits : ℕ → Effect
  dials_peer : Ip → ℕ → Effect
  sets_attempt : ℕ → Effect
  reconnect_is_done : Effect

-- The attempt and the time of the last dial, `none` before the first.
pub record Progress : Type 0 where
  pub attempt : ℕ
  pub dialled_at : Option ℕ

-- What a lap ends with: a reason to stop, or the progress to go on with.
pub data Outcome : Type 0 where
  stops : Stop → Outcome
  goes_on : Progress → Outcome

-- A device that was never seen is stale.
unfoldable pub is_stale : Options → Lap → Bool
is_stale o lap =
    o.sighting_driven
    && (elim lap.head.last_seen [ none ↦ true | some t ↦ ltb o.stale_after (lap.head_time - t) ])

unfoldable pub must_stop : Options → Lap → Option Stop
unfolding is_stale
must_stop o lap =
    if lap.shut_down
    then some shutting_down
    else if not (is_state lap.head.state paired)
    then some not_paired
    else if is_connected lap.head
    then some already_connected
    else if is_stale o lap
    then some stale
    else none

-- The last dial is less than five seconds back.
unfoldable pub too_soon : Lap → Option ℕ → Bool
too_soon lap last = elim last [
  | none ↦ false
  | some t ↦ ltb (lap.parked_time - t) reconnect_trigger_min_gap
]

unfoldable pub dial_target : Ip → Device → Ip
dial_target ip d = elim d.last_sighted_ip [ none ↦ ip | some sighted ↦ some sighted ]

unfoldable pub after_dial : Lap → Progress → Outcome × List Effect
after_dial lap p =
    if is_connected lap.dialled
    then (stops reconnected, sets_attempt (p.attempt + 1) ∷ [])
    else (goes_on (record { attempt = p.attempt + 1; dialled_at = some lap.dialled_time }), [])

unfoldable pub dial_step : Options → Ip → Lap → Progress → Outcome × List Effect
unfolding dial_target reconnect_port after_dial
dial_step o ip lap p =
    let (outcome, effects) = after_dial lap p in
    (
      outcome,
      dials_peer (dial_target ip lap.parked) (reconnect_port o.tcp_port lap.parked) ∷ effects,
    )

-- After the wait, which was woken or ran out.
unfoldable pub recheck : Options → Ip → Bool → Lap → Progress → Outcome × List Effect
unfolding too_soon dial_step
recheck o ip triggered lap p =
    if is_connected lap.parked || not (is_state lap.parked.state paired)
    then (stops settled, [])
    else if triggered && too_soon lap p.dialled_at
    then (goes_on p, [])
    else dial_step o ip lap p

unfoldable pub waited : Options → Ip → Lap → Progress → Outcome × List Effect
unfolding recheck
waited o ip lap p = elim lap.ending [
  | context_done ↦ (stops done_waiting, [])
  | woken ↦ recheck o ip true lap p
  | timed_out ↦ recheck o ip false lap p
]

unfoldable pub lap_step : Options → Ip → Lap → Progress → Outcome × List Effect
unfolding must_stop waited
lap_step o ip lap p = elim (must_stop o lap) [
  | some s ↦ (stops s, [])
  | none ↦
      let (outcome, effects) = waited o ip lap p in
      (outcome, waits (reconnect_backoff p.attempt (wait_cap o) o.initial) ∷ effects)
]

-- The laps, with the deferred call at the end.
unfoldable pub run_laps : Options → Ip → List Lap → Progress → Option Stop × List Effect
run_laps o ip [] p = (none, [])
run_laps o ip (lap ∷ laps) p =
    let (outcome, effects) = lap_step o ip lap p in
    elim outcome [
      | stops s ↦ (some s, effects ++ (reconnect_is_done ∷ []))
      | goes_on p' ↦ let (stop, more) = run_laps o ip laps p' in (stop, effects ++ more)
    ]

unfoldable pub reconnect_with_backoff : Options → Device → Ip → List Lap → Option Stop × List Effect
unfolding run_laps
reconnect_with_backoff o d ip laps =
    run_laps o ip laps (record { attempt = d.reconnect_attempt; dialled_at = none })
