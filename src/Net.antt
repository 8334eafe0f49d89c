-- ===== src/Net.antt =====
-- The delay after network errors, internal/netutil/backoff.go. Times are nanoseconds.
pub mod Delays
use kcd.Base.{ℕ, zero, suc, ◌*◌, Bool, true, false, List, [], ◌∷◌, ltb, ◌==◌, if◌then◌else◌}

-- Five milliseconds and one second.
abbrev pub initial_backoff : ℕ
initial_backoff = 5 * 1000000

abbrev pub maximum_backoff : ℕ
maximum_backoff = 1000000000

pub record ErrorBackoff : Type 0 where
  pub delay : ℕ

unfoldable pub reset : ErrorBackoff → ErrorBackoff
reset b = record { delay = initial_backoff }

-- How long it sleeps (or would, where the context ends first), and whether it slept to the end.
unfoldable pub wait : Bool → ErrorBackoff → ErrorBackoff × ℕ × Bool
wait cancelled b =
    let delay = if b.delay == 0 then initial_backoff else b.delay in
    let doubled = delay * 2 in
    let next = if ltb maximum_backoff doubled then maximum_backoff else doubled in
    if cancelled
    then (record { delay = delay }, delay, false)
    else (record { delay = if ltb delay maximum_backoff then next else delay }, delay, true)

-- Errors in a row, each waited for to its end.
unfoldable pub errors : ℕ → ErrorBackoff → ErrorBackoff
errors zero b = b
errors (suc n) b = (wait false (errors n b)).0
