-- ===== src/Events/Tests.antt =====
-- A run of the bus of bus.go: a subscriber without filters, one for messages, and three events.
use kcd.Base.{ℕ, ◌≡◌, ◌↔◌, refl, true, List, [], ◌∷◌, ◌+◌, ◌<◌, All, arith, length, keep}
use kcd.Events.{
  step, on_subscriber_change, Call, publishes, subscribes, hooks, new_bus, run, history,
  events_since, subscribe, publish, event_replay_capacity,
}
use kcd.Events.Replay.{after, events_since-run_complete, events_since-run_gap_iff}
use kcd.Events.Delivery.{IsSound, run-IsSound}

abbrev calls : List (Call ℕ ℕ)
calls =
    subscribes 2 []
    ∷ subscribes 0 ("sms.incoming" ∷ [])
    ∷ hooks 7
    ∷ publishes "battery.updated" "phone" 1 10
    ∷ publishes "sms.incoming" "phone" 2 11
    ∷ publishes "battery.updated" "tablet" 3 12
    ∷ []

events_since-run_complete_example :
    (events_since 1 [] (run calls new_bus)).0 ≡ keep (after 1 []) (history calls new_bus)
unfolding events_since run new_bus step publish on_subscriber_change subscribe
events_since-run_complete_example =
    events_since-run_complete calls 1 [] (omega arith) (omega arith) refl

events_since-run_gap_iff_example :
    ((events_since 1 [] (run calls new_bus)).1 ≡ true)
    ↔ (1 + event_replay_capacity < length (history calls new_bus))
events_since-run_gap_iff_example =
    events_since-run_gap_iff calls 1 [] (omega arith) (omega arith) (omega arith)

run-IsSound_example : All IsSound (run calls new_bus).subscribers
run-IsSound_example = run-IsSound calls (omega arith)
