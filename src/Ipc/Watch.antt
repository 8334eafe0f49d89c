-- ===== src/Ipc/Watch.antt =====
-- The stream of events to a client, handleWatch of internal/ipc/server_watch.go, from its subscription
-- on. What the bus is called with meanwhile, from anywhere, is given: between the subscription and the
-- reading of the backlog, and after it. The events that are written are those of the backlog and then
-- those of the channel, which nobody else reads.
pub mod Twice
use kcd.Base.{ℕ, ◌+◌, String, Bool, true, false, List, [], ◌∷◌, ◌++◌, ltb, ◌==◌, if◌then◌else◌}
use kcd.Events.{Event, Subscriber, Bus, Call, subscribe, events_since, run}

abbrev pub watch_subscriber_cap : ℕ
watch_subscriber_cap = 256

module _ {P : Type 0} where
  -- What is in the channel of a subscriber.
  unfoldable pub channel_of : ℕ → List (Subscriber P) → List (Event P)
  channel_of id [] = []
  channel_of id (s ∷ ss) = let later = channel_of id ss in if s.id == id then s.queue else later

module _ {P H : Type 0} where
  unfoldable pub backlog : ℕ → List String → Bus P H → List (Event P) × Bool
  unfolding events_since
  backlog since filters b = if ltb 0 since then events_since since filters b else ([], false)

  -- The events that the client is sent, and whether a gap is announced before them.
  unfoldable pub watch :
      ℕ → List String → List (Call P H) → List (Call P H) → Bus P H → List (Event P) × Bool
  unfolding backlog channel_of
  watch since filters between afterwards b =
      let (b1, id, hooks) = subscribe watch_subscriber_cap filters b in
      let b2 = run between b1 in
      let (replayed, gap) = backlog since filters b2 in
      let b3 = run afterwards b2 in (replayed ++ channel_of id b3.subscribers, gap)
