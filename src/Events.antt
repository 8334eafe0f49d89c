-- ===== src/Events.antt =====
-- The event bus, internal/events/bus.go. A channel is its buffered events and its capacity; the
-- map of subscribers is a list with the id in each entry, since every loop over it treats each
-- subscriber by itself. The payload type `P` and the type `H` of the change hooks are parameters:
-- the bus never looks into either. Sequence numbers and ids wrap at 2 ^ 64, as uint64 does.
pub mod Replay
pub mod Delivery
mod Tests
use kcd.Base.{
  ℕ, ◌+◌, ◌-◌, ◌%◌, ◌^◌, String, Bool, true, false, not, ◌&&◌, List, [], ◌∷◌, ◌++◌, map, ltb, leb,
  ◌==◌, if◌then◌else◌, length, drop, keep, any, str_eq,
}

-- The types that need an explicit filter.
abbrev pub type_sms_incoming : String
type_sms_incoming = "sms.incoming"

abbrev pub type_sms_attachment : String
type_sms_attachment = "sms.attachment"

abbrev pub type_prompt : String
type_prompt = "prompt"

unfoldable pub opt_in_only : List String
opt_in_only = type_sms_incoming ∷ type_sms_attachment ∷ type_prompt ∷ []

abbrev pub u64_mod : ℕ
u64_mod = 2 ^ 64

abbrev pub default_subscriber_cap : ℕ
default_subscriber_cap = 64

abbrev pub event_replay_capacity : ℕ
event_replay_capacity = 256

pub record Event (P : Type 0) : Type 0 where
  pub seq : ℕ
  pub typ : String
  pub timestamp : ℕ
  pub device_id : String
  pub payload : P

pub record Subscriber (P : Type 0) : Type 0 where
  pub filters : List String
  pub queue : List (Event P)
  pub cap : ℕ
  pub id : ℕ

pub record Bus (P H : Type 0) : Type 0 where
  pub subscribers : List (Subscriber P)
  pub next_id : ℕ
  pub change_hooks : List H
  pub seq : ℕ
  pub ring : List (Event P)

unfoldable pub is_opt_in_only : String → Bool
is_opt_in_only typ =
    if str_eq typ type_sms_incoming
    then true
    else (if str_eq typ type_sms_attachment then true else str_eq typ type_prompt)

-- The loop over the filters of a subscriber or a request.
unfoldable pub names : List String → String → Bool
names [] typ = false
names (f ∷ fs) typ = if str_eq f typ then true else names fs typ

unfoldable pub matches_filters : String → List String → Bool
matches_filters typ [] = not (is_opt_in_only typ)
matches_filters typ (f ∷ fs) = names (f ∷ fs) typ

module _ {P : Type 0} where
  -- `(*Subscriber).matches`, which has the same loop over its own filters.
  unfoldable pub matches : Subscriber P → String → Bool
  unfolding is_opt_in_only names
  matches s typ = elim s.filters [ [] ↦ not (is_opt_in_only typ) | f ∷ fs ↦ names (f ∷ fs) typ ]

  -- The `select` with a `default`: an event is dropped where the buffer is full.
  unfoldable pub offer : String → Event P → Subscriber P → Subscriber P
  unfolding matches
  offer typ ev s =
      if matches s typ
      then (if ltb (length s.queue) s.cap then record s { queue = s.queue ++ ev ∷ [] } else s)
      else s

  unfoldable pub trim : List (Event P) → List (Event P)
  trim ring =
      if ltb event_replay_capacity (length ring)
      then drop (length ring - event_replay_capacity) ring
      else ring

  unfoldable pub remove : ℕ → List (Subscriber P) → List (Subscriber P)
  remove id [] = []
  remove id (s ∷ ss) = if s.id == id then remove id ss else s ∷ remove id ss

  unfoldable pub replay : ℕ → List String → List (Event P) → List (Event P)
  unfolding matches_filters
  replay since filters =
      keep λ (e : Event P). not (leb e.seq since) && matches_filters e.typ filters

module _ {P H : Type 0} where
  unfoldable pub new_bus : Bus P H
  new_bus = record { subscribers = []; next_id = 0; change_hooks = []; seq = 0; ring = [] }

  -- The hooks that a change runs, in order.
  unfoldable pub notify_change : Bus P H → List H
  notify_change b = b.change_hooks

  -- Returns the bus, the id of the new subscriber and the hooks that ran.
  unfoldable pub subscribe : ℕ → List String → Bus P H → Bus P H × ℕ × List H
  unfolding notify_change
  subscribe capacity filters b =
      let id = (b.next_id + 1) % u64_mod in
      let cap = if capacity == 0 then default_subscriber_cap else capacity in
      let sub : Subscriber P = record { filters = filters; queue = []; cap = cap; id = id } in
      let b' : Bus P H = record b { next_id = id; subscribers = b.subscribers ++ sub ∷ [] } in
      (b', id, notify_change b')

  unfoldable pub unsubscribe : ℕ → Bus P H → Bus P H × List H
  unfolding notify_change remove
  unsubscribe id b =
      if any (λ (s : Subscriber P). s.id == id) b.subscribers
      then (record b { subscribers = remove id b.subscribers }, notify_change b)
      else (b, [])

  unfoldable pub on_subscriber_change : H → Bus P H → Bus P H
  on_subscriber_change fn b = record b { change_hooks = b.change_hooks ++ fn ∷ [] }

  unfoldable pub has_subscribers : String → Bus P H → Bool
  unfolding matches
  has_subscribers typ b = any (λ s. matches s typ) b.subscribers

  unfoldable pub has_explicit_subscribers : String → Bus P H → Bool
  unfolding names
  has_explicit_subscribers typ b = any (λ (s : Subscriber P). names s.filters typ) b.subscribers

  -- The event that `publish` builds; `now` is the clock's reading.
  unfoldable pub make_event : String → String → P → ℕ → Bus P H → Event P
  make_event typ device_id payload now b = record {
    seq = (b.seq + 1) % u64_mod;
    typ = typ;
    timestamp = now;
    device_id = device_id;
    payload = payload;
  }

  unfoldable pub publish : String → String → P → ℕ → Bus P H → Bus P H
  unfolding make_event trim offer
  publish typ device_id payload now b =
      let ev = make_event typ device_id payload now b in
      record b {
        seq = ev.seq;
        ring = trim (b.ring ++ ev ∷ []);
        subscribers = map (offer typ ev) b.subscribers;
      }

  -- The buffered events after `since`, and whether the request predates the ring.
  unfoldable pub events_since : ℕ → List String → Bus P H → List (Event P) × Bool
  unfolding replay
  events_since since filters b = elim b.ring [
    | [] ↦ ([], false)
    | oldest ∷ rest ↦
        if since == 0
        then ([], false)
        else (replay since filters (oldest ∷ rest), ltb ((since + 1) % u64_mod) oldest.seq)
  ]

-- A call on the bus; `unsubscribes` is the `Close` of a subscriber.
pub data Call (P H : Type 0) : Type 0 where
  publishes : String → String → P → ℕ → Call P H
  subscribes : ℕ → List String → Call P H
  unsubscribes : ℕ → Call P H
  hooks : H → Call P H

module _ {P H : Type 0} where
  unfoldable pub step : Call P H → Bus P H → Bus P H
  step (publishes typ device_id payload now) b = publish typ device_id payload now b
  step (subscribes capacity filters) b = (subscribe capacity filters b).0
  step (unsubscribes id) b = (unsubscribe id b).0
  step (hooks fn) b = on_subscriber_change fn b

  unfoldable pub run : List (Call P H) → Bus P H → Bus P H
  run [] b = b
  run (c ∷ cs) b = run cs (step c b)

  -- What one call, and a sequence of calls, published.
  abbrev pub published : Call P H → Bus P H → List (Event P)
  published (publishes typ device_id payload now) b = make_event typ device_id payload now b ∷ []
  published c b = []

  unfoldable pub history : List (Call P H) → Bus P H → List (Event P)
  history [] b = []
  history (c ∷ cs) b = published c b ++ history cs (step c b)
