-- ===== src/Ipc/Watch/Twice.antt =====
-- server_watch.go: an event between the subscription and the backlog.
use kcd.Base.{
  ℕ, ◌+◌, ◌-◌, ◌%◌, ◌≤◌, ◌<◌, ◌≡◌, refl, ap, ◌∙◌, String, Bool, true, false, not, ◌&&◌, List, [],
  ◌∷◌, ◌++◌, map, arith, ltb, leb, ◌==◌, length, length-append, drop, drop-append, keep,
  keep-append, any, Bool-cases, inl, inr,
}
use mathlib.Core.List.{append_assoc}
use kcd.Events.{
  Event, Subscriber, Bus, publishes, u64_mod, subscribe, publish, make_event, trim, offer, matches,
  matches_filters, replay, events_since, event_replay_capacity, run, step,
}
use kcd.Ipc.Watch.{watch_subscriber_cap, channel_of, backlog, watch}

module _ {P : Type 0} where
  keep-only : (p : Event P → Bool) (ev : Event P) → p ev ≡ true → keep p (ev ∷ []) ≡ ev ∷ []
  keep-only p ev h = rw h refl

  -- The ring ends with the event that was put in last.
  trim-append :
      (ring : List (Event P)) (ev : Event P)
      → (xs : List (Event P)) × (trim (ring ++ ev ∷ []) ≡ xs ++ ev ∷ [])
  unfolding trim
  trim-append ring ev = elim (Bool-cases (ltb event_replay_capacity (length (ring ++ ev ∷ [])))) [
    | inl e ↦
        let n : ℕ = length (ring ++ ev ∷ []) - event_replay_capacity in
        let l = length-append ring (ev ∷ []) in
        (drop n ring, rw e (drop-append n ring (ev ∷ []) (omega (arith, l))))
    | inr e ↦ (ring, rw e refl)
  ]

  -- A new subscriber stands last; what it is offered is what its channel holds.
  channel_of-offer :
      (typ : String) (ev : Event P) (filters : List String) (id : ℕ) (ss : List (Subscriber P))
      → any (λ (s : Subscriber P). s.id == id) ss ≡ false
      → matches_filters typ filters ≡ true
      → channel_of id (
          map (offer typ ev) (
            ss
            ++ (record { filters = filters; queue = []; cap = watch_subscriber_cap; id = id })
              ∷ []))
        ≡ ev ∷ []
  unfolding channel_of offer matches matches_filters
  channel_of-offer typ ev [] id [] h m = ground (arith, m)
  channel_of-offer typ ev (f ∷ fs) id [] h m = ground (arith, m)
  channel_of-offer typ ev filters id (s ∷ ss) h m =
      ground (arith, h, channel_of-offer typ ev filters id ss)

module _ {P H : Type 0} where
  events_since-last :
      (since : ℕ) (filters : List String) (b : Bus P H) (xs : List (Event P)) (ev : Event P)
      → b.ring ≡ xs ++ ev ∷ []
      → (since == 0) ≡ false
      → (not (leb ev.seq since) && matches_filters ev.typ filters) ≡ true
      → (events_since since filters b).0 ≡ replay since filters xs ++ ev ∷ []
  unfolding events_since replay
  events_since-last since filters b [] ev e z k = rw (e, events_since, z, k) refl
  events_since-last since filters b (x ∷ xs) ev e z k =
      let p : Event P → Bool =
        λ (y : Event P). not (leb y.seq since) && matches_filters y.typ filters in
      rw (e, events_since, z)
        (keep-append p (x ∷ xs) (ev ∷ []) ∙ ap (λ t. keep p (x ∷ xs) ++ t) (keep-only p ev k))

  -- An event that is published while a client resumes is sent to it twice. Where a client asks for
  -- the events after a number that the bus has reached, and an event that it asked for is published
  -- after it was subscribed and before the backlog is read, the event is the last of the backlog and
  -- also in the channel. The new subscriber's id is in no use, and the numbers have not wrapped.
  pub watch-publishes :
      (since : ℕ) (filters : List String) (typ device_id : String) (payload : P) (now : ℕ)
      (b : Bus P H)
      → 0 < since
      → since ≤ b.seq
      → b.seq + 1 < u64_mod
      → matches_filters typ filters ≡ true
      → any (λ (s : Subscriber P). s.id == (b.next_id + 1) % u64_mod) b.subscribers ≡ false
      → let ev = make_event typ device_id payload now b in
        (earlier : List (Event P)) × ((watch since filters
            (publishes typ device_id payload now ∷ [])
            []
            b).0
          ≡ earlier ++ ev ∷ ev ∷ [])
  unfolding watch backlog run step subscribe publish make_event
  watch-publishes since filters typ device_id payload now b pos reached room wanted fresh =
      let ev : Event P = make_event typ device_id payload now b in
      let b1 : Bus P H = (subscribe watch_subscriber_cap filters b).0 in
      let b2 : Bus P H = publish typ device_id payload now b1 in
      let (xs, r) = trim-append b.ring ev in
      let q : since < (b.seq + 1) % u64_mod = omega (arith, room, reached) in
      let z : (since == 0) ≡ false = ground (arith, pos) in
      let k : (not (leb ev.seq since) && matches_filters ev.typ filters) ≡ true =
        ground (arith, q, wanted) in
      let t : ltb 0 since ≡ true = ground (arith, pos) in
      let past : (backlog since filters b2).0 ≡ replay since filters xs ++ ev ∷ [] =
        rw t (events_since-last since filters b2 xs ev r z k) in
      let live : channel_of ((b.next_id + 1) % u64_mod) b2.subscribers ≡ ev ∷ [] =
        channel_of-offer typ ev filters ((b.next_id + 1) % u64_mod) b.subscribers fresh wanted in
      (
        replay since filters xs,
        ap (λ u. u ++ channel_of ((b.next_id + 1) % u64_mod) b2.subscribers) past
            ∙ (ap (λ u. (replay since filters xs ++ ev ∷ []) ++ u) live
                ∙ append_assoc (replay since filters xs) (ev ∷ []) (ev ∷ [])),
      )
