-- ===== src/Events/Delivery.antt =====
-- bus.go: who receives what, and the bookkeeping of subscribers.
use kcd.Base.{
  ℕ, suc, ◌+◌, ◌%◌, ◌≤◌, ◌<◌, ◌≡◌, ◌≢◌, ◌⊎◌, refl, String, true, false, List, [], ◌∷◌, ◌++◌, map,
  arith, ltb, ◌==◌, length, length-append, any, All, All-append, Bool-cases, ltb→lt, inl, inr,
  str_eq, str_eq_iff,
}
use kcd.Events.{
  Event, Subscriber, Bus, Call, publishes, subscribes, unsubscribes, hooks, u64_mod, is_opt_in_only,
  names, matches, offer, remove, new_bus, subscribe, unsubscribe, on_subscriber_change, publish,
  has_subscribers, step, run,
}

-- A filter list has this type.
abbrev pub Named : String → List String → Type 0
Named typ [] = ⊥
Named typ (f ∷ fs) = (f ≡ typ) ⊎ Named typ fs

-- What a subscriber may see: without filters all but message bodies and prompts, else what it named.
abbrev pub Permitted : String → List String → Type 0
Permitted typ [] = (typ ≢ "sms.incoming") × (typ ≢ "sms.attachment") × (typ ≢ "prompt")
Permitted typ (f ∷ fs) = Named typ (f ∷ fs)

names→Named : (fs : List String) (typ : String) → names fs typ ≡ true → Named typ fs
unfolding names
names→Named [] typ h = cc
names→Named (f ∷ fs) typ h = elim (Bool-cases (str_eq f typ)) [
  | inl hit ↦ inl ((str_eq_iff f typ).0 hit)
  | inr miss ↦ inr (names→Named fs typ (ground arith))
]

not_opt_in : (typ : String) → is_opt_in_only typ ≡ false → Permitted typ []
unfolding is_opt_in_only
not_opt_in typ h =
    ground (
      arith,
      str_eq_iff typ "sms.incoming",
      str_eq_iff typ "sms.attachment",
      str_eq_iff typ "prompt",
    )

module _ {P : Type 0} where
  matches-Permitted :
      (s : Subscriber P) (fs : List String) (typ : String)
      → s.filters ≡ fs
      → matches s typ ≡ true
      → Permitted typ fs
  unfolding matches
  matches-Permitted s [] typ e h = not_opt_in typ (ground arith)
  matches-Permitted s (f ∷ fs) typ e h = names→Named (f ∷ fs) typ (ground arith)

  -- The queue holds only what its subscriber may see, within the capacity.
  pub record IsSound (s : Subscriber P) : Type 0 where
    pub wanted : All (λ (e : Event P). Permitted e.typ s.filters) s.queue
    pub bounded : length s.queue ≤ s.cap

  offer-IsSound :
      (typ : String) (ev : Event P) (s : Subscriber P)
      → ev.typ ≡ typ
      → IsSound s
      → IsSound (offer typ ev s)
  unfolding offer
  offer-IsSound typ ev s h v = elim (Bool-cases (matches s typ)) [
    | inr miss ↦ rw miss v
    | inl hit ↦ rw hit (elim (Bool-cases (ltb (length s.queue) s.cap)) [
      | inr full ↦ rw full v
      | inl room ↦ rw room (record {
        wanted =
            All-append _ s.queue (ev ∷ []) v.wanted
              (rw h (matches-Permitted s s.filters typ refl hit), tt);
        bounded = omega (arith, length-append s.queue (ev ∷ []), ltb→lt _ _ room);
      })
    ])
  ]

  map-offer-All :
      (typ : String) (ev : Event P) (ss : List (Subscriber P))
      → ev.typ ≡ typ
      → All IsSound ss
      → All IsSound (map (offer typ ev) ss)
  map-offer-All typ ev [] h v = tt
  map-offer-All typ ev (s ∷ ss) h (v, vs) =
      (offer-IsSound typ ev s h v, map-offer-All typ ev ss h vs)

  remove-All {κ} :
      (Q : Subscriber P → Type κ) (id : ℕ) (ss : List (Subscriber P))
      → All Q ss
      → All Q (remove id ss)
  unfolding remove
  remove-All Q id [] v = tt
  remove-All Q id (s ∷ ss) (v, vs) = elim (Bool-cases (s.id == id)) [
    | inl hit ↦ rw hit (remove-All Q id ss vs)
    | inr miss ↦ rw miss (v, remove-All Q id ss vs)
  ]

  abbrev pub IdAtMost : ℕ → Subscriber P → Type 0
  IdAtMost n s = s.id ≤ n

  IdAtMost-mono :
      (m n : ℕ) (ss : List (Subscriber P)) → m ≤ n → All (IdAtMost m) ss → All (IdAtMost n) ss
  IdAtMost-mono m n [] h v = tt
  IdAtMost-mono m n (s ∷ ss) h (v, vs) = (omega arith, IdAtMost-mono m n ss h vs)

  IdAtMost-offer :
      (n : ℕ) (typ : String) (ev : Event P) (ss : List (Subscriber P))
      → All (IdAtMost n) ss
      → All (IdAtMost n) (map (offer typ ev) ss)
  unfolding offer
  IdAtMost-offer n typ ev [] v = tt
  IdAtMost-offer n typ ev (s ∷ ss) (v, vs) = (ground arith, IdAtMost-offer n typ ev ss vs)

  remove_fresh :
      (n : ℕ) (sub : Subscriber P) (ss : List (Subscriber P))
      → n < sub.id
      → All (IdAtMost n) ss
      → remove sub.id (ss ++ sub ∷ []) ≡ ss
  unfolding remove
  remove_fresh n sub [] h v = ground arith
  remove_fresh n sub (s ∷ ss) h (v, vs) = ground (arith, remove_fresh n sub ss h vs)

  any_last :
      (sub : Subscriber P) (ss : List (Subscriber P))
      → any (λ (s : Subscriber P). s.id == sub.id) (ss ++ sub ∷ []) ≡ true
  any_last sub [] = ground arith
  any_last sub (s ∷ ss) = ground (arith, any_last sub ss)

  offer_miss :
      (typ : String) (ev : Event P) (s : Subscriber P) → matches s typ ≡ false → offer typ ev s ≡ s
  unfolding offer
  offer_miss typ ev s h = rw h

  offer_none :
      (typ : String) (ev : Event P) (ss : List (Subscriber P))
      → any (λ s. matches s typ) ss ≡ false
      → map (offer typ ev) ss ≡ ss
  offer_none typ ev [] h = refl
  offer_none typ ev (s ∷ ss) h = ground (arith, offer_none typ ev ss, offer_miss typ ev s)

module _ {P H : Type 0} where
  -- Every queue holds only what its subscriber asked for, within its capacity, and no id is yet to
  -- be given out.
  pub record IsValid (b : Bus P H) : Type 0 where
    pub sound : All IsSound b.subscribers
    pub ids : All (IdAtMost b.next_id) b.subscribers

  new_bus-IsValid : IsValid new_bus
  unfolding new_bus
  new_bus-IsValid = record { sound = tt; ids = tt }

  unsubscribe-IsValid : (id : ℕ) (b : Bus P H) → IsValid b → IsValid (unsubscribe id b).0
  unfolding unsubscribe
  unsubscribe-IsValid id b v =
      elim (Bool-cases (any (λ (s : Subscriber P). s.id == id) b.subscribers)) [
        | inl found ↦
            rw (found, unsubscribe)
              (record {
                sound = remove-All IsSound id b.subscribers v.sound;
                ids = remove-All _ id b.subscribers v.ids;
              })
        | inr missing ↦ rw (missing, unsubscribe) v
      ]

  step-IsValid :
      (c : Call P H) (b : Bus P H) → suc b.next_id < u64_mod → IsValid b → IsValid (step c b)
  unfolding step publish subscribe unsubscribe on_subscriber_change
  step-IsValid (publishes typ device_id payload now) b l v = record {
    sound = map-offer-All typ _ b.subscribers refl v.sound;
    ids = IdAtMost-offer b.next_id typ _ b.subscribers v.ids;
  }
  step-IsValid (subscribes capacity filters) b l v = record {
    sound =
        All-append IsSound b.subscribers _ v.sound
          (record { wanted = tt; bounded = omega arith }, tt);
    ids =
        All-append _ b.subscribers _ (IdAtMost-mono b.next_id _ b.subscribers (omega arith) v.ids)
          (omega arith, tt);
  }
  step-IsValid (unsubscribes id) b l v = unsubscribe-IsValid id b v
  step-IsValid (hooks fn) b l v = record { sound = v.sound; ids = v.ids }

  next_id-step : (c : Call P H) (b : Bus P H) → (step c b).next_id ≤ suc b.next_id
  unfolding step publish subscribe unsubscribe on_subscriber_change
  next_id-step (publishes typ device_id payload now) b = omega arith
  next_id-step (subscribes capacity filters) b = omega arith
  next_id-step (unsubscribes id) b = ground arith
  next_id-step (hooks fn) b = omega arith

  run-IsValid :
      (cs : List (Call P H)) (b : Bus P H)
      → b.next_id + length cs < u64_mod
      → IsValid b
      → IsValid (run cs b)
  unfolding run
  run-IsValid [] b l v = v
  run-IsValid (c ∷ cs) b l v =
      run-IsValid cs (step c b) (omega (arith, next_id-step c b)) (step-IsValid c b (omega arith) v)

  run-new_bus-IsValid : (cs : List (Call P H)) → length cs < u64_mod → IsValid (run cs new_bus)
  unfolding new_bus
  run-new_bus-IsValid cs l = run-IsValid cs new_bus (omega arith) (record { sound = tt; ids = tt })

  next_id-run : (cs : List (Call P H)) (b : Bus P H) → (run cs b).next_id ≤ b.next_id + length cs
  unfolding run
  next_id-run [] b = omega arith
  next_id-run (c ∷ cs) b = omega (arith, next_id-run cs (step c b), next_id-step c b)

  next_id-run-new_bus : (cs : List (Call P H)) → (run cs new_bus).next_id ≤ length cs
  unfolding new_bus
  next_id-run-new_bus cs = omega (arith, next_id-run cs new_bus)

  unsubscribe_fresh :
      (n : ℕ) (b : Bus P H) (sub : Subscriber P) (ss : List (Subscriber P))
      → b.subscribers ≡ ss ++ sub ∷ []
      → n < sub.id
      → All (IdAtMost n) ss
      → ((unsubscribe sub.id b).0.subscribers ≡ ss) × ((unsubscribe sub.id b).1 ≡ b.change_hooks)
  unfolding unsubscribe
  unsubscribe_fresh n b sub ss e h v =
      rw (e, any_last sub ss, unsubscribe) (remove_fresh n sub ss h v, refl)

  -- After fewer than 2 ^ 64 calls on a new bus, every queued event is one that its subscriber may
  -- see (without filters no message body, attachment or prompt; with filters a type that it named),
  -- and no queue exceeds its capacity.
  pub run-IsSound :
      (cs : List (Call P H)) → length cs < u64_mod → All IsSound (run cs new_bus).subscribers
  run-IsSound cs l = (run-new_bus-IsValid cs l).sound

  -- Where no subscriber matches the type, publishing it changes no subscriber: a producer that asks
  -- first loses nobody.
  pub publish_unheard :
      (typ device_id : String) (payload : P) (now : ℕ) (b : Bus P H)
      → has_subscribers typ b ≡ false
      → (publish typ device_id payload now b).subscribers ≡ b.subscribers
  unfolding publish has_subscribers
  publish_unheard typ device_id payload now b h = offer_none typ _ b.subscribers h

  -- After fewer than 2 ^ 64 - 1 calls on a new bus, closing a subscriber that was just made gives
  -- the same subscribers as before, and each of the two calls runs every change hook.
  pub unsubscribe-subscribe :
      (cs : List (Call P H)) (capacity : ℕ) (filters : List String)
      → suc (length cs) < u64_mod
      → let b = run cs new_bus in
        let (b', id, ran) = subscribe capacity filters b in
        ((unsubscribe id b').0.subscribers ≡ b.subscribers)
        × (ran ≡ b.change_hooks)
        × ((unsubscribe id b').1 ≡ b.change_hooks)
  unfolding subscribe
  unsubscribe-subscribe cs capacity filters l =
      let b : Bus P H = run cs new_bus in
      let fresh : b.next_id < (b.next_id + 1) % u64_mod = omega (arith, next_id-run-new_bus cs) in
      let (same, ran) =
        unsubscribe_fresh b.next_id (subscribe capacity filters b).0 _ b.subscribers refl fresh
          (run-new_bus-IsValid cs (omega arith)).ids in
      (same, refl, ran)
