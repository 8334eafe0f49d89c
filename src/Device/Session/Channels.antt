-- ===== src/Device/Session/Channels.antt =====
-- device_session.go: the channels that stop the writer loops.
use kcd.Base.{
  ℕ, String, ◌+◌, ◌≤◌, ◌<◌, ◌≡◌, refl, sym, Bool, true, false, not, ◌&&◌, Option, none, some, List,
  [], ◌∷◌, arith, ◌==◌, Bool-cases, Option-cases, inl, inr,
}
use kcd.Device.{Conn, Device, new_device, is_connected}
use kcd.Device.Session.{
  Effect, member, close_done, connect_begin, connect_finish, drop_conn, disconnect, disconnect_conn,
  Step, begins, finishes, disconnects, dies, step, run,
}

-- Of the channels made for connections, number `done` is the last, and it is open exactly while the
-- device is connected; all before it are closed. (Channel 0 is the one that a new device has.)
pub record Chans (connected : Bool) (done : ℕ) (closed : List ℕ) (once : Bool) : Type 0 where
  pub loops : (g : ℕ) → 1 ≤ g → g ≤ done → member g closed ≡ not (connected && g == done)
  pub fresh : (g : ℕ) → done < g → member g closed ≡ false
  pub fired : once ≡ member done closed
  pub made : connected ≡ true → 1 ≤ done
  pub first : member 0 closed ≡ false

abbrev pub IsValid : Device → Type 0
IsValid d = Chans (is_connected d) d.done d.closed d.close_once

Chans-open :
    (n : ℕ) (closed : List ℕ) (once : Bool)
    → Chans false n closed once
    → Chans true (n + 1) closed false
Chans-open n closed once v = record {
  loops = λ g p q. ground (arith, v.loops g p, v.fresh g);
  fresh = λ g p. v.fresh g (omega arith);
  fired = sym (v.fresh (n + 1) (omega arith));
  made = λ h. omega arith;
  first = v.first;
}

Chans-close :
    (n : ℕ) (closed : List ℕ) (once : Bool)
    → Chans true n closed once
    → Chans false n (n ∷ closed) true
Chans-close n closed once v = record {
  loops = λ g p q. ground (arith, v.loops g p q);
  fresh = λ g p. ground (arith, v.fresh g p);
  fired = ground arith;
  made = λ h. cc;
  first = ground (arith, v.made refl, v.first);
}

Chans-unfired :
    (n : ℕ) (closed : List ℕ) (once : Bool)
    → Chans true n closed once
    → (once ≡ false) × (member n closed ≡ false)
Chans-unfired n closed once v =
    (ground (arith, v.fired, v.loops n (v.made refl)), ground (arith, v.loops n (v.made refl)))

-- A step returns, and what it leaves satisfies `Q`.
abbrev pub Returns : (Device → Type 0) → Option (Device × List Effect) → Type 0
Returns Q none = ⊥
Returns Q (some (d, effects)) = Q d

-- While the device is connected, its channel can be closed.
close_done_connected :
    (d : Device)
    → Chans true d.done d.closed d.close_once
    → close_done d ≡ some (record d { close_once = true; closed = d.done ∷ d.closed })
unfolding close_done
close_done_connected d v =
    let (unfired, still_open) = Chans-unfired d.done d.closed d.close_once v in
    rw (unfired, still_open)

connected :
    (d : Device) (b : Bool) → is_connected d ≡ b → IsValid d → Chans b d.done d.closed d.close_once
connected d b e v = rw (← e) v

connect_begin-IsValid :
    (c : Conn) (f g : Bool) (d : Device) → IsValid d → Returns IsValid (connect_begin c f g d)
unfolding connect_begin is_connected
connect_begin-IsValid c f g d v = elim (Option-cases d.conn) [
  | inl e ↦
      rw (e, connect_begin) (Chans-open d.done d.closed d.close_once (connected d false (rw e) v))
  | inr (old, e) ↦
      let v' : Chans true d.done d.closed d.close_once = connected d true (rw e) v in
      rw (e, connect_begin, close_done_connected d v')
        (Chans-open d.done (d.done ∷ d.closed) true (Chans-close d.done d.closed d.close_once v'))
]

drop_conn-IsValid :
    (c : Conn) (now : ℕ) (d : Device)
    → Chans true d.done d.closed d.close_once
    → Returns IsValid (drop_conn c now d)
unfolding drop_conn is_connected
drop_conn-IsValid c now d v =
    let d' : Device = record d { last_seen = some now; conn = none; last_connect = none } in
    rw (close_done_connected d' v) (Chans-close d.done d.closed d.close_once v)

disconnect-IsValid : (now : ℕ) (d : Device) → IsValid d → Returns IsValid (disconnect now d)
unfolding disconnect is_connected
disconnect-IsValid now d v = elim (Option-cases d.conn) [
  | inl e ↦ rw (e, disconnect) v
  | inr (c, e) ↦ rw (e, disconnect) (drop_conn-IsValid c now d (connected d true (rw e) v))
]

disconnect_conn-IsValid :
    (conn : Conn) (now : ℕ) (d : Device) → IsValid d → Returns IsValid (disconnect_conn conn now d)
unfolding disconnect_conn is_connected
disconnect_conn-IsValid conn now d v = elim (Option-cases d.conn) [
  | inl e ↦ rw (e, disconnect_conn) v
  | inr (c, e) ↦ elim (Bool-cases (c.handle == conn.handle)) [
    | inl same ↦
        rw (e, disconnect_conn) (rw same (drop_conn-IsValid c now d (connected d true (rw e) v)))
    | inr other ↦ rw (e, disconnect_conn) (rw other v)
  ]
]

step-IsValid : (s : Step) (d : Device) → IsValid d → Returns IsValid (step s d)
unfolding step
step-IsValid (begins c f g) d v = connect_begin-IsValid c f g d v
step-IsValid (finishes c now) d v = unfold connect_finish is_connected in v
step-IsValid (disconnects now) d v = disconnect-IsValid now d v
step-IsValid (dies c now) d v = disconnect_conn-IsValid c now d v

run_next :
    (s : Step) (ss : List Step) (d : Device) (r : Option (Device × List Effect))
    → ((d1 : Device) → IsValid d1 → (d' : Device) × (run ss d1 ≡ some d') × IsValid d')
    → step s d ≡ r
    → Returns IsValid r
    → (d' : Device) × (run (s ∷ ss) d ≡ some d') × IsValid d'
unfolding run
run_next s ss d none ih e h = absurd h
run_next s ss d (some (d1, effects)) ih e h = let (d', ran, v) = ih d1 h in (d', rw (e, run) ran, v)

run-IsValid :
    (ss : List Step) (d : Device) → IsValid d → (d' : Device) × (run ss d ≡ some d') × IsValid d'
unfolding run
run-IsValid [] d v = (d, refl, v)
run-IsValid (s ∷ ss) d v = run_next s ss d (step s d) (run-IsValid ss) refl (step-IsValid s d v)

new_device-IsValid : (id name dtype : String) → IsValid (new_device id name dtype)
unfolding new_device is_connected
new_device-IsValid id name dtype = record {
  loops = λ g p q. absurd (omega arith);
  fresh = λ g p. refl;
  fired = refl;
  made = λ h. cc;
  first = refl;
}

-- However connects, disconnects and deaths of connections interleave on a new device, no channel is
-- closed twice (which would panic), and every channel made for a connection (1 to `done`) is closed
-- exactly when it is not that of the live connection.
pub run-new_device_total :
    (ss : List Step) (id name dtype : String)
    → (d : Device) × (run ss (new_device id name dtype) ≡ some d)
      × ((g : ℕ) → 1 ≤ g → g ≤ d.done → member g d.closed ≡ not (is_connected d && g == d.done))
run-new_device_total ss id name dtype =
    let (d, ran, v) =
      run-IsValid ss (new_device id name dtype) (new_device-IsValid id name dtype) in
    (d, ran, v.loops)
