-- ===== src/Device/Session/Superseded.antt =====
-- device_session.go: the death of a connection that a newer one has replaced.
use kcd.Base.{ℕ, ◌≡◌, ◌≢◌, Bool, false, none, some, List, [], arith, ◌==◌}
use kcd.Device.{Conn, Device}
use kcd.Device.Session.{Effect, connect, drop_conn, disconnect_conn}

connect-conn :
    (c : Conn) (f g : Bool) (now : ℕ) (d d' : Device) (effects : List Effect)
    → connect c f g now d ≡ some (d', effects)
    → d'.conn ≡ some c
unfolding connect
connect-conn c f g now d d' effects e = ground arith

drop_conn-conn :
    (c : Conn) (now : ℕ) (d d' : Device) (effects : List Effect)
    → drop_conn c now d ≡ some (d', effects)
    → d'.conn ≡ none
unfolding drop_conn
drop_conn-conn c now d d' effects e = ground arith

disconnect_conn-none :
    (c : Conn) (now : ℕ) (d : Device) → d.conn ≡ none → disconnect_conn c now d ≡ some (d, [])
unfolding disconnect_conn
disconnect_conn-none c now d e = ground arith

disconnect_conn_other :
    (c old : Conn) (now : ℕ) (d : Device)
    → d.conn ≡ some c
    → (c.handle == old.handle) ≡ false
    → disconnect_conn old now d ≡ some (d, [])
unfolding disconnect_conn
disconnect_conn_other c old now d e h = ground arith

-- After a new connection is in place, the death of any other connection changes nothing and does
-- nothing: no disconnect is announced and the new connection stays.
pub disconnect_conn-connect_other :
    (c old : Conn) (f g : Bool) (now later : ℕ) (d d' : Device) (effects : List Effect)
    → connect c f g now d ≡ some (d', effects)
    → old.handle ≢ c.handle
    → disconnect_conn old later d' ≡ some (d', [])
disconnect_conn-connect_other c old f g now later d d' effects e other =
    disconnect_conn_other c old later d' (connect-conn c f g now d d' effects e) (ground arith)

-- The death of the current connection, if it does not panic, announces one disconnect, and a second
-- report of it does nothing.
pub disconnect_conn_twice :
    (c : Conn) (now later : ℕ) (d d' : Device) (effects : List Effect)
    → disconnect_conn c now d ≡ some (d', effects)
    → disconnect_conn c later d' ≡ some (d', [])
unfolding disconnect_conn
disconnect_conn_twice c now later d d' effects e = ground arith
