-- ===== src/Device/Io/Order.antt =====
-- io.go: what is sent to a paired, connected peer arrives in order.
use mathlib.Core.List.{append_assoc, append-nil}
use kcd.Base.{
  ℕ, ◌+◌, ◌≤◌, ◌<◌, ◌≡◌, refl, sym, ap, ◌∙◌, false, some, List, [], ◌∷◌, ◌++◌, map, arith, length,
  length-append,
}
use kcd.Protocol.{Packet}
use kcd.Device.{Conn, Device, paired, send_capacity}
use kcd.Device.Io.{send, write_packet, write_next, written, send_all, drain}

module _ (c : Conn) where
  send_room :
      (p : Packet) (d : Device)
      → d.state ≡ paired
      → d.conn ≡ some c
      → length d.send_chan < send_capacity
      → send false p d ≡ record d { send_chan = d.send_chan ++ p ∷ [] }
  unfolding send
  send_room p d s e h = ground arith

  send_all_room :
      (ps : List Packet) (d : Device)
      → d.state ≡ paired
      → d.conn ≡ some c
      → length d.send_chan + length ps ≤ send_capacity
      → send_all ps d ≡ record d { send_chan = d.send_chan ++ ps }
  unfolding send_all
  send_all_room [] d s e h = ap (λ xs. record d { send_chan = xs }) (sym (append-nil d.send_chan))
  send_all_room (p ∷ ps) d s e h =
      let d' : Device = record d { send_chan = d.send_chan ++ p ∷ [] } in
      ap (send_all ps) (send_room p d s e (omega arith))
      ∙ send_all_room ps d' s e (omega (arith, length-append d.send_chan (p ∷ [])))
      ∙ ap (λ xs. record d { send_chan = xs }) (append_assoc d.send_chan (p ∷ []) ps)

  write_front :
      (p : Packet) (rest : List Packet) (now : ℕ) (d : Device)
      → d.state ≡ paired
      → d.conn ≡ some c
      → d.send_chan ≡ p ∷ rest
      → write_next written now d
        ≡ some (record d { send_chan = rest }, record { wire = some p; effects = [] })
  unfolding write_next write_packet
  write_front p rest now d s e q = ground arith

  drain_queue :
      (ps : List Packet) (now : ℕ) (d : Device)
      → d.state ≡ paired
      → d.conn ≡ some c
      → d.send_chan ≡ ps
      → drain (length ps) now d ≡ some (record d { send_chan = [] }, map some ps)
  unfolding drain
  drain_queue [] now d s e q = ground arith
  drain_queue (p ∷ ps) now d s e q = ground (
    arith,
    write_front p ps now d s e q,
    drain_queue ps now (record d { send_chan = ps }) s e refl,
  )

  -- At most 32 packets sent to a paired device on connection `c` with an empty buffer reach the
  -- socket, all of them and in the order of the calls, in as many rounds of a writer whose writes
  -- succeed; the device is then as before.
  pub drain-send_all :
      (ps : List Packet) (now : ℕ) (d : Device)
      → d.state ≡ paired
      → d.conn ≡ some c
      → d.send_chan ≡ []
      → length ps ≤ send_capacity
      → drain (length ps) now (send_all ps d) ≡ some (d, map some ps)
  drain-send_all ps now d s e q l =
      let d' : Device = record d { send_chan = d.send_chan ++ ps } in
      ap (drain (length ps) now) (send_all_room ps d s e (omega (arith, ap length q)))
      ∙ drain_queue ps now d' s e (ap (λ xs. xs ++ ps) q)
      ∙ ap (λ xs. some (record d { send_chan = xs }, map some ps)) (sym q)
