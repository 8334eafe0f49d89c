-- ===== src/Device/Io/Gate.antt =====
-- io.go: which packets pass to and from a peer that is not paired.
use kcd.Base.{
  ℕ, ◌≡◌, ◌⊎◌, refl, Bool, true, not, ◌&&◌, some, List, [], ◌∷◌, arith, All, str_eq_iff, ◌≤◌,
  length, length-append, Bool-cases, inl, inr,
}
use kcd.Protocol.{Packet, type_pair, type_identity}
use kcd.Device.{PairingState, paired, Device, send_capacity, code_of}
use kcd.Device.Io.{
  send, WriteResult, Round, write_packet, write_next, Lap, Handled, handle_packet, read_loop,
  packet, too_large, malformed, broken, ReadResult,
}

code_of-paired : (s : PairingState) → code_of s ≡ 3 → s ≡ paired
code_of-paired s h = ground arith

-- A packet goes to a handler only from a paired peer, unless it is an identity or a pair packet; and
-- it goes back to the pool unless a handler that ran out of time may still hold it.
abbrev pub IsSafe : Handled → Type 0
IsSafe h =
    (h.dispatched ≡ true
      → (h.lap.state ≡ paired) ⊎ (h.pkt.typ ≡ type_identity) ⊎ (h.pkt.typ ≡ type_pair))
    × (h.released ≡ not (h.dispatched && not h.lap.finished))

handle_packet-IsSafe :
    (has_dispatch : Bool) (lap : Lap) (p : Packet) → IsSafe (handle_packet has_dispatch lap p)
unfolding handle_packet
handle_packet-IsSafe has_dispatch lap p =
    (ground (arith, str_eq_iff p.typ type_identity, str_eq_iff p.typ type_pair), ground arith)

read_lap-IsSafe :
    (has_dispatch : Bool) (lap : Lap) (r : ReadResult) (laps : List Lap)
    → lap.read ≡ r
    → All IsSafe (read_loop has_dispatch laps).0
    → All IsSafe (read_loop has_dispatch (lap ∷ laps)).0
unfolding read_loop
read_lap-IsSafe has_dispatch lap r laps e ih = elim (Bool-cases lap.cancelled) [
  | inl done ↦ rw (done, read_loop) tt
  | inr on ↦ rw (on, e, read_loop) (cases r)
]
  where
    cases :
        (q : ReadResult)
        → All IsSafe
            (elim q as (λ x. List Handled × Bool) [
              | packet p ↦ (
                handle_packet has_dispatch lap p ∷ (read_loop has_dispatch laps).0,
                (read_loop has_dispatch laps).1,
              )
              | too_large ↦ ((read_loop has_dispatch laps).0, (read_loop has_dispatch laps).1)
              | malformed ↦ ((read_loop has_dispatch laps).0, (read_loop has_dispatch laps).1)
              | broken ↦ ([], true)
            ]).0
    cases (packet p) = (handle_packet-IsSafe has_dispatch lap p, ih)
    cases too_large = ih
    cases malformed = ih
    cases broken = tt

-- Whatever the socket gives, the reader hands a packet to a handler only while the peer is paired
-- or if it is an identity or pair packet, and it recycles a packet exactly unless a handler that
-- ran out of time may still hold it.
pub read_loop-IsSafe :
    (has_dispatch : Bool) (laps : List Lap) → All IsSafe (read_loop has_dispatch laps).0
unfolding read_loop
read_loop-IsSafe has_dispatch [] = tt
read_loop-IsSafe has_dispatch (lap ∷ laps) =
    read_lap-IsSafe has_dispatch lap lap.read laps refl (read_loop-IsSafe has_dispatch laps)

write_packet-allowed :
    (p : Packet) (result : WriteResult) (now : ℕ) (d d' : Device) (r : Round) (q : Packet)
    → write_packet p result now d ≡ some (d', r)
    → r.wire ≡ some q
    → (d.state ≡ paired) ⊎ (q.typ ≡ type_pair)
unfolding write_packet
write_packet-allowed p result now d d' r q e w = ground (arith, str_eq_iff p.typ type_pair)

write_queue-allowed :
    (xs : List Packet) (result : WriteResult) (now : ℕ) (d d' : Device) (r : Round) (q : Packet)
    → d.send_chan ≡ xs
    → write_next result now d ≡ some (d', r)
    → r.wire ≡ some q
    → (d.state ≡ paired) ⊎ (q.typ ≡ type_pair)
unfolding write_next
write_queue-allowed [] result now d d' r q c e w = ground arith
write_queue-allowed (p ∷ rest) result now d d' r q c e w =
    write_packet-allowed p result now (record d { send_chan = rest }) d' r q (ground arith) w

-- Whatever was queued and whenever, the writer gives the socket a packet only if the peer is paired
-- then, or if it is a pair packet.
pub write_next-allowed :
    (result : WriteResult) (now : ℕ) (d d' : Device) (r : Round) (q : Packet)
    → write_next result now d ≡ some (d', r)
    → r.wire ≡ some q
    → (d.state ≡ paired) ⊎ (q.typ ≡ type_pair)
unfolding write_next
write_next-allowed result now d d' r q e w =
    write_queue-allowed d.send_chan result now d d' r q refl e w

-- The channel never holds more than 32 packets.
pub length-send :
    (pick_done : Bool) (p : Packet) (d : Device)
    → length d.send_chan ≤ send_capacity
    → length (send pick_done p d).send_chan ≤ send_capacity
unfolding send
length-send pick_done p d h = ground (arith, length-append d.send_chan (p ∷ []))
