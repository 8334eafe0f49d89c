-- ===== src/Protocol/Framing.antt =====
-- Reading packets off a connection, internal/protocol/packet.go: readLineBounded, discardLine and
-- ReadPacketBounded.
--
-- What each call of bufio's ReadSlice gives is an input: the bytes, and whether it ended at a newline,
-- at a full buffer, at the end of the stream or at another error. encoding/json is a parameter.
pub mod Lines
use kcd.Base.{
  ℕ, zero, suc, ◌+◌, ◌-◌, ◌*◌, Bool, true, false, ◌||◌, Option, none, some, List, [], ◌∷◌, ◌++◌,
  ltb, leb, ◌==◌, if◌then◌else◌, length,
}

abbrev pub max_packet_size : ℕ
max_packet_size = 32 * 1024 * 1024

abbrev pub max_identity_packet_size : ℕ
max_identity_packet_size = 512 * 1024

pub data Slice : Type 0 where
  ended full eof failed : List ℕ → Slice

abbrev pub bytes_of : Slice → List ℕ
bytes_of (ended c) = c
bytes_of (full c) = c
bytes_of (eof c) = c
bytes_of (failed c) = c

abbrev pub is_ended : Slice → Bool
is_ended (ended c) = true
is_ended (full c) = false
is_ended (eof c) = false
is_ended (failed c) = false

abbrev pub is_full : Slice → Bool
is_full (full c) = true
is_full (ended c) = false
is_full (eof c) = false
is_full (failed c) = false

-- `len(chunk) > 0 && chunk[len(chunk)-1] == '\n'`.
unfoldable pub ends_line : List ℕ → Bool
ends_line [] = false
ends_line (b ∷ []) = b == b'\n'
ends_line (b ∷ c ∷ bs) = ends_line (c ∷ bs)

-- The result of reading a line. `blocked` stands for a call that has not returned.
pub data LineRead : Type 0 where
  line : List ℕ → LineRead
  bad_limit too_large end_of_stream truncated read_error blocked : LineRead

unfoldable pub discard_rest : List Slice → List Slice
unfolding ends_line
discard_rest [] = []
discard_rest (s ∷ ss) =
    let rest = discard_rest ss in
    if is_ended s || ends_line (bytes_of s) then ss else (if is_full s then rest else ss)

unfoldable pub discard_line : Slice → List Slice → List Slice
unfolding discard_rest
discard_line s ss = if is_ended s || ends_line (bytes_of s) then ss else discard_rest ss

-- The loop, with the bytes so far, which are never more than `max`.
unfoldable pub read_slices : ℕ → List Slice → List ℕ → LineRead × List Slice
unfolding discard_line
read_slices max [] sofar = (blocked, [])
read_slices max (s ∷ ss) sofar =
    let more = sofar ++ bytes_of s in
    let continued = read_slices max ss more in
    let kept : LineRead × List Slice = elim s [
      | ended c ↦ (line more, ss)
      | full c ↦ continued
      | eof c ↦ elim more [ [] ↦ (end_of_stream, ss) | b ∷ bs ↦ (truncated, ss) ]
      | failed c ↦ (read_error, ss)
    ] in
    if ltb (max - length sofar) (length (bytes_of s)) then (too_large, discard_line s ss) else kept

unfoldable pub read_line_bounded : ℕ → List Slice → LineRead × List Slice
unfolding read_slices
read_line_bounded max ss = if max == 0 then (bad_limit, ss) else read_slices max ss []

-- A packet, or why there is none.
pub data Read (P : Type 0) : Type 0 where
  packet : P → Read P
  unmarshal_error empty_packet : Read P
  no_line : LineRead → Read P

-- What becomes of a line; `decode` is `json.Unmarshal` into a packet.
unfoldable pub packet_of : {P : Type 0} → (List ℕ → Option P) → LineRead → Read P
packet_of decode (line []) = empty_packet
packet_of decode (line (b ∷ bs)) = elim (decode (b ∷ bs)) [
  | none ↦ unmarshal_error
  | some p ↦ packet p
]
packet_of decode bad_limit = no_line bad_limit
packet_of decode too_large = no_line too_large
packet_of decode end_of_stream = no_line end_of_stream
packet_of decode truncated = no_line truncated
packet_of decode read_error = no_line read_error
packet_of decode blocked = no_line blocked

unfoldable pub read_packet_bounded :
    {P : Type 0} → (List ℕ → Option P) → ℕ → List Slice → Read P × List Slice
unfolding read_line_bounded packet_of
read_packet_bounded decode max ss =
    let (l, rest) = read_line_bounded max ss in (packet_of decode l, rest)

unfoldable pub read_packet : {P : Type 0} → (List ℕ → Option P) → List Slice → Read P × List Slice
unfolding read_packet_bounded
read_packet decode ss = read_packet_bounded decode max_packet_size ss

-- So many packets in a row, as a caller reads them that goes on after a bad one.
unfoldable pub read_packets :
    {P : Type 0} → (List ℕ → Option P) → ℕ → ℕ → List Slice → List (Read P) × List Slice
unfolding read_packet_bounded
read_packets decode max zero ss = ([], ss)
read_packets decode max (suc n) ss =
    let (r, rest) = read_packet_bounded decode max ss in
    let (rs, left) = read_packets decode max n rest in (r ∷ rs, left)
