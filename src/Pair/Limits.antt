-- ===== src/Pair/Limits.antt =====
-- How long a request waits, and how old it may be (`pendingTimeout` of lifecycle.go and
-- `validateRequestTimestamp` of handle.go).
use kcd.Base.{
  ℕ, ◌+◌, ◌*◌, ◌/◌, ◌≤◌, ◌<◌, ◌≡◌, ◌↔◌, ◌⊎◌, min, true, false, arith, ◌==◌, if◌then◌else◌,
}
use kcd.Base.Int.{ℤ, pos, negsuc, ◌-ℤ◌}
use kcd.Device.{PairingState, pair_requested, pair_requested_by_peer}
use kcd.Pair.{Plugin, dev, pending_timeout, send_pair_reject}
use kcd.Pair.Actions.{validate_request_timestamp}

-- A request waits for the configured time, but an outgoing one for at most 30 seconds and an
-- incoming one for at most 25. Where no time is configured both wait for 30 seconds. The wait is
-- never zero, and fits a duration of 63 bits.
pub pending_timeout_lem :
    (p : Plugin)
    → (pending_timeout pair_requested p ≡ (
        if p.timeout_secs == 0 then 30000000000 else min (p.timeout_secs * 1000000000) 30000000000))
      × (pending_timeout pair_requested_by_peer p ≡ (
          if p.timeout_secs == 0
          then 30000000000
          else min (p.timeout_secs * 1000000000) 25000000000))
      × ((s : PairingState)
          → (0 < pending_timeout s p) × (pending_timeout s p < 9223372036854775808))
unfolding pending_timeout
pending_timeout_lem p = (ground arith, ground arith, λ s. (ground arith, ground arith))

-- When a request's timestamp, in seconds, is in time at `now`, in nanoseconds. Peers before
-- version 8 send none, which reads as 0.
abbrev pub IsTimely : ℕ → ℕ → ℤ → Type 0
IsTimely now version (negsuc n) = version < 8
IsTimely now version (pos n) =
    ((n ≡ 0) × (version < 8))
    ⊎ ((0 < n) × (now / 1000000000 ≤ n + 1800) × (n ≤ now / 1000000000 + 1800))

-- A request passes exactly if its timestamp is at most half an hour away from the clock, or is
-- missing and the peer is older than version 8; otherwise a rejection is sent and nothing else
-- changes.
pub validate_request_timestamp_iff :
    (a : ℕ)
    → (t : ℤ) → (now : ℕ) → (p : Plugin)
    → let (p', valid) = validate_request_timestamp a t now p in
      ((valid ≡ true) ↔ IsTimely now (dev a p).peer_protocol_version t)
      × (valid ≡ false → p' ≡ send_pair_reject a now p)
unfolding validate_request_timestamp ◌-ℤ◌
validate_request_timestamp_iff a (pos n) now p = (ground arith, λ h. ground arith)
validate_request_timestamp_iff a (negsuc n) now p = (ground arith, λ h. ground arith)
