-- ===== src/Net/Delays.antt =====
-- backoff.go: the delays of errors in a row.
use kcd.Base.{ℕ, zero, suc, ◌*◌, ◌^◌, ◌≤◌, ◌<◌, ◌≡◌, ◌∙◌, refl, ap, false, min, arith}
use kcd.Device.Registry.Backoff.{pow_pos, mul-pow_suc}
use kcd.Net.{ErrorBackoff, reset, wait, errors, maximum_backoff}

-- A wait of `d`, which is not 0, doubles it, up to the maximum.
delay-wait :
    (b : ErrorBackoff)
    → 0 < b.delay
    → b.delay ≤ maximum_backoff
    → ((wait false b).0.delay ≡ min (b.delay * 2) maximum_backoff) × ((wait false b).1 ≡ b.delay)
unfolding wait
delay-wait b p l = (ground arith, ground arith)

capped_next :
    (n : ℕ)
    → min (min (5000000 * 2 ^ n) 1000000000 * 2) 1000000000 ≡ min (5000000 * 2 ^ suc n) 1000000000
capped_next n = rw (mul-pow_suc 5000000 n) (omega arith)

delay-errors :
    (n : ℕ) → (b : ErrorBackoff) → (errors n (reset b)).delay ≡ min (5000000 * 2 ^ n) 1000000000
unfolding errors reset
delay-errors zero b = refl
delay-errors (suc n) b =
    let e = errors n (reset b) in
    let h : e.delay ≡ min (5000000 * 2 ^ n) 1000000000 = delay-errors n b in
    (delay-wait e (omega (arith, h, pow_pos n)) (omega (arith, h))).0
    ∙ ap (λ d. min (d * 2) 1000000000) h
    ∙ capped_next n

-- After a success, the error that follows `n` others in a row is waited for 5 milliseconds doubled
-- `n` times, but never longer than a second.
pub wait-errors :
    (n : ℕ)
    → (b : ErrorBackoff) → (wait false (errors n (reset b))).1 ≡ min (5000000 * 2 ^ n) 1000000000
wait-errors n b =
    let e = errors n (reset b) in
    let h : e.delay ≡ min (5000000 * 2 ^ n) 1000000000 = delay-errors n b in
    (delay-wait e (omega (arith, h, pow_pos n)) (omega (arith, h))).1 ∙ h
