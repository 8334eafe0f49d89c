-- ===== src/Device/Registry/Backoff.antt =====
-- registry.go, `ReconnectBackoff`.
use native.Mathlib.Nat.{pow-suc}
use kcd.Base.{
  ℕ, zero, suc, ◌*◌, ◌^◌, ◌≤◌, ◌<◌, ◌≡◌, false, min, arith, leb, ◌==◌, if◌then◌else◌, Bool-cases,
  inl, inr,
}
use kcd.Device.Registry.{backoff_loop, reconnect_backoff, reconnect_backoff_base}

pub pow_pos : (n : ℕ) → 0 < 2 ^ n
pow_pos zero = omega arith
pow_pos (suc n) = rw (pow-suc 2 n) (omega (arith, pow_pos n))

pub le-mul_pow : (a n : ℕ) → a ≤ a * 2 ^ n
le-mul_pow a n = grind (arith, pow_pos n)

pub mul-pow_suc : (a n : ℕ) → a * 2 ^ suc n ≡ a * 2 * 2 ^ n
mul-pow_suc a n = rw (pow-suc 2 n) (omega arith)

-- The doubling that never overflows is the doubling that is cut off at the end.
backoff_loop_lem :
    (n max_duration delay : ℕ)
    → 0 < delay
    → delay ≤ max_duration
    → backoff_loop n max_duration delay ≡ min (delay * 2 ^ n) max_duration
unfolding backoff_loop
backoff_loop_lem zero max_duration delay p l = omega arith
backoff_loop_lem (suc n) max_duration delay p l =
    rw (mul-pow_suc delay n)
      (ground (arith, le-mul_pow (delay * 2) n, backoff_loop_lem n max_duration (delay * 2)))

min_bound : (b m n : ℕ) → 0 < b → 0 < m → backoff_loop n m (min b m) ≡ min (b * 2 ^ n) m
min_bound b m n p q = elim (Bool-cases (leb b m)) [
  | inl le ↦ let e : min b m ≡ b = ground arith in rw e (backoff_loop_lem n m b p (ground arith))
  | inr gt ↦
      let e : min b m ≡ m = ground arith in
      rw e (
        rw (backoff_loop_lem n m m q (omega arith))
          (ground (arith, le-mul_pow m n, le-mul_pow b n)))
]

-- For a positive bound the delay of an attempt is the initial delay (two seconds where none is given)
-- doubled once for each attempt before, but never more than the bound.
pub reconnect_backoff_lem :
    (attempt max_duration initial : ℕ)
    → 0 < max_duration
    → reconnect_backoff attempt max_duration initial
      ≡ min ((if initial == 0 then 2000000000 else initial) * 2 ^ attempt) max_duration
unfolding reconnect_backoff
reconnect_backoff_lem attempt max_duration initial p =
    let set : (max_duration == 0) ≡ false = ground arith in
    rw set (
      min_bound (if initial == 0 then reconnect_backoff_base else initial) max_duration attempt
        (ground arith) p)
