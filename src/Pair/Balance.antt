-- ===== src/Pair/Balance.antt =====
-- How often the callbacks of a pairing have run, and how a change of state adds to it.
use kcd.Base.{
  ℕ, ◌+◌, ◌≡◌, ◌∙◌, Bool, true, false, not, ◌&&◌, List, [], ◌∷◌, ◌++◌, arith, ◌==◌, if◌then◌else◌,
}
use kcd.Device.{PairingState, paired, is_state}
use kcd.Pair.{
  Plugin, Effect, on_paired, on_unpaired, state_saved, state_of, record_effect,
  notify_state_changed,
}
use kcd.Pair.States.{state-notify}
use kcd.Pair.Primitives.{is_callback}

abbrev pub count : (Effect → Bool) → List Effect → ℕ
count f [] = 0
count f (e ∷ es) = (if f e then 1 else 0) + count f es

pub count-append :
    (f : Effect → Bool) → (xs ys : List Effect) → count f (xs ++ ys) ≡ count f xs + count f ys
count-append f [] ys = omega arith
count-append f (x ∷ xs) ys = ground (arith, count-append f xs ys)

abbrev pub is_up : ℕ → Effect → Bool
is_up a (on_paired b) = b == a
is_up a e = false

abbrev pub is_down : ℕ → Effect → Bool
is_down a (on_unpaired b) = b == a
is_down a e = false

-- Both callbacks are set, and `onPaired` ran for the device at `a` once more than `onUnpaired`
-- while it is paired, and as often otherwise.
pub record IsBalanced (a : ℕ) (p : Plugin) : Type 0 where
  pub has_up : p.has_on_paired ≡ true
  pub has_down : p.has_on_unpaired ≡ true
  pub owed :
      count (is_up a) p.trace
      ≡ count (is_down a) p.trace + (if is_state (state_of a p) paired then 1 else 0)

pub not_up : (a : ℕ) → (e : Effect) → is_callback e ≡ false → is_up a e ≡ false
not_up a e h = ground arith

pub not_down : (a : ℕ) → (e : Effect) → is_callback e ≡ false → is_down a e ≡ false
not_down a e h = ground arith

pub count-record_effect :
    (f : Effect → Bool)
    → (c : Bool) → (e : Effect) → (p : Plugin)
    → count f (record_effect c e p).trace ≡ count f p.trace + (if c && f e then 1 else 0)
unfolding record_effect
count-record_effect f true e p = ground (arith, count-append f p.trace (e ∷ []))
count-record_effect f false e p = omega arith

flags-record_effect :
    (c : Bool)
    → (e : Effect) → (p : Plugin)
    → ((record_effect c e p).has_on_paired ≡ p.has_on_paired)
      × ((record_effect c e p).has_on_unpaired ≡ p.has_on_unpaired)
unfolding record_effect
flags-record_effect c e p = ground arith

-- How often each callback runs in a change of state.
module _ (a b : ℕ) (s t : PairingState) (p : Plugin) where
  abbrev saved : Plugin
  saved = record_effect p.has_on_state_changed state_saved p

  abbrev left : Bool
  left = is_state s paired && (not (is_state t paired) && p.has_on_unpaired)

  abbrev entered : Bool
  entered = not (is_state s paired) && (is_state t paired && p.has_on_paired)

  flags-notify :
      ((notify_state_changed b s t p).has_on_paired ≡ p.has_on_paired)
      × ((notify_state_changed b s t p).has_on_unpaired ≡ p.has_on_unpaired)
  unfolding notify_state_changed
  flags-notify = ground (
    arith,
    flags-record_effect p.has_on_state_changed state_saved p,
    flags-record_effect left (on_unpaired b) saved,
    flags-record_effect entered (on_paired b) (record_effect left (on_unpaired b) saved),
  )

  count-notify :
      (f : Effect → Bool)
      → count f (notify_state_changed b s t p).trace
        ≡ count f p.trace
          + (if p.has_on_state_changed && f state_saved then 1 else 0)
          + (if left && f (on_unpaired b) then 1 else 0)
          + (if entered && f (on_paired b) then 1 else 0)
  unfolding notify_state_changed
  count-notify f = ground (
    arith,
    count-record_effect f p.has_on_state_changed state_saved p,
    count-record_effect f left (on_unpaired b) saved,
    count-record_effect f entered (on_paired b) (record_effect left (on_unpaired b) saved),
  )

  -- The device at `b` has just moved from `s` to `t`.
  pub notify-IsBalanced :
      p.has_on_paired ≡ true
      → p.has_on_unpaired ≡ true
      → count (is_up a) p.trace
        ≡ count (is_down a) p.trace
          + (if is_state (if b == a then s else state_of a p) paired then 1 else 0)
      → (b ≡ a → state_of a p ≡ t)
      → IsBalanced a (notify_state_changed b s t p)
  notify-IsBalanced u d o e = record {
    has_up = flags-notify.0 ∙ u;
    has_down = flags-notify.1 ∙ d;
    owed = ground (
      arith,
      count-notify (is_up a),
      count-notify (is_down a),
      u,
      d,
      o,
      e,
      state-notify a b p s t,
    );
  }
