-- ===== src/Mpris.antt =====
-- The media player plugin, internal/plugins/mpris/reconcile.go: which players are tracked anew or
-- dropped, and when a state that was read is sent. D-Bus is not modelled.
pub mod Healed
mod Tests
use kcd.Base.{
  ℕ, ◌+◌, ◌-◌, String, Bool, true, false, not, ◌&&◌, ◌||◌, Option, none, some, List, [], ◌∷◌, ltb,
  ◌==◌, if◌then◌else◌, any, str_eq, lookup, is_some,
}
use kcd.Base.Int.{ℤ, pos, negsuc}

pub record PlayerEntry : Type 0 where
  pub bus_name : String
  pub identity : String
  pub short_name : String

-- The first loop of `diffTracked`.
unfoldable pub to_add : List PlayerEntry → List (String × String) → List PlayerEntry
to_add [] tracked = []
to_add (e ∷ es) tracked =
    let rest = to_add es tracked in if is_some (lookup e.bus_name tracked) then rest else e ∷ rest

-- The second, over a map in which each bus name stands once.
unfoldable pub to_drop : List PlayerEntry → List (String × String) → List String
to_drop es [] = []
to_drop es ((bus_name, display) ∷ tracked) =
    let rest = to_drop es tracked in
    if any (λ (e : PlayerEntry). str_eq e.bus_name bus_name) es then rest else bus_name ∷ rest

unfoldable pub diff_tracked :
    List PlayerEntry → List (String × String) → List PlayerEntry × List String
unfolding to_add to_drop
diff_tracked entries tracked = (to_add entries tracked, to_drop entries tracked)

abbrev pub position_drift_tolerance_ms : ℕ
position_drift_tolerance_ms = 3000

-- Times and positions are milliseconds that are not negative; the anchor is 0 where there is none.
pub record NowPlaying : Type 0 where
  pub playback_status : String
  pub title : String
  pub artist : String
  pub album : String
  pub album_art_url : String
  pub volume : ℤ
  pub is_playing : Bool
  pub position : ℕ
  pub pos_anchor_ms : ℕ

-- The distance of two numbers.
abbrev pub distance : ℕ → ℕ → ℕ
distance a b = (a - b) + (b - a)

-- The clock does not stand before the anchor.
unfoldable pub position_drifted : ℕ → NowPlaying → NowPlaying → Bool
position_drifted now_ms state last =
    if state.is_playing && (last.is_playing && ltb 0 last.pos_anchor_ms)
    then ltb position_drift_tolerance_ms
        (distance state.position (last.position + (now_ms - last.pos_anchor_ms)))
    else not (state.position == last.position)

abbrev pub eq_volume : ℤ → ℤ → Bool
eq_volume (pos m) (pos n) = m == n
eq_volume (negsuc m) (negsuc n) = m == n
eq_volume (pos m) (negsuc n) = false
eq_volume (negsuc m) (pos n) = false

abbrev pub same_bool : Bool → Bool → Bool
same_bool true b = b
same_bool false b = not b

unfoldable pub local_state_changed : ℕ → NowPlaying → Option NowPlaying → Bool
unfolding position_drifted
local_state_changed now_ms state none = true
local_state_changed now_ms state (some last) =
    not (str_eq state.playback_status last.playback_status)
    || (not (str_eq state.title last.title)
        || (not (str_eq state.artist last.artist)
            || (not (str_eq state.album last.album)
                || (not (str_eq state.album_art_url last.album_art_url)
                    || (not (eq_volume state.volume last.volume)
                        || (not (same_bool state.is_playing last.is_playing)
                            || position_drifted now_ms state last))))))
