-- ===== src/Mpris/Tests.antt =====
-- Runs of the media player plugin's functions.
use kcd.Base.{ℕ, ◌≡◌, refl, String, true, false, List, [], ◌∷◌, lookup}
use kcd.Base.Int.{pos}
use kcd.Mpris.{PlayerEntry, NowPlaying, to_add, to_drop, diff_tracked, position_drifted}

abbrev playing : ℕ → ℕ → NowPlaying
playing position anchor = record {
  playback_status = "Playing";
  title = "Song";
  artist = "";
  album = "";
  album_art_url = "";
  volume = pos 50;
  is_playing = true;
  position = position;
  pos_anchor_ms = anchor;
}

-- Ten seconds later the position is expected to be ten seconds further.
steady : position_drifted 15000 (playing 12000 0) (playing 1000 5000) ≡ false
unfolding position_drifted
steady = refl

abbrev vlc : PlayerEntry
vlc = record { bus_name = "org.vlc"; identity = "VLC"; short_name = "vlc" }

abbrev was_tracked : List (String × String)
was_tracked = ("org.mpv", "mpv") ∷ []

-- A player came and another went.
healed : diff_tracked (vlc ∷ []) was_tracked ≡ (vlc ∷ [], "org.mpv" ∷ [])
unfolding diff_tracked to_add to_drop lookup
healed = refl
