-- ===== src/Brightness/Percent.antt =====
-- How bright: the percentages are in range, the playback minimum is a floor and nothing more.
use videoalarmclock.Prelude.{ℕ, ◌≤◌, ◌<◌, ◌≡◌, ◌⊎◌, Option, none, some, arith}
use videoalarmclock.Brightness.{
  Schedule, day_minutes, cap_percent, percent, playback_percent, normalise,
}
use videoalarmclock.Brightness.Day.{is_day-normalise}

-- With or without a schedule, and for any stored values, both percentages are at most 100, and
-- playback is never dimmer than the schedule says.
pub percent_bounds :
    (s : Option Schedule) (now : ℕ)
    → (percent s now ≤ 100)
      × (playback_percent s now ≤ 100)
      × (percent s now ≤ playback_percent s now)
unfolding percent playback_percent
percent_bounds none now = omega arith
percent_bounds (some s) now = ground arith

-- The playback minimum is a floor: a film is shown at the greater of the scheduled percentage and
-- the capped minimum.
pub playback_percent-floor :
    (s : Schedule) (now : ℕ)
    → (cap_percent s.playback_min_percent ≤ playback_percent (some s) now)
      × ((playback_percent (some s) now ≡ percent (some s) now)
          ⊎ (playback_percent (some s) now ≡ cap_percent s.playback_min_percent))
unfolding playback_percent
playback_percent-floor s now = ground arith

-- A stored schedule, whatever its values, is put in range by normalising, shows the same
-- brightness at every minute, and is not changed by normalising again.
pub normalise_lem :
    (s : Schedule) (now : ℕ)
    → ((normalise s).day_start_minutes < day_minutes)
      × ((normalise s).night_start_minutes < day_minutes)
      × (percent (some (normalise s)) now ≡ percent (some s) now)
      × (playback_percent (some (normalise s)) now ≡ playback_percent (some s) now)
      × (normalise (normalise s) ≡ normalise s)
unfolding normalise percent playback_percent
normalise_lem s now = (
  ground arith,
  ground arith,
  ground (arith, is_day-normalise s now),
  ground (arith, is_day-normalise s now),
  ground arith,
)
