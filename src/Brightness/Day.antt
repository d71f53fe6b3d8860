-- ===== src/Brightness/Day.antt =====
-- When it is day: `nn20clock_brightness_is_day` against the plain reading of a schedule.
use videoalarmclock.Prelude.{
  ℕ, ◌<◌, ◌≡◌, some, Bool, true, arith, ltb, leb, ◌==◌, if◌then◌else◌, ◌&&◌, ◌||◌,
}
use videoalarmclock.Brightness.{Schedule, day_minutes, is_day, normalise}

-- The plain reading: between two times of day, or outside of them where the day runs over
-- midnight; always where the two are one.
unfoldable pub day_hours : ℕ → ℕ → ℕ → Bool
day_hours start night now =
    if start == night
    then true
    else if ltb start night
    then leb start now && ltb now night
    else leb start now || ltb now night

-- `is_day` holds exactly in the hours between the start of the day and that of the night, on
-- either side of midnight, and always where the two times are one, for all times of day.
pub is_day-day_hours :
    (s : Schedule) (now : ℕ)
    → s.day_start_minutes < day_minutes
    → s.night_start_minutes < day_minutes
    → now < day_minutes
    → is_day (some s) now ≡ day_hours s.day_start_minutes s.night_start_minutes now
unfolding is_day day_hours
is_day-day_hours s now hd hn h = ground arith

-- Normalising a schedule changes the answer at no minute.
pub is_day-normalise :
    (s : Schedule) (now : ℕ) → is_day (some (normalise s)) now ≡ is_day (some s) now
unfolding is_day normalise
is_day-normalise s now = ground arith
