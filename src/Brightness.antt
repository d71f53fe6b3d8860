-- ===== src/Brightness.antt =====
-- sources/components/nn20clock_brightness: the day and night brightness of the screen. Times are
-- minutes since local midnight; a schedule pointer that may be NULL is an `Option`.
pub mod Day
pub mod Percent
use videoalarmclock.Prelude.{
  ℕ, ◌+◌, ◌-◌, ◌%◌, ◌^◌, Option, none, some, Bool, true, ltb, ◌==◌, if◌then◌else◌,
}

-- `NN20CLOCK_BRIGHTNESS_DAY_MINUTES`
abbrev pub day_minutes : ℕ
day_minutes = 1440

-- `NN20ClockBrightnessSchedule`
pub record Schedule : Type 0 where
  pub day_percent : ℕ  -- uint8_t
  pub night_percent : ℕ  -- uint8_t
  pub day_start_minutes : ℕ  -- uint16_t
  pub night_start_minutes : ℕ  -- uint16_t
  pub playback_min_percent : ℕ  -- uint8_t

-- `wrap`: the cast to uint16_t is kept
unfoldable pub wrap : ℕ → ℕ
wrap minutes = minutes % day_minutes % 2 ^ 16

-- `forward_distance`: the sum is on uint32_t. `from` is below a day at both calls, so the truncated
-- `-` is the C one.
unfoldable pub forward_distance : ℕ → ℕ → ℕ
unfolding wrap
forward_distance from minutes = wrap ((minutes + day_minutes - from) % 2 ^ 32)

-- `nn20clock_brightness_is_day`
unfoldable pub is_day : Option Schedule → ℕ → Bool
unfolding forward_distance wrap
is_day none now_minutes = true
is_day (some s) now_minutes =
    let day_start = wrap s.day_start_minutes in
    let night_start = wrap s.night_start_minutes in
    if day_start == night_start
    then true
    else ltb (forward_distance day_start (wrap now_minutes))
        (forward_distance day_start night_start)

-- `(p > 100u) ? 100u : p`, which three functions and the normalisation share
abbrev pub cap_percent : ℕ → ℕ
cap_percent p = if ltb 100 p then 100 else p

-- `nn20clock_brightness_percent`
unfoldable pub percent : Option Schedule → ℕ → ℕ
percent none now_minutes = 100
percent (some s) now_minutes =
    cap_percent (if is_day (some s) now_minutes then s.day_percent else s.night_percent)

-- `nn20clock_brightness_playback_percent`
unfoldable pub playback_percent : Option Schedule → ℕ → ℕ
playback_percent none now_minutes = percent none now_minutes
playback_percent (some s) now_minutes =
    let scheduled = percent (some s) now_minutes in
    let floor = cap_percent s.playback_min_percent in
    if ltb scheduled floor then floor else scheduled

-- `nn20clock_brightness_normalise`; on NULL nothing happens, and there is nothing to return
unfoldable pub normalise : Schedule → Schedule
unfolding wrap
normalise s = record {
  day_percent = cap_percent s.day_percent;
  night_percent = cap_percent s.night_percent;
  playback_min_percent = cap_percent s.playback_min_percent;
  day_start_minutes = wrap s.day_start_minutes;
  night_start_minutes = wrap s.night_start_minutes;
}
