-- ===== src/Alarm/Occurrence.antt =====
-- nn20clock_alarm.c: when an alarm goes off, through the calendar `c`. A `time_t` is an integer; its
-- overflow at 2 ^ 63 is not modelled.
pub mod Next
pub mod Ticks
use videoalarmclock.Prelude.Int.{ℤ, leb_ℤ, pos, sub_ℕ, eqb_ℤ, negsuc, ltb_ℤ, ◌+ℤ◌}
use videoalarmclock.Prelude.{
  ℕ, zero, suc, ◌+◌, ◌%◌, Bool, true, false, ◌&&◌, ◌||◌, not, Option, none, some, ltb,
  if◌then◌else◌,
}
use videoalarmclock.Platform.{Result, ok, err, invalid_arg}
use videoalarmclock.Alarm.Model.{AlarmKind, one_off, AlarmConfig, bit_set}
use videoalarmclock.Alarm.Libc.{Tm, Calendar}

-- `(time_t)-1`
abbrev pub minus_one : ℤ
minus_one = negsuc 0

-- `SEARCH_DAYS`
abbrev pub search_days : ℕ
search_days = 8

abbrev pub is_one_off : AlarmKind → Bool
is_one_off one_off = true
is_one_off _ = false

-- the assignments to `local` before `mktime`
abbrev pub moved : Tm → ℕ → ℕ → ℕ → Tm
moved local day_offset hour minute = record local {
  tm_mday = local.tm_mday + day_offset;
  tm_hour = hour;
  tm_min = minute;
  tm_sec = 0;
  tm_isdst = minus_one;
}

module _ (c : Calendar) where
  -- `local_instant`
  unfoldable pub local_instant : ℤ → ℕ → ℕ → ℕ → ℤ
  local_instant day_anchor day_offset hour minute = elim (c.localtime day_anchor) [
    | none ↦ pos 0
    | some local ↦ c.mktime (moved local day_offset hour minute)
  ]

  -- `weekday_of`, 0 for Monday; `none` is -1
  unfoldable pub weekday_of : ℤ → Option ℕ
  weekday_of when = elim (c.localtime when) [
    | none ↦ none
    | some local ↦ some ((local.tm_wday + 6) % 7)
  ]

  -- `one_off_instant`
  unfoldable pub one_off_instant : AlarmConfig → ℤ
  one_off_instant a = c.mktime (record {
    tm_year = sub_ℕ a.one_off_date.year 1900;
    tm_mon = sub_ℕ a.one_off_date.month 1;
    tm_mday = a.one_off_date.day;
    tm_hour = a.hour;
    tm_min = a.minute;
    tm_sec = 0;
    tm_wday = 0;
    tm_isdst = minus_one;
  })

-- `fires_on_weekday`
unfoldable pub fires_on_weekday : AlarmConfig → Option ℕ → Bool
fires_on_weekday a none = false
fires_on_weekday a (some weekday) = if ltb 6 weekday then false else bit_set a.weekdays_mask weekday

module _ (c : Calendar) where
  -- the tests of one round of the search
  abbrev pub suits : AlarmConfig → ℤ → ℤ → Bool
  suits a from candidate =
      not (eqb_ℤ candidate minus_one)
      && not (ltb_ℤ candidate from)
      && fires_on_weekday a (weekday_of c candidate)

  -- the `for` from `offset` on, `todo` rounds to go; 0 if it ends without a result
  unfoldable pub search_from : AlarmConfig → ℤ → ℕ → ℕ → ℤ
  search_from a from zero offset = pos 0
  search_from a from (suc todo) offset =
      let candidate = local_instant c from offset a.hour a.minute in
      let rest = search_from a from todo (offset + 1) in
      if suits a from candidate then candidate else rest

  -- `nn20clock_alarm_next_occurrence`; the result is what `*out_when` holds
  unfoldable pub next_occurrence : Option AlarmConfig → ℤ → Result ℤ
  next_occurrence none from = err invalid_arg
  next_occurrence (some a) from =
      let when = one_off_instant c a in
      if not a.enabled
      then ok (pos 0)
      else if is_one_off a.kind
      then ok (if not (eqb_ℤ when minus_one) && leb_ℤ from when then when else pos 0)
      else ok (search_from a from search_days 0)

  abbrev pub within : ℤ → Result ℤ → Option ℤ
  within until (err e) = none
  within until (ok when) = if eqb_ℤ when (pos 0) || ltb_ℤ until when then none else some when

  -- `nn20clock_alarm_occurs_in`; `none` is `false`
  unfoldable pub occurs_in : Option AlarmConfig → ℤ → ℤ → Option ℤ
  occurs_in none after until = none
  occurs_in (some a) after until =
      if leb_ℤ until after
      then none
      else if not a.enabled
      then none
      else within until (next_occurrence (some a) (after +ℤ pos 1))
