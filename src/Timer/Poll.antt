-- ===== src/Timer/Poll.antt =====
-- nn20clock_timer.c: the conversion to local time, and `poll_private`, which is the whole tick.
use videoalarmclock.Prelude.Int.{ℤ, ◌+ℤ◌, eqb_ℤ, pos, ◌-ℤ◌}
use videoalarmclock.Prelude.{
  ℕ, ◌+◌, ◌%◌, ◌^◌, Bool, true, false, ◌||◌, not, Option, none, some, List, [], ◌++◌, if◌then◌else◌,
}
use videoalarmclock.Alarm.Libc.{Tm, Calendar}
use videoalarmclock.Timer.State.{Timer, Delivery, second, minute, error, to_unsigned, emit}
use videoalarmclock.Timer.Scan.{scan_alarms}

-- `NN20ClockDateTime` of nn20clock_time.h
pub record DateTime : Type 0 where
  pub year : ℕ  -- uint16_t
  pub month : ℕ  -- uint8_t
  pub day : ℕ  -- uint8_t
  pub hour : ℕ  -- uint8_t
  pub minute : ℕ  -- uint8_t
  pub second : ℕ  -- uint8_t
  pub weekday : ℕ  -- uint8_t

abbrev pub to_date_time : Tm → DateTime
to_date_time local = record {
  year = to_unsigned 16 (local.tm_year +ℤ pos 1900);
  month = to_unsigned 8 (local.tm_mon +ℤ pos 1);
  day = local.tm_mday % 2 ^ 8;
  hour = local.tm_hour % 2 ^ 8;
  minute = local.tm_min % 2 ^ 8;
  second = local.tm_sec % 2 ^ 8;
  weekday = (local.tm_wday + 6) % 7 % 2 ^ 8;
}

-- `nn20clock_timer_to_local`; `none` is ESP_FAIL, with zeroes written
unfoldable pub to_local : Calendar → ℤ → Option DateTime
to_local c when = elim (c.localtime when) [ none ↦ none | some local ↦ some (to_date_time local) ]

-- `first || forced || now != last.when`, and the same for the minute
abbrev pub changed : Timer → ℤ → ℤ → Bool
changed t now before = not t.last_valid || t.force_emit || not (eqb_ℤ now before)

-- the assignments to `last` and `force_emit`
abbrev pub with_reading : Timer → ℤ → ℤ → Timer
with_reading t now minute_stamp = record t {
  last_valid = true;
  last_when = now;
  last_minute_stamp = minute_stamp;
  force_emit = false;
}

-- the tick once the reading is converted
unfoldable pub tick : Calendar → Timer → ℤ → DateTime → Timer × List Delivery
tick c t now local =
    let minute_stamp = now -ℤ pos local.second in
    let (scanned, alarm_calls) = scan_alarms c t now in
    let read = with_reading scanned now minute_stamp in
    (
      read,
      alarm_calls
          ++ ((if changed t now t.last_when then emit read second now else [])
              ++ (if changed t minute_stamp t.last_minute_stamp then emit read minute now else [])),
    )

-- `poll_private`, `now` being what `clock_fn` returns
unfoldable pub poll : Calendar → Timer → ℤ → Timer × List Delivery
unfolding tick
poll c t now =
    if not t.running
    then (t, [])
    else elim (to_local c now) [ none ↦ (t, emit t error now) | some local ↦ tick c t now local ]
