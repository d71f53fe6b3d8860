-- ===== src/Examples/Fixtures.antt =====
-- A calendar without time zones, which counts days from Thursday, 1 January 1970, and some alarms.
use videoalarmclock.Prelude.Int.{ℤ, pos, pos_part, ne_of_eqb_ℤ}
use videoalarmclock.Prelude.{ℕ, ◌+◌, ◌-◌, ◌*◌, ◌/◌, ◌%◌, refl, ◌≢◌, true, some, [], ◌∷◌}
use videoalarmclock.Alarm.Model.{AlarmConfig, one_off, recurrent, video_file}
use videoalarmclock.Alarm.Occurrence.{one_off_instant, minus_one}
use videoalarmclock.Alarm.Libc.{Calendar}

abbrev days : ℤ → ℕ
days z = pos_part z / 86400

abbrev pub utc : Calendar
utc = record {
  localtime = λ when. some (record {
    tm_year = pos 70;
    tm_mon = pos 0;
    tm_mday = days when + 1;
    tm_hour = pos_part when / 3600 % 24;
    tm_min = pos_part when / 60 % 60;
    tm_sec = pos_part when % 60;
    tm_wday = (days when + 4) % 7;
    tm_isdst = pos 0;
  });
  mktime = λ t. pos ((t.tm_mday - 1) * 86400 + t.tm_hour * 3600 + t.tm_min * 60 + t.tm_sec);
}

-- Friday, 2 January 1970, 00:01, as a one-off alarm of id 3
abbrev pub early_bird : AlarmConfig
early_bird = record {
  id = 3;
  enabled = true;
  kind = one_off;
  hour = 0;
  minute = 1;
  weekdays_mask = 0;
  one_off_date = record { year = 1970; month = 1; day = 2 };
  media_mode = video_file;
  media_path = 0 ∷ [];
  media_set_id = 0 ∷ [];
  snooze_minutes = 9;
}

-- every Friday at 00:02, of id 4
abbrev pub fridays : AlarmConfig
fridays = record early_bird { id = 4; kind = recurrent; minute = 2; weekdays_mask = 16 }

pub early_bird_valid : one_off_instant utc early_bird ≢ minus_one
unfolding one_off_instant
early_bird_valid = ne_of_eqb_ℤ (pos 86460) minus_one refl

pub early_bird_not_zero : one_off_instant utc early_bird ≢ pos 0
unfolding one_off_instant
early_bird_not_zero = ne_of_eqb_ℤ (pos 86460) (pos 0) refl
