-- ===== src/Alarm/Model.antt =====
-- nn20clock_alarm.h and the first part of nn20clock_alarm.c: an alarm record and its validation.
use videoalarmclock.Prelude.{
  ℕ, ◌/◌, ◌%◌, ◌^◌, Bool, true, false, ◌&&◌, ◌||◌, not, Option, none, some, List, ltb, leb, ◌==◌,
  if◌then◌else◌, replicate,
}
use videoalarmclock.Prelude.Bytes.{terminated, c_string}
use videoalarmclock.Platform.{EspErr, esp_ok, invalid_arg}
use videoalarmclock.Media.Paths.{file, folder, path_is_safe, is_empty}

-- `NN20ClockAlarmKind`; `other_kind` stands for every value that is no enumerator
pub data AlarmKind : Type 0 where
  one_off recurrent other_kind : AlarmKind

-- `NN20ClockAlarmMediaMode`, with the same
pub data MediaMode : Type 0 where
  video_file audio_file random_set other_mode : MediaMode

-- `NN20ClockDate` of nn20clock_time.h
pub record Date : Type 0 where
  pub year : ℕ  -- uint16_t
  pub month : ℕ  -- uint8_t
  pub day : ℕ  -- uint8_t

-- `NN20ClockAlarmConfig`; the two strings are all the bytes of their fields, terminator included
pub record AlarmConfig : Type 0 where
  pub id : ℕ  -- uint32_t
  pub enabled : Bool
  pub kind : AlarmKind
  pub hour : ℕ  -- uint8_t
  pub minute : ℕ  -- uint8_t
  pub weekdays_mask : ℕ  -- uint8_t
  pub one_off_date : Date
  pub media_mode : MediaMode
  pub media_path : List ℕ
  pub media_set_id : List ℕ
  pub snooze_minutes : ℕ  -- uint16_t

-- `NN20CLOCK_ALARM_ID_NONE`
abbrev pub id_none : ℕ
id_none = 0

-- `NN20CLOCK_ALARM_EVERY_DAY`
abbrev pub every_day : ℕ
every_day = 0x7F

-- a record of zeroes, as `memset` leaves it; the enumerators of value 0 are the first ones
unfoldable pub zeroed : AlarmConfig
zeroed = record {
  id = 0;
  enabled = false;
  kind = one_off;
  hour = 0;
  minute = 0;
  weekdays_mask = 0;
  one_off_date = record { year = 0; month = 0; day = 0 };
  media_mode = video_file;
  media_path = replicate 256 0;
  media_set_id = replicate 64 0;
  snooze_minutes = 0;
}

-- `nn20clock_alarm_defaults`
unfoldable pub defaults : AlarmConfig
unfolding zeroed
defaults = record zeroed {
  id = id_none;
  enabled = true;
  kind = recurrent;
  hour = 7;
  minute = 0;
  weekdays_mask = 0x1F;
  media_mode = audio_file;
  snooze_minutes = 9;
}

-- bit `k` of a mask: `(mask & (1u << k)) != 0`
abbrev pub bit_set : ℕ → ℕ → Bool
bit_set mask k = mask / 2 ^ k % 2 == 1

-- `date_is_plausible`
unfoldable pub date_is_plausible : Date → Bool
date_is_plausible d =
    leb 1970 d.year
    && leb d.year 2200
    && leb 1 d.month
    && leb d.month 12
    && leb 1 d.day
    && leb d.day 31

-- the switch on the kind; `mask & EVERY_DAY` is the mask modulo 128
unfoldable pub kind_is_valid : AlarmKind → ℕ → Date → Bool
unfolding date_is_plausible
kind_is_valid recurrent mask date = not (mask % 128 == 0)
kind_is_valid one_off mask date = date_is_plausible date && mask == 0
kind_is_valid other_kind mask date = false

-- the switch on the media mode
unfoldable pub mode_is_valid : MediaMode → Bool
mode_is_valid video_file = true
mode_is_valid audio_file = true
mode_is_valid random_set = true
mode_is_valid other_mode = false

-- the path rules: which field counts follows the mode
unfoldable pub media_is_valid : MediaMode → List ℕ → List ℕ → Bool
media_is_valid random_set media_path media_set_id = path_is_safe (c_string media_set_id) folder
media_is_valid video_file media_path media_set_id =
    is_empty (c_string media_path) || path_is_safe (c_string media_path) file
media_is_valid audio_file media_path media_set_id =
    is_empty (c_string media_path) || path_is_safe (c_string media_path) file
media_is_valid other_mode media_path media_set_id =
    is_empty (c_string media_path) || path_is_safe (c_string media_path) file

-- `nn20clock_alarm_validate`; NULL is `none`
unfoldable pub validate : Option AlarmConfig → EspErr
unfolding kind_is_valid mode_is_valid media_is_valid
validate none = invalid_arg
validate (some a) =
    if ltb 23 a.hour || ltb 59 a.minute
    then invalid_arg
    else if not (kind_is_valid a.kind a.weekdays_mask a.one_off_date)
    then invalid_arg
    else if not (mode_is_valid a.media_mode)
    then invalid_arg
    else if not (terminated a.media_path) || not (terminated a.media_set_id)
    then invalid_arg
    else if not (media_is_valid a.media_mode a.media_path a.media_set_id)
    then invalid_arg
    else esp_ok
