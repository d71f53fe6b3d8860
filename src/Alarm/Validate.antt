-- ===== src/Alarm/Validate.antt =====
-- What validation lets through.
use videoalarmclock.Media.Paths.{is_empty, path_is_safe, folder, file}
use videoalarmclock.Prelude.{
  ℕ, ◌%◌, ◌≤◌, ◌<◌, ◌≡◌, refl, ◌≢◌, inl, inr, true, some, List, arith, Bool-cases,
}
use videoalarmclock.Prelude.Bytes.{terminated, c_string}
use videoalarmclock.Platform.{esp_ok}
use videoalarmclock.Alarm.Model.{
  AlarmConfig, AlarmKind, MediaMode, Date, one_off, recurrent, other_kind, video_file, audio_file,
  random_set, other_mode, validate, bit_set, kind_is_valid, mode_is_valid, media_is_valid,
  date_is_plausible,
}

-- a day to ring on, or a date
pub data Scheduled (kind : AlarmKind) (mask : ℕ) (date : Date) : Type 0 where
  weekly : kind ≡ recurrent → (k : ℕ) → k < 7 → bit_set mask k ≡ true → Scheduled kind mask date
  dated :
      kind ≡ one_off
      → mask ≡ 0
      → (1970 ≤ date.year) × (date.year ≤ 2200)
      → (1 ≤ date.month) × (date.month ≤ 12)
      → (1 ≤ date.day) × (date.day ≤ 31)
      → Scheduled kind mask date

-- a safe folder, or a safe file, or none
pub data Playable (mode : MediaMode) (path set_id : List ℕ) : Type 0 where
  a_set :
      mode ≡ random_set → path_is_safe (c_string set_id) folder ≡ true → Playable mode path set_id
  built_in : mode ≢ random_set → is_empty (c_string path) ≡ true → Playable mode path set_id
  a_file : mode ≢ random_set → path_is_safe (c_string path) file ≡ true → Playable mode path set_id

-- The meaning of a record that may be stored.
pub record Evaluable (a : AlarmConfig) : Type 0 where
  pub hour_in : a.hour ≤ 23
  pub minute_in : a.minute ≤ 59
  pub ends : (terminated a.media_path ≡ true) × (terminated a.media_set_id ≡ true)
  pub schedule : Scheduled a.kind a.weekdays_mask a.one_off_date
  pub media : Playable a.media_mode a.media_path a.media_set_id

low_bit : (mask : ℕ) → mask % 128 ≢ 0 → (k : ℕ) × (k < 7) × (bit_set mask k ≡ true)
low_bit mask h = elim (Bool-cases (bit_set mask 0)) [
  | inl b ↦ (0, omega arith, b)
  | inr n0 ↦ elim (Bool-cases (bit_set mask 1)) [
    | inl b ↦ (1, omega arith, b)
    | inr n1 ↦ elim (Bool-cases (bit_set mask 2)) [
      | inl b ↦ (2, omega arith, b)
      | inr n2 ↦ elim (Bool-cases (bit_set mask 3)) [
        | inl b ↦ (3, omega arith, b)
        | inr n3 ↦ elim (Bool-cases (bit_set mask 4)) [
          | inl b ↦ (4, omega arith, b)
          | inr n4 ↦ elim (Bool-cases (bit_set mask 5)) [
            | inl b ↦ (5, omega arith, b)
            | inr n5 ↦ elim (Bool-cases (bit_set mask 6)) [
              | inl b ↦ (6, omega arith, b)
              | inr n6 ↦ absurd (ground arith)
            ]
          ]
        ]
      ]
    ]
  ]
]

kind_is_valid-Scheduled :
    (kind : AlarmKind) (mask : ℕ) (date : Date)
    → kind_is_valid kind mask date ≡ true
    → Scheduled kind mask date
unfolding kind_is_valid date_is_plausible
kind_is_valid-Scheduled recurrent mask date h =
    let (k, lt, b) = low_bit mask (ground arith) in weekly refl k lt b
kind_is_valid-Scheduled one_off mask date h =
    dated refl (ground arith) (ground arith, ground arith) (ground arith, ground arith)
      (ground arith, ground arith)
kind_is_valid-Scheduled other_kind mask date h = absurd (cc)

media_is_valid-Playable :
    (mode : MediaMode) (path set_id : List ℕ)
    → mode_is_valid mode ≡ true
    → media_is_valid mode path set_id ≡ true
    → Playable mode path set_id
unfolding media_is_valid mode_is_valid
media_is_valid-Playable random_set path set_id m h = a_set refl h
media_is_valid-Playable video_file path set_id m h = elim (Bool-cases (is_empty (c_string path))) [
  | inl blank ↦ built_in (ground arith) blank
  | inr named ↦ a_file (ground arith) (ground arith)
]
media_is_valid-Playable audio_file path set_id m h = elim (Bool-cases (is_empty (c_string path))) [
  | inl blank ↦ built_in (ground arith) blank
  | inr named ↦ a_file (ground arith) (ground arith)
]
media_is_valid-Playable other_mode path set_id m h = absurd (cc)

-- A record that validation lets through has a time of the day and strings that end within their
-- arrays; a recurrent alarm has one of the seven days set, and a one-off alarm no day and a date from
-- 1970 to 2200 with a month of the year and a day of at most 31; an alarm of a set names a safe
-- folder, and one of any other mode a safe file or none.
pub validate-Evaluable : (a : AlarmConfig) → validate (some a) ≡ esp_ok → Evaluable a
unfolding validate
validate-Evaluable a e = record {
  hour_in = ground arith;
  minute_in = ground arith;
  ends = (ground arith, ground arith);
  schedule = kind_is_valid-Scheduled a.kind a.weekdays_mask a.one_off_date (ground arith);
  media =
      media_is_valid-Playable a.media_mode a.media_path a.media_set_id (ground arith)
        (ground arith);
}
