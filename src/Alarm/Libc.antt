-- ===== src/Alarm/Libc.antt =====
-- The C library's calendar, which the firmware links and does not implement: broken-down local time,
-- and the two conversions that depend on the timezone in force.
use videoalarmclock.Prelude.Int.{ℤ}
use videoalarmclock.Prelude.{ℕ, Option}

-- `struct tm`, with the fields that the code reads or writes
pub record Tm : Type 0 where
  pub tm_year : ℤ  -- years since 1900
  pub tm_mon : ℤ  -- months since January
  pub tm_mday : ℕ
  pub tm_hour : ℕ
  pub tm_min : ℕ
  pub tm_sec : ℕ
  pub tm_wday : ℕ  -- days since Sunday
  pub tm_isdst : ℤ

-- `localtime_r`, where `none` is NULL, and `mktime`, where -1 is the failure
pub record Calendar : Type 0 where
  pub localtime : ℤ → Option Tm
  pub mktime : Tm → ℤ
