-- ===== src/Timer/Corrections.antt =====
-- The ticks around a correction of the clock, a change of timezone and a restart, and a tick that is
-- run twice.
use videoalarmclock.Prelude.Int.{ℤ, ◌-ℤ◌, pos, eqb_ℤ_self}
use videoalarmclock.Prelude.{
  ◌≡◌, refl, ap, ◌∙◌, inl, inr, true, false, some, [], ◌++◌, arith, Option-cases,
}
use videoalarmclock.Platform.{esp_ok, EspErr}
use videoalarmclock.Alarm.Model.{id_none}
use videoalarmclock.Alarm.Libc.{Calendar}
use videoalarmclock.Alarm.Slots.{list_first_in}
use videoalarmclock.Alarm.Slots.Earliest.{list_first_in-within}
use videoalarmclock.Timer.State.{Timer, second, minute, emit}
use videoalarmclock.Timer.Scan.{snooze_due, ring_scheduled, scan_alarms}
use videoalarmclock.Timer.Poll.{DateTime, to_local, with_reading, tick, poll}
use videoalarmclock.Timer.Control.{adopt_authoritative_time, timezone_private, start, stop}
use videoalarmclock.Timer.Firing.{scan_alarms-branches, scan_alarms-Rings}

pub poll-tick :
    (c : Calendar) (t : Timer) (now : ℤ) {local : DateTime}
    → t.running ≡ true
    → to_local c now ≡ some local
    → poll c t now ≡ tick c t now local
unfolding poll
poll-tick c t now on e = simp (on, e)

-- what makes a reading the first one
pub data Correction : Type 0 where
  sync : ℤ → Correction
  timezone : Correction
  restart : Correction

-- the Timer after it
abbrev pub corrected : Correction → Timer → Timer
corrected (sync now) t = (adopt_authoritative_time t now).0
corrected timezone t = (timezone_private t true).0
corrected restart t = (start (stop t).0 esp_ok).0

poll-fresh :
    (c : Calendar) (t : Timer) (now : ℤ) {local : DateTime}
    → t.running ≡ true
    → t.last_valid ≡ false
    → to_local c now ≡ some local
    → let stamp = now -ℤ pos local.second in
      poll c t now ≡ (
        with_reading t now stamp,
        emit (with_reading t now stamp) second now ++ emit (with_reading t now stamp) minute now,
      )
unfolding tick scan_alarms
poll-fresh c t now on fresh e = poll-tick c t now on e ∙ simp fresh

abbrev halted : Timer → Timer
halted t = record t {
  running = false;
  last_valid = false;
  snooze_alarm = id_none;
  snooze_at = pos 0;
}

stop-running : (t : Timer) → t.running ≡ true → stop t ≡ (halted t, esp_ok)
unfolding stop
stop-running t on = simp on

-- After the clock was synced or set, after a change of timezone and after a stop and a start, the
-- first tick of a running Timer whose reading converts to local time delivers one SECOND and one
-- MINUTE event to each subscriber with a callback and no alarm, counts no alarm as missed, and
-- remembers nothing as fired, whatever the span that was jumped over; the next interval begins at
-- its reading.
pub poll-corrected :
    (c : Calendar) (x : Correction) (t : Timer) (now : ℤ) (local : DateTime)
    → t.running ≡ true
    → to_local c now ≡ some local
    → let (after, calls) = poll c (corrected x t) now in
      (calls ≡ emit after second now ++ emit after minute now)
      × (after.missed_alarms ≡ t.missed_alarms)
      × (after.last_fired ≡ t.last_fired)
      × (after.last_valid ≡ true)
      × (after.last_when ≡ now)
unfolding adopt_authoritative_time timezone_private start stop
poll-corrected c (sync before) t now local on e =
    let p = poll-fresh c (corrected (sync before) t) now on refl e in
    rw p (refl, refl, refl, refl, refl)
poll-corrected c timezone t now local on e =
    let p = poll-fresh c (corrected timezone t) now on refl e in rw p (refl, refl, refl, refl, refl)
poll-corrected c restart t now local on e =
    let stopped = ap (λ (p : Timer × EspErr). (start p.0 esp_ok).0) (stop-running t on) in
    let p = poll-fresh c (start (halted t) esp_ok).0 now refl refl e in
    rw stopped (rw p (refl, refl, refl, refl, refl))

-- the scan of an interval that is empty
scan_alarms-empty : (c : Calendar) (t : Timer) → scan_alarms c t t.last_when ≡ (t, [])
unfolding ring_scheduled snooze_due
scan_alarms-empty c t = elim (scan_alarms-branches c t t.last_when) [
  | inl (fresh, e) ↦ e
  | inr (inl (valid, due, e)) ↦ absurd (ground arith)
  | inr (inr (valid, plain, e)) ↦
      elim (Option-cases (list_first_in c t.alarms t.last_when t.last_when)) [
        | inl nothing ↦ e ∙ ap (ring_scheduled t t.last_when) nothing
        | inr ((when, id), found) ↦ absurd (
            let w = list_first_in-within c t.last_when t.last_when t.alarms when id found in
            omega (arith, w.0, w.1))
      ]
]

-- A second tick of a running Timer at the same reading, which converts to local time, changes
-- nothing and delivers nothing: no alarm rings twice and no SECOND or MINUTE event is repeated.
pub poll-again :
    (c : Calendar) (t : Timer) (now : ℤ) (local : DateTime)
    → t.running ≡ true
    → to_local c now ≡ some local
    → poll c (poll c t now).0 now ≡ ((poll c t now).0, [])
unfolding tick
poll-again c t now local on e =
    let kept = (scan_alarms-Rings c t now).0 in
    let after = with_reading (scan_alarms c t now).0 now (now -ℤ pos local.second) in
    rw (poll-tick c t now on e) (
      poll-tick c after now (kept.running ∙ on) e
      ∙ simp (scan_alarms-empty c after, eqb_ℤ_self now, eqb_ℤ_self (now -ℤ pos local.second)))
