-- ===== src/Examples/Ticking.antt =====
-- Ticks of the Timer over the calendar of `utc`.
use videoalarmclock.Prelude.Int.{pos, ℤ, ◌<ℤ◌, ◌≤ℤ◌}
use videoalarmclock.Prelude.{
  ℕ, ◌≡◌, refl, sym, ◌∙◌, ◌⊎◌, true, false, none, some, [], ◌∷◌, ◌++◌, arith, replicate,
}
use videoalarmclock.Platform.{esp_ok}
use videoalarmclock.Alarm.Occurrence.{one_off_instant}
use videoalarmclock.Alarm.Slots.{list_first_in}
use videoalarmclock.Timer.State.{Timer, Subscriber, emit, second, minute}
use videoalarmclock.Timer.Scan.{scan_alarms}
use videoalarmclock.Timer.Poll.{DateTime, poll, to_local}
use videoalarmclock.Timer.Control.{snooze}
use videoalarmclock.Timer.Firing.{Keeps, Rings, scan_alarms-Rings}
use videoalarmclock.Timer.Corrections.{sync, corrected, poll-corrected, poll-again}
use videoalarmclock.Timer.Snooze.{Ended, NoneBy, snooze-scan}
use videoalarmclock.Timer.Lost.{polls, polls-snooze_lost}
use videoalarmclock.Timer.Events.{rung}
use videoalarmclock.Timer.Once.{Armed, Once, rung-one_off}
use videoalarmclock.Examples.Fixtures.{utc, early_bird, early_bird_valid, early_bird_not_zero}

abbrev screen : Subscriber
screen = record { address = 7; has_callback = true }

-- a running Timer that has read the clock at 100
abbrev going : Timer
going = record {
  subscribers = screen ∷ [];
  last_valid = true;
  last_when = pos 86430;
  last_minute_stamp = pos 86400;
  force_emit = false;
  alarms = early_bird ∷ [];
  snooze_alarm = 0;
  snooze_at = pos 0;
  last_fired = replicate 17 (pos 0);
  running = true;
  synced = true;
  missed_alarms = 0;
}

abbrev half_past : DateTime
half_past = record {
  year = 1970;
  month = 1;
  day = 2;
  hour = 0;
  minute = 1;
  second = 30;
  weekday = 4;
}

scan_alarms-Rings_example :
    let (after, calls) = scan_alarms utc going (pos 86470) in
    Keeps going after × ((calls ≡ []) ⊎ Rings utc going after (pos 86470) calls)
scan_alarms-Rings_example = scan_alarms-Rings utc going (pos 86470)

poll-corrected_example :
    let (after, calls) = poll utc (corrected (sync (pos 86480)) going) (pos 86490) in
    (calls ≡ emit after second (pos 86490) ++ emit after minute (pos 86490))
    × (after.missed_alarms ≡ 0)
    × (after.last_fired ≡ replicate 17 (pos 0))
    × (after.last_valid ≡ true)
    × (after.last_when ≡ pos 86490)
unfolding to_local videoalarmclock.Prelude.Int.◌+ℤ◌
poll-corrected_example = poll-corrected utc (sync (pos 86480)) going (pos 86490) half_past refl refl

poll-again_example :
    poll utc (poll utc going (pos 86490)).0 (pos 86490) ≡ ((poll utc going (pos 86490)).0, [])
unfolding to_local videoalarmclock.Prelude.Int.◌+ℤ◌
poll-again_example = poll-again utc going (pos 86490) half_past refl refl

silent_not_found : {p : ℤ × ℕ} → none ≡ some p → ⊥
silent_not_found e = absurd (cc)

-- asked for at 00:02 for nine minutes, with two ticks before they are over
abbrev waiting : Timer
waiting =
    polls utc (snooze (record going { last_when = pos 86520 }) 3 9 (pos 86520) 0).0
      (pos 86700 ∷ pos 87059 ∷ [])

silent : list_first_in utc waiting.alarms waiting.last_when (pos 87061) ≡ none
unfolding list_first_in polls poll snooze to_local scan_alarms videoalarmclock.Timer.Scan.snooze_due
    videoalarmclock.Prelude.Int.◌+ℤ◌ videoalarmclock.Timer.Scan.ring_scheduled
    videoalarmclock.Alarm.Occurrence.occurs_in videoalarmclock.Alarm.Occurrence.next_occurrence
    one_off_instant
silent = refl

nothing_later : NoneBy utc waiting (pos 87061) (pos 87060)
nothing_later when id e = absurd (silent_not_found (sym silent ∙ e))

snooze-scan_example :
    let (snoozed, result) = snooze (record going { last_when = pos 86520 }) 3 9 (pos 86520) 0 in
    let reached = polls utc snoozed (pos 86700 ∷ pos 87059 ∷ []) in
    let (after, calls) = scan_alarms utc reached (pos 87061) in
    (result ≡ esp_ok)
    × (reached.snooze_alarm ≡ 3)
    × (reached.snooze_at ≡ pos 87060)
    × (after.snooze_alarm ≡ 0)
    × Ended reached.missed_alarms after calls 3 (pos 1) (pos 87060)
unfolding videoalarmclock.Prelude.Int.◌+ℤ◌ videoalarmclock.Prelude.Int.◌-ℤ◌
snooze-scan_example =
    snooze-scan utc (record going { last_when = pos 86520 }) 3 9 (pos 86520) (pos 87061)
      (pos 86700 ∷ pos 87059 ∷ []) (omega arith) (omega arith) refl (omega arith)
      (omega arith, (omega arith, tt)) (omega arith) nothing_later

-- a snooze until 00:01:05, and the alarm of 00:01
polls-snooze_lost_example :
    let after =
      polls utc
        (record going { snooze_alarm = 4; snooze_at = pos 86465 })
        (pos 86490 ∷ pos 86491 ∷ []) in
    (after.snooze_alarm ≡ 4) × (after.snooze_at ≡ pos 86465) × (after.snooze_at ≤ℤ after.last_when)
unfolding to_local videoalarmclock.Prelude.Int.◌+ℤ◌ videoalarmclock.Alarm.Slots.list_first_in
    videoalarmclock.Alarm.Occurrence.occurs_in videoalarmclock.Alarm.Occurrence.next_occurrence
    one_off_instant
polls-snooze_lost_example =
    polls-snooze_lost utc (record going { snooze_alarm = 4; snooze_at = pos 86465 }) (pos 86490)
      (pos 86460) 3 half_past (pos 86491 ∷ []) refl refl refl refl (omega arith) (omega arith)
      (omega arith, tt)

readable : (now : ℤ) → (local : DateTime) × (to_local utc now ≡ some local)
unfolding to_local
readable now = (_, refl)

going-Armed : Armed early_bird going (pos 86430)
going-Armed = record { running = refl; valid = refl; alarms = refl; unsnoozed = refl; read = refl }

rung-one_off_example :
    ((pos 86430 <ℤ one_off_instant utc early_bird)
      × (one_off_instant utc early_bird ≤ℤ pos 86500)
      × Once going 3
          (one_off_instant utc early_bird)
          (rung utc going (pos 86450 ∷ pos 86470 ∷ pos 86500 ∷ [])))
    ⊎ (((one_off_instant utc early_bird ≤ℤ pos 86430)
          ⊎ (pos 86500 <ℤ one_off_instant utc early_bird))
        × (rung utc going (pos 86450 ∷ pos 86470 ∷ pos 86500 ∷ []) ≡ []))
unfolding videoalarmclock.Prelude.Int.◌-ℤ◌
rung-one_off_example =
    rung-one_off utc early_bird refl refl early_bird_valid early_bird_not_zero (omega arith)
      readable going (pos 86430) (pos 86450 ∷ pos 86470 ∷ pos 86500 ∷ []) going-Armed
      (λ e. early_bird_not_zero (sym e)) (omega arith)
