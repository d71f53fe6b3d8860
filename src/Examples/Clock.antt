-- ===== src/Examples/Clock.antt =====
-- Occurrences of alarms in the calendar of `utc`.
use videoalarmclock.Prelude.Int.{pos, ℤ, ◌≤ℤ◌, ◌<ℤ◌}
use videoalarmclock.Prelude.{
  ℕ, ◌<◌, ◌≡◌, refl, ap, ◌≢◌, ◌⊎◌, true, false, none, some, [], ◌∷◌, arith,
}
use videoalarmclock.Platform.{ok}
use videoalarmclock.Alarm.Occurrence.{
  search_days, minus_one, suits, weekday_of, fires_on_weekday, one_off_instant, next_occurrence,
  local_instant,
}
use videoalarmclock.Alarm.Occurrence.Next.{
  candidate, LocalDays, next_occurrence-first, next_occurrence-exists,
}
use videoalarmclock.Alarm.Occurrence.Ticks.{ticks, ticks-one_off}
use videoalarmclock.Alarm.Slots.{list_first_in}
use videoalarmclock.Alarm.Slots.Earliest.{Silent, NotBefore, Occurs, list_first_in-earliest}
use videoalarmclock.Examples.Fixtures.{
  utc, early_bird, fridays, early_bird_valid, early_bird_not_zero,
}

next_occurrence-first_example :
    let when = pos 86520 in
    ((when ≡ pos 0)
      × ((k : ℕ)
          → k < search_days
          → suits utc fridays (pos 100) (candidate utc fridays (pos 100) k) ≡ false))
    ⊎ ((k : ℕ) × (k < search_days)
        × (when ≡ candidate utc fridays (pos 100) k)
        × (pos 100 ≤ℤ when)
        × (when ≢ minus_one)
        × (fires_on_weekday fridays (weekday_of utc when) ≡ true)
        × ((j : ℕ)
            → j < k
            → suits utc fridays (pos 100) (candidate utc fridays (pos 100) j) ≡ false))
unfolding next_occurrence videoalarmclock.Alarm.Occurrence.search_from
    videoalarmclock.Alarm.Occurrence.local_instant videoalarmclock.Alarm.Model.zeroed
    fires_on_weekday weekday_of
next_occurrence-first_example =
    next_occurrence-first utc fridays (pos 100) {when = pos 86520} refl refl refl

fridays-LocalDays : LocalDays utc fridays (pos 100)
unfolding local_instant weekday_of
fridays-LocalDays = record {
  converts = λ k h e. absurd (cc);
  today = 3;
  weekly = λ k h. ap some (omega arith);
  later = λ k lo hi. omega arith;
}

next_occurrence-exists_example :
    (when : ℤ) × (next_occurrence utc (some fridays) (pos 100) ≡ ok when)
    × ((k : ℕ) × (k < 8) × (when ≡ candidate utc fridays (pos 100) k))
    × (pos 0 <ℤ when)
    × (pos 100 ≤ℤ when)
    × (fires_on_weekday fridays (weekday_of utc when) ≡ true)
next_occurrence-exists_example =
    next_occurrence-exists utc fridays (pos 100) 4 refl refl (omega arith) refl (omega arith)
      fridays-LocalDays

ticks-one_off_example :
    ticks utc early_bird refl refl early_bird_valid early_bird_not_zero
      (pos 100)
      (pos 200 ∷ pos 90000 ∷ pos 90001 ∷ [])
    ≡ 1
unfolding one_off_instant
ticks-one_off_example =
    ticks-one_off utc early_bird refl refl early_bird_valid early_bird_not_zero (pos 100)
      (pos 200 ∷ pos 90000 ∷ pos 90001 ∷ []) (omega arith, (omega arith, (omega arith, tt)))

list_first_in-earliest_example :
    ((list_first_in utc (fridays ∷ early_bird ∷ []) (pos 100) (pos 90000) ≡ none)
      × Silent utc (pos 100) (pos 90000) (fridays ∷ early_bird ∷ []))
    ⊎ ((w : ℤ) × (i : ℕ) × (list_first_in utc (fridays ∷ early_bird ∷ []) (pos 100) (pos 90000)
          ≡ some (w, i))
        × NotBefore utc (pos 100) (pos 90000) w (fridays ∷ early_bird ∷ [])
        × Occurs utc (pos 100) (pos 90000) w i (fridays ∷ early_bird ∷ []))
list_first_in-earliest_example =
    list_first_in-earliest utc (pos 100) (pos 90000) (fridays ∷ early_bird ∷ [])
