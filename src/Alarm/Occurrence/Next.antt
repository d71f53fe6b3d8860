-- ===== src/Alarm/Occurrence/Next.antt =====
-- `nn20clock_alarm_next_occurrence`: what it returns is an occurrence, it is the earliest one, and a
-- weekly alarm always has one.
use mathlib.Core.Bool.{false≢true}
use native.Mathlib.Decide.{dec_lt}
use videoalarmclock.Platform.{ok}
use videoalarmclock.Prelude.Int.{ℤ, pos, ◌≤ℤ◌, leb_ℤ, eqb_ℤ_ne, ne_of_eqb_ℤ, ◌<ℤ◌}
use videoalarmclock.Prelude.{
  ℕ, zero, suc, ◌+◌, ◌-◌, ◌%◌, ◌≤◌, ◌<◌, ◌≡◌, refl, sym, ap, ◌∙◌, ◌≢◌, ◌⊎◌, inl, inr, true, false,
  ◌&&◌, some, arith, if◌then◌else◌, Bool-cases, subst,
}
use videoalarmclock.Alarm.Model.{AlarmConfig, one_off, recurrent, bit_set}
use videoalarmclock.Alarm.Libc.{Calendar}
use videoalarmclock.Alarm.Occurrence.{
  minus_one, search_days, local_instant, weekday_of, one_off_instant, fires_on_weekday, suits,
  search_from, next_occurrence,
}

module _ (c : Calendar) where
  -- the time of day of alarm `a` on the `k`-th local day from that of `from`
  abbrev pub candidate : AlarmConfig → ℤ → ℕ → ℤ
  candidate a from k = local_instant c from k a.hour a.minute

  -- The search returns the first candidate that suits, or 0.
  pub search_from-first :
      (a : AlarmConfig) (from : ℤ) (todo offset : ℕ)
      → (search_from c a from todo offset ≡ pos 0)
          × ((k : ℕ) → offset ≤ k → k < offset + todo → suits c a from (candidate a from k) ≡ false)
        ⊎ ((k : ℕ) × (offset ≤ k)
            × (k < offset + todo)
            × (search_from c a from todo offset ≡ candidate a from k)
            × (suits c a from (candidate a from k) ≡ true)
            × ((j : ℕ) → offset ≤ j → j < k → suits c a from (candidate a from j) ≡ false))
  unfolding search_from
  search_from-first a from zero offset = inl (refl, λ k lo hi. absurd (omega arith))
  search_from-first a from (suc todo) offset =
      elim (Bool-cases (suits c a from (candidate a from offset))) [
        | inl here ↦
            inr (offset, omega arith, omega arith, rw here, here, λ j lo hi. absurd (omega arith))
        | inr not_here ↦ rw not_here elim (search_from-first a from todo (offset + 1)) [
          | inl (none_left, missed) ↦ inl (
            none_left,
            λ k lo hi. elim (dec_lt offset k) [
              | yes past ↦ missed k (omega arith) (omega arith)
              | no at ↦
                  let same : offset ≡ k = omega arith in
                  subst (λ k. suits c a from (candidate a from k) ≡ false) same not_here
            ],
          )
          | inr (k, lo, hi, found, good, missed) ↦ inr (
            k,
            omega arith,
            omega arith,
            found,
            good,
            λ j lo' hi'. elim (dec_lt offset j) [
              | yes past ↦ missed j (omega arith) hi'
              | no at ↦
                  let same : offset ≡ j = omega arith in
                  subst (λ k. suits c a from (candidate a from k) ≡ false) same not_here
            ],
          )
        ]
      ]

  pub suits-true :
      (a : AlarmConfig) (from when : ℤ)
      → suits c a from when ≡ true
      → (from ≤ℤ when) × (when ≢ minus_one) × (fires_on_weekday a (weekday_of c when) ≡ true)
  suits-true a from when h = (ground arith, ne_of_eqb_ℤ when minus_one (ground arith), ground arith)

  -- What is returned for an enabled weekly alarm is 0, or the time of day of the alarm on one of the
  -- next eight local days, not before `from` and on a selected weekday; no earlier of these days
  -- has such a time, and with 0 none of them has.
  pub next_occurrence-first :
      (a : AlarmConfig) (from : ℤ) {when : ℤ}
      → a.enabled ≡ true
      → a.kind ≡ recurrent
      → next_occurrence c (some a) from ≡ ok when
      → (when ≡ pos 0) × ((k : ℕ) → k < search_days → suits c a from (candidate a from k) ≡ false)
        ⊎ ((k : ℕ) × (k < search_days)
            × (when ≡ candidate a from k)
            × (from ≤ℤ when)
            × (when ≢ minus_one)
            × (fires_on_weekday a (weekday_of c when) ≡ true)
            × ((j : ℕ) → j < k → suits c a from (candidate a from j) ≡ false))
  unfolding next_occurrence
  next_occurrence-first a from {when} on weekly e = elim (search_from-first a from search_days 0) [
    | inl (zero_left, missed) ↦
        inl (sym result ∙ zero_left, λ k hi. missed k (omega arith) (omega arith))
    | inr (k, lo, hi, found, good, missed) ↦
        let (late, valid, fires) = shown k found good in
        inr (k, hi, sym result ∙ found, late, valid, fires, λ j hi'. missed j (omega arith) hi')
  ]
    where
      result : search_from c a from search_days 0 ≡ when
      result = ground arith

      shown :
          (k : ℕ)
          → search_from c a from search_days 0 ≡ candidate a from k
          → suits c a from (candidate a from k) ≡ true
          → (from ≤ℤ when) × (when ≢ minus_one) × (fires_on_weekday a (weekday_of c when) ≡ true)
      shown k found good =
          suits-true a from when (subst (λ w. suits c a from w ≡ true) (sym found ∙ result) good)

  -- A one-off alarm whose date and time the C library can convert has no occurrence but its own
  -- instant, and that only from then back; a disabled one has none.
  pub next_occurrence-one_off :
      (a : AlarmConfig) (from : ℤ)
      → a.kind ≡ one_off
      → one_off_instant c a ≢ minus_one
      → next_occurrence c (some a) from
        ≡ ok (if a.enabled && leb_ℤ from (one_off_instant c a) then one_off_instant c a else pos 0)
  unfolding next_occurrence
  next_occurrence-one_off a from e valid =
      ground (arith, eqb_ℤ_ne (one_off_instant c a) minus_one valid)

  -- What the C library documents of local days, for the time of day of one alarm seen from `from`:
  -- the conversions succeed, each of the next days is one weekday further, and the same time of
  -- day on a later local day is later than `from`.
  pub record LocalDays (a : AlarmConfig) (from : ℤ) : Type 0 where
    pub converts : (k : ℕ) → k < search_days → candidate a from k ≢ minus_one
    pub today : ℕ
    pub weekly :
        (k : ℕ) → k < search_days → weekday_of c (candidate a from k) ≡ some ((today + k) % 7)
    pub later : (k : ℕ) → 0 < k → k < search_days → from ≤ℤ candidate a from k

  next_occurrence-weekly :
      (a : AlarmConfig) (from : ℤ)
      → a.enabled ≡ true
      → a.kind ≡ recurrent
      → next_occurrence c (some a) from ≡ ok (search_from c a from search_days 0)
  unfolding next_occurrence
  next_occurrence-weekly a from on weekly = ground arith

  -- the offset, from tomorrow on, of the next local day that is a given weekday
  days_to : ℕ → ℕ → ℕ
  days_to today day = suc ((day + 7 - (today + 1) % 7) % 7)

  suits-days_to :
      (a : AlarmConfig) (from : ℤ) (day : ℕ) (days : LocalDays a from)
      → day < 7
      → bit_set a.weekdays_mask day ≡ true
      → (0 < days_to days.today day)
        × (days_to days.today day < search_days)
        × (suits c a from (candidate a from (days_to days.today day)) ≡ true)
  unfolding days_to fires_on_weekday
  suits-days_to a from day days small marked =
      let k = days_to days.today day in
      let hi : k < search_days = omega arith in
      let lands : (days.today + k) % 7 ≡ day = omega arith in
      let wday : weekday_of c (candidate a from k) ≡ some day = days.weekly k hi ∙ ap some lands in
      let valid = eqb_ℤ_ne (candidate a from k) minus_one (days.converts k hi) in
      let late = days.later k (omega arith) hi in (omega arith, hi, rw (valid, wday) ground arith)

  -- For an enabled weekly alarm with one of the seven weekdays selected, on days as the C library
  -- documents them and from any instant after the epoch, the search never ends without a result:
  -- that is the time of day of the alarm on one of the eight local days from that of `from` on,
  -- today included; it lies behind the epoch, is not before `from`, and is on a selected weekday.
  pub next_occurrence-exists :
      (a : AlarmConfig) (from : ℤ) (day : ℕ)
      → a.enabled ≡ true
      → a.kind ≡ recurrent
      → day < 7
      → bit_set a.weekdays_mask day ≡ true
      → pos 0 <ℤ from
      → LocalDays a from
      → (when : ℤ) × (next_occurrence c (some a) from ≡ ok when)
        × ((k : ℕ) × (k < 8) × (when ≡ candidate a from k))
        × (pos 0 <ℤ when)
        × (from ≤ℤ when)
        × (fires_on_weekday a (weekday_of c when) ≡ true)
  next_occurrence-exists a from day on weekly small marked after days =
      let (lo, hi, good) = suits-days_to a from day days small marked in
      elim (search_from-first a from search_days 0) [
        | inl (zero_left, missed) ↦
            absurd (false≢true (sym (missed (days_to days.today day) (omega arith) hi) ∙ good))
        | inr (k, lo', hi', found, suited, missed) ↦
            let (late, valid, fires) =
              suits-true a from (search_from c a from search_days 0)
                (subst (λ w. suits c a from w ≡ true) (sym found) suited) in
            (
              search_from c a from search_days 0,
              next_occurrence-weekly a from on weekly,
              (k, omega (arith, hi'), found),
              omega arith,
              late,
              fires,
            )
      ]
