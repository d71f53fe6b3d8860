-- ===== src/Alarm/Occurrence/Ticks.antt =====
-- The half-open interval of a tick: an occurrence lies in it, and over a run of ticks every instant
-- is examined once.
use videoalarmclock.Prelude.Int.{
  pos, ℤ, ltb_ℤ, ◌≤ℤ◌, ◌<ℤ◌, leb_ℤ, ◌+ℤ◌, eqb_ℤ_ne, eqb_ℤ, +ℤ_parts, ne_of_eqb_ℤ,
}
use videoalarmclock.Prelude.{
  ℕ, ◌+◌, ◌≡◌, sym, ◌∙◌, ◌≢◌, inl, inr, true, false, ◌&&◌, none, some, List, [], ◌∷◌, arith,
  if◌then◌else◌, Bool-cases, subst,
}
use videoalarmclock.Platform.{ok, Result-cases}
use videoalarmclock.Alarm.Model.{AlarmConfig, one_off}
use videoalarmclock.Alarm.Libc.{Calendar}
use videoalarmclock.Alarm.Occurrence.{
  minus_one, search_days, is_one_off, one_off_instant, suits, search_from, next_occurrence,
  occurs_in,
}
use videoalarmclock.Alarm.Occurrence.Next.{search_from-first, suits-true, next_occurrence-one_off}

module _ (c : Calendar) where
  search_from-ge :
      (a : AlarmConfig) (from : ℤ)
      → search_from c a from search_days 0 ≢ pos 0
      → from ≤ℤ search_from c a from search_days 0
  search_from-ge a from some_day = elim (search_from-first c a from search_days 0) [
    | inl (zero_left, missed) ↦ absurd (some_day zero_left)
    | inr (k, lo, hi, found, good, missed) ↦
        (suits-true c a from (search_from c a from search_days 0)
          (subst (λ w. suits c a from w ≡ true) (sym found) good)).0
  ]

  -- A result other than 0 is never before the instant asked for.
  next_occurrence-ge :
      (a : AlarmConfig) (from : ℤ) {when : ℤ}
      → next_occurrence c (some a) from ≡ ok when
      → when ≢ pos 0
      → (from ≤ℤ when) × (a.enabled ≡ true)
  unfolding next_occurrence
  next_occurrence-ge a from {when} e some_day = elim (Bool-cases (is_one_off a.kind)) [
    | inl once ↦ ground arith
    | inr weekly ↦
        let searched : (search_from c a from search_days 0 ≡ when) × (a.enabled ≡ true) =
          ground arith in
        (
          subst (λ w. from ≤ℤ w) searched.0
              (search_from-ge a from (λ z. some_day (sym searched.0 ∙ z))),
          searched.1,
        )
  ]

  -- What occurs in an interval lies behind its lower end and not behind its upper one, and belongs
  -- to an enabled alarm.
  pub occurs_in-within :
      (a : AlarmConfig) (after until : ℤ) {when : ℤ}
      → occurs_in c (some a) after until ≡ some when
      → (after <ℤ when) × (when ≤ℤ until) × (a.enabled ≡ true)
  unfolding occurs_in
  occurs_in-within a after until {when} e =
      elim (Result-cases (next_occurrence c (some a) (after +ℤ pos 1))) [
        | inr (x, failed) ↦ ground arith
        | inl (found, asked) ↦
            let same : (found ≡ when)
                × (eqb_ℤ found (pos 0) ≡ false)
                × (ltb_ℤ until found ≡ false)
                × (a.enabled ≡ true) =
              ground arith in
            let ge =
              (next_occurrence-ge a (after +ℤ pos 1) asked (ne_of_eqb_ℤ found (pos 0) same.1)).0 in
            rw (← same.0)
              (omega (arith, ge, +ℤ_parts after (pos 1)), ground (arith, same.2), same.3)
      ]

  -- If the occurrence of a long interval lies in its first part, that part has it too.
  pub occurs_in-narrow :
      (a : AlarmConfig) (after middle until : ℤ) {when : ℤ}
      → occurs_in c (some a) after until ≡ some when
      → when ≤ℤ middle
      → occurs_in c (some a) after middle ≡ some when
  unfolding occurs_in
  occurs_in-narrow a after middle until {when} e le =
      let w = occurs_in-within a after until e in
      elim (Result-cases (next_occurrence c (some a) (after +ℤ pos 1))) [
        | inr (x, failed) ↦ ground arith
        | inl (found, asked) ↦ let same : found ≡ when = ground arith in ground (arith, same)
      ]

  module _ (a : AlarmConfig) (on : a.enabled ≡ true) (once : a.kind ≡ one_off)
      (valid : one_off_instant c a ≢ minus_one) (not_zero : one_off_instant c a ≢ pos 0) where
    pub occurs_in-one_off :
        (after until : ℤ)
        → occurs_in c (some a) after until ≡ (
            if ltb_ℤ after (one_off_instant c a) && leb_ℤ (one_off_instant c a) until
            then some (one_off_instant c a)
            else none)
    unfolding occurs_in
    occurs_in-one_off after until = ground (
      arith,
      next_occurrence-one_off c a (after +ℤ pos 1) once valid,
      eqb_ℤ_ne (one_off_instant c a) (pos 0) not_zero,
      +ℤ_parts after (pos 1),
    )

    -- the number of ticks that see the alarm, over the readings of the clock in order
    pub ticks : ℤ → List ℤ → ℕ
    ticks last [] = 0
    ticks last (now ∷ rest) =
        (elim (occurs_in c (some a) last now) [ none ↦ 0 | some when ↦ 1 ]) + ticks now rest

    -- the readings never go back
    abbrev pub Ascending : ℤ → List ℤ → Type 0
    Ascending last [] = Unit
    Ascending last (now ∷ rest) = (last ≤ℤ now) × Ascending now rest

    abbrev pub last_reading : ℤ → List ℤ → ℤ
    last_reading last [] = last
    last_reading last (now ∷ rest) = last_reading now rest

    Ascending-le :
        (last : ℤ) (readings : List ℤ)
        → Ascending last readings
        → last ≤ℤ last_reading last readings
    Ascending-le last [] h = omega arith
    Ascending-le last (now ∷ rest) h = omega (arith, h.0, Ascending-le now rest h.1)

    -- Over any readings of the clock that do not go back, however late they come, an enabled one-
    -- off alarm whose instant the C library can convert and is not 0 is seen by exactly one tick
    -- if that instant lies behind the first reading and not behind the last, and by none
    -- otherwise: no gap, and no second time.
    pub ticks-one_off :
        (last : ℤ) (readings : List ℤ)
        → Ascending last readings
        → ticks last readings ≡ (
            if ltb_ℤ last (one_off_instant c a)
              && leb_ℤ (one_off_instant c a) (last_reading last readings)
            then 1
            else 0)
    unfolding ticks
    ticks-one_off last [] h = ground arith
    ticks-one_off last (now ∷ rest) h =
        ground
          (arith, occurs_in-one_off last now, ticks-one_off now rest h.1, Ascending-le now rest h.1)
