-- ===== src/Timer/Once.antt =====
-- A one-off alarm from the schedule to the subscribers, over a run of ticks.
use videoalarmclock.Prelude.Int.{ℤ, ◌-ℤ◌, pos, ◌≤ℤ◌, eqb_ℤ, eqb_ℤ_ne, ltb_ℤ, ◌<ℤ◌, -ℤ_parts, leb_ℤ}
use videoalarmclock.Prelude.{
  ℕ, ◌≤◌, ◌≡◌, refl, sym, ap, ◌∙◌, ◌≢◌, ◌⊎◌, inl, inr, true, false, none, some, List, [], ◌∷◌,
  arith, ltb, Bool-cases, get_or, subst, set,
}
use videoalarmclock.Alarm.Model.{AlarmConfig, id_none, one_off}
use videoalarmclock.Alarm.Libc.{Calendar}
use videoalarmclock.Alarm.Occurrence.{minus_one, one_off_instant, occurs_in}
use videoalarmclock.Alarm.Occurrence.Ticks.{occurs_in-one_off}
use videoalarmclock.Alarm.Slots.{alarm_max, keep_earliest}
use videoalarmclock.Timer.State.{Timer, Delivery, emit_alarm, to_unsigned}
use videoalarmclock.Timer.Scan.{grace_seconds, snooze_due, ring_scheduled, scan_alarms}
use videoalarmclock.Timer.Poll.{DateTime, to_local, poll}
use videoalarmclock.Timer.Events.{
  alarm_events, rung, alarm_events-emit_alarm, append_nil, alarm_events-poll, list_first_in-one,
}

-- readings of the clock that do not go back and are at most a minute apart
abbrev pub Steady : ℤ → List ℤ → Type 0
Steady last [] = Unit
Steady last (now ∷ rest) = (last ≤ℤ now) × ((now -ℤ last) ≤ℤ pos grace_seconds) × Steady now rest

abbrev pub last_reading : ℤ → List ℤ → ℤ
last_reading last [] = last
last_reading last (now ∷ rest) = last_reading now rest

Steady-le :
    (last : ℤ) (readings : List ℤ) → Steady last readings → last ≤ℤ last_reading last readings
Steady-le last [] h = omega arith
Steady-le last (now ∷ rest) h = omega (arith, h.0, Steady-le now rest h.2)

-- a running Timer with that one alarm, no snooze, and a previous reading
pub record Armed (a : AlarmConfig) (t : Timer) (last : ℤ) : Type 0 where
  pub running : t.running ≡ true
  pub valid : t.last_valid ≡ true
  pub alarms : t.alarms ≡ a ∷ []
  pub unsnoozed : t.snooze_alarm ≡ id_none
  pub read : t.last_when ≡ last

-- one alarm call to the subscribers of `t`, at most the grace late
pub record Once (t : Timer) (id : ℕ) (when : ℤ) (calls : List Delivery) : Type 0 where
  pub state : Timer
  pub late : ℤ
  pub subscribers : state.subscribers ≡ t.subscribers
  pub early : pos 0 ≤ℤ late
  pub in_grace : late ≤ℤ pos grace_seconds
  pub called : calls ≡ emit_alarm state id when (to_unsigned 32 late)

module _ (c : Calendar) (a : AlarmConfig) (on : a.enabled ≡ true) (once : a.kind ≡ one_off)
    (valid : one_off_instant c a ≢ minus_one) (not_zero : one_off_instant c a ≢ pos 0)
    (small : a.id ≤ alarm_max)
    (readable : (now : ℤ) → (local : DateTime) × (to_local c now ≡ some local)) where
  scan_alarms-Armed :
      (t : Timer) (last now : ℤ)
      → Armed a t last
      → scan_alarms c t now
        ≡ ring_scheduled t now (keep_earliest none (occurs_in c (some a) last now) a.id)
  unfolding scan_alarms snooze_due
  scan_alarms-Armed t last now h = simp (h.valid, h.unsnoozed, h.alarms, h.read, list_first_in-one)

  -- a tick whose interval has no occurrence
  silent_tick :
      (t : Timer) (last now : ℤ)
      → Armed a t last
      → occurs_in c (some a) last now ≡ none
      → Armed a (poll c t now).0 now
        × ((poll c t now).0.last_fired ≡ t.last_fired)
        × ((poll c t now).0.subscribers ≡ t.subscribers)
        × (alarm_events (poll c t now).1 ≡ [])
  unfolding ring_scheduled alarm_events
  silent_tick t last now h quiet =
      let (local, e) = readable now in
      let scanned : scan_alarms c t now ≡ (t, []) =
        scan_alarms-Armed t last now h
        ∙ ap (λ o. ring_scheduled t now (keep_earliest none o a.id)) quiet in
      let p = alarm_events-poll c t now local t [] h.running e scanned in
      (
        subst (λ u. Armed a u now) (sym p.0)
            (record {
              running = h.running;
              valid = refl;
              alarms = h.alarms;
              unsnoozed = h.unsnoozed;
              read = refl;
            }),
        ap (λ (u : Timer). u.last_fired) p.0,
        ap (λ (u : Timer). u.subscribers) p.0,
        p.1,
      )

  -- the tick whose interval has it
  ringing_tick :
      (t : Timer) (last now : ℤ)
      → Armed a t last
      → occurs_in c (some a) last now ≡ some (one_off_instant c a)
      → get_or t.last_fired a.id (pos 0) ≢ one_off_instant c a
      → (now -ℤ one_off_instant c a) ≤ℤ pos grace_seconds
      → one_off_instant c a ≤ℤ now
      → Armed a (poll c t now).0 now
        × Once t a.id (one_off_instant c a) (alarm_events (poll c t now).1)
  unfolding ring_scheduled
  ringing_tick t last now h rings unfired in_grace reached =
      let (local, e) = readable now in
      let when = one_off_instant c a in
      let fired : Timer = record t { last_fired = set t.last_fired a.id when } in
      let calls = emit_alarm fired a.id when (to_unsigned 32 (now -ℤ when)) in
      let inside : ltb alarm_max a.id ≡ false = ground arith in
      let fresh : eqb_ℤ (get_or t.last_fired a.id (pos 0)) when ≡ false = eqb_ℤ_ne _ _ unfired in
      let soon : ltb_ℤ (pos grace_seconds) (now -ℤ when) ≡ false = ground arith in
      let scanned : scan_alarms c t now ≡ (fired, calls) =
        scan_alarms-Armed t last now h
        ∙ ap (λ o. ring_scheduled t now (keep_earliest none o a.id)) rings
        ∙ simp (inside, fresh, soon) in
      let p = alarm_events-poll c t now local fired calls h.running e scanned in
      (
        subst (λ u. Armed a u now) (sym p.0)
            (record {
              running = h.running;
              valid = refl;
              alarms = h.alarms;
              unsnoozed = h.unsnoozed;
              read = refl;
            }),
        record {
          state = fired;
          late = now -ℤ when;
          subscribers = refl;
          early = omega (arith, reached, -ℤ_parts now when);
          in_grace = in_grace;
          called = p.1 ∙ alarm_events-emit_alarm fired a.id when _;
        },
      )

  -- once the instant is behind, nothing rings
  rung-behind :
      (t : Timer) (last : ℤ) (readings : List ℤ)
      → Armed a t last
      → one_off_instant c a ≤ℤ last
      → Steady last readings
      → rung c t readings ≡ []
  unfolding rung
  rung-behind t last [] h behind steady = refl
  rung-behind t last (now ∷ rest) h behind steady =
      let quiet : occurs_in c (some a) last now ≡ none =
        ground (arith, occurs_in-one_off c a on once valid not_zero last now) in
      let p = silent_tick t last now h quiet in
      rw (p.3) (rung-behind (poll c t now).0 now rest p.0 (omega (arith, steady.0)) steady.2)

  -- A running Timer with a previous reading, without a snooze, whose list holds one enabled one-
  -- off alarm of an id of at most 16 that has not fired and whose instant the C library can
  -- convert and is not 0, over readings of the clock that do not go back and are at most 60
  -- seconds apart, with every instant convertible to local time: if the alarm's instant lies
  -- behind the first reading and not behind the last, the alarm events of the whole run are those
  -- of exactly one call, for that alarm at that instant, at most 60 seconds late; otherwise there
  -- are none.
  pub rung-one_off :
      (t : Timer) (last : ℤ) (readings : List ℤ)
      → Armed a t last
      → get_or t.last_fired a.id (pos 0) ≢ one_off_instant c a
      → Steady last readings
      → ((last <ℤ one_off_instant c a)
          × (one_off_instant c a ≤ℤ last_reading last readings)
          × Once t a.id (one_off_instant c a) (rung c t readings))
        ⊎ (((one_off_instant c a ≤ℤ last) ⊎ (last_reading last readings <ℤ one_off_instant c a))
            × (rung c t readings ≡ []))
  unfolding rung
  rung-one_off t last [] h unfired steady = inr (ground arith, refl)
  rung-one_off t last (now ∷ rest) h unfired steady =
      let when = one_off_instant c a in
      let seen = occurs_in-one_off c a on once valid not_zero last now in
      elim (Bool-cases (ltb_ℤ last when)) [
        | inr behind ↦
            inr (inl (ground arith), rung-behind t last (now ∷ rest) h (ground arith) steady)
        | inl ahead ↦ elim (Bool-cases (leb_ℤ when now)) [
          | inl reached ↦
              let rings : occurs_in c (some a) last now ≡ some when = ground arith in
              let early : last <ℤ when = ground arith in
              let p =
                ringing_tick t last now h rings unfired
                  (omega (arith, -ℤ_parts now when, -ℤ_parts now last, steady.1, early))
                  (ground arith) in
              let none_left = rung-behind (poll c t now).0 now rest p.0 (ground arith) steady.2 in
              inl (
                ground arith,
                ground (arith, Steady-le now rest steady.2),
                rw (none_left, append_nil) p.1,
              )
          | inr later ↦
              let quiet : occurs_in c (some a) last now ≡ none = ground arith in
              let p = silent_tick t last now h quiet in
              let unfired' : get_or (poll c t now).0.last_fired a.id (pos 0) ≢ when =
                rw (p.1) unfired in
              rw (p.3) (elim (rung-one_off (poll c t now).0 now rest p.0 unfired' steady.2) [
                | inl (lo, hi, o) ↦ inl (
                  ground arith,
                  hi,
                  record {
                    state = o.state;
                    late = o.late;
                    subscribers = o.subscribers ∙ p.2;
                    early = o.early;
                    in_grace = o.in_grace;
                    called = o.called;
                  },
                )
                | inr (inl past, none_left) ↦ absurd (ground arith)
                | inr (inr beyond, none_left) ↦ inr (inr beyond, none_left)
              ])
        ]
      ]
