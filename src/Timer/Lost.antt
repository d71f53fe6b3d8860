-- ===== src/Timer/Lost.antt =====
-- A snooze that an alarm of the list comes before in the tick that reaches it.
use videoalarmclock.Timer.Corrections.{poll-tick}
use videoalarmclock.Prelude.Int.{ℤ, ◌≤ℤ◌, eqb_ℤ, pos, ltb_ℤ, ◌-ℤ◌}
use videoalarmclock.Prelude.{
  ℕ, ◌≡◌, refl, sym, ap, ◌∙◌, ◌⊎◌, inl, inr, true, false, ◌&&◌, Option, none, some, List, [], ◌∷◌,
  arith, ltb, Bool-cases, Option-cases, get_or, subst,
}
use videoalarmclock.Alarm.Libc.{Calendar}
use videoalarmclock.Alarm.Slots.{list_first_in, alarm_max}
use videoalarmclock.Timer.State.{Timer, Delivery, emit, error}
use videoalarmclock.Timer.Scan.{
  snooze_due, snooze_first, ring_scheduled, scan_alarms, grace_seconds,
}
use videoalarmclock.Timer.Poll.{DateTime, to_local, tick, poll, with_reading}
use videoalarmclock.Timer.Firing.{scan_alarms-branches}

-- the Timer after ticks at the readings, in order
unfoldable pub polls : Calendar → Timer → List ℤ → Timer
polls c t [] = t
polls c t (now ∷ rest) = polls c (poll c t now).0 rest

-- the readings never go back
abbrev pub Ascending : ℤ → List ℤ → Type 0
Ascending last [] = Unit
Ascending last (now ∷ rest) = (last ≤ℤ now) × Ascending now rest

-- the snooze of `t`, and the Timer has read the clock at `last` or later, behind its instant
record Passed (t after : Timer) (last : ℤ) : Type 0 where
  alarm : after.snooze_alarm ≡ t.snooze_alarm
  at : after.snooze_at ≡ t.snooze_at
  behind : after.snooze_at ≤ℤ after.last_when
  valid : after.last_valid ≡ true
  read : after.last_when ≤ℤ last

ring_scheduled-snooze :
    (t : Timer) (now : ℤ) (o : Option (ℤ × ℕ))
    → let after = (ring_scheduled t now o).0 in
      (after.snooze_alarm ≡ t.snooze_alarm) × (after.snooze_at ≡ t.snooze_at)
unfolding ring_scheduled
ring_scheduled-snooze t now none = (refl, refl)
ring_scheduled-snooze t now (some (when, id)) = elim (Bool-cases (ltb alarm_max id)) [
  | inl outside ↦ rw outside (refl, refl)
  | inr inside ↦ rw inside (elim (Bool-cases (eqb_ℤ (get_or t.last_fired id (pos 0)) when)) [
    | inl again ↦ rw again (refl, refl)
    | inr first ↦ rw first (elim (Bool-cases (ltb_ℤ (pos grace_seconds) (now -ℤ when))) [
      | inl late ↦ rw late (refl, refl)
      | inr in_time ↦ rw in_time (refl, refl)
    ])
  ])
]

poll-halted : (c : Calendar) (t : Timer) (now : ℤ) → t.running ≡ false → poll c t now ≡ (t, [])
unfolding poll
poll-halted c t now halted = simp halted

poll-unread :
    (c : Calendar) (t : Timer) (now : ℤ)
    → t.running ≡ true
    → to_local c now ≡ none
    → poll c t now ≡ (t, emit t error now)
unfolding poll
poll-unread c t now on unread = simp (on, unread)

pub scan_alarms-snooze :
    (c : Calendar) (t : Timer) (now : ℤ)
    → snooze_due t now && snooze_first t (list_first_in c t.alarms t.last_when now) ≡ false
    → let after = (scan_alarms c t now).0 in
      (after.snooze_alarm ≡ t.snooze_alarm) × (after.snooze_at ≡ t.snooze_at)
scan_alarms-snooze c t now plain = elim (scan_alarms-branches c t now) [
  | inl (fresh, e) ↦ rw e (refl, refl)
  | inr (inl (valid, due, e)) ↦ absurd (cc)
  | inr (inr (valid, _, e)) ↦
      rw e (ring_scheduled-snooze t now (list_first_in c t.alarms t.last_when now))
]

pub poll-state :
    (c : Calendar) (t : Timer) (now : ℤ)
    → ((poll c t now).0 ≡ t)
      ⊎ ((stamp : ℤ) × ((poll c t now).0 ≡ with_reading (scan_alarms c t now).0 now stamp))
unfolding poll tick
poll-state c t now = elim (Bool-cases t.running) [
  | inr halted ↦ inl (ap (λ (p : Timer × List Delivery). p.0) (poll-halted c t now halted))
  | inl on ↦ elim (Option-cases (to_local c now)) [
    | inl unread ↦ inl (ap (λ (p : Timer × List Delivery). p.0) (poll-unread c t now on unread))
    | inr (local, e) ↦
        inr (
          now -ℤ pos local.second,
          ap (λ (p : Timer × List Delivery). p.0) (poll-tick c t now on e),
        )
  ]
]

-- the tick of a Timer whose snooze it does not ring
poll-Passed :
    (c : Calendar) (t now_t : Timer) (last now : ℤ)
    → Passed t now_t last
    → last ≤ℤ now
    → Passed t (poll c now_t now).0 now
unfolding snooze_due
poll-Passed c t now_t last now p le = elim (poll-state c now_t now) [
  | inl same ↦
      subst (λ u. Passed t u now) (sym same)
        (record {
          alarm = p.alarm;
          at = p.at;
          behind = p.behind;
          valid = p.valid;
          read = omega (arith, p.read, le);
        })
  | inr (stamp, e) ↦
      let not_due : snooze_due now_t now
            && snooze_first now_t (list_first_in c now_t.alarms now_t.last_when now)
          ≡ false =
        ground (arith, p.behind) in
      let kept = scan_alarms-snooze c now_t now not_due in
      subst (λ u. Passed t u now) (sym e)
        (record {
          alarm = kept.0 ∙ p.alarm;
          at = kept.1 ∙ p.at;
          behind = rw (kept.1) (omega (arith, p.behind, p.read, le));
          valid = refl;
          read = omega arith;
        })
]

polls-Passed :
    (c : Calendar) (t now_t : Timer) (last : ℤ) (readings : List ℤ)
    → Passed t now_t last
    → Ascending last readings
    → (later : ℤ) × Passed t (polls c now_t readings) later
unfolding polls
polls-Passed c t now_t last [] p h = (last, p)
polls-Passed c t now_t last (now ∷ rest) p h =
    polls-Passed c t (poll c now_t now).0 now rest (poll-Passed c t now_t last now p h.0) h.1

-- If a tick of a running Timer with a previous reading, whose own reading converts to local time
-- and has reached the instant of the snooze, also finds an alarm of the list at or before that
-- instant, then the snooze is unchanged after that tick and after any number of later ticks whose
-- readings do not go back, and its instant is not behind the last reading: it is neither rung nor
-- given up.
pub polls-snooze_lost :
    (c : Calendar) (t : Timer) (now scheduled : ℤ) (id : ℕ) (local : DateTime) (rest : List ℤ)
    → t.running ≡ true
    → t.last_valid ≡ true
    → to_local c now ≡ some local
    → list_first_in c t.alarms t.last_when now ≡ some (scheduled, id)
    → scheduled ≤ℤ t.snooze_at
    → t.snooze_at ≤ℤ now
    → Ascending now rest
    → let after = polls c t (now ∷ rest) in
      (after.snooze_alarm ≡ t.snooze_alarm)
      × (after.snooze_at ≡ t.snooze_at)
      × (after.snooze_at ≤ℤ after.last_when)
unfolding polls tick
polls-snooze_lost c t now scheduled id local rest on valid e found before reached h =
    let not_first : snooze_due t now && snooze_first t (list_first_in c t.alarms t.last_when now)
        ≡ false =
      rw found (ground arith) in
    let kept = scan_alarms-snooze c t now not_first in
    let p : Passed t (poll c t now).0 now =
      subst (λ (u : Timer × List Delivery). Passed t u.0 now) (sym (poll-tick c t now on e))
        (record {
          alarm = kept.0;
          at = kept.1;
          behind = rw (kept.1) reached;
          valid = refl;
          read = omega arith;
        }) in
    let (later, q) = polls-Passed c t (poll c t now).0 now rest p h in (q.alarm, q.at, q.behind)
