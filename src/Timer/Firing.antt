-- ===== src/Timer/Firing.antt =====
-- `scan_alarms` and the tick: which alarm calls a reading of the clock leads to.
use videoalarmclock.Alarm.Model.{id_none}
use videoalarmclock.Prelude.Int.{ℤ, ◌<ℤ◌, ◌≤ℤ◌, ◌-ℤ◌, pos, ltb_ℤ, eqb_ℤ, ne_of_eqb_ℤ}
use videoalarmclock.Prelude.{
  ℕ, ◌≡◌, refl, sym, ap, ◌∙◌, ◌≢◌, ◌⊎◌, inl, inr, true, false, ◌&&◌, some, List, [], arith, ltb,
  Bool-cases, Option-cases, subst, get_or, set,
}
use videoalarmclock.Alarm.Libc.{Calendar}
use videoalarmclock.Alarm.Slots.{list_first_in, alarm_max}
use videoalarmclock.Alarm.Slots.Earliest.{
  list_first_in-within, list_first_in-Occurs, Occurs, NotBefore,
}
use videoalarmclock.Timer.State.{Timer, Delivery, to_unsigned, emit_alarm}
use videoalarmclock.Timer.Scan.{
  grace_seconds, snooze_due, snooze_first, ring_snooze, ring_scheduled, scan_alarms,
}

-- What a call is of: the pending snooze, which is used up, or an alarm of the list, of which no
-- alarm of the list has an earlier instant, and which has not fired at that instant, as it now has.
pub data Origin (c : Calendar) (t after : Timer) (now : ℤ) (id : ℕ) (when : ℤ) : Type 0 where
  from_snooze :
      id ≢ id_none
      → id ≡ t.snooze_alarm
      → when ≡ t.snooze_at
      → after.snooze_alarm ≡ id_none
      → Origin c t after now id when
  from_list :
      Occurs c t.last_when now when id t.alarms
      → NotBefore c t.last_when now when t.alarms
      → get_or t.last_fired id (pos 0) ≢ when
      → after.last_fired ≡ set t.last_fired id when
      → Origin c t after now id when

-- one alarm call, of an occurrence behind the last reading and at most the grace late
pub record Rings (c : Calendar) (t after : Timer) (now : ℤ) (calls : List Delivery) : Type 0 where
  pub id : ℕ
  pub when : ℤ
  pub origin : Origin c t after now id when
  pub valid : t.last_valid ≡ true
  pub behind : t.last_when <ℤ when
  pub reached : when ≤ℤ now
  pub in_grace : (now -ℤ when) ≤ℤ pos grace_seconds
  pub called : calls ≡ emit_alarm after id when (to_unsigned 32 (now -ℤ when))

-- what a scan leaves alone
pub record Keeps (t after : Timer) : Type 0 where
  pub last_when : after.last_when ≡ t.last_when
  pub last_valid : after.last_valid ≡ t.last_valid
  pub last_minute_stamp : after.last_minute_stamp ≡ t.last_minute_stamp
  pub force_emit : after.force_emit ≡ t.force_emit
  pub alarms : after.alarms ≡ t.alarms
  pub subscribers : after.subscribers ≡ t.subscribers
  pub running : after.running ≡ t.running
  pub synced : after.synced ≡ t.synced

pub Keeps-refl : (t : Timer) → Keeps t t
Keeps-refl t = record {
  last_when = refl;
  last_valid = refl;
  last_minute_stamp = refl;
  force_emit = refl;
  alarms = refl;
  subscribers = refl;
  running = refl;
  synced = refl;
}

-- the Timer after what a scan writes
written-Keeps :
    (t : Timer) (id : ℕ) (at : ℤ) (fired : List ℤ) (missed : ℕ)
    → Keeps t
        (record t { snooze_alarm = id; snooze_at = at; last_fired = fired; missed_alarms = missed })
written-Keeps t id at fired missed = record {
  last_when = refl;
  last_valid = refl;
  last_minute_stamp = refl;
  force_emit = refl;
  alarms = refl;
  subscribers = refl;
  running = refl;
  synced = refl;
}

abbrev Scanned : Calendar → Timer → ℤ → Timer × List Delivery → Type 0
Scanned c t now (after, calls) = Keeps t after × ((calls ≡ []) ⊎ Rings c t after now calls)

ring_snooze-Scanned :
    (c : Calendar) (t : Timer) (now : ℤ)
    → t.last_valid ≡ true
    → snooze_due t now ≡ true
    → Scanned c t now (ring_snooze t now)
unfolding ring_snooze snooze_due
ring_snooze-Scanned c t now valid due =
    let pending : t.snooze_alarm ≢ id_none = ground arith in
    let facts : (t.last_when <ℤ t.snooze_at) × (t.snooze_at ≤ℤ now) = ground arith in
    elim (Bool-cases (ltb_ℤ (pos grace_seconds) (now -ℤ t.snooze_at))) [
      | inl late ↦ rw late (written-Keeps t _ _ _ _, inl refl)
      | inr in_time ↦ rw in_time (
        written-Keeps t _ _ _ _,
        inr (record {
          id = t.snooze_alarm;
          when = t.snooze_at;
          origin = from_snooze pending refl refl refl;
          valid = valid;
          behind = facts.0;
          reached = facts.1;
          in_grace = ground arith;
          called = refl;
        }),
      )
    ]

ring_scheduled-Scanned :
    (c : Calendar) (t : Timer) (now when : ℤ) (id : ℕ)
    → t.last_valid ≡ true
    → t.last_when <ℤ when
    → when ≤ℤ now
    → NotBefore c t.last_when now when t.alarms × Occurs c t.last_when now when id t.alarms
    → Scanned c t now (ring_scheduled t now (some (when, id)))
unfolding ring_scheduled
ring_scheduled-Scanned c t now when id valid behind reached source =
    elim (Bool-cases (ltb alarm_max id)) [
      | inl outside ↦ rw outside (Keeps-refl t, inl refl)
      | inr inside ↦ rw inside (elim (Bool-cases (eqb_ℤ (get_or t.last_fired id (pos 0)) when)) [
        | inl again ↦ rw again (Keeps-refl t, inl refl)
        | inr first ↦ rw first (elim (Bool-cases (ltb_ℤ (pos grace_seconds) (now -ℤ when))) [
          | inl late ↦ rw late (written-Keeps t _ _ _ _, inl refl)
          | inr in_time ↦ rw in_time (
            written-Keeps t _ _ _ _,
            inr (record {
              id = id;
              when = when;
              origin =
                  from_list source.1 source.0
                    (ne_of_eqb_ℤ (get_or t.last_fired id (pos 0)) when first) refl;
              valid = valid;
              behind = behind;
              reached = reached;
              in_grace = ground arith;
              called = refl;
            }),
          )
        ])
      ])
    ]

-- the three branches of a scan
pub scan_alarms-branches :
    (c : Calendar) (t : Timer) (now : ℤ)
    → ((t.last_valid ≡ false) × (scan_alarms c t now ≡ (t, [])))
      ⊎ ((t.last_valid ≡ true)
          × (snooze_due t now && snooze_first t (list_first_in c t.alarms t.last_when now) ≡ true)
          × (scan_alarms c t now ≡ ring_snooze t now))
      ⊎ ((t.last_valid ≡ true)
          × (snooze_due t now && snooze_first t (list_first_in c t.alarms t.last_when now) ≡ false)
          × (scan_alarms c t now ≡ ring_scheduled t now (list_first_in c t.alarms t.last_when now)))
unfolding scan_alarms
scan_alarms-branches c t now =
    let scheduled = list_first_in c t.alarms t.last_when now in
    elim (Bool-cases t.last_valid) [
      | inr fresh ↦ inl (fresh, simp fresh)
      | inl valid ↦ elim (Bool-cases (snooze_due t now && snooze_first t scheduled)) [
        | inl snoozed ↦ inr (inl (valid, snoozed, simp (valid, snoozed)))
        | inr plain ↦ inr (inr (valid, plain, simp (valid, plain)))
      ]
    ]

-- A scan rings nothing or makes one alarm call: of the pending snooze, at its instant, which is
-- used up by it; or of an alarm of the list at an instant at which that alarm occurs, none of the
-- list occurring before it, which has not fired at that instant and is now recorded to have. The
-- instant lies behind the last reading, has been reached by this one, and is at most 60 seconds
-- late, with that lateness in the event. There is no alarm call without a previous reading, and
-- nothing but the snooze, the record of what fired and the count of missed alarms changes.
pub scan_alarms-Rings :
    (c : Calendar) (t : Timer) (now : ℤ)
    → let (after, calls) = scan_alarms c t now in
      Keeps t after × ((calls ≡ []) ⊎ Rings c t after now calls)
unfolding ring_scheduled
scan_alarms-Rings c t now = elim (scan_alarms-branches c t now) [
  | inl (fresh, e) ↦ subst (Scanned c t now) (sym e) (Keeps-refl t, inl refl)
  | inr (inl (valid, due, e)) ↦
      subst (Scanned c t now) (sym e) (ring_snooze-Scanned c t now valid (ground arith))
  | inr (inr (valid, plain, e)) ↦ elim (Option-cases (list_first_in c t.alarms t.last_when now)) [
    | inl nothing ↦
        subst (Scanned c t now) (sym (e ∙ ap (ring_scheduled t now) nothing))
          (Keeps-refl t, inl refl)
    | inr ((when, id), found) ↦
        let w = list_first_in-within c t.last_when now t.alarms when id found in
        subst (Scanned c t now) (sym (e ∙ ap (ring_scheduled t now) found)) (
          ring_scheduled-Scanned c t now when id valid w.0 w.1
            (list_first_in-Occurs c t.last_when now t.alarms when id found))
  ]
]
