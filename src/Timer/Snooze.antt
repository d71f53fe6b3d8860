-- ===== src/Timer/Snooze.antt =====
-- What becomes of a snooze: the tick that rings it, and the one case in which none does.
use videoalarmclock.Prelude.Int.{ℤ, ◌<ℤ◌, ◌≤ℤ◌, ◌+ℤ◌, pos, ◌-ℤ◌, ltb_ℤ}
use videoalarmclock.Prelude.{
  ℕ, ◌*◌, ◌<◌, ◌≡◌, refl, sym, ◌∙◌, ◌≢◌, inl, inr, true, some, List, [], ◌∷◌, arith, Bool-cases,
  Option-cases, subst,
}
use videoalarmclock.Platform.{esp_ok}
use videoalarmclock.Alarm.Model.{id_none}
use videoalarmclock.Alarm.Libc.{Calendar}
use videoalarmclock.Alarm.Slots.{list_first_in}
use videoalarmclock.Timer.State.{Timer, Delivery, to_unsigned, emit_alarm}
use videoalarmclock.Timer.Scan.{grace_seconds, one_more, snooze_due, ring_snooze, scan_alarms}
use videoalarmclock.Timer.Control.{snooze}
use videoalarmclock.Timer.Poll.{poll}
use videoalarmclock.Timer.Lost.{polls, poll-state, scan_alarms-snooze}

-- no alarm of the list occurs in the interval before or at the instant
abbrev pub NoneBy : Calendar → Timer → ℤ → ℤ → Type 0
NoneBy c t now at =
    (when : ℤ) (id : ℕ) → list_first_in c t.alarms t.last_when now ≡ some (when, id) → at <ℤ when

-- the end of a snooze: rung in time, or counted as missed
pub data Ended (count : ℕ) (after : Timer) (calls : List Delivery) (id : ℕ) (late at : ℤ)
    : Type 0 where
  rung :
      late ≤ℤ pos grace_seconds
      → calls ≡ emit_alarm after id at (to_unsigned 32 late)
      → after.missed_alarms ≡ count
      → Ended count after calls id late at
  missed :
      pos grace_seconds <ℤ late
      → calls ≡ []
      → after.missed_alarms ≡ one_more count
      → Ended count after calls id late at

ring_snooze-Ended :
    (t : Timer) (now : ℤ)
    → let (after, calls) = ring_snooze t now in
      (after.snooze_alarm ≡ id_none)
      × Ended t.missed_alarms after calls t.snooze_alarm (now -ℤ t.snooze_at) t.snooze_at
unfolding ring_snooze
ring_snooze-Ended t now = elim (Bool-cases (ltb_ℤ (pos grace_seconds) (now -ℤ t.snooze_at))) [
  | inl late ↦ rw late (refl, missed (ground arith) refl refl)
  | inr in_time ↦ rw in_time (refl, rung (ground arith) refl refl)
]

scan_alarms-snoozed :
    (c : Calendar) (t : Timer) (now : ℤ)
    → t.last_valid ≡ true
    → snooze_due t now ≡ true
    → NoneBy c t now t.snooze_at
    → scan_alarms c t now ≡ ring_snooze t now
unfolding scan_alarms
scan_alarms-snoozed c t now valid due alone =
    elim (Option-cases (list_first_in c t.alarms t.last_when now)) [
      | inl nothing ↦ simp (valid, due, nothing)
      | inr ((when, id), found) ↦
          let first : ltb_ℤ t.snooze_at when ≡ true = ground (arith, alone when id found) in
          simp (valid, due, found, first)
    ]

-- the readings are all before the instant
abbrev pub AllBefore : ℤ → List ℤ → Type 0
AllBefore at [] = Unit
AllBefore at (now ∷ rest) = (now <ℤ at) × AllBefore at rest

-- a snooze that no tick has reached
record Waits (id : ℕ) (at : ℤ) (t : Timer) : Type 0 where
  alarm : t.snooze_alarm ≡ id
  instant : t.snooze_at ≡ at
  valid : t.last_valid ≡ true
  ahead : t.last_when <ℤ at

-- a tick before the instant leaves it waiting
poll-Waits :
    (c : Calendar) (id : ℕ) (at : ℤ) (t : Timer) (now : ℤ)
    → now <ℤ at
    → Waits id at t
    → Waits id at (poll c t now).0
unfolding snooze_due
poll-Waits c id at t now before w = elim (poll-state c t now) [
  | inl same ↦ subst (Waits id at) (sym same) w
  | inr (stamp, e) ↦
      let ahead : now <ℤ t.snooze_at = subst (λ u. now <ℤ u) (sym w.instant) before in
      let kept = scan_alarms-snooze c t now (ground (arith, ahead)) in
      subst (Waits id at) (sym e) (record {
        alarm = kept.0 ∙ w.alarm;
        instant = kept.1 ∙ w.instant;
        valid = refl;
        ahead = before;
      })
]

polls-Waits :
    (c : Calendar) (id : ℕ) (at : ℤ) (t : Timer) (readings : List ℤ)
    → AllBefore at readings
    → Waits id at t
    → Waits id at (polls c t readings)
unfolding polls
polls-Waits c id at t [] before w = w
polls-Waits c id at t (now ∷ rest) before w =
    polls-Waits c id at (poll c t now).0 rest before.1 (poll-Waits c id at t now before.0 w)

-- the scan that reaches it
Waits-Ended :
    (c : Calendar) (id : ℕ) (at : ℤ) (t : Timer) (now : ℤ)
    → id ≢ id_none
    → Waits id at t
    → at ≤ℤ now
    → NoneBy c t now at
    → let (after, calls) = scan_alarms c t now in
      (after.snooze_alarm ≡ id_none) × Ended t.missed_alarms after calls id (now -ℤ at) at
unfolding snooze_due
Waits-Ended c id at t now some_id w late alone =
    let pending : t.snooze_alarm ≢ id_none = λ e. some_id (sym w.alarm ∙ e) in
    let ahead : t.last_when <ℤ t.snooze_at =
      subst (λ u. t.last_when <ℤ u) (sym w.instant) w.ahead in
    let reached : t.snooze_at ≤ℤ now = subst (λ u. u ≤ℤ now) (sym w.instant) late in
    let due : snooze_due t now ≡ true = ground arith in
    let e =
      scan_alarms-snoozed c t now w.valid due (subst (NoneBy c t now) (sym w.instant) alone) in
    let (spent, calls) = ring_snooze t now in
    let ended = ring_snooze-Ended t now in
    let named : Ended t.missed_alarms spent calls id (now -ℤ t.snooze_at) t.snooze_at =
      subst (λ n. Ended t.missed_alarms spent calls n (now -ℤ t.snooze_at) t.snooze_at) w.alarm
        ended.1 in
    rw e (ended.0, subst (λ u. Ended t.missed_alarms spent calls id (now -ℤ u) u) w.instant named)

-- A snooze of an alarm, whose id is not 0, for one minute or more, of a Timer that has a last reading
-- and that before the instant the snooze ends at, is accepted. Any number of ticks at readings before
-- that instant, whatever they ring, leave it pending; and the first scan behind them that reaches the
-- instant uses it up, if no alarm of the list occurs between the last reading and that instant, or
-- at it: at most 60 seconds late it rings under the snoozed alarm's id with that lateness and counts
-- nothing as missed, later than that it rings nothing and counts one more.
pub snooze-scan :
    (c : Calendar) (t : Timer) (id minutes : ℕ) (asked now : ℤ) (readings : List ℤ)
    → id ≢ id_none
    → 0 < minutes
    → t.last_valid ≡ true
    → t.last_when <ℤ (asked +ℤ pos (minutes * 60))
    → AllBefore (asked +ℤ pos (minutes * 60)) readings
    → (asked +ℤ pos (minutes * 60)) ≤ℤ now
    → NoneBy c (polls c (snooze t id minutes asked 0).0 readings) now (asked +ℤ pos (minutes * 60))
    → let at = asked +ℤ pos (minutes * 60) in
      let (snoozed, result) = snooze t id minutes asked 0 in
      let reached = polls c snoozed readings in
      let (after, calls) = scan_alarms c reached now in
      (result ≡ esp_ok)
      × (reached.snooze_alarm ≡ id)
      × (reached.snooze_at ≡ at)
      × (after.snooze_alarm ≡ id_none)
      × Ended reached.missed_alarms after calls id (now -ℤ at) at
unfolding snooze
snooze-scan c t id minutes asked now readings some_id some_minutes valid before early late alone =
    let at = asked +ℤ pos (minutes * 60) in
    let snoozed : Timer = record t { snooze_alarm = id; snooze_at = at } in
    let accepted : snooze t id minutes asked 0 ≡ (snoozed, esp_ok) = ground arith in
    let u = polls c snoozed readings in
    let w : Waits id at u =
      polls-Waits c id at snoozed readings early
        (record { alarm = refl; instant = refl; valid = valid; ahead = before }) in
    let ended = Waits-Ended c id at u now some_id w late (rw accepted at alone) in
    rw accepted (refl, w.alarm, w.instant, ended.0, ended.1)
