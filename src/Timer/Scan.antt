-- ===== src/Timer/Scan.antt =====
-- nn20clock_timer.c: `scan_alarms`, in the three parts that its early returns make.
use videoalarmclock.Prelude.Int.{ℤ, ◌-ℤ◌, ltb_ℤ, pos, leb_ℤ, eqb_ℤ}
use videoalarmclock.Prelude.{
  ℕ, ◌+◌, ◌%◌, ◌^◌, Bool, true, ◌&&◌, not, Option, none, some, List, [], ltb, if◌then◌else◌, set,
  get_or,
}
use videoalarmclock.Alarm.Model.{id_none}
use videoalarmclock.Alarm.Libc.{Calendar}
use videoalarmclock.Alarm.Slots.{alarm_max, list_first_in}
use videoalarmclock.Timer.State.{Timer, Delivery, to_unsigned, snooze_is_pending, emit_alarm}

-- `NN20CLOCK_TIMER_ALARM_GRACE_SECONDS`
abbrev pub grace_seconds : ℕ
grace_seconds = 60

-- `snooze_due`
unfoldable pub snooze_due : Timer → ℤ → Bool
snooze_due t now = snooze_is_pending t && ltb_ℤ t.last_when t.snooze_at && leb_ℤ t.snooze_at now

-- `!scheduled_alarm || pthis->snooze_at < scheduled`
abbrev pub snooze_first : Timer → Option (ℤ × ℕ) → Bool
snooze_first t none = true
snooze_first t (some (scheduled, id)) = ltb_ℤ t.snooze_at scheduled

-- `atomic_fetch_add(&missed_alarms, 1)`
abbrev pub one_more : ℕ → ℕ
one_more n = (n + 1) % 2 ^ 32

-- the branch of the snooze
unfoldable pub ring_snooze : Timer → ℤ → Timer × List Delivery
ring_snooze t now =
    let late = now -ℤ t.snooze_at in
    let spent : Timer = record t { snooze_alarm = id_none; snooze_at = pos 0 } in
    if ltb_ℤ (pos grace_seconds) late
    then (record spent { missed_alarms = one_more t.missed_alarms }, [])
    else (spent, emit_alarm spent t.snooze_alarm t.snooze_at (to_unsigned 32 late))

-- the rest, for a scheduled alarm
unfoldable pub ring_scheduled : Timer → ℤ → Option (ℤ × ℕ) → Timer × List Delivery
ring_scheduled t now none = (t, [])
ring_scheduled t now (some (scheduled, id)) =
    let late = now -ℤ scheduled in
    let fired : Timer = record t { last_fired = set t.last_fired id scheduled } in
    if ltb alarm_max id
    then (t, [])
    else if eqb_ℤ (get_or t.last_fired id (pos 0)) scheduled
    then (t, [])
    else if ltb_ℤ (pos grace_seconds) late
    then (record fired { missed_alarms = one_more t.missed_alarms }, [])
    else (fired, emit_alarm fired id scheduled (to_unsigned 32 late))

-- `scan_alarms`
unfoldable pub scan_alarms : Calendar → Timer → ℤ → Timer × List Delivery
scan_alarms c t now =
    let scheduled = list_first_in c t.alarms t.last_when now in
    if not t.last_valid
    then (t, [])
    else if snooze_due t now && snooze_first t scheduled
    then ring_snooze t now
    else ring_scheduled t now scheduled
