-- ===== src/Manager/Ringing.antt =====
-- nn20clock_manager.c: how long an alarm may ring, its snooze, and its end.
use videoalarmclock.Prelude.{ℕ, Bool, ◌&&◌, ◌||◌, not, Option, none, some, ltb, ◌==◌, if◌then◌else◌}
use videoalarmclock.Prelude.Int.{ℤ, pos, ◌+ℤ◌, eqb_ℤ, ltb_ℤ}
use videoalarmclock.Platform.{EspErr, ok, err, is_ok}
use videoalarmclock.Alarm.Model.{one_off, id_none}
use videoalarmclock.Timer.Control.{snooze, cancel_snooze, reload_schedule}
use videoalarmclock.Storage.{Storage}
use videoalarmclock.Storage.Requests.{get_alarm, delete_alarm}
use videoalarmclock.Manager.{
  ringing_ended, Manager, Answers, called, max_ring_seconds, default_snooze_minutes,
}

-- `clear_ring_deadline`
abbrev pub clear_ring_deadline : Manager → Manager
clear_ring_deadline m = record m { ring_deadline_alarm = id_none; ring_deadline = pos 0 }

-- `arm_ring_deadline`
unfoldable pub arm_ring_deadline : ℕ → ℤ → Manager → Manager
arm_ring_deadline alarm_id when m =
    if not (eqb_ℤ m.ring_deadline (pos 0)) && m.ring_deadline_alarm == alarm_id
    then m
    else if not (ltb_ℤ (pos 0) when)
    then clear_ring_deadline m
    else record m { ring_deadline_alarm = alarm_id; ring_deadline = when +ℤ pos max_ring_seconds }

-- `ring_deadline_passed`
unfoldable pub ring_deadline_passed : Manager → ℤ → Bool
ring_deadline_passed m now = not (eqb_ℤ m.ring_deadline (pos 0)) && not (ltb_ℤ now m.ring_deadline)

-- the minutes that a snooze lasts
unfoldable pub snooze_length : Answers → ℕ → Option Storage → ℕ
snooze_length w alarm_id none = default_snooze_minutes
snooze_length w alarm_id (some s) = elim (get_alarm w.get_rc alarm_id s) [
  | err e ↦ default_snooze_minutes
  | ok alarm ↦ if ltb 0 alarm.snooze_minutes then alarm.snooze_minutes else default_snooze_minutes
]

-- `snooze_alarm`
unfoldable pub snooze_ringing : Answers → Manager → Manager
unfolding snooze_length
snooze_ringing w m = if m.ringing_alarm == id_none then m else record m {
  ringing_alarm = id_none;
  timer =
      (snooze m.timer m.ringing_alarm (snooze_length w m.ringing_alarm m.storage) w.now
        w.snooze_rc).0;
}

-- `nn20clock_timer_cancel_snooze`
unfoldable pub cancel_timer_snooze : Answers → Manager → Manager
cancel_timer_snooze w m = if w.cancel_rc == 0 then record m { timer = cancel_snooze m.timer } else m

-- `report_ringing_ended`
unfoldable pub report_ringing_ended : ℕ → Manager → Manager
report_ringing_ended alarm_id m =
    if alarm_id == id_none || not m.on_ringing_ended then m else called (ringing_ended alarm_id) m

-- `nn20clock_timer_reload_schedule`, its source that of the application
unfoldable pub reload_timer : Answers → Manager → Manager × EspErr
reload_timer w m =
    let ran = reload_schedule m.timer (some (w.source m.storage)) w.room w.reload_rc in
    (record m { timer = ran.0 }, ran.1)

-- a one-off alarm leaves the storage and the schedule
unfoldable pub remove_one_off : Answers → ℕ → Storage → Manager → Manager
unfolding reload_timer
remove_one_off w alarm_id s m =
    let ran = delete_alarm w.flash w.room w.delete_rc alarm_id s in
    if is_ok ran.1
    then (reload_timer w (record m { storage = some ran.0 })).0
    else record m { storage = some ran.0 }

-- what `dismiss_alarm` does in the storage
unfoldable pub finish_alarm : Answers → ℕ → Option Storage → Manager → Manager
unfolding remove_one_off
finish_alarm w alarm_id none m = m
finish_alarm w alarm_id (some s) m = elim (get_alarm w.get_rc alarm_id s) [
  | err e ↦ m
  | ok alarm ↦ elim alarm.kind [ one_off ↦ remove_one_off w alarm_id s m | _ ↦ m ]
]

-- `dismiss_alarm`
unfoldable pub dismiss_alarm : Answers → Manager → Manager
unfolding cancel_timer_snooze report_ringing_ended finish_alarm
dismiss_alarm w m =
    let silent =
      clear_ring_deadline (cancel_timer_snooze w (record m { ringing_alarm = id_none })) in
    if m.ringing_alarm == id_none
    then silent
    else finish_alarm w m.ringing_alarm m.storage (report_ringing_ended m.ringing_alarm silent)
