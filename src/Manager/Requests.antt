-- ===== src/Manager/Requests.antt =====
-- nn20clock_manager.c: the requests that the manager's worker runs in order.
use videoalarmclock.Prelude.{ℕ, Bool, true, false, ◌&&◌, Option, none, some, ◌==◌, if◌then◌else◌}
use videoalarmclock.Prelude.Int.{ℤ}
use videoalarmclock.Timer.State.{EventType, second, minute, time_synced, alarm, error}
use videoalarmclock.Timer.Scan.{one_more}
use videoalarmclock.Manager.{
  State, time, alarm_settings, device_settings, alarm_ringing, media_playback, media_management,
  error_state, Command, mute, unmute, stop_alarm, snooze_alarm, cancel_snooze, volume_up,
  volume_down, brightness_up, brightness_down, open_settings, open_device_settings, close_settings,
  open_media_playback, close_media_playback, open_media_management, close_media_management,
  other_command, screen_event, Manager, Answers, called,
}
use videoalarmclock.Manager.States.{apply_state, apply_screen, refresh_timer}
use videoalarmclock.Manager.Ringing.{
  clear_ring_deadline, arm_ring_deadline, ring_deadline_passed, snooze_ringing, cancel_timer_snooze,
  report_ringing_ended, dismiss_alarm,
}

-- the branch of CANCEL_SNOOZE
unfoldable pub cancel_snoozed : Answers → Manager → Manager
cancel_snoozed w m =
    if w.cancel_rc == 0
    then refresh_timer w
        (report_ringing_ended m.timer.snooze_alarm (clear_ring_deadline (cancel_timer_snooze w m)))
    else cancel_timer_snooze w m

-- the switch of `apply_command`
unfoldable pub command_effect : Answers → Command → Manager → Manager
unfolding cancel_snoozed
command_effect w open_settings m = apply_state w alarm_settings m
command_effect w open_device_settings m = apply_state w device_settings m
command_effect w close_settings m = apply_state w time m
command_effect w open_media_playback m = apply_state w media_playback m
command_effect w close_media_playback m = apply_state w time m
command_effect w open_media_management m = apply_state w media_management m
command_effect w close_media_management m = apply_state w device_settings m
command_effect w stop_alarm m = apply_state w time (dismiss_alarm w m)
command_effect w snooze_alarm m = apply_state w time (snooze_ringing w m)
command_effect w cancel_snooze m = cancel_snoozed w m
command_effect w mute m = m
command_effect w unmute m = m
command_effect w volume_up m = m
command_effect w volume_down m = m
command_effect w brightness_up m = m
command_effect w brightness_down m = m
command_effect w other_command m = m

-- `apply_command`
unfoldable pub apply_command : Answers → Command → Manager → Manager
unfolding command_effect
apply_command w c m = command_effect w c (record m { command_count = one_more m.command_count })

-- whether a state is ALARM_RINGING
abbrev pub is_ringing : State → Bool
is_ringing alarm_ringing = true
is_ringing _ = false

-- the branch of the ticks; `when` is the payload's `displayed_time`
unfoldable pub tick_event : Answers → EventType → ℤ → Manager → Manager
tick_event w type when m =
    if is_ringing m.state && ring_deadline_passed m when
    then apply_state w time (dismiss_alarm w m)
    else elim m.screen [ none ↦ m | some screen ↦ called (screen_event screen type when) m ]

-- that of an alarm
unfoldable pub alarm_event : Answers → ℤ → ℕ → Manager → Manager
alarm_event w when alarm_id m =
    let armed = arm_ring_deadline alarm_id when (record m { ringing_alarm = alarm_id }) in
    if ring_deadline_passed armed when
    then dismiss_alarm w armed
    else apply_state w alarm_ringing (record armed { alarm_count = one_more armed.alarm_count })

-- the switch of `apply_timer_event`; `request_private` passes the request's payload, never NULL
unfoldable pub event_effect : Answers → EventType → ℤ → ℕ → Manager → Manager
unfolding tick_event alarm_event
event_effect w second when alarm_id m = tick_event w second when m
event_effect w minute when alarm_id m = tick_event w minute when m
event_effect w time_synced when alarm_id m = tick_event w time_synced when m
event_effect w alarm when alarm_id m = alarm_event w when alarm_id m
event_effect w error when alarm_id m = apply_state w error_state m

-- `apply_timer_event`
unfoldable pub apply_timer_event : Answers → EventType → ℤ → ℕ → Manager → Manager
unfolding event_effect
apply_timer_event w type when alarm_id m =
    event_effect w type when alarm_id
      (record m { timer_event_count = one_more m.timer_event_count })

-- `ManagerRequest`, by its kind
pub data Request : Type 0 where
  to_state : State → Request
  to_screen : Option ℕ → Request
  command : Command → Request
  timer_event : EventType → ℤ → ℕ → Request

-- `request_private`; the slot that it gives back is the pool's
unfoldable pub request_private : Answers → Request → Manager → Manager
unfolding apply_command apply_timer_event
request_private w (to_state to) m = apply_state w to m
request_private w (to_screen screen) m = apply_screen w screen m
request_private w (command c) m = apply_command w c m
request_private w (timer_event type when alarm_id) m = apply_timer_event w type when alarm_id m
