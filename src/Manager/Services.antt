-- ===== src/Manager/Services.antt =====
-- nn20clock_manager.c: what the settings screens call, past the manager's worker.
use videoalarmclock.Prelude.{ℕ, Option, none, some, List, if◌then◌else◌}
use videoalarmclock.Platform.{EspErr, Result, err, invalid_arg, invalid_state, is_ok}
use videoalarmclock.Alarm.Model.{AlarmConfig, id_none}
use videoalarmclock.Storage.{Storage, Config}
use videoalarmclock.Storage.Requests.{
  list_alarms, save_alarm, delete_alarm, load_config, save_config,
}
use videoalarmclock.Manager.{Manager, Answers}
use videoalarmclock.Manager.Ringing.{reload_timer}

-- `load_alarms` of nn20clock_app.c, the Timer's source; a storage that is NULL is refused
abbrev pub load_alarms : ℕ → Option Storage → Result (List AlarmConfig)
load_alarms rc none = err invalid_arg
load_alarms rc (some s) = list_alarms rc s

-- `alarm_service_list`
unfoldable pub alarm_service_list : Answers → Manager → Result (List AlarmConfig)
alarm_service_list w m = elim m.storage [
  | none ↦ err invalid_state
  | some s ↦ list_alarms w.get_rc s
]

-- `alarm_service_save`: with the id that is answered, 0 if there is none
unfoldable pub alarm_service_save : Answers → AlarmConfig → Manager → (Manager × EspErr) × ℕ
alarm_service_save w a m = elim m.storage [
  | none ↦ ((m, invalid_state), id_none)
  | some s ↦
      let ran = save_alarm w.flash w.room w.save_rc a s in
      let kept : Manager = record m { storage = some ran.0.0 } in
      ((if is_ok ran.0.1 then reload_timer w kept else (kept, ran.0.1)), ran.1)
]

-- `alarm_service_remove`
unfoldable pub alarm_service_remove : Answers → ℕ → Manager → Manager × EspErr
alarm_service_remove w alarm_id m = elim m.storage [
  | none ↦ (m, invalid_state)
  | some s ↦
      let ran = delete_alarm w.flash w.room w.delete_rc alarm_id s in
      let kept : Manager = record m { storage = some ran.0 } in
      if is_ok ran.1 then reload_timer w kept else (kept, ran.1)
]

-- `device_service_load` and `device_service_save`
unfoldable pub device_service_load : Answers → Manager → Result Config
device_service_load w m = elim m.storage [
  | none ↦ err invalid_state
  | some s ↦ load_config w.get_rc s
]

unfoldable pub device_service_save : Answers → Config → Manager → Manager × EspErr
device_service_save w c m = elim m.storage [
  | none ↦ (m, invalid_state)
  | some s ↦
      let ran = save_config w.flash w.save_rc c s in (record m { storage = some ran.0 }, ran.1)
]
