-- ===== src/Examples/Manager.antt =====
-- A clock with one alarm.
use videoalarmclock.Prelude.{◌≡◌, refl, true, some, List, [], ◌∷◌, arith}
use videoalarmclock.Prelude.Int.{pos, ◌<ℤ◌, ◌≤ℤ◌}
use videoalarmclock.Platform.{esp_ok, ok}
use videoalarmclock.Alarm.Model.{one_off, recurrent, AlarmConfig}
use videoalarmclock.Alarm.Slots.Search.{IsTable}
use videoalarmclock.Examples.Fixtures.{early_bird, fridays}
use videoalarmclock.Timer.State.{second, alarm}
use videoalarmclock.Storage.{Storage, Layout, default_config}
use videoalarmclock.Storage.Requests.{Flash, save_alarm, get_alarm}
use videoalarmclock.Storage.Kept.{SaveEnds, save_alarm-SaveEnds, DeleteEnds}
use videoalarmclock.Storage.Reach.{Sound, constructed, after, alarm_saved, Reach-Sound}
use videoalarmclock.Storage.Restart.{save_alarm-get}
use videoalarmclock.Storage.{alarms_key, alarms_data}
use videoalarmclock.Storage.Written.{taking}
use videoalarmclock.Storage.Requests.{delete_alarm}
use videoalarmclock.Manager.{Manager, Answers, alarm_ringing, stop_alarm, snooze_alarm}
use videoalarmclock.Manager.Requests.{
  apply_command, apply_timer_event, request_private, timer_event,
}
use videoalarmclock.Manager.Services.{load_alarms, alarm_service_save}
use videoalarmclock.Manager.Core.{core}
use videoalarmclock.Manager.Edges.{Moves, request_private-Moves}
use videoalarmclock.Manager.Hour.{at_rest, tick-ends_ringing, snooze-keeps_hour}
use videoalarmclock.Manager.Own.{Own, Reach-Own}
use videoalarmclock.Manager.Lists.{stop_alarm-one_off, alarm_service_save-Scheduled}

abbrev sizes : Layout
sizes = record { config_bytes = 192; previous_bytes = 185; list_bytes = 5572 }

abbrev sound_flash : Flash
sound_flash = record { sizes = sizes; set_blob = esp_ok; commit = esp_ok }

abbrev kept : Storage
kept = record {
  config = default_config;
  alarms = early_bird ∷ [];
  ready = true;
  nvs_open = true;
  nvs_calls = [];
}

kept-IsTable : IsTable kept.alarms
kept-IsTable = record { capped = omega arith; distinct = (omega arith, tt, tt) }

save_alarm-SaveEnds_example :
    SaveEnds sound_flash fridays kept (save_alarm sound_flash true 0 fridays kept)
save_alarm-SaveEnds_example = save_alarm-SaveEnds sound_flash true 0 fridays kept kept-IsTable

abbrev both : List AlarmConfig
both = early_bird ∷ record fridays { id = 1 } ∷ []

abbrev with_fridays : Storage
with_fridays = record kept { alarms = both; nvs_calls = taking alarms_key (alarms_data both) 5572 }

save_alarm-get_example : get_alarm 0 1 with_fridays ≡ ok (record fridays { id = 1 })
unfolding save_alarm videoalarmclock.Alarm.Slots.list_put videoalarmclock.Alarm.Model.validate
    videoalarmclock.Alarm.Slots.next_free_id videoalarmclock.Alarm.Slots.list_find
save_alarm-get_example =
    save_alarm-get sound_flash true 0 (record fridays { id = 0 }) kept with_fridays 1 kept-IsTable
      refl

Reach-Sound_example :
    Sound (save_alarm sound_flash true 0 early_bird videoalarmclock.Storage.ctor).0.0
Reach-Sound_example = Reach-Sound _ (
    after videoalarmclock.Storage.ctor _ constructed
      (alarm_saved sound_flash true 0 early_bird videoalarmclock.Storage.ctor))

abbrev willing : Answers
willing = record {
  built = λ to. some 7;
  refresh_rc = 0;
  snooze_rc = 0;
  cancel_rc = 0;
  reload_rc = 0;
  subscribe_rc = 0;
  get_rc = 0;
  save_rc = 0;
  delete_rc = 0;
  now = pos 1000;
  source = load_alarms 0;
  room = true;
  flash = sound_flash;
}

abbrev idle : Manager
idle =
    videoalarmclock.Manager.Control.ctor (some kept) videoalarmclock.Timer.Control.ctor true true
      true

-- the early bird since a thousand seconds after 1970
abbrev ringing : Manager
ringing = record idle {
  state = alarm_ringing;
  ringing_alarm = 3;
  ring_deadline = pos 4600;
  ring_deadline_alarm = 3;
  running = true;
}

request_private-Moves_example :
    Moves ringing (request_private willing (timer_event alarm (pos 1540) 3) ringing)
request_private-Moves_example =
    request_private-Moves willing (timer_event alarm (pos 1540) 3) ringing

tick-ends_ringing_example : core (apply_timer_event willing second (pos 4600) 0 ringing) ≡ at_rest 0
unfolding videoalarmclock.Manager.Control.ctor
tick-ends_ringing_example =
    tick-ends_ringing willing second (pos 4600) 0 ringing tt refl (omega arith) (omega arith)

snooze-keeps_hour_example :
    let again =
      apply_timer_event willing alarm (pos 1540) 3 (apply_command willing snooze_alarm ringing) in
    (pos 1540 <ℤ pos 4600 → core again ≡ record (core ringing) { ringing = 3 })
    × (pos 4600 ≤ℤ pos 1540 → core again ≡ at_rest 0)
unfolding videoalarmclock.Manager.Control.ctor
snooze-keeps_hour_example =
    snooze-keeps_hour willing willing (pos 1540) 3 ringing refl (omega arith) refl

Reach-Own_example : Own (request_private willing (timer_event alarm (pos 1540) 3) idle)
Reach-Own_example = Reach-Own _ (
    videoalarmclock.Manager.Own.after idle _
      (videoalarmclock.Manager.Own.constructed (some kept) videoalarmclock.Timer.Control.ctor true
        true true)
      (videoalarmclock.Manager.Own.ran willing (timer_event alarm (pos 1540) 3) idle))

stop_alarm-one_off_example :
    let after = apply_command willing stop_alarm ringing in
    let asked = delete_alarm sound_flash true 0 3 kept in
    (early_bird.kind ≡ one_off
      → DeleteEnds sound_flash 3 kept asked × (after.storage ≡ some asked.0))
    × (early_bird.kind ≡ recurrent → after.storage ≡ some kept)
unfolding videoalarmclock.Manager.Control.ctor videoalarmclock.Alarm.Slots.Search.stored
stop_alarm-one_off_example =
    stop_alarm-one_off willing ringing kept early_bird refl kept-IsTable (omega arith) refl refl

alarm_service_save-Scheduled_example :
    (s' : Storage) × ((alarm_service_save willing (record fridays { id = 0 }) idle).0.0.storage
      ≡ some s')
    × ((alarm_service_save willing (record fridays { id = 0 }) idle).0.0.timer.alarms ≡ s'.alarms)
    × (get_alarm 0 1 s' ≡ ok (record fridays { id = 1 }))
unfolding videoalarmclock.Manager.Control.ctor videoalarmclock.Storage.Requests.list_alarms
    alarm_service_save save_alarm videoalarmclock.Alarm.Slots.list_put
    videoalarmclock.Alarm.Model.validate videoalarmclock.Manager.Ringing.reload_timer
    videoalarmclock.Alarm.Slots.next_free_id videoalarmclock.Timer.Control.reload_schedule
    videoalarmclock.Alarm.Slots.list_find
alarm_service_save-Scheduled_example =
    alarm_service_save-Scheduled willing (record fridays { id = 0 }) idle _ kept 1 refl kept-IsTable
      (λ s'. refl) refl
