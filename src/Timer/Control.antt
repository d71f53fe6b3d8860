-- ===== src/Timer/Control.antt =====
-- nn20clock_timer.c: the requests other than the tick. A request that waits is posted with the
-- worker's answer `rc`; only with 0 has it run.
use videoalarmclock.Prelude.Int.{ℤ, pos, ◌+ℤ◌}
use videoalarmclock.Prelude.{
  ℕ, suc, ◌-◌, ◌*◌, Bool, true, false, ◌||◌, not, Option, none, some, List, [], ◌∷◌, ◌++◌, leb,
  ◌==◌, if◌then◌else◌, length, take, replicate, set, get_or,
}
use videoalarmclock.Platform.{
  EspErr, esp_ok, esp_fail, no_mem, invalid_arg, invalid_state, not_found, timeout, Result, ok, err,
}
use videoalarmclock.Alarm.Model.{AlarmConfig, id_none}
use videoalarmclock.Timer.State.{Timer, Subscriber, Delivery, time_synced, emit}

-- `NN20CLOCK_TIMER_MAX_SUBSCRIBERS`
abbrev pub max_subscribers : ℕ
max_subscribers = 8

-- `post_result`
unfoldable pub post_result : ℕ → EspErr
post_result rc = if rc == 0 then esp_ok else if rc == 1 then timeout else invalid_state

-- `(posted != ESP_OK) ? posted : request.result`
abbrev pub waited : ℕ → Timer → Timer × EspErr → Timer × EspErr
waited rc t ran = if rc == 0 then ran else (t, post_result rc)

-- `refresh_private`
unfoldable pub refresh : Timer → Timer
refresh t = record t { force_emit = true }

-- `adopt_authoritative_time`, which `time_synced_private` and `time_set_private` call; `now` is what
-- `clock_fn` returns
unfoldable pub adopt_authoritative_time : Timer → ℤ → Timer × List Delivery
adopt_authoritative_time t now =
    let adopted : Timer = record t { synced = true; force_emit = true; last_valid = false } in
    (adopted, emit adopted time_synced now)

-- `nn20clock_timer_ctor`; the worker's creation is the caller's matter
unfoldable pub ctor : Timer
ctor = record {
  subscribers = [];
  last_valid = false;
  last_when = pos 0;
  last_minute_stamp = pos 0;
  force_emit = false;
  alarms = [];
  snooze_alarm = id_none;
  snooze_at = pos 0;
  last_fired = replicate 17 (pos 0);
  running = false;
  synced = false;
  missed_alarms = 0;
}

-- `apply_timezone`: whether `setenv` succeeds
abbrev pub apply_timezone : Bool → EspErr
apply_timezone set_tz = if set_tz then esp_ok else esp_fail

-- `timezone_private`
unfoldable pub timezone_private : Timer → Bool → Timer × EspErr
timezone_private t set_tz =
    if set_tz
    then (record t { force_emit = true; last_valid = false }, apply_timezone set_tz)
    else (t, apply_timezone set_tz)

-- `nn20clock_timer_set_timezone`; a worker that has stopped leaves the change to the caller
unfoldable pub set_timezone : Timer → List ℕ → Bool → ℕ → Timer × EspErr
unfolding timezone_private
set_timezone t [] set_tz rc = (t, invalid_arg)
set_timezone t (_ ∷ _) set_tz rc =
    if rc == 0
    then timezone_private t set_tz
    else if rc == 1
    then (t, timeout)
    else (t, apply_timezone set_tz)

-- `nn20clock_timer_start` up to the poll that it posts; `created` is the answer of the tick timer
unfoldable pub start : Timer → EspErr → Timer × EspErr
start t created =
    if t.running
    then (t, invalid_state)
    else elim created [ esp_ok ↦ (record t { running = true }, esp_ok) | e ↦ (t, e) ]

-- `nn20clock_timer_stop`, the polls queued before it having run
unfoldable pub stop : Timer → Timer × EspErr
stop t = if not t.running then (t, invalid_state) else (
  record t { running = false; last_valid = false; snooze_alarm = id_none; snooze_at = pos 0 },
  esp_ok,
)

-- `find_subscriber`: an index, or the count
unfoldable pub find_subscriber : List Subscriber → ℕ → ℕ
find_subscriber [] address = 0
find_subscriber (s ∷ subscribers) address =
    let rest = find_subscriber subscribers address in if s.address == address then 0 else suc rest

-- `subscribe_private`
unfoldable pub subscribe_private : Timer → Subscriber → Timer × EspErr
unfolding find_subscriber
subscribe_private t s =
    if not (find_subscriber t.subscribers s.address == length t.subscribers)
    then (t, invalid_state)
    else if leb max_subscribers (length t.subscribers)
    then (t, no_mem)
    else (record t { subscribers = t.subscribers ++ s ∷ [] }, esp_ok)

-- `nn20clock_timer_subscribe`
unfoldable pub subscribe : Timer → Subscriber → ℕ → Timer × EspErr
unfolding subscribe_private
subscribe t s rc =
    if not s.has_callback then (t, invalid_arg) else waited rc t (subscribe_private t s)

-- `unsubscribe_private`: the last entry fills the hole
unfoldable pub unsubscribe_private : Timer → ℕ → Timer × EspErr
unfolding find_subscriber
unsubscribe_private t address =
    let index = find_subscriber t.subscribers address in
    let final = length t.subscribers - 1 in
    if index == length t.subscribers then (t, not_found) else (
      record t {
        subscribers = take final (
            set t.subscribers index
              (get_or t.subscribers final (record { address = 0; has_callback = false })));
      },
      esp_ok,
    )

-- `nn20clock_timer_unsubscribe`
unfoldable pub unsubscribe : Timer → ℕ → ℕ → Timer × EspErr
unfolding unsubscribe_private
unsubscribe t address rc = waited rc t (unsubscribe_private t address)

-- `reload_private`: `room` is whether the allocation succeeds, `loaded` what the source answers
unfoldable pub reload_private : Timer → Bool → Result (List AlarmConfig) → Timer × EspErr
reload_private t room (ok loaded) =
    if room then (record t { alarms = loaded }, esp_ok) else (t, no_mem)
reload_private t room (err e) = if room then (t, e) else (t, no_mem)

-- `nn20clock_timer_reload_schedule`; `none` is a Timer with no source
unfoldable pub reload_schedule :
    Timer → Option (Result (List AlarmConfig)) → Bool → ℕ → Timer × EspErr
unfolding reload_private
reload_schedule t none room rc = (t, invalid_state)
reload_schedule t (some loaded) room rc = waited rc t (reload_private t room loaded)

-- `snooze_private`
unfoldable pub snooze_private : Timer → ℕ → ℕ → ℤ → Timer × EspErr
snooze_private t alarm_id minutes now =
    (record t { snooze_alarm = alarm_id; snooze_at = now +ℤ pos (minutes * 60) }, esp_ok)

-- `nn20clock_timer_snooze`
unfoldable pub snooze : Timer → ℕ → ℕ → ℤ → ℕ → Timer × EspErr
unfolding snooze_private
snooze t alarm_id minutes now rc =
    if alarm_id == id_none || minutes == 0
    then (t, invalid_arg)
    else waited rc t (snooze_private t alarm_id minutes now)

-- `cancel_snooze_private`
unfoldable pub cancel_snooze : Timer → Timer
cancel_snooze t = record t { snooze_alarm = id_none; snooze_at = pos 0 }
