-- ===== src/Manager/Control.antt =====
-- nn20clock_manager.c: construction, start and stop, and how a request reaches the worker.
use videoalarmclock.Prelude.{
  ℕ, Bool, true, false, not, Option, none, some, List, [], ◌==◌, if◌then◌else◌,
}
use videoalarmclock.Prelude.Int.{pos}
use videoalarmclock.Platform.{EspErr, esp_ok, invalid_arg, invalid_state, no_mem}
use videoalarmclock.Alarm.Model.{id_none}
use videoalarmclock.ReqPool.{claim, release}
use videoalarmclock.Timer.State.{Timer, Subscriber}
use videoalarmclock.Timer.Control.{post_result, subscribe, unsubscribe}
use videoalarmclock.Storage.{Storage}
use videoalarmclock.Manager.{State, boot, time, error_state, Manager, Answers}
use videoalarmclock.Manager.States.{apply_state, apply_screen}
use videoalarmclock.Manager.Ringing.{clear_ring_deadline, cancel_timer_snooze}

-- `MANAGER_MAX_PENDING`
abbrev pub max_pending : ℕ
max_pending = 8

-- `nn20clock_manager_ctor`, with the callbacks that are set before the start
unfoldable pub ctor : Option Storage → Timer → Bool → Bool → Bool → Manager
ctor storage timer on_state on_ringing_ended screen_factory = record {
  storage = storage;
  timer = timer;
  on_state = on_state;
  on_ringing_ended = on_ringing_ended;
  screen_factory = screen_factory;
  ringing_alarm = id_none;
  alarm_count = 0;
  ring_deadline = pos 0;
  ring_deadline_alarm = id_none;
  screen = none;
  running = false;
  state = boot;
  rejected_transitions = 0;
  command_count = 0;
  timer_event_count = 0;
  calls = [];
}

-- the member `subscriber`
abbrev pub own_subscriber : Subscriber
own_subscriber = record { address = 1; has_callback = true }

-- `err != ESP_OK && err != ESP_ERR_INVALID_STATE`
abbrev pub subscribe_failed : EspErr → Bool
subscribe_failed esp_ok = false
subscribe_failed invalid_state = false
subscribe_failed _ = true

-- `start_private`
unfoldable pub start_private : Answers → Manager → Manager
start_private w m =
    let ran = subscribe m.timer own_subscriber w.subscribe_rc in
    if subscribe_failed ran.1
    then apply_state w error_state (record m { timer = ran.0 })
    else apply_state w time (record m { timer = ran.0; running = true })

-- `nn20clock_manager_start`
unfoldable pub start : Answers → ℕ → Manager → Manager × EspErr
unfolding start_private
start w rc m =
    if m.running
    then (m, invalid_state)
    else if rc == 0
    then (start_private w m, esp_ok)
    else (m, post_result rc)

-- `stop_private`
unfoldable pub stop_private : Answers → Manager → Manager
stop_private w m =
    let unsubscribed : Manager = record m {
      timer = (unsubscribe m.timer own_subscriber.address w.subscribe_rc).0;
    } in
    let cleared = clear_ring_deadline (cancel_timer_snooze w unsubscribed) in
    let gone = apply_screen w none (record cleared { ringing_alarm = id_none }) in
    record gone { running = false; state = boot }

-- `nn20clock_manager_stop`
unfoldable pub stop : Answers → ℕ → Manager → Manager × EspErr
unfolding stop_private
stop w rc m =
    if not m.running
    then (m, invalid_state)
    else if rc == 0
    then (stop_private w m, esp_ok)
    else (m, post_result rc)

-- `claim_request` and the post that follows it, which `nn20clock_manager_request_state`, `_set_screen`,
-- `_handle_ui_command` and `_on_timer_event` share: the pool after it, and what is answered. The
-- request is in the queue if that is ESP_OK, and its slot is claimed until it has run.
unfoldable pub submit : ℕ → List Bool → List Bool × EspErr
submit rc in_use =
    let (slot, claimed) = claim in_use in
    if slot == max_pending
    then (claimed, no_mem)
    else if rc == 0
    then (claimed, esp_ok)
    else (release claimed slot, post_result rc)

-- `nn20clock_manager_request_state`; `none` is a value out of the enumeration
unfoldable pub request_state : Option State → ℕ → List Bool → List Bool × EspErr
unfolding submit
request_state none rc in_use = (in_use, invalid_arg)
request_state (some to) rc in_use = submit rc in_use

-- the setters of callbacks before the start: `nn20clock_manager_set_state_callback`,
-- `_set_ringing_ended_callback` and `_set_screen_factory`
unfoldable pub set_state_callback : Bool → Manager → Manager × EspErr
set_state_callback given m =
    if m.running then (m, invalid_state) else (record m { on_state = given }, esp_ok)

unfoldable pub set_ringing_ended_callback : Bool → Manager → Manager × EspErr
set_ringing_ended_callback given m =
    if m.running then (m, invalid_state) else (record m { on_ringing_ended = given }, esp_ok)

unfoldable pub set_screen_factory : Bool → Manager → Manager × EspErr
set_screen_factory given m =
    if m.running then (m, invalid_state) else (record m { screen_factory = given }, esp_ok)
