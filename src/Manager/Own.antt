-- ===== src/Manager/Own.antt =====
-- nn20clock_manager.c: the managers that its requests lead to, and whose deadline stands in them.
use videoalarmclock.Prelude.Int.{ℤ, pos, eqb_ℤ, ltb_ℤ}
use videoalarmclock.Prelude.{
  ℕ, ◌≡◌, refl, sym, ap, ◌∙◌, ◌≢◌, ◌⊎◌, inl, inr, Bool, true, ◌&&◌, not, Option, none, arith, ◌==◌,
  Bool-cases, Option-cases, subst, if-either, if-split,
}
use videoalarmclock.Platform.{EspErr}
use videoalarmclock.Alarm.Model.{id_none}
use videoalarmclock.Timer.State.{Timer, EventType, second, minute, time_synced, alarm, error}
use videoalarmclock.Timer.Scan.{one_more}
use videoalarmclock.Timer.Control.{subscribe}
use videoalarmclock.Storage.{Storage}
use videoalarmclock.Manager.{
  State, time, alarm_settings, device_settings, alarm_ringing, media_playback, media_management,
  error_state, Command, mute, unmute, stop_alarm, snooze_alarm, cancel_snooze, volume_up,
  volume_down, brightness_up, brightness_down, open_settings, open_device_settings, close_settings,
  open_media_playback, close_media_playback, open_media_management, close_media_management,
  other_command, Manager, Answers,
}
use videoalarmclock.Manager.States.{transition_allowed, apply_state, apply_screen, refresh_timer}
use videoalarmclock.Manager.Ringing.{
  clear_ring_deadline, arm_ring_deadline, ring_deadline_passed, snooze_ringing, cancel_timer_snooze,
  report_ringing_ended, dismiss_alarm,
}
use videoalarmclock.Manager.Requests.{
  Request, to_state, to_screen, command, timer_event, request_private, apply_command,
  command_effect, cancel_snoozed, apply_timer_event, event_effect, tick_event, alarm_event,
  is_ringing,
}
use videoalarmclock.Manager.Control.{
  ctor, start, start_private, stop, stop_private, subscribe_failed, own_subscriber,
}
use videoalarmclock.Manager.Core.{
  Core, core, apply_screen-core, apply_state-taken, apply_state-rejected, snooze_ringing-core,
  dismiss_alarm-core, cancel_timer_snooze-core, report_ringing_ended-core, refresh_timer-core,
}

-- what the manager's worker can run
pub data Step : Manager → Manager → Type 0 where
  started : (w : Answers) (rc : ℕ) (m : Manager) → Step m (start w rc m).0
  stopped : (w : Answers) (rc : ℕ) (m : Manager) → Step m (stop w rc m).0
  ran : (w : Answers) (r : Request) (m : Manager) → Step m (request_private w r m)

-- from a construction on
pub data Reach : Manager → Type 0 where
  constructed :
      (storage : Option Storage) (timer : Timer) (on_state on_ringing_ended screen_factory : Bool)
      → Reach (ctor storage timer on_state on_ringing_ended screen_factory)
  after : (m m' : Manager) → Reach m → Step m m' → Reach m'

-- A deadline that stands while an alarm rings is that alarm's.
abbrev OwnOf : Core → Type 0
OwnOf c = c.ringing ≢ id_none → (c.deadline ≡ pos 0) ⊎ (c.deadline_alarm ≡ c.ringing)

abbrev pub Own : Manager → Type 0
Own m =
    m.ringing_alarm ≢ id_none
    → (m.ring_deadline ≡ pos 0) ⊎ (m.ring_deadline_alarm ≡ m.ringing_alarm)

by_core : (c : Core) (m : Manager) → core m ≡ c → OwnOf c → Own m
by_core c m e h = subst OwnOf (sym e) h

silent : (c : Core) → c.ringing ≡ id_none → OwnOf c
silent c h n = absurd (n h)

apply_state-Own : (w : Answers) (to : State) (m : Manager) → Own m → Own (apply_state w to m)
apply_state-Own w to m h = elim (Bool-cases (transition_allowed m.state to)) [
  | inl yes_edge ↦ by_core _ (apply_state w to m) (apply_state-taken w to m yes_edge) h
  | inr no_edge ↦ by_core _ (apply_state w to m) (apply_state-rejected w to m no_edge) h
]

dismiss_alarm-Own : (w : Answers) (m : Manager) → Own (dismiss_alarm w m)
dismiss_alarm-Own w m =
    by_core _ (dismiss_alarm w m) (dismiss_alarm-core w m) (λ n. absurd (n refl))

cancel_snoozed-Own : (w : Answers) (m : Manager) → Own m → Own (cancel_snoozed w m)
unfolding cancel_snoozed
cancel_snoozed-Own w m h =
    if-either Own (w.cancel_rc == 0)
      (by_core (core cleared) (refresh_timer w (report_ringing_ended m.timer.snooze_alarm cleared))
        (refresh_timer-core w (report_ringing_ended m.timer.snooze_alarm cleared)
          ∙ report_ringing_ended-core m.timer.snooze_alarm cleared)
        (λ n. inl refl))
      (by_core _ (cancel_timer_snooze w m) (cancel_timer_snooze-core w m) h)
  where
    cleared : Manager
    cleared = clear_ring_deadline (cancel_timer_snooze w m)

command_effect-Own : (w : Answers) (c : Command) (m : Manager) → Own m → Own (command_effect w c m)
unfolding command_effect
command_effect-Own w open_settings m h = apply_state-Own w alarm_settings m h
command_effect-Own w open_device_settings m h = apply_state-Own w device_settings m h
command_effect-Own w close_settings m h = apply_state-Own w time m h
command_effect-Own w open_media_playback m h = apply_state-Own w media_playback m h
command_effect-Own w close_media_playback m h = apply_state-Own w time m h
command_effect-Own w open_media_management m h = apply_state-Own w media_management m h
command_effect-Own w close_media_management m h = apply_state-Own w device_settings m h
command_effect-Own w stop_alarm m h =
    apply_state-Own w time (dismiss_alarm w m) (dismiss_alarm-Own w m)
command_effect-Own w snooze_alarm m h =
    apply_state-Own w time (snooze_ringing w m)
      (by_core _ (snooze_ringing w m) (snooze_ringing-core w m) (λ n. absurd (n refl)))
command_effect-Own w cancel_snooze m h = cancel_snoozed-Own w m h
command_effect-Own w mute m h = h
command_effect-Own w unmute m h = h
command_effect-Own w volume_up m h = h
command_effect-Own w volume_down m h = h
command_effect-Own w brightness_up m h = h
command_effect-Own w brightness_down m h = h
command_effect-Own w other_command m h = h

tick_event-Own :
    (w : Answers) (type : EventType) (when : ℤ) (m : Manager)
    → Own m
    → Own (tick_event w type when m)
unfolding tick_event
tick_event-Own w type when m h =
    if-either Own (is_ringing m.state && ring_deadline_passed m when)
      (apply_state-Own w time (dismiss_alarm w m) (dismiss_alarm-Own w m))
      (elim (Option-cases m.screen) [ inl e ↦ rw e h | inr (s, e) ↦ rw e h ])

armed-Own :
    (id : ℕ) (when : ℤ) (m : Manager) → m.ringing_alarm ≡ id → Own (arm_ring_deadline id when m)
unfolding arm_ring_deadline
armed-Own id when m e =
    if-split Own (not (eqb_ℤ m.ring_deadline (pos 0)) && m.ring_deadline_alarm == id)
      (λ same n. inr (ground (arith, same, e)))
      (λ other. if-either Own (not (ltb_ℤ (pos 0) when)) (λ n. inl refl) (λ n. inr (sym e)))

alarm_event-Own : (w : Answers) (when : ℤ) (id : ℕ) (m : Manager) → Own (alarm_event w when id m)
unfolding alarm_event
alarm_event-Own w when id m =
    let armed = arm_ring_deadline id when (record m { ringing_alarm = id }) in
    if-either Own (ring_deadline_passed armed when) (dismiss_alarm-Own w armed) (
      apply_state-Own w alarm_ringing (record armed { alarm_count = one_more armed.alarm_count })
        (armed-Own id when (record m { ringing_alarm = id }) refl))

event_effect-Own :
    (w : Answers) (type : EventType) (when : ℤ) (id : ℕ) (m : Manager)
    → Own m
    → Own (event_effect w type when id m)
unfolding event_effect
event_effect-Own w second when id m h = tick_event-Own w second when m h
event_effect-Own w minute when id m h = tick_event-Own w minute when m h
event_effect-Own w time_synced when id m h = tick_event-Own w time_synced when m h
event_effect-Own w alarm when id m h = alarm_event-Own w when id m
event_effect-Own w error when id m h = apply_state-Own w error_state m h

request_private-Own :
    (w : Answers) (r : Request) (m : Manager) → Own m → Own (request_private w r m)
unfolding request_private apply_command apply_timer_event
request_private-Own w (to_state to) m h = apply_state-Own w to m h
request_private-Own w (to_screen screen) m h =
    by_core _ (apply_screen w screen m) (apply_screen-core w screen m) h
request_private-Own w (command c) m h =
    command_effect-Own w c (record m { command_count = one_more m.command_count }) h
request_private-Own w (timer_event type when id) m h =
    event_effect-Own w type when id (record m { timer_event_count = one_more m.timer_event_count })
      h

start-Own : (w : Answers) (rc : ℕ) (m : Manager) → Own m → Own (start w rc m).0
unfolding start start_private
start-Own w rc m h =
    let subscribed = (subscribe m.timer own_subscriber w.subscribe_rc).0 in
    if-either {A = Manager × EspErr} (λ p. Own p.0) m.running h
      (if-either {A = Manager × EspErr} (λ p. Own p.0) (rc == 0)
        (if-either Own (subscribe_failed (subscribe m.timer own_subscriber w.subscribe_rc).1)
          (apply_state-Own w error_state (record m { timer = subscribed }) h)
          (apply_state-Own w time (record m { timer = subscribed; running = true }) h))
        h)

stop-Own : (w : Answers) (rc : ℕ) (m : Manager) → Own m → Own (stop w rc m).0
unfolding stop stop_private
stop-Own w rc m h =
    if-either {A = Manager × EspErr} (λ p. Own p.0) (not m.running) h
      (if-either {A = Manager × EspErr} (λ p. Own p.0) (rc == 0)
        (λ n. absurd (n (ap Core.ringing (apply_screen-core w none _)))) h)

-- In every manager that starts, stops and requests of all kinds lead to, from its construction on,
-- a deadline that stands while an alarm rings is that alarm's own.
pub Reach-Own : (m : Manager) → Reach m → Own m
unfolding ctor
Reach-Own m (constructed storage timer s e f) = silent (core m) refl
Reach-Own m (after m0 m1 r (started w rc q)) = start-Own w rc m0 (Reach-Own m0 r)
Reach-Own m (after m0 m1 r (stopped w rc q)) = stop-Own w rc m0 (Reach-Own m0 r)
Reach-Own m (after m0 m1 r (ran w req q)) = request_private-Own w req m0 (Reach-Own m0 r)
