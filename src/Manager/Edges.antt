-- ===== src/Manager/Edges.antt =====
-- nn20clock_manager.c: which changes of state a request can make.
use videoalarmclock.Prelude.Int.{ℤ, pos, eqb_ℤ, ltb_ℤ}
use videoalarmclock.Prelude.{
  ℕ, ◌≡◌, refl, sym, ap, ◌∙◌, ◌⊎◌, inl, inr, true, ◌&&◌, not, ◌==◌, Bool-cases, Option-cases,
  if-either, subst,
}
use videoalarmclock.Timer.State.{EventType, second, minute, time_synced, alarm, error}
use videoalarmclock.Timer.Scan.{one_more}
use videoalarmclock.Manager.{
  State, time, alarm_settings, device_settings, alarm_ringing, media_playback, media_management,
  error_state, Command, mute, unmute, stop_alarm, snooze_alarm, cancel_snooze, volume_up,
  volume_down, brightness_up, brightness_down, open_settings, open_device_settings, close_settings,
  open_media_playback, close_media_playback, open_media_management, close_media_management,
  other_command, Manager, Answers,
}
use videoalarmclock.Manager.States.{transition_allowed, apply_state}
use videoalarmclock.Manager.Ringing.{
  clear_ring_deadline, arm_ring_deadline, ring_deadline_passed, snooze_ringing, cancel_timer_snooze,
  report_ringing_ended, dismiss_alarm,
}
use videoalarmclock.Manager.Requests.{
  Request, to_state, to_screen, command, timer_event, request_private, apply_command,
  command_effect, cancel_snoozed, apply_timer_event, event_effect, tick_event, alarm_event,
  is_ringing,
}
use videoalarmclock.Manager.Core.{
  Core, core, apply_screen-core, apply_state-taken, apply_state-rejected, snooze_ringing-core,
  dismiss_alarm-core, cancel_timer_snooze-core, report_ringing_ended-core, refresh_timer-core,
}

-- The state stays, or goes along an edge of the table, and then nothing is counted as rejected.
abbrev Moved : Core → Core → Type 0
Moved c c' =
    (c'.state ≡ c.state)
    ⊎ ((transition_allowed c.state c'.state ≡ true) × (c'.rejected ≡ c.rejected))

abbrev pub Moves : Manager → Manager → Type 0
Moves m m' =
    (m'.state ≡ m.state)
    ⊎ ((transition_allowed m.state m'.state ≡ true)
        × (m'.rejected_transitions ≡ m.rejected_transitions))

apply_state-Moves : (w : Answers) (to : State) (m : Manager) → Moves m (apply_state w to m)
apply_state-Moves w to m = elim (Bool-cases (transition_allowed m.state to)) [
  | inl h ↦ subst (Moved (core m)) (sym (apply_state-taken w to m h)) (inr (h, refl))
  | inr h ↦ subst (Moved (core m)) (sym (apply_state-rejected w to m h)) (inl refl)
]

-- a change of state behind a part of the request that makes none
behind :
    (m m' m'' : Manager)
    → m'.state ≡ m.state
    → m'.rejected_transitions ≡ m.rejected_transitions
    → Moves m' m''
    → Moves m m''
behind m m' m'' p q (inl e) = inl (e ∙ p)
behind m m' m'' p q (inr (h, r)) =
    inr (subst (λ s. transition_allowed s m''.state ≡ true) p h, r ∙ q)

then_state :
    (w : Answers) (to : State) (m m' : Manager)
    → m'.state ≡ m.state
    → m'.rejected_transitions ≡ m.rejected_transitions
    → Moves m (apply_state w to m')
then_state w to m m' p q = behind m m' (apply_state w to m') p q (apply_state-Moves w to m')

dismissed-Moves :
    (w : Answers) (to : State) (m : Manager) → Moves m (apply_state w to (dismiss_alarm w m))
dismissed-Moves w to m =
    let e = dismiss_alarm-core w m in
    then_state w to m (dismiss_alarm w m) (ap Core.state e) (ap Core.rejected e)

snoozed-Moves :
    (w : Answers) (to : State) (m : Manager) → Moves m (apply_state w to (snooze_ringing w m))
snoozed-Moves w to m =
    let e = snooze_ringing-core w m in
    then_state w to m (snooze_ringing w m) (ap Core.state e) (ap Core.rejected e)

cancel_snoozed-core : (w : Answers) (m : Manager) → (cancel_snoozed w m).state ≡ m.state
unfolding cancel_snoozed
cancel_snoozed-core w m =
    if-either (λ x. Manager.state x ≡ m.state) (w.cancel_rc == 0)
      (ap Core.state (
          refresh_timer-core w (
            report_ringing_ended m.timer.snooze_alarm
              (clear_ring_deadline (cancel_timer_snooze w m)))
          ∙ report_ringing_ended-core m.timer.snooze_alarm
              (clear_ring_deadline (cancel_timer_snooze w m)))
        ∙ ap Core.state (cancel_timer_snooze-core w m))
      (ap Core.state (cancel_timer_snooze-core w m))

command_effect-Moves : (w : Answers) (c : Command) (m : Manager) → Moves m (command_effect w c m)
unfolding command_effect
command_effect-Moves w open_settings m = apply_state-Moves w alarm_settings m
command_effect-Moves w open_device_settings m = apply_state-Moves w device_settings m
command_effect-Moves w close_settings m = apply_state-Moves w time m
command_effect-Moves w open_media_playback m = apply_state-Moves w media_playback m
command_effect-Moves w close_media_playback m = apply_state-Moves w time m
command_effect-Moves w open_media_management m = apply_state-Moves w media_management m
command_effect-Moves w close_media_management m = apply_state-Moves w device_settings m
command_effect-Moves w stop_alarm m = dismissed-Moves w time m
command_effect-Moves w snooze_alarm m = snoozed-Moves w time m
command_effect-Moves w cancel_snooze m = inl (cancel_snoozed-core w m)
command_effect-Moves w mute m = inl refl
command_effect-Moves w unmute m = inl refl
command_effect-Moves w volume_up m = inl refl
command_effect-Moves w volume_down m = inl refl
command_effect-Moves w brightness_up m = inl refl
command_effect-Moves w brightness_down m = inl refl
command_effect-Moves w other_command m = inl refl

tick_event-Moves :
    (w : Answers) (type : EventType) (when : ℤ) (m : Manager) → Moves m (tick_event w type when m)
unfolding tick_event
tick_event-Moves w type when m =
    if-either (Moves m) (is_ringing m.state && ring_deadline_passed m when)
      (dismissed-Moves w time m)
      (elim (Option-cases m.screen) [ inl e ↦ rw e (inl refl) | inr (s, e) ↦ rw e (inl refl) ])

armed-core :
    (id : ℕ) (when : ℤ) (m : Manager)
    → ((arm_ring_deadline id when m).state ≡ m.state)
      × ((arm_ring_deadline id when m).rejected_transitions ≡ m.rejected_transitions)
unfolding arm_ring_deadline
armed-core id when m =
    let Same : Manager → Type 0 = λ x.
      (Manager.state x ≡ m.state) × (Manager.rejected_transitions x ≡ m.rejected_transitions) in
    if-either Same (not (eqb_ℤ m.ring_deadline (pos 0)) && m.ring_deadline_alarm == id) (refl, refl)
      (if-either Same (not (ltb_ℤ (pos 0) when)) (refl, refl) (refl, refl))

alarm_event-Moves :
    (w : Answers) (when : ℤ) (id : ℕ) (m : Manager) → Moves m (alarm_event w when id m)
unfolding alarm_event
alarm_event-Moves w when id m =
    let armed = arm_ring_deadline id when (record m { ringing_alarm = id }) in
    let a = armed-core id when (record m { ringing_alarm = id }) in
    if-either (Moves m) (ring_deadline_passed armed when)
      (let e = dismiss_alarm-core w armed in inl (ap Core.state e ∙ a.0))
      (then_state w alarm_ringing m (record armed { alarm_count = one_more armed.alarm_count }) a.0
        a.1)

event_effect-Moves :
    (w : Answers) (type : EventType) (when : ℤ) (id : ℕ) (m : Manager)
    → Moves m (event_effect w type when id m)
unfolding event_effect
event_effect-Moves w second when id m = tick_event-Moves w second when m
event_effect-Moves w minute when id m = tick_event-Moves w minute when m
event_effect-Moves w time_synced when id m = tick_event-Moves w time_synced when m
event_effect-Moves w alarm when id m = alarm_event-Moves w when id m
event_effect-Moves w error when id m = apply_state-Moves w error_state m

-- A request that the manager's worker runs, of any kind and in any state, leaves the state as it is
-- or takes it along one edge of the table, and then counts nothing as rejected.
pub request_private-Moves :
    (w : Answers) (r : Request) (m : Manager) → Moves m (request_private w r m)
unfolding request_private apply_command apply_timer_event
request_private-Moves w (to_state to) m = apply_state-Moves w to m
request_private-Moves w (to_screen screen) m = inl (ap Core.state (apply_screen-core w screen m))
request_private-Moves w (command c) m =
    command_effect-Moves w c (record m { command_count = one_more m.command_count })
request_private-Moves w (timer_event type when id) m =
    event_effect-Moves w type when id
      (record m { timer_event_count = one_more m.timer_event_count })
