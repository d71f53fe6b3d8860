-- ===== src/Manager/Hour.antt =====
-- nn20clock_manager.c: the hour that an alarm may ring, across its snoozes.
use videoalarmclock.Prelude.Int.{ℤ, pos, ◌<ℤ◌, ◌≤ℤ◌, eqb_ℤ}
use videoalarmclock.Prelude.{
  ℕ, ◌≡◌, refl, sym, ap, ◌∙◌, Bool, true, false, ◌&&◌, not, arith, ◌==◌, if◌then◌else◌, subst,
  if-on, if-off,
}
use videoalarmclock.Alarm.Model.{id_none}
use videoalarmclock.Timer.State.{EventType, second, minute, time_synced, alarm, error}
use videoalarmclock.Timer.Scan.{one_more}
use videoalarmclock.Manager.{State, time, alarm_ringing, snooze_alarm, Manager, Answers}
use videoalarmclock.Manager.States.{transition_allowed, apply_state}
use videoalarmclock.Manager.Ringing.{
  arm_ring_deadline, ring_deadline_passed, snooze_ringing, dismiss_alarm,
}
use videoalarmclock.Manager.Requests.{
  apply_command, command_effect, apply_timer_event, event_effect, tick_event, alarm_event,
  is_ringing,
}
use videoalarmclock.Manager.Core.{
  Core, core, apply_state-taken, snooze_ringing-core, dismiss_alarm-core,
}

-- an event of the clock
abbrev pub IsTick : EventType → Type 0
IsTick second = Unit
IsTick minute = Unit
IsTick time_synced = Unit
IsTick alarm = ⊥
IsTick error = ⊥

-- the clock face, with no alarm that rings and no deadline
abbrev pub at_rest : ℕ → Core
at_rest rejected = record {
  state = time;
  rejected = rejected;
  ringing = id_none;
  deadline = pos 0;
  deadline_alarm = id_none;
}

-- a state that is entered behind a part that leaves `c`
entered :
    (w : Answers) (to : State) (m : Manager) (c : Core)
    → core m ≡ c
    → transition_allowed c.state to ≡ true
    → core (apply_state w to m) ≡ record c { state = to }
entered w to m c e h =
    apply_state-taken w to m (subst (λ s. transition_allowed s to ≡ true) (sym (ap Core.state e)) h)
    ∙ ap {A = Core} (λ x. record x { state = to }) e

both : (a b : Bool) → a ≡ true → b ≡ true → a && b ≡ true
both a b h k = ground (arith, h, k)

ringing-time : (s : State) → s ≡ alarm_ringing → transition_allowed s time ≡ true
unfolding transition_allowed
ringing-time s h = rw h refl

time-ringing : (s : State) → s ≡ time → transition_allowed s alarm_ringing ≡ true
unfolding transition_allowed
time-ringing s h = rw h refl

passed_lem :
    (m : Manager) (when : ℤ)
    → pos 0 <ℤ m.ring_deadline
    → m.ring_deadline ≤ℤ when
    → ring_deadline_passed m when ≡ true
unfolding ring_deadline_passed
passed_lem m when n h = ground arith

not_passed_lem :
    (m : Manager) (when : ℤ) → when <ℤ m.ring_deadline → ring_deadline_passed m when ≡ false
unfolding ring_deadline_passed
not_passed_lem m when h = ground arith

tick_event-ended :
    (w : Answers) (type : EventType) (when : ℤ) (m : Manager)
    → m.state ≡ alarm_ringing
    → pos 0 <ℤ m.ring_deadline
    → m.ring_deadline ≤ℤ when
    → core (tick_event w type when m) ≡ at_rest m.rejected_transitions
unfolding tick_event
tick_event-ended w type when m ringing n h =
    if-on (λ x. core x ≡ at_rest m.rejected_transitions)
      (is_ringing m.state && ring_deadline_passed m when) _
      (both _ _ (ap is_ringing ringing) (passed_lem m when n h))
      (entered w time (dismiss_alarm w m) _ (dismiss_alarm-core w m) (ringing-time _ ringing))

-- While an alarm rings, the first tick at or behind its deadline ends it: the clock face is shown,
-- no alarm rings and no deadline stands, and no transition is rejected.
pub tick-ends_ringing :
    (w : Answers) (type : EventType) (when : ℤ) (id : ℕ) (m : Manager)
    → IsTick type
    → m.state ≡ alarm_ringing
    → pos 0 <ℤ m.ring_deadline
    → m.ring_deadline ≤ℤ when
    → core (apply_timer_event w type when id m) ≡ at_rest m.rejected_transitions
unfolding apply_timer_event event_effect
tick-ends_ringing w second when id m t r n h = tick_event-ended w second when _ r n h
tick-ends_ringing w minute when id m t r n h = tick_event-ended w minute when _ r n h
tick-ends_ringing w time_synced when id m t r n h = tick_event-ended w time_synced when _ r n h
tick-ends_ringing w alarm when id m t r n h = elim t [ ]
tick-ends_ringing w error when id m t r n h = elim t [ ]

-- the manager after the snooze of alarm `id`
snoozed-core :
    (w : Answers) (m : Manager)
    → m.state ≡ alarm_ringing
    → core (apply_command w snooze_alarm m) ≡ record (core m) { state = time; ringing = id_none }
unfolding apply_command command_effect
snoozed-core w m r =
    let counted : Manager = record m { command_count = one_more m.command_count } in
    entered w time (snooze_ringing w counted) _ (snooze_ringing-core w counted) (ringing-time _ r)

arm-standing :
    (id : ℕ) (when : ℤ) (m : Manager)
    → pos 0 <ℤ m.ring_deadline
    → m.ring_deadline_alarm ≡ id
    → arm_ring_deadline id when m ≡ m
unfolding arm_ring_deadline
arm-standing id when m n own =
    if-on (λ x. x ≡ m) (not (eqb_ℤ m.ring_deadline (pos 0)) && m.ring_deadline_alarm == id) _
      (ground (arith, n, own)) refl

-- an alarm that comes while its own deadline stands
alarm_event-again :
    (w : Answers) (when : ℤ) (id : ℕ) (m : Manager)
    → m.state ≡ time
    → pos 0 <ℤ m.ring_deadline
    → m.ring_deadline_alarm ≡ id
    → (when <ℤ m.ring_deadline
        → core (alarm_event w when id m) ≡ record (core m) { state = alarm_ringing; ringing = id })
      × (m.ring_deadline ≤ℤ when → core (alarm_event w when id m) ≡ at_rest m.rejected_transitions)
unfolding alarm_event
alarm_event-again w when id m r n own = (
  λ early.
      subst (λ armed. core (event armed) ≡ record (core m) { state = alarm_ringing; ringing = id })
        (sym standing)
        (if-off (λ x. core x ≡ record (core m) { state = alarm_ringing; ringing = id })
          (ring_deadline_passed rung when) _ (not_passed_lem rung when early)
          (apply_state-taken w alarm_ringing
            (record rung { alarm_count = one_more rung.alarm_count }) (time-ringing _ r))),
  λ late.
      subst (λ armed. core (event armed) ≡ at_rest m.rejected_transitions) (sym standing)
        (if-on (λ x. core x ≡ at_rest m.rejected_transitions) (ring_deadline_passed rung when) _
          (passed_lem rung when n late)
          (dismiss_alarm-core w rung
            ∙ ap {A = State} (λ s. record (at_rest m.rejected_transitions) { state = s }) r)),
)
  where
    rung : Manager
    rung = record m { ringing_alarm = id }

    event : Manager → Manager
    event armed =
        if ring_deadline_passed armed when
        then dismiss_alarm w armed
        else apply_state w alarm_ringing (record armed { alarm_count = one_more armed.alarm_count })

    standing : arm_ring_deadline id when rung ≡ rung
    standing = arm-standing id when rung n own

-- A snooze does not give an alarm more time: from an alarm that rings under its own deadline, the
-- snooze command and then an alarm event of the same id ring it again under the same deadline, if
-- the event's time is before it, and otherwise end it, without a ring; whatever the Timer and the
-- Storage answer.
pub snooze-keeps_hour :
    (w w' : Answers) (when : ℤ) (id : ℕ) (m : Manager)
    → m.state ≡ alarm_ringing
    → pos 0 <ℤ m.ring_deadline
    → m.ring_deadline_alarm ≡ id
    → let again = apply_timer_event w' alarm when id (apply_command w snooze_alarm m) in
      (when <ℤ m.ring_deadline → core again ≡ record (core m) { ringing = id })
      × (m.ring_deadline ≤ℤ when → core again ≡ at_rest m.rejected_transitions)
unfolding apply_timer_event event_effect
snooze-keeps_hour w w' when id m r n own = (
  λ early.
      (again.0 (subst (λ d. when <ℤ d) (sym same) early))
      ∙ (ap {A = Core} (λ c. record c { state = alarm_ringing; ringing = id }) e
          ∙ ap {A = State} (λ s. record (core m) { state = s; ringing = id }) (sym r)),
  λ late.
      again.1 (subst (λ d. d ≤ℤ when) (sym same) late) ∙ ap {A = ℕ} at_rest (ap Core.rejected e),
)
  where
    snoozed : Manager
    snoozed = apply_command w snooze_alarm m

    e : core snoozed ≡ record (core m) { state = time; ringing = id_none }
    e = snoozed-core w m r

    same : snoozed.ring_deadline ≡ m.ring_deadline
    same = ap Core.deadline e

    counted : Manager
    counted = record snoozed { timer_event_count = one_more snoozed.timer_event_count }

    again :
        (when <ℤ counted.ring_deadline
          → core (alarm_event w' when id counted)
            ≡ record (core counted) { state = alarm_ringing; ringing = id })
        × (counted.ring_deadline ≤ℤ when
            → core (alarm_event w' when id counted) ≡ at_rest counted.rejected_transitions)
    again =
        alarm_event-again w' when id counted (ap Core.state e)
          (subst (λ d. pos 0 <ℤ d) (sym same) n) (ap Core.deadline_alarm e ∙ own)
