-- ===== src/Manager/Core.antt =====
-- nn20clock_manager.c: what the parts of a request leave of the state, and of the alarm that rings.
use videoalarmclock.Prelude.{
  ℕ, ◌≡◌, refl, ap, ◌∙◌, inl, inr, true, false, ◌||◌, not, Option, none, some, arith, ◌==◌,
  if◌then◌else◌, Option-cases, if-either, if-split,
}
use videoalarmclock.Prelude.Int.{ℤ, pos}
use videoalarmclock.Platform.{Result-cases, is_ok}
use videoalarmclock.Alarm.Model.{AlarmKind, one_off, recurrent, other_kind, id_none}
use videoalarmclock.Storage.{Storage}
use videoalarmclock.Storage.Requests.{get_alarm, delete_alarm}
use videoalarmclock.Timer.Scan.{one_more}
use videoalarmclock.Manager.{State, shown, Manager, Answers, called}
use videoalarmclock.Manager.States.{
  transition_allowed, same_screen, drop_screen, refresh_timer, show_screen, apply_screen,
  follow_state, apply_state,
}
use videoalarmclock.Manager.Ringing.{
  clear_ring_deadline, snooze_ringing, cancel_timer_snooze, report_ringing_ended, reload_timer,
  remove_one_off, finish_alarm, dismiss_alarm,
}

-- the state, the transitions rejected, the alarm that rings, and the deadline with its alarm
pub record Core : Type 0 where
  pub state : State
  pub rejected : ℕ
  pub ringing : ℕ
  pub deadline : ℤ
  pub deadline_alarm : ℕ

abbrev pub core : Manager → Core
core m = record {
  state = m.state;
  rejected = m.rejected_transitions;
  ringing = m.ringing_alarm;
  deadline = m.ring_deadline;
  deadline_alarm = m.ring_deadline_alarm;
}

-- a manager with that much
abbrev Has : Core → Manager → Type 0
Has c m = core m ≡ c

drop_screen-core : (m : Manager) → core (drop_screen m) ≡ core m
unfolding drop_screen
drop_screen-core m = elim (Option-cases m.screen) [ inl e ↦ rw e refl | inr (old, e) ↦ rw e refl ]

pub refresh_timer-core : (w : Answers) (m : Manager) → core (refresh_timer w m) ≡ core m
unfolding refresh_timer
refresh_timer-core w m = if-either (Has (core m)) (w.refresh_rc == 0) refl refl

show_screen-core :
    (w : Answers) (screen : Option ℕ) (m : Manager) → core (show_screen w screen m) ≡ core m
unfolding show_screen
show_screen-core w none m = refl
show_screen-core w (some new) m =
    refresh_timer-core w (called (shown new) (record m { screen = some new }))

pub apply_screen-core :
    (w : Answers) (screen : Option ℕ) (m : Manager) → core (apply_screen w screen m) ≡ core m
unfolding apply_screen
apply_screen-core w screen m =
    if-either (Has (core m)) (same_screen m.screen screen) refl
      (show_screen-core w screen (drop_screen m) ∙ drop_screen-core m)

follow_state-core :
    (w : Answers) (from to : State) (m : Manager) → core (follow_state w from to m) ≡ core m
unfolding follow_state
follow_state-core w from to m =
    let screened = if m.screen_factory then apply_screen w (w.built to) m else m in
    let same : core screened ≡ core m =
      if-either (Has (core m)) m.screen_factory (apply_screen-core w (w.built to) m) refl in
    if-either (Has (core m)) screened.on_state same same

-- a change of state that the table has, and one that it does not have
pub apply_state-taken :
    (w : Answers) (to : State) (m : Manager)
    → transition_allowed m.state to ≡ true
    → core (apply_state w to m) ≡ record (core m) { state = to }
unfolding apply_state
apply_state-taken w to m h = rw h (follow_state-core w m.state to (record m { state = to }))

pub apply_state-rejected :
    (w : Answers) (to : State) (m : Manager)
    → transition_allowed m.state to ≡ false
    → core (apply_state w to m) ≡ record (core m) { rejected = one_more m.rejected_transitions }
unfolding apply_state
apply_state-rejected w to m h = rw h refl

pub snooze_ringing-core :
    (w : Answers) (m : Manager) → core (snooze_ringing w m) ≡ record (core m) { ringing = id_none }
unfolding snooze_ringing
snooze_ringing-core w m =
    if-split (Has (record (core m) { ringing = id_none })) (m.ringing_alarm == id_none)
      (λ e.
        let z : m.ringing_alarm ≡ id_none = ground (arith, e) in
        ap (λ r. record (core m) { ringing = r }) z)
      (λ e. refl)

pub cancel_timer_snooze-core : (w : Answers) (m : Manager) → core (cancel_timer_snooze w m) ≡ core m
unfolding cancel_timer_snooze
cancel_timer_snooze-core w m = if-either (Has (core m)) (w.cancel_rc == 0) refl refl

pub report_ringing_ended-core : (id : ℕ) (m : Manager) → core (report_ringing_ended id m) ≡ core m
unfolding report_ringing_ended
report_ringing_ended-core id m =
    if-either (Has (core m)) (id == id_none || not m.on_ringing_ended) refl refl

finish_alarm-core :
    (w : Answers) (id : ℕ) (o : Option Storage) (m : Manager)
    → core (finish_alarm w id o m) ≡ core m
unfolding finish_alarm remove_one_off reload_timer
finish_alarm-core w id none m = refl
finish_alarm-core w id (some s) m = elim (Result-cases (get_alarm w.get_rc id s)) [
  | inr (e, h) ↦ rw (finish_alarm, h) refl
  | inl (a, h) ↦ rw (finish_alarm, h) (kind a.kind)
]
  where
    kind : (k : AlarmKind) → core (elim k [ one_off ↦ remove_one_off w id s m | _ ↦ m ]) ≡ core m
    kind one_off =
        if-either (Has (core m)) (is_ok (delete_alarm w.flash w.room w.delete_rc id s).1) refl refl
    kind recurrent = refl
    kind other_kind = refl

pub dismiss_alarm-core :
    (w : Answers) (m : Manager)
    → core (dismiss_alarm w m)
      ≡ record (core m) { ringing = id_none; deadline = pos 0; deadline_alarm = id_none }
unfolding dismiss_alarm cancel_timer_snooze
dismiss_alarm-core w m = if-either (Has over) (m.ringing_alarm == id_none) quiet (
    finish_alarm-core w m.ringing_alarm m.storage (report_ringing_ended m.ringing_alarm silent)
    ∙ (report_ringing_ended-core m.ringing_alarm silent ∙ quiet))
  where
    over : Core
    over = record (core m) { ringing = id_none; deadline = pos 0; deadline_alarm = id_none }

    silent : Manager
    silent = clear_ring_deadline (cancel_timer_snooze w (record m { ringing_alarm = id_none }))

    quiet : core silent ≡ over
    quiet = if-either (λ x. core (clear_ring_deadline x) ≡ over) (w.cancel_rc == 0) refl refl
