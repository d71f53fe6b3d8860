-- ===== src/Manager/Lists.antt =====
-- nn20clock_manager.c: the alarms in the Storage and in the Timer's schedule.
use videoalarmclock.Prelude.{
  ℕ, ◌≡◌, refl, sym, ap, ap₂, ◌∙◌, ◌≢◌, inl, inr, Bool, true, false, ◌||◌, not, Option, none, some,
  List, arith, ◌==◌, if◌then◌else◌, Bool-cases, Option-cases, if-either, if-split, subst, if-off,
}
use videoalarmclock.Platform.{EspErr, ok, esp_ok, is_ok, not_ok, is_ok_lem, no_mem}
use videoalarmclock.Alarm.Model.{AlarmConfig, one_off, recurrent, id_none}
use videoalarmclock.Alarm.Slots.Search.{IsTable, stored}
use videoalarmclock.Timer.State.{Timer}
use videoalarmclock.Timer.Scan.{one_more}
use videoalarmclock.Timer.Control.{reload_schedule, reload_private, waited}
use videoalarmclock.Timer.Subscribers.{post_result-failed}
use videoalarmclock.Storage.{Storage}
use videoalarmclock.Storage.Requests.{get_alarm, delete_alarm, save_alarm}
use videoalarmclock.Storage.Kept.{DeleteEnds, delete_alarm-DeleteEnds}
use videoalarmclock.Storage.Restart.{get_alarm-stored, save_alarm-get}
use videoalarmclock.Manager.{State, time, Manager, Answers, stop_alarm}
use videoalarmclock.Manager.States.{
  transition_allowed, same_screen, drop_screen, refresh_timer, show_screen, apply_screen,
  follow_state, apply_state,
}
use videoalarmclock.Manager.Ringing.{
  clear_ring_deadline, cancel_timer_snooze, report_ringing_ended, reload_timer, remove_one_off,
  finish_alarm, dismiss_alarm,
}
use videoalarmclock.Manager.Requests.{apply_command, command_effect}
use videoalarmclock.Manager.Services.{alarm_service_save}

-- a manager with that storage
abbrev Holds : Option Storage → Manager → Type 0
Holds s m = m.storage ≡ s

drop_screen-storage : (m : Manager) → Holds m.storage (drop_screen m)
unfolding drop_screen
drop_screen-storage m = elim (Option-cases m.screen) [
  | inl e ↦ rw e refl
  | inr (old, e) ↦ rw e refl
]

show_screen-storage :
    (w : Answers) (screen : Option ℕ) (m : Manager) → Holds m.storage (show_screen w screen m)
unfolding show_screen refresh_timer
show_screen-storage w none m = refl
show_screen-storage w (some new) m = if-either (Holds m.storage) (w.refresh_rc == 0) refl refl

apply_screen-storage :
    (w : Answers) (screen : Option ℕ) (m : Manager) → Holds m.storage (apply_screen w screen m)
unfolding apply_screen
apply_screen-storage w screen m =
    if-either (Holds m.storage) (same_screen m.screen screen) refl
      (show_screen-storage w screen (drop_screen m) ∙ drop_screen-storage m)

apply_state-storage :
    (w : Answers) (to : State) (m : Manager) → Holds m.storage (apply_state w to m)
unfolding apply_state follow_state
apply_state-storage w to m =
    if-either (Holds m.storage) (transition_allowed m.state to)
      (if-either (Holds m.storage) screened.on_state same same) refl
  where
    moved : Manager
    moved = record m { state = to }

    screened : Manager
    screened = if m.screen_factory then apply_screen w (w.built to) moved else moved

    same : Holds m.storage screened
    same =
        if-either (Holds m.storage) m.screen_factory (apply_screen-storage w (w.built to) moved)
          refl

-- the storage after the end of alarm `a`
finish_alarm-storage :
    (w : Answers) (id : ℕ) (s : Storage) (a : AlarmConfig) (m : Manager)
    → m.storage ≡ some s
    → get_alarm w.get_rc id s ≡ ok a
    → (a.kind ≡ one_off
        → Holds
            (some (delete_alarm w.flash w.room w.delete_rc id s).0)
            (finish_alarm w id (some s) m))
      × (a.kind ≡ recurrent → Holds (some s) (finish_alarm w id (some s) m))
unfolding finish_alarm remove_one_off reload_timer
finish_alarm-storage w id s a m h e = (
  λ k.
      rw (finish_alarm, e, k)
        (if-either (Holds (some (delete_alarm w.flash w.room w.delete_rc id s).0))
          (is_ok (delete_alarm w.flash w.room w.delete_rc id s).1) refl refl),
  λ k. rw (finish_alarm, e, k) h,
)

cancel-storage : (w : Answers) (m : Manager) → Holds m.storage (cancel_timer_snooze w m)
unfolding cancel_timer_snooze
cancel-storage w m = if-either (Holds m.storage) (w.cancel_rc == 0) refl refl

report-storage : (id : ℕ) (m : Manager) → Holds m.storage (report_ringing_ended id m)
unfolding report_ringing_ended
report-storage id m =
    if-either (Holds m.storage) (id == id_none || not m.on_ringing_ended) refl refl

-- When a ringing alarm that the Storage has is stopped, the Storage's queue having taken the question
-- for it, then for a one-off alarm the Storage is what one request to delete that alarm leaves: it
-- has failed and memory has the alarm still, or NVS has taken the list without it and memory holds
-- the same. With a recurrent alarm the Storage is as before.
pub stop_alarm-one_off :
    (w : Answers) (m : Manager) (s : Storage) (a : AlarmConfig)
    → m.storage ≡ some s
    → IsTable s.alarms
    → m.ringing_alarm ≢ id_none
    → w.get_rc ≡ 0
    → stored s.alarms m.ringing_alarm ≡ some a
    → let after = apply_command w stop_alarm m in
      let asked = delete_alarm w.flash w.room w.delete_rc m.ringing_alarm s in
      (a.kind ≡ one_off
        → DeleteEnds w.flash m.ringing_alarm s asked × (after.storage ≡ some asked.0))
      × (a.kind ≡ recurrent → after.storage ≡ some s)
unfolding apply_command command_effect dismiss_alarm
stop_alarm-one_off w m s a h t n rc found = (
  λ k. (
    delete_alarm-DeleteEnds w.flash w.room w.delete_rc m.ringing_alarm s t,
    ended (some (delete_alarm w.flash w.room w.delete_rc m.ringing_alarm s).0) (finished.0 k),
  ),
  λ k. ended (some s) (finished.1 k),
)
  where
    silent : Manager
    silent = clear_ring_deadline (
        cancel_timer_snooze w
          (record m { command_count = one_more m.command_count; ringing_alarm = id_none }))

    told : Manager
    told = report_ringing_ended m.ringing_alarm silent

    kept : told.storage ≡ some s
    kept =
        report-storage m.ringing_alarm silent
        ∙ (cancel-storage w
              (record m { command_count = one_more m.command_count; ringing_alarm = id_none })
            ∙ h)

    got : get_alarm w.get_rc m.ringing_alarm s ≡ ok a
    got =
        subst (λ q. get_alarm q m.ringing_alarm s ≡ ok a) (sym rc)
          (get_alarm-stored s m.ringing_alarm a n found)

    finished :
        (a.kind ≡ one_off
          → Holds
              (some (delete_alarm w.flash w.room w.delete_rc m.ringing_alarm s).0)
              (finish_alarm w m.ringing_alarm (some s) told))
        × (a.kind ≡ recurrent → Holds (some s) (finish_alarm w m.ringing_alarm (some s) told))
    finished = finish_alarm-storage w m.ringing_alarm s a told kept got

    ended :
        (o : Option Storage)
        → Holds o (finish_alarm w m.ringing_alarm (some s) told)
        → Holds o (
            apply_state w time
              (dismiss_alarm w (record m { command_count = one_more m.command_count })))
    ended o p =
        apply_state-storage w time
          (dismiss_alarm w (record m { command_count = one_more m.command_count }))
        ∙ if-off (Holds o) (m.ringing_alarm == id_none) silent (ground (arith, n))
            (subst (λ q. Holds o (finish_alarm w m.ringing_alarm q told)) (sym h) p)

loaded_lem :
    (rc : ℕ) (t : Timer) (room : Bool) (alarms : List AlarmConfig)
    → (waited rc t (reload_private t room (ok alarms))).1 ≡ esp_ok
    → (waited rc t (reload_private t room (ok alarms))).0.alarms ≡ alarms
unfolding reload_private
loaded_lem rc t true alarms =
    if-split {A = Timer × EspErr} (λ p. p.1 ≡ esp_ok → Timer.alarms p.0 ≡ alarms) (rc == 0)
      (λ h q. refl) (λ h q. absurd (post_result-failed rc h q))
loaded_lem rc t false alarms =
    if-split {A = Timer × EspErr} (λ p. p.1 ≡ esp_ok → Timer.alarms p.0 ≡ alarms) (rc == 0)
      (λ h q. absurd (not_ok no_mem refl q)) (λ h q. absurd (post_result-failed rc h q))

-- a reload that succeeds, with what the source answered
reload_timer-Loaded :
    (w : Answers) (m : Manager) (alarms : List AlarmConfig)
    → w.source m.storage ≡ ok alarms
    → (reload_timer w m).1 ≡ esp_ok
    → ((reload_timer w m).0.timer.alarms ≡ alarms) × ((reload_timer w m).0.storage ≡ m.storage)
unfolding reload_timer reload_schedule reload_private
reload_timer-Loaded w m alarms e fine = (
  subst
      (λ r.
        (waited w.reload_rc m.timer (reload_private m.timer w.room r)).1 ≡ esp_ok
        → (waited w.reload_rc m.timer (reload_private m.timer w.room r)).0.alarms ≡ alarms)
      (sym e) (loaded_lem w.reload_rc m.timer w.room alarms) fine,
  refl,
)

-- An alarm that a settings screen has saved with ESP_OK is what the Storage gets for its id, and the
-- Timer's schedule is the Storage's list, if the Timer's source answers with that list and the
-- Storage had at most sixteen alarms of distinct ids.
pub alarm_service_save-Scheduled :
    (w : Answers) (a : AlarmConfig) (m after : Manager) (s : Storage) (id : ℕ)
    → m.storage ≡ some s
    → IsTable s.alarms
    → ((s' : Storage) → w.source (some s') ≡ ok s'.alarms)
    → alarm_service_save w a m ≡ ((after, esp_ok), id)
    → (s' : Storage) × (after.storage ≡ some s')
      × (after.timer.alarms ≡ s'.alarms)
      × (get_alarm 0 id s' ≡ ok (record a { id = id }))
unfolding alarm_service_save
alarm_service_save-Scheduled w a m after s id h t source e = elim (Bool-cases (is_ok r.0.1)) [
  | inr bad ↦ absurd (not_ok r.0.1 bad (rw bad at (ap (λ x. x.0.1) e')))
  | inl fine ↦
      let reloaded : (reload_timer w kept).1 ≡ esp_ok = rw fine at (ap (λ x. x.0.1) e') in
      let same : (reload_timer w kept).0 ≡ after = rw fine at (ap (λ x. x.0.0) e') in
      let loaded = reload_timer-Loaded w kept r.0.0.alarms (source r.0.0) reloaded in
      let whole : r ≡ ((r.0.0, esp_ok), id) =
        ap₂ (λ c n. ((r.0.0, c), n)) (is_ok_lem r.0.1 fine) (ap (λ x. x.1) e') in
      (
        r.0.0,
        sym (ap Manager.storage same) ∙ loaded.1,
        ap (λ x. Timer.alarms (Manager.timer x)) (sym same) ∙ loaded.0,
        save_alarm-get w.flash w.room w.save_rc a s r.0.0 id t whole,
      )
]
  where
    r : (Storage × EspErr) × ℕ
    r = save_alarm w.flash w.room w.save_rc a s

    kept : Manager
    kept = record m { storage = some r.0.0 }

    answer : (Manager × EspErr) × ℕ
    answer = ((if is_ok r.0.1 then reload_timer w kept else (kept, r.0.1)), r.1)

    e' : answer ≡ ((after, esp_ok), id)
    e' = rw h at e
