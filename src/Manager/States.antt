-- ===== src/Manager/States.antt =====
-- nn20clock_manager.c: the table of states, and the screen that follows the state.
use videoalarmclock.Prelude.{ℕ, Bool, true, false, Option, none, some, ◌==◌, if◌then◌else◌}
use videoalarmclock.Timer.Scan.{one_more}
use videoalarmclock.Timer.Control.{refresh}
use videoalarmclock.Manager.{
  State, boot, time, alarm_settings, device_settings, alarm_ringing, media_playback,
  media_management, error_state, destroyed, shown, state_changed, Manager, Answers, called,
}

-- `TRANSITIONS`, and `nn20clock_manager_transition_allowed` of two enumerators
unfoldable pub transition_allowed : State → State → Bool
transition_allowed boot time = true
transition_allowed boot error_state = true
transition_allowed time alarm_settings = true
transition_allowed time device_settings = true
transition_allowed time media_playback = true
transition_allowed time alarm_ringing = true
transition_allowed time error_state = true
transition_allowed alarm_settings time = true
transition_allowed alarm_settings alarm_ringing = true
transition_allowed alarm_settings error_state = true
transition_allowed device_settings time = true
transition_allowed device_settings media_management = true
transition_allowed device_settings alarm_ringing = true
transition_allowed device_settings error_state = true
transition_allowed alarm_ringing time = true
transition_allowed alarm_ringing alarm_ringing = true
transition_allowed alarm_ringing error_state = true
transition_allowed media_playback time = true
transition_allowed media_playback alarm_ringing = true
transition_allowed media_playback error_state = true
transition_allowed media_management device_settings = true
transition_allowed media_management alarm_ringing = true
transition_allowed media_management error_state = true
transition_allowed error_state time = true
transition_allowed error_state alarm_settings = true
transition_allowed _ _ = false

-- `current == screen`
abbrev pub same_screen : Option ℕ → Option ℕ → Bool
same_screen none none = true
same_screen (some a) (some b) = a == b
same_screen _ _ = false

-- the outgoing screen
unfoldable pub drop_screen : Manager → Manager
drop_screen m = elim m.screen [
  | none ↦ m
  | some old ↦ called (destroyed old) (record m { screen = none })
]

-- `nn20clock_timer_refresh`
unfoldable pub refresh_timer : Answers → Manager → Manager
refresh_timer w m = if w.refresh_rc == 0 then record m { timer = refresh m.timer } else m

-- the incoming one
unfoldable pub show_screen : Answers → Option ℕ → Manager → Manager
unfolding refresh_timer
show_screen w none m = record m { screen = none }
show_screen w (some new) m = refresh_timer w (called (shown new) (record m { screen = some new }))

-- `apply_screen`
unfoldable pub apply_screen : Answers → Option ℕ → Manager → Manager
unfolding drop_screen show_screen
apply_screen w screen m =
    if same_screen m.screen screen then m else show_screen w screen (drop_screen m)

-- the screen and the callback of a change of state
unfoldable pub follow_state : Answers → State → State → Manager → Manager
unfolding apply_screen
follow_state w from to m =
    let screened = if m.screen_factory then apply_screen w (w.built to) m else m in
    if screened.on_state then called (state_changed from to) screened else screened

-- `apply_state`
unfoldable pub apply_state : Answers → State → Manager → Manager
unfolding follow_state
apply_state w to m =
    if transition_allowed m.state to
    then follow_state w m.state to (record m { state = to })
    else record m { rejected_transitions = one_more m.rejected_transitions }
