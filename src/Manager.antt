-- ===== src/Manager.antt =====
-- sources/components/nn20clock_manager: the state machine of the clock, and the alarm that rings.
-- The state is what the manager's worker owns, with the Timer and the Storage that it borrows, and
-- the calls that it has made of others, in order. Each function is a part of one request that the
-- worker runs; what others answer to it is an argument.
pub mod States
pub mod Ringing
pub mod Requests
pub mod Control
pub mod Services
pub mod Core
pub mod Edges
pub mod Hour
pub mod Own
pub mod Lists
use videoalarmclock.Prelude.{ℕ, Bool, Option, List, [], ◌∷◌, ◌++◌}
use videoalarmclock.Prelude.Int.{ℤ}
use videoalarmclock.Platform.{Result}
use videoalarmclock.Alarm.Model.{AlarmConfig}
use videoalarmclock.Timer.State.{Timer, EventType}
use videoalarmclock.Storage.{Storage}
use videoalarmclock.Storage.Requests.{Flash}

-- `NN20ClockManagerState`
pub data State : Type 0 where
  boot time alarm_settings device_settings alarm_ringing media_playback media_management : State
  error_state : State

-- `NN20ClockUiCommandType`; `other_command` stands for every value that is no enumerator
pub data Command : Type 0 where
  mute unmute stop_alarm snooze_alarm cancel_snooze volume_up volume_down : Command
  brightness_up brightness_down open_settings open_device_settings close_settings : Command
  open_media_playback close_media_playback open_media_management : Command
  close_media_management other_command : Command

-- a call of a screen or a callback; a screen is its address
pub data Call : Type 0 where
  destroyed shown : ℕ → Call
  screen_event : ℕ → EventType → ℤ → Call
  state_changed : State → State → Call
  ringing_ended : ℕ → Call

-- `NN20CLOCK_MANAGER_MAX_RING_SECONDS`, `NN20CLOCK_ALARM_DEFAULT_SNOOZE_MINUTES`
abbrev pub max_ring_seconds : ℕ
max_ring_seconds = 3600

abbrev pub default_snooze_minutes : ℕ
default_snooze_minutes = 9

-- `struct NN20ClockManager`; of a callback, whether it is set. A storage that is NULL is `none`.
pub record Manager : Type 0 where
  pub storage : Option Storage
  pub timer : Timer
  pub on_state : Bool
  pub on_ringing_ended : Bool
  pub screen_factory : Bool
  pub ringing_alarm : ℕ
  pub alarm_count : ℕ
  pub ring_deadline : ℤ
  pub ring_deadline_alarm : ℕ
  pub screen : Option ℕ
  pub running : Bool
  pub state : State
  pub rejected_transitions : ℕ
  pub command_count : ℕ
  pub timer_event_count : ℕ
  pub calls : List Call

-- What the others answer within one request: the screen that the factory builds for a state, the
-- queues of the Timer's and the Storage's workers to each kind of request, the Timer's clock, its
-- source of alarms, memory, and flash.
pub record Answers : Type 0 where
  pub built : State → Option ℕ
  pub refresh_rc : ℕ
  pub snooze_rc : ℕ
  pub cancel_rc : ℕ
  pub reload_rc : ℕ
  pub subscribe_rc : ℕ
  pub get_rc : ℕ
  pub save_rc : ℕ
  pub delete_rc : ℕ
  pub now : ℤ
  pub source : Option Storage → Result (List AlarmConfig)
  pub room : Bool
  pub flash : Flash

-- one more call
abbrev pub called : Call → Manager → Manager
called c m = record m { calls = m.calls ++ c ∷ [] }
