-- ===== src/Timer/State.antt =====
-- nn20clock_timer.c: the Timer's state, its events, and who is told of them.
use videoalarmclock.Prelude.Int.{ℤ, pos_part, neg_part}
use videoalarmclock.Prelude.{ℕ, ◌+◌, ◌-◌, ◌%◌, ◌^◌, Bool, not, List, [], ◌∷◌, ◌==◌, if◌then◌else◌}
use videoalarmclock.Alarm.Model.{AlarmConfig, id_none}

-- `NN20ClockTimerEventType`
pub data EventType : Type 0 where
  second minute time_synced alarm error : EventType

-- `NN20ClockTimerSubscriber`: the address of the struct, and whether `on_event` is set
pub record Subscriber : Type 0 where
  pub address : ℕ
  pub has_callback : Bool

-- one call of a callback: `NN20ClockTimerEvent` with its payload. Events other than alarms carry no
-- alarm id and no lateness; both are 0 in theirs.
pub record Delivery : Type 0 where
  pub subscriber : Subscriber
  pub type : EventType
  pub displayed_time : ℤ
  pub time_synced : Bool
  pub snooze_pending : Bool
  pub alarm_id : ℕ
  pub late_seconds : ℕ

-- `struct NN20ClockTimer`, with the fields of `Reading` written out
pub record Timer : Type 0 where
  pub subscribers : List Subscriber
  pub last_valid : Bool
  pub last_when : ℤ
  pub last_minute_stamp : ℤ
  pub force_emit : Bool
  pub alarms : List AlarmConfig
  pub snooze_alarm : ℕ
  pub snooze_at : ℤ
  pub last_fired : List ℤ
  pub running : Bool
  pub synced : Bool
  pub missed_alarms : ℕ  -- atomic_uint

-- a cast of a signed number to an unsigned one of `w` bits
abbrev pub to_unsigned : ℕ → ℤ → ℕ
to_unsigned w z = (pos_part z + 2 ^ w - neg_part z % 2 ^ w) % 2 ^ w

-- `snooze_alarm != NN20CLOCK_ALARM_ID_NONE`
abbrev pub snooze_is_pending : Timer → Bool
snooze_is_pending t = not (t.snooze_alarm == id_none)

-- the loop over the subscribers that `emit` and `emit_alarm` share
unfoldable pub deliver : List Subscriber → (Subscriber → Delivery) → List Delivery
deliver [] event = []
deliver (s ∷ subscribers) event =
    let rest = deliver subscribers event in if s.has_callback then event s ∷ rest else rest

-- `emit`
unfoldable pub emit : Timer → EventType → ℤ → List Delivery
emit t type when = deliver t.subscribers (λ s. record {
  subscriber = s;
  type = type;
  displayed_time = when;
  time_synced = t.synced;
  snooze_pending = snooze_is_pending t;
  alarm_id = 0;
  late_seconds = 0;
})

-- `emit_alarm`
unfoldable pub emit_alarm : Timer → ℕ → ℤ → ℕ → List Delivery
emit_alarm t id scheduled late = deliver t.subscribers (λ s. record {
  subscriber = s;
  type = alarm;
  displayed_time = scheduled;
  time_synced = t.synced;
  snooze_pending = snooze_is_pending t;
  alarm_id = id;
  late_seconds = late;
})
