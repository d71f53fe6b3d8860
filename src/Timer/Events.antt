-- ===== src/Timer/Events.antt =====
-- Which of a tick's calls are alarm events: those of its scan.
use videoalarmclock.Prelude.Int.{ℤ, ◌-ℤ◌, pos}
use videoalarmclock.Prelude.{
  ℕ, ◌≡◌, refl, ap, Bool, true, false, none, some, List, [], ◌∷◌, ◌++◌, arith, if◌then◌else◌,
}
use videoalarmclock.Alarm.Model.{AlarmConfig}
use videoalarmclock.Alarm.Libc.{Calendar}
use videoalarmclock.Alarm.Occurrence.{occurs_in}
use videoalarmclock.Alarm.Slots.{keep_earliest, first_from, list_first_in}
use videoalarmclock.Timer.State.{
  EventType, Timer, Delivery, Subscriber, second, minute, alarm, deliver, emit, emit_alarm,
}
use videoalarmclock.Timer.Scan.{scan_alarms}
use videoalarmclock.Timer.Poll.{DateTime, to_local, with_reading, tick, poll}
use videoalarmclock.Timer.Corrections.{poll-tick}

abbrev pub is_alarm : EventType → Bool
is_alarm alarm = true
is_alarm _ = false

-- the alarm events among the calls
unfoldable pub alarm_events : List Delivery → List Delivery
alarm_events [] = []
alarm_events (d ∷ calls) =
    let rest = alarm_events calls in if is_alarm d.type then d ∷ rest else rest

-- the alarm events of ticks at the readings, in order
unfoldable pub rung : Calendar → Timer → List ℤ → List Delivery
rung c t [] = []
rung c t (now ∷ rest) = let (after, calls) = poll c t now in alarm_events calls ++ rung c after rest

alarm_events-append :
    (l m : List Delivery) → alarm_events (l ++ m) ≡ alarm_events l ++ alarm_events m
unfolding alarm_events
alarm_events-append [] m = refl
alarm_events-append (d ∷ l) m = ground (arith, alarm_events-append l m)

alarm_events-deliver :
    (l : List Subscriber) (event : Subscriber → Delivery)
    → ((s : Subscriber) → is_alarm (event s).type ≡ true)
    → alarm_events (deliver l event) ≡ deliver l event
unfolding alarm_events deliver
alarm_events-deliver [] event h = refl
alarm_events-deliver (s ∷ l) event h = ground (arith, alarm_events-deliver l event h, h s)

alarm_events-deliver_none :
    (l : List Subscriber) (event : Subscriber → Delivery)
    → ((s : Subscriber) → is_alarm (event s).type ≡ false)
    → alarm_events (deliver l event) ≡ []
unfolding alarm_events deliver
alarm_events-deliver_none [] event h = refl
alarm_events-deliver_none (s ∷ l) event h = ground (arith, alarm_events-deliver_none l event h, h s)

pub alarm_events-emit_alarm :
    (t : Timer) (id : ℕ) (when : ℤ) (late : ℕ)
    → alarm_events (emit_alarm t id when late) ≡ emit_alarm t id when late
unfolding emit_alarm
alarm_events-emit_alarm t id when late = alarm_events-deliver t.subscribers _ (λ s. refl)

alarm_events-reading :
    (b : Bool) (t : Timer) (type : EventType) (now : ℤ)
    → is_alarm type ≡ false
    → alarm_events (if b then emit t type now else []) ≡ []
unfolding emit alarm_events
alarm_events-reading true t type now h = alarm_events-deliver_none t.subscribers _ (λ s. h)
alarm_events-reading false t type now h = refl

pub append_nil : (l : List Delivery) → l ++ [] ≡ l
append_nil [] = refl
append_nil (d ∷ l) = ap (λ r. d ∷ r) (append_nil l)

-- only the scan's calls are alarm events
alarm_events-tick :
    (b d : Bool) (t : Timer) (now : ℤ) (calls : List Delivery)
    → alarm_events
        (calls ++ ((if b then emit t second now else []) ++ (if d then emit t minute now else [])))
      ≡ alarm_events calls
alarm_events-tick b d t now calls = simp (
  alarm_events-append,
  alarm_events-reading b t second now refl,
  alarm_events-reading d t minute now refl,
  append_nil,
)

-- the alarm events of a tick are those of its scan
pub alarm_events-poll :
    (c : Calendar) (t : Timer) (now : ℤ) (local : DateTime) (after : Timer) (calls : List Delivery)
    → t.running ≡ true
    → to_local c now ≡ some local
    → scan_alarms c t now ≡ (after, calls)
    → ((poll c t now).0 ≡ with_reading after now (now -ℤ pos local.second))
      × (alarm_events (poll c t now).1 ≡ alarm_events calls)
unfolding tick
alarm_events-poll c t now local after calls on e scanned =
    rw (poll-tick c t now on e, scanned)
      (refl, alarm_events-tick _ _ (with_reading after now (now -ℤ pos local.second)) now calls)

pub list_first_in-one :
    (c : Calendar) (a : AlarmConfig) (after until : ℤ)
    → list_first_in c (a ∷ []) after until
      ≡ keep_earliest none (occurs_in c (some a) after until) a.id
unfolding list_first_in first_from
list_first_in-one c a after until = refl
