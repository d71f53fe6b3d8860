-- ===== src/Examples/Store.antt =====
-- The window of a stream, the pool of requests, the list of alarms and that of subscribers.
use videoalarmclock.Prelude.{
  ℕ, zero, ◌+◌, ◌%◌, ◌≤◌, ◌<◌, ◌≡◌, refl, ◌≢◌, ◌↔◌, true, false, none, some, [], ◌∷◌, arith, ◌==◌,
  if◌then◌else◌, length, get_or,
}
use videoalarmclock.Platform.{err, esp_ok, no_mem, EspErr}
use videoalarmclock.Ringbuf.{Ringbuf, read, writable}
use videoalarmclock.Ringbuf.Window.{stretch, fill}
use videoalarmclock.Ringbuf.Stream.{here, next, filling, releasing, Reach-read}
use videoalarmclock.ReqPool.Threads.{run, fresh, run-exclusive}
use videoalarmclock.Alarm.Model.{validate, id_none}
use videoalarmclock.Alarm.Validate.{Evaluable, validate-Evaluable}
use videoalarmclock.Alarm.Slots.{list_put, list_remove, next_free_id, alarm_max}
use videoalarmclock.Alarm.Slots.Search.{IsTable, Absent, stored}
use videoalarmclock.Alarm.Slots.Put.{Put, list_put-Put, list_put_refused}
use videoalarmclock.Alarm.Slots.Remove.{list_remove_lem}
use videoalarmclock.Timer.Control.{ctor}
use videoalarmclock.Timer.State.{Subscriber, Timer}
use videoalarmclock.Timer.Subscribers.{IsRegistry, times}
use videoalarmclock.Examples.Fixtures.{early_bird, fridays}

-- a file of which each byte is its position
abbrev file : ℕ → ℕ
file o = o % 256

abbrev four : Ringbuf
four = record { buf = 0 ∷ 0 ∷ 0 ∷ 0 ∷ []; capacity = 4; base = 10; produced = 10; consumed = 10 }

Reach-read_example :
    read (fill file (record (fill file four 4) { consumed = 13 }) 3) 13 4
    ≡ some (13 ∷ 14 ∷ 15 ∷ 16 ∷ [])
unfolding videoalarmclock.Ringbuf.init writable fill videoalarmclock.Ringbuf.produced
    videoalarmclock.Ringbuf.consume_to stretch
Reach-read_example =
    Reach-read file (0 ∷ 0 ∷ 0 ∷ 0 ∷ []) 10 13 4 {r = four}
      {s = fill file (record (fill file four 4) { consumed = 13 }) 3} (omega arith) (omega arith)
      refl
      (next
        (next (next here (filling four 4 (omega arith) (omega arith)))
          (releasing (fill file four 4) 13))
        (filling (record (fill file four 4) { consumed = 13 }) 3 (omega arith) (omega arith)))
      (omega arith) (omega arith)

-- both threads pass the first slot at once, and one of them takes the second
run-exclusive_example :
    (zero ≡ zero)
    × (0 < length (run (fresh 2) (0 ∷ 0 ∷ 1 ∷ 1 ∷ 1 ∷ [])).flags)
    × (get_or (run (fresh 2) (0 ∷ 0 ∷ 1 ∷ 1 ∷ 1 ∷ [])).flags 0 false ≡ true)
unfolding run videoalarmclock.ReqPool.Threads.step videoalarmclock.ReqPool.init
run-exclusive_example = run-exclusive 2 (0 ∷ 0 ∷ 1 ∷ 1 ∷ 1 ∷ []) 0 0 0 refl refl

both-IsTable : IsTable (early_bird ∷ fridays ∷ [])
both-IsTable = record {
  capped = omega arith;
  distinct = (omega arith, (omega arith, tt), (omega arith, tt, tt));
}

validate-Evaluable_example : Evaluable fridays
unfolding validate videoalarmclock.Alarm.Model.zeroed
validate-Evaluable_example = validate-Evaluable fridays refl

list_put-Put_example :
    (validate (some early_bird) ≡ esp_ok)
    × Put
        (early_bird ∷ fridays ∷ [])
        (record early_bird { id = 0 })
        (early_bird ∷ fridays ∷ record early_bird { id = 1 } ∷ [], 1)
unfolding list_put validate videoalarmclock.Alarm.Model.zeroed next_free_id
    videoalarmclock.Alarm.Slots.list_find
list_put-Put_example =
    list_put-Put (early_bird ∷ fridays ∷ []) (record early_bird { id = 0 })
      {out = (early_bird ∷ fridays ∷ record early_bird { id = 1 } ∷ [], 1)} both-IsTable refl

list_put_refused_example :
    ((list_put (early_bird ∷ fridays ∷ []) (some fridays) ≡ err no_mem) ↔ (
      (length (early_bird ∷ fridays ∷ []) ≡ alarm_max)
      × (fridays.id ≢ id_none → Absent 4 (early_bird ∷ fridays ∷ []))))
    × ((e : EspErr) → list_put (early_bird ∷ fridays ∷ []) (some fridays) ≡ err e → e ≡ no_mem)
unfolding validate videoalarmclock.Alarm.Model.zeroed
list_put_refused_example = list_put_refused (early_bird ∷ fridays ∷ []) fridays both-IsTable refl

list_remove_lem_example :
    IsTable (fridays ∷ [])
    × (1 + 1 ≡ 2)
    × ((j : ℕ)
        → stored (fridays ∷ []) j ≡ (if j == 3 then none else stored (early_bird ∷ fridays ∷ []) j))
unfolding list_remove videoalarmclock.Alarm.Slots.list_find
list_remove_lem_example =
    list_remove_lem (early_bird ∷ fridays ∷ []) 3 {alarms' = fridays ∷ []} both-IsTable refl

abbrev screen : Subscriber
screen = record { address = 7; has_callback = true }

abbrev watched : Timer
watched = record ctor { subscribers = screen ∷ [] }

once_each : (a : ℕ) → times (screen ∷ []) a ≤ 1
unfolding times
once_each a = ground arith

watched-IsRegistry : IsRegistry watched
watched-IsRegistry = record { capped = omega arith; once = once_each }
