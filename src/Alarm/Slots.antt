-- ===== src/Alarm/Slots.antt =====
-- nn20clock_alarm.c: the list of alarms. A list is that of its first `count` records; what the array
-- holds past them is never read.
pub mod Search
pub mod Writes
pub mod Put
pub mod Remove
pub mod Earliest
use videoalarmclock.Prelude.Int.{ℤ, ltb_ℤ}
use videoalarmclock.Prelude.{
  ℕ, zero, suc, ◌+◌, ◌-◌, Bool, true, false, Option, none, some, List, [], ◌∷◌, ◌++◌, leb, ◌==◌,
  if◌then◌else◌, length, set, take, get_or,
}
use videoalarmclock.Platform.{esp_ok, invalid_arg, no_mem, not_found, Result, ok, err}
use videoalarmclock.Alarm.Model.{AlarmConfig, id_none, validate, zeroed}
use videoalarmclock.Alarm.Libc.{Calendar}
use videoalarmclock.Alarm.Occurrence.{occurs_in}

-- `NN20CLOCK_ALARM_MAX`
abbrev pub alarm_max : ℕ
alarm_max = 16

-- the loop of `list_find`, from index `i` on
unfoldable pub find_from : List AlarmConfig → ℕ → ℕ → Result ℕ
find_from [] id i = err not_found
find_from (a ∷ alarms) id i =
    let rest = find_from alarms id (i + 1) in if a.id == id then ok i else rest

-- `nn20clock_alarm_list_find`
unfoldable pub list_find : List AlarmConfig → ℕ → Result ℕ
unfolding find_from
list_find alarms id = if id == id_none then err invalid_arg else find_from alarms id 0

abbrev pub is_not_found : Result ℕ → Bool
is_not_found (err not_found) = true
is_not_found _ = false

-- the loop of `next_free_id` from `candidate` on, `todo` rounds to go
unfoldable pub free_id_from : List AlarmConfig → ℕ → ℕ → ℕ
free_id_from alarms zero candidate = id_none
free_id_from alarms (suc todo) candidate =
    let rest = free_id_from alarms todo (candidate + 1) in
    if is_not_found (list_find alarms candidate) then candidate else rest

-- `next_free_id`: the candidates 1 to 17
unfoldable pub next_free_id : List AlarmConfig → ℕ
unfolding free_id_from
next_free_id alarms = free_id_from alarms (alarm_max + 1) 1

-- the record written behind the others, and its id
abbrev pub assigned : List AlarmConfig → AlarmConfig → AlarmConfig
assigned alarms a = if a.id == id_none then record a { id = next_free_id alarms } else a

-- `list_put` from the full test on
unfoldable pub list_add : List AlarmConfig → AlarmConfig → Result (List AlarmConfig × ℕ)
list_add alarms a =
    if leb alarm_max (length alarms)
    then err no_mem
    else ok (alarms ++ assigned alarms a ∷ [], (assigned alarms a).id)

-- `list_put` once the alarm is valid: in place if its id is there
unfoldable pub list_store : List AlarmConfig → AlarmConfig → Result (List AlarmConfig × ℕ)
unfolding list_add
list_store alarms a = if a.id == id_none then list_add alarms a else elim (list_find alarms a.id) [
  | ok index ↦ ok (set alarms index a, a.id)
  | err e ↦ list_add alarms a
]

-- `nn20clock_alarm_list_put`: the list after it and the id given out
unfoldable pub list_put : List AlarmConfig → Option AlarmConfig → Result (List AlarmConfig × ℕ)
unfolding list_store
list_put alarms none = err invalid_arg
list_put alarms (some a) = elim (validate (some a)) [ esp_ok ↦ list_store alarms a | e ↦ err e ]

-- `nn20clock_alarm_list_remove`: the last record fills the hole
unfoldable pub list_remove : List AlarmConfig → ℕ → Result (List AlarmConfig)
list_remove alarms id = elim (list_find alarms id) [
  | err e ↦ err e
  | ok index ↦
      ok (take (length alarms - 1) (set alarms index (get_or alarms (length alarms - 1) zeroed)))
]

-- `found`, `earliest` and `earliest_id` after one more alarm
abbrev pub keep_earliest : Option (ℤ × ℕ) → Option ℤ → ℕ → Option (ℤ × ℕ)
keep_earliest best none id = best
keep_earliest none (some when) id = some (when, id)
keep_earliest (some (earliest, earliest_id)) (some when) id =
    if ltb_ℤ when earliest then some (when, id) else some (earliest, earliest_id)

module _ (c : Calendar) where
  -- the loop of `list_first_in`
  unfoldable pub first_from : List AlarmConfig → ℤ → ℤ → Option (ℤ × ℕ) → Option (ℤ × ℕ)
  first_from [] after until best = best
  first_from (a ∷ alarms) after until best =
      first_from alarms after until (keep_earliest best (occurs_in c (some a) after until) a.id)

  -- `nn20clock_alarm_list_first_in`: the instant and the id, or `none` for `false`
  unfoldable pub list_first_in : List AlarmConfig → ℤ → ℤ → Option (ℤ × ℕ)
  unfolding first_from
  list_first_in alarms after until = first_from alarms after until none
