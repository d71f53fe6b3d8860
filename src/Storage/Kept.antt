-- ===== src/Storage/Kept.antt =====
-- nn20clock_storage.c: what a request leaves behind, whatever fails.
use videoalarmclock.Prelude.{
  ℕ, ◌≡◌, refl, ◌≢◌, inl, inr, Bool, true, false, none, some, List, arith, ◌==◌, if◌then◌else◌,
  Bool-cases, if-split,
}
use videoalarmclock.Platform.{
  EspErr, Result, Result-cases, err, esp_ok, is_ok, not_ok, invalid_arg, invalid_state, no_mem,
  esp_fail, invalid_size, not_found, not_supported, timeout,
}
use videoalarmclock.Alarm.Model.{AlarmConfig, id_none, validate}
use videoalarmclock.Alarm.Slots.{list_find, list_put, list_store, list_add, list_remove}
use videoalarmclock.Alarm.Slots.Search.{IsTable, list_find-cases, stored}
use videoalarmclock.Alarm.Slots.Remove.{list_remove_lem}
use videoalarmclock.Alarm.Slots.Put.{Put, list_put-Put}
use videoalarmclock.Timer.Control.{post_result}
use videoalarmclock.Timer.Subscribers.{post_result-failed}
use videoalarmclock.Storage.{Storage, NvsCall, called, alarms_key, alarms_data}
use videoalarmclock.Storage.Written
use videoalarmclock.Storage.Written.{Refused, taking, Stores, nvs_store-Stores}
use videoalarmclock.Storage.Requests.{
  Flash, adopt, adopted, save_alarm, save_alarm_private, delete_alarm, delete_alarm_private,
}

store_add-failed :
    (alarms : List AlarmConfig) (a : AlarmConfig) (e : EspErr)
    → list_add alarms a ≡ err e
    → e ≢ esp_ok
unfolding list_add
store_add-failed alarms a e h q = ground (arith, h, q)

list_store-failed :
    (alarms : List AlarmConfig) (a : AlarmConfig) (e : EspErr)
    → list_store alarms a ≡ err e
    → e ≢ esp_ok
unfolding list_store
list_store-failed alarms a e = λ h q. ground (arith, h, q)

valid_first :
    (v : EspErr) (r : Result (List AlarmConfig × ℕ)) (e : EspErr)
    → (r ≡ err e → e ≢ esp_ok)
    → elim v as (λ v. Result (List AlarmConfig × ℕ)) [ esp_ok ↦ r | e ↦ err e ] ≡ err e
    → e ≢ esp_ok
valid_first esp_ok r e h k = h k
valid_first esp_fail r e h k = λ q. cc
valid_first no_mem r e h k = λ q. cc
valid_first invalid_arg r e h k = λ q. cc
valid_first invalid_state r e h k = λ q. cc
valid_first invalid_size r e h k = λ q. cc
valid_first not_found r e h k = λ q. cc
valid_first not_supported r e h k = λ q. cc
valid_first timeout r e h k = λ q. cc

list_put-failed :
    (alarms : List AlarmConfig) (a : AlarmConfig) (e : EspErr)
    → list_put alarms (some a) ≡ err e
    → e ≢ esp_ok
unfolding list_put
list_put-failed alarms a e h =
    valid_first (validate (some a)) (list_store alarms a) e (list_store-failed alarms a e) h

-- The three ways that a save of an alarm can end: NVS has not been asked, has refused the list, or
-- has taken it.
pub data SaveEnds (f : Flash) (a : AlarmConfig) (s : Storage)
    : (Storage × EspErr) × ℕ → Type 0 where
  unchanged : (e : EspErr) → e ≢ esp_ok → SaveEnds f a s ((s, e), id_none)
  refused :
      (alarms : List AlarmConfig) (id : ℕ) (e : EspErr) (calls : List NvsCall)
      → e ≢ esp_ok
      → Put s.alarms a (alarms, id)
      → Refused alarms_key (alarms_data alarms) f.sizes.list_bytes f.set_blob f.commit e calls
      → SaveEnds f a s ((called calls s, e), id_none)
  saved :
      (alarms : List AlarmConfig) (id : ℕ)
      → validate (some a) ≡ esp_ok
      → Put s.alarms a (alarms, id)
      → SaveEnds f a s (
        (
          record (called (taking alarms_key (alarms_data alarms) f.sizes.list_bytes) s) {
            alarms = alarms;
          },
          esp_ok,
        ),
        id,
      )

stored-SaveEnds :
    (f : Flash) (a : AlarmConfig) (s : Storage) (alarms : List AlarmConfig) (id : ℕ)
    (r : Storage × EspErr)
    → validate (some a) ≡ esp_ok
    → Put s.alarms a (alarms, id)
    → Stores alarms_key (alarms_data alarms) f.sizes.list_bytes f.set_blob f.commit s r
    → SaveEnds f a s (adopted alarms r, if is_ok (adopted alarms r).1 then id else id_none)
stored-SaveEnds f a s alarms id r v p Written.closed =
    unchanged invalid_state (not_ok invalid_state refl)
stored-SaveEnds f a s alarms id r v p (Written.refused e calls bad w) =
    rw bad (rw bad (refused alarms id e calls (not_ok e bad) p w))
stored-SaveEnds f a s alarms id r v p Written.taken = saved alarms id v p

-- A request to save an alarm, in a storage whose list has at most sixteen records with distinct ids,
-- ends in one of three ways. It fails before NVS is asked, and leaves all as it was. Or NVS is asked
-- to store the whole new list under the key of the alarms and refuses, to set the blob or to commit
-- it: the request fails with that code, and memory is as it was. Or NVS has set that list and then
-- committed it, and only then memory holds the same list, and the request succeeds with the id, for
-- a valid alarm. The new list is the map from ids to alarms with this one put, under its own id or
-- under a new one.
pub save_alarm-SaveEnds :
    (f : Flash) (room : Bool) (rc : ℕ) (a : AlarmConfig) (s : Storage)
    → IsTable s.alarms
    → SaveEnds f a s (save_alarm f room rc a s)
unfolding save_alarm
save_alarm-SaveEnds f room rc a s t =
    if-split (SaveEnds f a s) (rc == 0) (λ ran. private room)
      (λ h. unchanged (post_result rc) (post_result-failed rc h))
  where
    private : (room : Bool) → SaveEnds f a s (save_alarm_private f room a s)
    private false = unchanged no_mem (not_ok no_mem refl)
    private true = elim (Result-cases (list_put s.alarms (some a))) [
      | inr (e, h) ↦ rw (save_alarm_private, h) (unchanged e (list_put-failed s.alarms a e h))
      | inl ((alarms, id), h) ↦
          let p = list_put-Put s.alarms a t h in
          let ends =
            nvs_store-Stores alarms_key (alarms_data alarms) f.sizes.list_bytes f.set_blob f.commit
              s in
          rw (save_alarm_private, h, adopt) (stored-SaveEnds f a s alarms id _ p.0 p.1 ends)
    ]

-- The three ways that a delete can end.
pub data DeleteEnds (f : Flash) (id : ℕ) (s : Storage) : Storage × EspErr → Type 0 where
  remained : (e : EspErr) → e ≢ esp_ok → DeleteEnds f id s (s, e)
  denied :
      (alarms : List AlarmConfig) (e : EspErr) (calls : List NvsCall)
      → e ≢ esp_ok
      → Refused alarms_key (alarms_data alarms) f.sizes.list_bytes f.set_blob f.commit e calls
      → DeleteEnds f id s (called calls s, e)
  deleted :
      (alarms : List AlarmConfig)
      → IsTable alarms
      → ((j : ℕ) → stored alarms j ≡ (if j == id then none else stored s.alarms j))
      → DeleteEnds f id s (
        record (called (taking alarms_key (alarms_data alarms) f.sizes.list_bytes) s) {
          alarms = alarms;
        },
        esp_ok,
      )

stored-DeleteEnds :
    (f : Flash) (id : ℕ) (s : Storage) (alarms : List AlarmConfig) (r : Storage × EspErr)
    → IsTable alarms
    → ((j : ℕ) → stored alarms j ≡ (if j == id then none else stored s.alarms j))
    → Stores alarms_key (alarms_data alarms) f.sizes.list_bytes f.set_blob f.commit s r
    → DeleteEnds f id s (adopted alarms r)
stored-DeleteEnds f id s alarms r t m Written.closed =
    remained invalid_state (not_ok invalid_state refl)
stored-DeleteEnds f id s alarms r t m (Written.refused e calls bad w) =
    rw bad (denied alarms e calls (not_ok e bad) w)
stored-DeleteEnds f id s alarms r t m Written.taken = deleted alarms t m

list_remove-failed :
    (alarms : List AlarmConfig) (id : ℕ) (e : EspErr) → list_remove alarms id ≡ err e → e ≢ esp_ok
unfolding list_remove list_find
list_remove-failed alarms id e h = elim (Bool-cases (id == id_none)) [
  | inl blank ↦ λ q. ground (arith, blank, h, q)
  | inr named ↦ elim (list_find-cases alarms id (ground (arith, named))) [
    | inl (gone, absent) ↦ λ q. ground (arith, gone, named, h, q)
    | inr (k, at, found) ↦ λ q. ground (arith, at, named, h, q)
  ]
]

-- A request to delete an alarm, in such a storage, ends in one of three ways: it fails before NVS is
-- asked, and leaves all as it was; or NVS refuses the whole new list, and memory is as it was; or NVS
-- has taken that list, and memory holds the same: the map without that id.
pub delete_alarm-DeleteEnds :
    (f : Flash) (room : Bool) (rc id : ℕ) (s : Storage)
    → IsTable s.alarms
    → DeleteEnds f id s (delete_alarm f room rc id s)
unfolding delete_alarm
delete_alarm-DeleteEnds f room rc id s t =
    if-split (DeleteEnds f id s) (id == id_none)
      (λ h. remained invalid_arg (not_ok invalid_arg refl))
      (λ n.
        if-split (DeleteEnds f id s) (rc == 0) (λ ran. private room)
          (λ h. remained (post_result rc) (post_result-failed rc h)))
  where
    private : (room : Bool) → DeleteEnds f id s (delete_alarm_private f room id s)
    private false = remained no_mem (not_ok no_mem refl)
    private true = elim (Result-cases (list_remove s.alarms id)) [
      | inr (e, h) ↦ rw (delete_alarm_private, h) (remained e (list_remove-failed s.alarms id e h))
      | inl (alarms, h) ↦
          let p = list_remove_lem s.alarms id t h in
          let ends =
            nvs_store-Stores alarms_key (alarms_data alarms) f.sizes.list_bytes f.set_blob f.commit
              s in
          rw (delete_alarm_private, h, adopt) (stored-DeleteEnds f id s alarms _ p.0 p.2 ends)
    ]
