-- ===== src/Storage/Restart.antt =====
-- nn20clock_storage.c: what is read back from memory.
use videoalarmclock.Prelude.{
  ℕ, ◌≡◌, refl, ap, ◌≢◌, inl, inr, Bool, true, false, some, arith, ◌==◌, if◌then◌else◌, get_or,
  subst,
}
use videoalarmclock.Platform.{EspErr, ok, esp_ok}
use videoalarmclock.Alarm.Model.{AlarmConfig, id_none, zeroed}
use videoalarmclock.Alarm.Slots.Search.{IsTable, list_find-cases, stored, stored-Absent}
use videoalarmclock.Storage.{Storage}
use videoalarmclock.Storage.{called, alarms_key, alarms_data}
use videoalarmclock.Storage.Written.{taking}
use videoalarmclock.Storage.Requests.{Flash, save_alarm, get_alarm, get_alarm_private}
use videoalarmclock.Storage.Kept.{SaveEnds, unchanged, refused, saved, save_alarm-SaveEnds}

-- A record that the list has under an id is what a request for that id answers.
pub get_alarm-stored :
    (s : Storage) (id : ℕ) (a : AlarmConfig)
    → id ≢ id_none
    → stored s.alarms id ≡ some a
    → get_alarm 0 id s ≡ ok a
unfolding get_alarm get_alarm_private
get_alarm-stored s id a n h = elim (list_find-cases s.alarms id n) [
  | inl (gone, absent) ↦ (let z = stored-Absent s.alarms id absent in absurd (cc))
  | inr (k, at, found) ↦
      let named : (id == id_none) ≡ false = ground (arith, n) in
      let same : get_or s.alarms k zeroed ≡ a = (let z = found.kept in cc) in
      rw (get_alarm, named, get_alarm_private, at, same) refl
]

pub self_eq : (id : ℕ) → (id == id) ≡ true
self_eq id = ground arith

-- An alarm that a request has saved, in a storage with at most sixteen alarms of distinct ids, is
-- what a request for the id that it answered gets, with that id in it.
pub save_alarm-get :
    (f : Flash) (room : Bool) (rc : ℕ) (a : AlarmConfig) (s after : Storage) (id : ℕ)
    → IsTable s.alarms
    → save_alarm f room rc a s ≡ ((after, esp_ok), id)
    → get_alarm 0 id after ≡ ok (record a { id = id })
save_alarm-get f room rc a s after id t h = go _ (save_alarm-SaveEnds f room rc a s t) h
  where
    go :
        (r : (Storage × EspErr) × ℕ)
        → SaveEnds f a s r
        → r ≡ ((after, esp_ok), id)
        → get_alarm 0 id after ≡ ok (record a { id = id })
    go r (unchanged e n) q = absurd (n (ap (λ r. r.0.1) q))
    go r (refused alarms given e calls n p w) q = absurd (n (ap (λ r. r.0.1) q))
    go r (saved alarms given v p) q =
        subst (λ r. get_alarm 0 r.1 r.0.0 ≡ ok (record a { id = r.1 })) q
          (get_alarm-stored
            (record (called (taking alarms_key (alarms_data alarms) f.sizes.list_bytes) s) {
              alarms = alarms;
            })
            given (record a { id = given }) p.given
            (subst
              (λ b.
                stored alarms given
                ≡ (if b then some (record a { id = given }) else stored s.alarms given))
              (self_eq given) (p.map_after given)))
