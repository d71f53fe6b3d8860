-- ===== src/Storage/Reach.antt =====
-- nn20clock_storage.c: the storages that its requests lead to, and what a restart finds.
use videoalarmclock.Prelude.{
  ℕ, ◌≡◌, refl, Bool, true, ◌&&◌, List, arith, leb, ◌==◌, if◌then◌else◌, length, leb→le, if-split,
  if-either, and_both,
}
use videoalarmclock.Platform.{EspErr, is_ok, esp_ok}
use videoalarmclock.Alarm.Model.{AlarmConfig}
use videoalarmclock.Alarm.Slots.{alarm_max}
use videoalarmclock.Alarm.Slots.Search.{IsTable, Distinct}
use videoalarmclock.Storage.{
  Config, Storage, Layout, Blob, blob, absent, unread, schema_version_now, schema_previous,
  validate_config, nvs_store, config_key, config_data, ctor, start, start_private, nvs_load,
  loaded_config, loaded_alarms, default_config,
}
use videoalarmclock.Storage.Requests.{
  Flash, versioned, apply_config, save_config, save_alarm, delete_alarm,
}
use videoalarmclock.Storage.Written
use videoalarmclock.Storage.Written.{Stores, closed, taken, nvs_store-Stores}
use videoalarmclock.Storage.Kept.{
  SaveEnds, unchanged, refused, saved, save_alarm-SaveEnds, DeleteEnds, remained, denied, deleted,
  delete_alarm-DeleteEnds,
}

-- The list in flash, if it can be read, has distinct ids.
abbrev pub IdsApart : Blob (List AlarmConfig) → Type 0
IdsApart (blob alarms size) = Distinct alarms
IdsApart absent = Unit
IdsApart unread = Unit

-- one request, with what the queue, memory and flash answer
pub data Step : Storage → Storage → Type 0 where
  started :
      (l : Layout) (opened : EspErr) (c : Blob Config) (alarms : Blob (List AlarmConfig)) (rc : ℕ)
      (s : Storage)
      → IdsApart alarms
      → Step s (start l opened c alarms rc s).0
  configured : (f : Flash) (rc : ℕ) (c : Config) (s : Storage) → Step s (save_config f rc c s).0
  alarm_saved :
      (f : Flash) (room : Bool) (rc : ℕ) (a : AlarmConfig) (s : Storage)
      → Step s (save_alarm f room rc a s).0.0
  alarm_deleted :
      (f : Flash) (room : Bool) (rc id : ℕ) (s : Storage) → Step s (delete_alarm f room rc id s).0

-- from the construction on
pub data Reach : Storage → Type 0 where
  constructed : Reach ctor
  after : (s s' : Storage) → Reach s → Step s s' → Reach s'

-- The config is of this build's version, and the alarms are at most sixteen with distinct ids.
abbrev pub Sound : Storage → Type 0
Sound s = (s.config.schema_version ≡ schema_version_now) × IsTable s.alarms

loaded_config-version :
    (l : Layout) (config : Config) (c : Blob Config)
    → config.schema_version ≡ schema_version_now
    → (loaded_config l config c).schema_version ≡ schema_version_now
unfolding loaded_config
loaded_config-version l config absent h = h
loaded_config-version l config unread h = h
loaded_config-version l config (blob c size) h =
    if-split (λ d. Config.schema_version d ≡ schema_version_now)
      (size == l.config_bytes && c.schema_version == schema_version_now)
      (λ e.
        ground
          (arith, (and_both (size == l.config_bytes) (c.schema_version == schema_version_now) e).1))
      (λ e.
        if-either (λ d. Config.schema_version d ≡ schema_version_now)
          (c.schema_version == schema_previous
            && leb l.previous_bytes size
            && leb size l.config_bytes)
          refl h)

pub loaded_alarms-IsTable :
    (l : Layout) (alarms : Blob (List AlarmConfig))
    → IdsApart alarms
    → IsTable (loaded_alarms l alarms)
unfolding loaded_alarms
loaded_alarms-IsTable l absent h = record { capped = omega arith; distinct = tt }
loaded_alarms-IsTable l unread h = record { capped = omega arith; distinct = tt }
loaded_alarms-IsTable l (blob alarms size) h =
    if-split IsTable (size == l.list_bytes && leb (length alarms) alarm_max)
      (λ e. record { capped = leb→le (length alarms) alarm_max (and_both _ _ e).1; distinct = h })
      (λ e. record { capped = omega arith; distinct = tt })

start-Sound :
    (l : Layout) (opened : EspErr) (c : Blob Config) (alarms : Blob (List AlarmConfig)) (rc : ℕ)
    (s : Storage)
    → IdsApart alarms
    → Sound s
    → Sound (start l opened c alarms rc s).0
unfolding start start_private nvs_load
start-Sound l opened c alarms rc s d h =
    if-either {A = Storage × EspErr} (λ p. Sound p.0) s.ready h
      (if-either {A = Storage × EspErr} (λ p. Sound p.0) (rc == 0)
        (if-either {A = Storage × EspErr} (λ p. Sound (record p.0 { ready = true })) (is_ok opened)
          (loaded_config-version l s.config c h.0, loaded_alarms-IsTable l alarms d) h)
        h)

save_config-Sound :
    (f : Flash) (rc : ℕ) (c : Config) (s : Storage) → Sound s → Sound (save_config f rc c s).0
unfolding save_config apply_config
save_config-Sound f rc c s h =
    if-either {A = Storage × EspErr} (λ p. Sound p.0) (is_ok (validate_config c))
      (if-either {A = Storage × EspErr} (λ p. Sound p.0) (rc == 0)
        (stored
          (nvs_store config_key (config_data (versioned c)) f.sizes.config_bytes f.set_blob f.commit
            s)
          (nvs_store-Stores config_key (config_data (versioned c)) f.sizes.config_bytes f.set_blob
            f.commit s))
        h)
      h
  where
    stored :
        (r : Storage × EspErr)
        → Stores config_key (config_data (versioned c)) f.sizes.config_bytes f.set_blob f.commit s r
        → Sound (if is_ok r.1 then (record r.0 { config = versioned c }, esp_ok) else r).0
    stored r closed = h
    stored r (Written.refused e calls bad w) = rw bad h
    stored r taken = (refl, h.1)

SaveEnds-Sound :
    (f : Flash) (a : AlarmConfig) (s : Storage) (r : (Storage × EspErr) × ℕ)
    → Sound s
    → SaveEnds f a s r
    → Sound r.0.0
SaveEnds-Sound f a s r h (unchanged e n) = h
SaveEnds-Sound f a s r h (refused alarms id e calls n p w) = h
SaveEnds-Sound f a s r h (saved alarms id v p) = (h.0, p.table)

DeleteEnds-Sound :
    (f : Flash) (id : ℕ) (s : Storage) (r : Storage × EspErr)
    → Sound s
    → DeleteEnds f id s r
    → Sound r.0
DeleteEnds-Sound f id s r h (remained e n) = h
DeleteEnds-Sound f id s r h (denied alarms e calls n w) = h
DeleteEnds-Sound f id s r h (deleted alarms t m) = (h.0, t)

-- Every storage that requests lead to, from its construction on, whatever fails, has a config of
-- this build's version and at most sixteen alarms with distinct ids, provided that the ids of a list
-- read from flash are distinct.
pub Reach-Sound : (s : Storage) → Reach s → Sound s
unfolding ctor default_config
Reach-Sound s constructed = (refl, record { capped = omega arith; distinct = tt })
Reach-Sound s (after s' s'' r (started l opened c alarms rc q d)) =
    start-Sound l opened c alarms rc s' d (Reach-Sound s' r)
Reach-Sound s (after s' s'' r (configured f rc c q)) =
    save_config-Sound f rc c s' (Reach-Sound s' r)
Reach-Sound s (after s' s'' r (alarm_saved f room rc a q)) =
    SaveEnds-Sound f a s' _ (Reach-Sound s' r)
      (save_alarm-SaveEnds f room rc a s' (Reach-Sound s' r).1)
Reach-Sound s (after s' s'' r (alarm_deleted f room rc id q)) =
    DeleteEnds-Sound f id s' _ (Reach-Sound s' r)
      (delete_alarm-DeleteEnds f room rc id s' (Reach-Sound s' r).1)
