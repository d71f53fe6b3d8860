-- ===== src/Storage/Reboot.antt =====
-- nn20clock_storage.c: a start behind any requests finds in flash what memory held.
use videoalarmclock.Prelude.{ℕ, ◌≡◌, refl, ◌≢◌, true, List, ◌++◌, ◌==◌, if◌then◌else◌, if-either}
use videoalarmclock.Platform.{EspErr, esp_ok, is_ok, not_ok}
use videoalarmclock.Alarm.Model.{AlarmConfig}
use videoalarmclock.Storage.{
  start_private, nvs_load, Config, Storage, Layout, Key, Data, config_key, config_data, NvsCall,
  ctor, start, nvs_store, validate_config,
}
use videoalarmclock.Storage.Requests.{versioned, apply_config, save_config}
use videoalarmclock.Storage.Written
use videoalarmclock.Storage.Written.{Refused, unset, uncommitted, Stores, nvs_store-Stores}
use videoalarmclock.Storage.Kept.{
  SaveEnds, unchanged, refused, saved, save_alarm-SaveEnds, DeleteEnds, remained, denied, deleted,
  delete_alarm-DeleteEnds,
}
use videoalarmclock.Storage.Reach.{IdsApart}
use videoalarmclock.Storage.Durable.{
  Nvs, Settled, Durable, taking_all, boot, Runs, booted, configured, alarm_saved, alarm_deleted,
  Mirrors, config-Mirrors, alarms-Mirrors, booted-Mirrors,
}

-- NVS refuses nothing that it takes.
never-Refused :
    (key : Key) (bytes : Data) (size : ℕ) (e : EspErr) (calls : List NvsCall)
    → e ≢ esp_ok
    → Refused key bytes size esp_ok esp_ok e calls
    → ⊥
never-Refused key bytes size e calls n unset = n refl
never-Refused key bytes size e calls n (uncommitted h) = n refl

SaveEnds-Mirrors :
    (n : Nvs) (l : Layout) (calls : List NvsCall) (s : Storage) (a : AlarmConfig)
    (r : (Storage × EspErr) × ℕ)
    → Durable n
    → Mirrors n l calls s
    → SaveEnds (taking_all l) a s r
    → Mirrors n l calls r.0.0
SaveEnds-Mirrors n l calls s a r d m (unchanged e bad) = m
SaveEnds-Mirrors n l calls s a r d m (refused alarms id e asked bad p w) =
    absurd (never-Refused _ _ _ e asked bad w)
SaveEnds-Mirrors n l calls s a r d m (saved alarms id v p) =
    alarms-Mirrors n l calls s alarms d p.table m

DeleteEnds-Mirrors :
    (n : Nvs) (l : Layout) (calls : List NvsCall) (s : Storage) (id : ℕ) (r : Storage × EspErr)
    → Durable n
    → Mirrors n l calls s
    → DeleteEnds (taking_all l) id s r
    → Mirrors n l calls r.0
DeleteEnds-Mirrors n l calls s id r d m (remained e bad) = m
DeleteEnds-Mirrors n l calls s id r d m (denied alarms e asked bad w) =
    absurd (never-Refused _ _ _ e asked bad w)
DeleteEnds-Mirrors n l calls s id r d m (deleted alarms t same) =
    alarms-Mirrors n l calls s alarms d t m

save_config-Mirrors :
    (n : Nvs) (l : Layout) (calls : List NvsCall) (s : Storage) (rc : ℕ) (c : Config)
    → Durable n
    → Mirrors n l calls s
    → Mirrors n l calls (save_config (taking_all l) rc c s).0
unfolding save_config apply_config
save_config-Mirrors n l calls s rc c d m =
    let Keeps : Storage × EspErr → Type 0 = λ r. Mirrors n l calls r.0 in
    if-either Keeps (is_ok (validate_config c))
      (if-either Keeps (rc == 0)
        (stored (nvs_store config_key (config_data (versioned c)) l.config_bytes esp_ok esp_ok s)
          (nvs_store-Stores config_key (config_data (versioned c)) l.config_bytes esp_ok esp_ok s))
        m)
      m
  where
    stored :
        (r : Storage × EspErr)
        → Stores config_key (config_data (versioned c)) l.config_bytes esp_ok esp_ok s r
        → Mirrors n l calls
            (if is_ok r.1 then (record r.0 { config = versioned c }, esp_ok) else r).0
    stored r Written.closed = m
    stored r (Written.refused e asked bad w) = absurd (never-Refused _ _ _ e asked (not_ok e bad) w)
    stored r Written.taken = config-Mirrors n l calls s c d m

Runs-Mirrors :
    (n : Nvs) (l : Layout) (calls : List NvsCall) (s : Storage)
    → Durable n
    → Settled calls
    → IdsApart (n.alarms_of calls)
    → Runs n l calls s
    → Mirrors n l calls s
Runs-Mirrors n l calls s d h apart booted = booted-Mirrors n l calls h apart
Runs-Mirrors n l calls s d h apart (configured s' rc c r) =
    save_config-Mirrors n l calls s' rc c d (Runs-Mirrors n l calls s' d h apart r)
Runs-Mirrors n l calls s d h apart (alarm_saved s' room rc a r) =
    let m = Runs-Mirrors n l calls s' d h apart r in
    SaveEnds-Mirrors n l calls s' a _ d m (save_alarm-SaveEnds (taking_all l) room rc a s' m.table)
Runs-Mirrors n l calls s d h apart (alarm_deleted s' room rc id r) =
    let m = Runs-Mirrors n l calls s' d h apart r in
    DeleteEnds-Mirrors n l calls s' id _ d m
      (delete_alarm-DeleteEnds (taking_all l) room rc id s' m.table)

-- A restart finds in flash what memory held: after a start and any requests to save the config and to
-- save and delete alarms, of which those that NVS is asked for are taken and the others fail, a new
-- start from what NVS then holds has the same config and the same alarms in memory, and is ready. This
-- holds of an NVS whose reads answer the last blob that was set under their key and committed, that
-- had taken all its writes before, and whose list of alarms, if it can be read at the first start,
-- has distinct ids. That the first start finds nothing, something unusable or the previous version
-- of the config is included.
pub boot-Same :
    (n : Nvs) (l : Layout) (calls : List NvsCall) (s : Storage)
    → Durable n
    → Settled calls
    → IdsApart (n.alarms_of calls)
    → Runs n l calls s
    → let restarted = boot n l (calls ++ s.nvs_calls) in
      (restarted.config ≡ s.config) × (restarted.alarms ≡ s.alarms) × (restarted.ready ≡ true)
unfolding start start_private nvs_load ctor
boot-Same n l calls s d h apart r =
    let m = Runs-Mirrors n l calls s d h apart r in (m.config, m.alarms, refl)
