-- ===== src/Examples/Flash.antt =====
-- A flash that answers what it has been given.
use videoalarmclock.Prelude.{◌≡◌, refl, true, List, [], ◌∷◌, ◌++◌, length}
use videoalarmclock.Alarm.Model.{AlarmConfig}
use videoalarmclock.Examples.Fixtures.{fridays}
use videoalarmclock.Storage.{
  Config, Storage, Layout, Blob, blob, absent, config_key, alarms_key, config_data, alarms_data,
  NvsCall, blob_set, committed,
}
use videoalarmclock.Storage.Requests.{save_alarm}
use videoalarmclock.Storage.Reboot.{boot-Same}
use videoalarmclock.Storage.Durable.{Nvs, unwritten, Durable, boot, booted, alarm_saved, taking_all}

-- the last config that was set, and the last list
abbrev config_after : Blob Config → List NvsCall → Blob Config
config_after b [] = b
config_after b (blob_set config_key (config_data c) size e ∷ calls) =
    config_after (blob c size) calls
config_after b (blob_set config_key (alarms_data alarms) size e ∷ calls) = config_after b calls
config_after b (blob_set alarms_key bytes size e ∷ calls) = config_after b calls
config_after b (committed e ∷ calls) = config_after b calls

abbrev alarms_after : Blob (List AlarmConfig) → List NvsCall → Blob (List AlarmConfig)
alarms_after b [] = b
alarms_after b (blob_set alarms_key (alarms_data a) size e ∷ calls) =
    alarms_after (blob a size) calls
alarms_after b (blob_set alarms_key (config_data c) size e ∷ calls) = alarms_after b calls
alarms_after b (blob_set config_key bytes size e ∷ calls) = alarms_after b calls
alarms_after b (committed e ∷ calls) = alarms_after b calls

config_after-append :
    (b : Blob Config) (calls more : List NvsCall)
    → config_after b (calls ++ more) ≡ config_after (config_after b calls) more
config_after-append b [] more = refl
config_after-append b (blob_set config_key (config_data c) size e ∷ calls) more =
    config_after-append (blob c size) calls more
config_after-append b (blob_set config_key (alarms_data a) size e ∷ calls) more =
    config_after-append b calls more
config_after-append b (blob_set alarms_key bytes size e ∷ calls) more =
    config_after-append b calls more
config_after-append b (committed e ∷ calls) more = config_after-append b calls more

alarms_after-append :
    (b : Blob (List AlarmConfig)) (calls more : List NvsCall)
    → alarms_after b (calls ++ more) ≡ alarms_after (alarms_after b calls) more
alarms_after-append b [] more = refl
alarms_after-append b (blob_set alarms_key (alarms_data a) size e ∷ calls) more =
    alarms_after-append (blob a size) calls more
alarms_after-append b (blob_set alarms_key (config_data c) size e ∷ calls) more =
    alarms_after-append b calls more
alarms_after-append b (blob_set config_key bytes size e ∷ calls) more =
    alarms_after-append b calls more
alarms_after-append b (committed e ∷ calls) more = alarms_after-append b calls more

abbrev honest : Nvs
honest = record { config_of = config_after absent; alarms_of = alarms_after absent }

honest-Durable : Durable honest
honest-Durable = record {
  config_kept = λ calls c size h. config_after-append absent calls _;
  alarms_kept = λ calls alarms size h. alarms_after-append absent calls _;
  config_apart = λ calls bytes size h. config_after-append absent calls _;
  alarms_apart = λ calls bytes size h. alarms_after-append absent calls _;
}

abbrev sizes : Layout
sizes = record { config_bytes = 192; previous_bytes = 185; list_bytes = 5572 }

-- a first start, and an alarm saved
abbrev first : Storage
first =
    (save_alarm (taking_all sizes) true 0 (record fridays { id = 0 }) (boot honest sizes [])).0.0

first_saved : length first.alarms ≡ 1
unfolding save_alarm videoalarmclock.Alarm.Slots.list_put videoalarmclock.Alarm.Model.validate
    videoalarmclock.Storage.start videoalarmclock.Storage.ctor
first_saved = refl

boot-Same_example :
    let restarted = boot honest sizes ([] ++ first.nvs_calls) in
    (restarted.config ≡ first.config) × (restarted.alarms ≡ first.alarms) × (restarted.ready ≡ true)
boot-Same_example =
    boot-Same honest sizes [] first honest-Durable unwritten tt
      (alarm_saved (boot honest sizes []) true 0 (record fridays { id = 0 }) booted)
