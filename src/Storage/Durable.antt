-- ===== src/Storage/Durable.antt =====
-- nn20clock_storage.c: what a start reads back from flash. NVS is a parameter.
use videoalarmclock.Prelude.{ℕ, ◌≡◌, refl, Bool, true, List, [], ◌++◌, arith, leb, length, subst}
use mathlib.Core.List.{append_assoc, append-nil}
use videoalarmclock.Platform.{esp_ok}
use videoalarmclock.Alarm.Model.{AlarmConfig}
use videoalarmclock.Alarm.Slots.Search.{IsTable}
use videoalarmclock.Storage.{
  start_private, nvs_load, Config, Storage, Layout, Blob, blob, Key, Data, config_key, alarms_key,
  config_data, alarms_data, NvsCall, called, ctor, start, default_config, loaded_config,
  loaded_alarms,
}
use videoalarmclock.Storage.Requests.{Flash, versioned, save_config, save_alarm, delete_alarm}
use videoalarmclock.Storage.Written.{taking}
use videoalarmclock.Storage.Reach.{IdsApart, loaded_alarms-IsTable}
use videoalarmclock.Storage.Restart.{self_eq}

-- What NVS answers to the two reads of a start, from all that it has been asked to write so far.
pub record Nvs : Type 0 where
  pub config_of : List NvsCall → Blob Config
  pub alarms_of : List NvsCall → Blob (List AlarmConfig)

-- NVS has taken every write so far.
pub data Settled : List NvsCall → Type 0 where
  unwritten : Settled []
  written :
      (calls : List NvsCall) (key : Key) (bytes : Data) (size : ℕ)
      → Settled calls
      → Settled (calls ++ taking key bytes size)

-- What NVS documents: a read answers the last blob that was set under its key and committed.
pub record Durable (n : Nvs) : Type 0 where
  pub config_kept :
      (calls : List NvsCall) (c : Config) (size : ℕ)
      → Settled calls
      → n.config_of (calls ++ taking config_key (config_data c) size) ≡ blob c size
  pub alarms_kept :
      (calls : List NvsCall) (alarms : List AlarmConfig) (size : ℕ)
      → Settled calls
      → n.alarms_of (calls ++ taking alarms_key (alarms_data alarms) size) ≡ blob alarms size
  pub config_apart :
      (calls : List NvsCall) (bytes : Data) (size : ℕ)
      → Settled calls
      → n.config_of (calls ++ taking alarms_key bytes size) ≡ n.config_of calls
  pub alarms_apart :
      (calls : List NvsCall) (bytes : Data) (size : ℕ)
      → Settled calls
      → n.alarms_of (calls ++ taking config_key bytes size) ≡ n.alarms_of calls

-- an NVS that takes every write
abbrev pub taking_all : Layout → Flash
taking_all l = record { sizes = l; set_blob = esp_ok; commit = esp_ok }

-- a start from what NVS holds after these calls
abbrev pub boot : Nvs → Layout → List NvsCall → Storage
boot n l calls = (start l esp_ok (n.config_of calls) (n.alarms_of calls) 0 ctor).0

-- the storages that a start and any requests after it lead to; `calls` is what NVS took before
pub data Runs (n : Nvs) (l : Layout) (calls : List NvsCall) : Storage → Type 0 where
  booted : Runs n l calls (boot n l calls)
  configured :
      (s : Storage) (rc : ℕ) (c : Config)
      → Runs n l calls s
      → Runs n l calls (save_config (taking_all l) rc c s).0
  alarm_saved :
      (s : Storage) (room : Bool) (rc : ℕ) (a : AlarmConfig)
      → Runs n l calls s
      → Runs n l calls (save_alarm (taking_all l) room rc a s).0.0
  alarm_deleted :
      (s : Storage) (room : Bool) (rc id : ℕ)
      → Runs n l calls s
      → Runs n l calls (delete_alarm (taking_all l) room rc id s).0

-- A start would find what memory holds.
pub record Mirrors (n : Nvs) (l : Layout) (calls : List NvsCall) (s : Storage) : Type 0 where
  pub settled : Settled (calls ++ s.nvs_calls)
  pub config : loaded_config l default_config (n.config_of (calls ++ s.nvs_calls)) ≡ s.config
  pub alarms : loaded_alarms l (n.alarms_of (calls ++ s.nvs_calls)) ≡ s.alarms
  pub table : IsTable s.alarms

-- After a write of the config or the alarms that NVS has taken, it still would.
pub config-Mirrors :
    (n : Nvs) (l : Layout) (calls : List NvsCall) (s : Storage) (c : Config)
    → Durable n
    → Mirrors n l calls s
    → Mirrors n l calls
        (record (called (taking config_key (config_data (versioned c)) l.config_bytes) s) {
          config = versioned c;
        })
unfolding loaded_config
config-Mirrors n l calls s c d m =
    let more = taking config_key (config_data (versioned c)) l.config_bytes in
    let all = append_assoc calls s.nvs_calls more in
    let found = d.config_kept (calls ++ s.nvs_calls) (versioned c) l.config_bytes m.settled in
    record {
      settled =
          subst Settled all
            (written _ config_key (config_data (versioned c)) l.config_bytes m.settled);
      config = rw (← all, found, self_eq l.config_bytes) refl;
      alarms =
          rw
            (
              ← all,
              d.alarms_apart (calls ++ s.nvs_calls) (config_data (versioned c)) l.config_bytes
                  m.settled,
            )
            m.alarms;
      table = m.table;
    }

pub alarms-Mirrors :
    (n : Nvs) (l : Layout) (calls : List NvsCall) (s : Storage) (alarms : List AlarmConfig)
    → Durable n
    → IsTable alarms
    → Mirrors n l calls s
    → Mirrors n l calls (record (called (taking alarms_key (alarms_data alarms) l.list_bytes) s) {
      alarms = alarms;
    })
unfolding loaded_alarms
alarms-Mirrors n l calls s alarms d t m =
    let more = taking alarms_key (alarms_data alarms) l.list_bytes in
    let all = append_assoc calls s.nvs_calls more in
    let found = d.alarms_kept (calls ++ s.nvs_calls) alarms l.list_bytes m.settled in
    let capped : leb (length alarms) 16 ≡ true = ground (arith, t.capped) in
    record {
      settled =
          subst Settled all (written _ alarms_key (alarms_data alarms) l.list_bytes m.settled);
      config =
          rw
            (
              ← all,
              d.config_apart (calls ++ s.nvs_calls) (alarms_data alarms) l.list_bytes m.settled,
            )
            m.config;
      alarms = rw (← all, found, self_eq l.list_bytes, capped) refl;
      table = t;
    }

pub booted-Mirrors :
    (n : Nvs) (l : Layout) (calls : List NvsCall)
    → Settled calls
    → IdsApart (n.alarms_of calls)
    → Mirrors n l calls (boot n l calls)
unfolding start start_private nvs_load ctor
booted-Mirrors n l calls h apart = record {
  settled = rw append-nil h;
  config = rw append-nil refl;
  alarms = rw append-nil refl;
  table = loaded_alarms-IsTable l (n.alarms_of calls) apart;
}
