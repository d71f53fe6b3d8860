-- ===== src/Storage/Requests.antt =====
-- nn20clock_storage.c: the requests. One that waits is posted with the answer `rc` of the worker's
-- queue; only with 0 has it run. `room` is whether `malloc` succeeds.
use videoalarmclock.Prelude.{ℕ, Bool, some, List, ◌==◌, if◌then◌else◌, get_or}
use videoalarmclock.Platform.{EspErr, Result, ok, err, esp_ok, is_ok, invalid_arg, no_mem}
use videoalarmclock.Alarm.Model.{AlarmConfig, id_none, zeroed}
use videoalarmclock.Alarm.Slots.{list_find, list_put, list_remove}
use videoalarmclock.Timer.Control.{post_result}
use videoalarmclock.Storage.{
  Layout, config_key, alarms_key, config_data, alarms_data, Config, Storage, schema_version_now,
  validate_config, nvs_store,
}

-- the sizes of the records, and what NVS answers to a write: to the blob set, and to its commit
pub record Flash : Type 0 where
  pub sizes : Layout
  pub set_blob : EspErr
  pub commit : EspErr

-- `(posted != ESP_OK) ? posted : request.result`
abbrev pub waited : ℕ → Storage → Storage × EspErr → Storage × EspErr
waited rc s ran = if rc == 0 then ran else (s, post_result rc)

-- `nn20clock_storage_load_config`
unfoldable pub load_config : ℕ → Storage → Result Config
load_config rc s = if rc == 0 then ok s.config else err (post_result rc)

-- the record that `apply_config` writes
abbrev pub versioned : Config → Config
versioned c = record c { schema_version = schema_version_now }

-- `apply_config`, which both ways of saving call
unfoldable pub apply_config : Flash → Config → Storage → Storage × EspErr
unfolding nvs_store
apply_config f c s =
    let ran =
      nvs_store config_key (config_data (versioned c)) f.sizes.config_bytes f.set_blob f.commit s in
    if is_ok ran.1 then (record ran.0 { config = versioned c }, esp_ok) else ran

-- `nn20clock_storage_save_config`
unfoldable pub save_config : Flash → ℕ → Config → Storage → Storage × EspErr
unfolding apply_config
save_config f rc c s =
    if is_ok (validate_config c) then waited rc s (apply_config f c s) else (s, validate_config c)

-- `nn20clock_storage_list_alarms`
unfoldable pub list_alarms : ℕ → Storage → Result (List AlarmConfig)
list_alarms rc s = if rc == 0 then ok s.alarms else err (post_result rc)

-- `get_alarm_private`
unfoldable pub get_alarm_private : ℕ → Storage → Result AlarmConfig
get_alarm_private id s = elim (list_find s.alarms id) [
  | err e ↦ err e
  | ok index ↦ ok (get_or s.alarms index zeroed)
]

-- `nn20clock_storage_get_alarm`
unfoldable pub get_alarm : ℕ → ℕ → Storage → Result AlarmConfig
unfolding get_alarm_private
get_alarm rc id s =
    if id == id_none
    then err invalid_arg
    else if rc == 0
    then get_alarm_private id s
    else err (post_result rc)

-- the end that the two edits of the list share: it is adopted once it is in flash
abbrev pub adopted : List AlarmConfig → Storage × EspErr → Storage × EspErr
adopted updated ran = if is_ok ran.1 then (record ran.0 { alarms = updated }, esp_ok) else ran

unfoldable pub adopt : Flash → List AlarmConfig → Storage → Storage × EspErr
unfolding nvs_store
adopt f updated s =
    adopted updated
      (nvs_store alarms_key (alarms_data updated) f.sizes.list_bytes f.set_blob f.commit s)

-- `save_alarm_private`: with the id, which is 0 unless the result is ESP_OK
unfoldable pub save_alarm_private : Flash → Bool → AlarmConfig → Storage → (Storage × EspErr) × ℕ
unfolding adopt
save_alarm_private f room a s =
    if room
    then elim (list_put s.alarms (some a)) [
      | err e ↦ ((s, e), id_none)
      | ok (updated, id) ↦ let ran = adopt f updated s in (ran, if is_ok ran.1 then id else id_none)
    ]
    else ((s, no_mem), id_none)

-- `nn20clock_storage_save_alarm`
unfoldable pub save_alarm : Flash → Bool → ℕ → AlarmConfig → Storage → (Storage × EspErr) × ℕ
unfolding save_alarm_private
save_alarm f room rc a s =
    if rc == 0 then save_alarm_private f room a s else ((s, post_result rc), id_none)

-- `delete_alarm_private`
unfoldable pub delete_alarm_private : Flash → Bool → ℕ → Storage → Storage × EspErr
unfolding adopt
delete_alarm_private f room id s =
    if room
    then elim (list_remove s.alarms id) [ err e ↦ (s, e) | ok updated ↦ adopt f updated s ]
    else (s, no_mem)

-- `nn20clock_storage_delete_alarm`
unfoldable pub delete_alarm : Flash → Bool → ℕ → ℕ → Storage → Storage × EspErr
unfolding delete_alarm_private
delete_alarm f room rc id s =
    if id == id_none then (s, invalid_arg) else waited rc s (delete_alarm_private f room id s)
