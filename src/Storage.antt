-- ===== src/Storage.antt =====
-- sources/components/nn20clock_storage: the settings and the alarms, in memory and in flash. The
-- state is what the Storage's worker owns. Flash is NVS, whose answers are arguments: a write gives
-- a code, a read gives the blob and its size. What NVS has been asked to write is listed in order,
-- with its answers. The sizes of the records are the compiler's.
use videoalarmclock.Prelude.{
  ℕ, ◌-◌, ◌*◌, Bool, true, false, ◌&&◌, ◌||◌, not, List, [], ◌∷◌, ◌++◌, ltb, leb, ◌==◌,
  if◌then◌else◌, length, replicate,
}
pub mod Requests
pub mod Written
pub mod Kept
pub mod Reach
pub mod Restart
pub mod Durable
pub mod Reboot
use Prim.Native.String.{String}
use videoalarmclock.Prelude.Int.{ℤ, pos}
use videoalarmclock.Prelude.Bytes.{codes, terminated}
use videoalarmclock.Platform.{EspErr, esp_ok, is_ok, invalid_arg, invalid_state}
use videoalarmclock.Alarm.Model.{AlarmConfig}
use videoalarmclock.Alarm.Slots.{alarm_max}
use videoalarmclock.Brightness.{day_minutes}
use videoalarmclock.Timer.Control.{post_result}

-- `NN20ClockConfig`; a string is all the bytes of its field
pub record Config : Type 0 where
  pub schema_version : ℕ
  pub timezone : List ℕ
  pub brightness_day : ℕ
  pub brightness_night : ℕ
  pub day_start_minutes : ℕ
  pub night_start_minutes : ℕ
  pub volume : ℕ
  pub ntp_enabled : Bool
  pub last_known_time : ℤ
  pub wifi_ssid : List ℕ
  pub wifi_password : List ℕ
  pub brightness_playback_min : ℕ

-- `NN20CLOCK_STORAGE_SCHEMA_VERSION`, `CONFIG_SCHEMA_PREVIOUS`
abbrev pub schema_version_now : ℕ
schema_version_now = 5

abbrev pub schema_previous : ℕ
schema_previous = 4

-- `sizeof` of the config, the offset of its last field, and `sizeof` of the list of alarms
pub record Layout : Type 0 where
  pub config_bytes : ℕ
  pub previous_bytes : ℕ
  pub list_bytes : ℕ

-- `NVS_KEY_CONFIG` and `NVS_KEY_ALARMS`, and what is written under them
pub data Key : Type 0 where
  config_key alarms_key : Key

pub data Data : Type 0 where
  config_data : Config → Data
  alarms_data : List AlarmConfig → Data

-- a call of NVS that writes: `nvs_set_blob` of a key, data and their size, and `nvs_commit`, each
-- with its answer
pub data NvsCall : Type 0 where
  blob_set : Key → Data → ℕ → EspErr → NvsCall
  committed : EspErr → NvsCall

-- `struct NN20ClockStorage`: the records, and the two flags, with the writes so far
pub record Storage : Type 0 where
  pub config : Config
  pub alarms : List AlarmConfig
  pub ready : Bool
  pub nvs_open : Bool
  pub nvs_calls : List NvsCall

-- what `nvs_get_blob` answers; `unread` is a code other than ESP_OK and ESP_ERR_NVS_NOT_FOUND
pub data Blob {ℓ} (A : Type ℓ) : Type ℓ where
  blob : A → ℕ → Blob A
  absent unread : Blob A

-- a field of `size` bytes that holds a string
abbrev pub field_of : String → ℕ → List ℕ
field_of s size = codes s ++ replicate (size - length (codes s)) 0

-- `nn20clock_storage_default_config`
unfoldable pub default_config : Config
default_config = record {
  schema_version = schema_version_now;
  timezone = field_of "CET-1CEST,M3.5.0,M10.5.0/3" 64;
  brightness_day = 85;
  brightness_night = 30;
  day_start_minutes = 7 * 60;
  night_start_minutes = 20 * 60;
  volume = 60;
  ntp_enabled = true;
  last_known_time = pos 0;
  wifi_ssid = replicate 33 0;
  wifi_password = replicate 64 0;
  brightness_playback_min = 0;
}

-- `validate_config`
unfoldable pub validate_config : Config → EspErr
validate_config c =
    if ltb 100 c.brightness_day
      || ltb 100 c.brightness_night
      || leb day_minutes c.day_start_minutes
      || leb day_minutes c.night_start_minutes
      || ltb 100 c.brightness_playback_min
      || ltb 100 c.volume
    then invalid_arg
    else if not (terminated c.timezone)
        || not (terminated c.wifi_ssid)
        || not (terminated c.wifi_password)
    then invalid_arg
    else esp_ok

-- `nn20clock_storage_ctor_named`; `calloc` leaves no alarms
unfoldable pub ctor : Storage
unfolding default_config
ctor = record {
  config = default_config;
  alarms = [];
  ready = false;
  nvs_open = false;
  nvs_calls = [];
}

-- the config that `nvs_load` leaves
unfoldable pub loaded_config : Layout → Config → Blob Config → Config
loaded_config l config absent = config
loaded_config l config unread = config
loaded_config l config (blob c size) =
    if size == l.config_bytes && c.schema_version == schema_version_now
    then c
    else if c.schema_version == schema_previous
        && leb l.previous_bytes size
        && leb size l.config_bytes
    then record c { brightness_playback_min = 0; schema_version = schema_version_now }
    else config

-- and its alarms; the blob's count is the length of the list
unfoldable pub loaded_alarms : Layout → Blob (List AlarmConfig) → List AlarmConfig
loaded_alarms l absent = []
loaded_alarms l unread = []
loaded_alarms l (blob alarms size) =
    if size == l.list_bytes && leb (length alarms) alarm_max then alarms else []

-- `nvs_load`, whose first argument is what the calls that open NVS answer
unfoldable pub nvs_load :
    Layout → EspErr → Blob Config → Blob (List AlarmConfig) → Storage → Storage × EspErr
unfolding loaded_config loaded_alarms
nvs_load l opened config alarms s =
    if is_ok opened
    then (
      record s {
        nvs_open = true;
        config = loaded_config l s.config config;
        alarms = loaded_alarms l alarms;
      },
      esp_ok,
    )
    else (s, opened)

abbrev pub called : List NvsCall → Storage → Storage
called calls s = record s { nvs_calls = s.nvs_calls ++ calls }

-- `nvs_store`, with what setting the blob and committing it answer
unfoldable pub nvs_store : Key → Data → ℕ → EspErr → EspErr → Storage → Storage × EspErr
nvs_store key bytes size set_blob commit s =
    if not s.nvs_open
    then (s, invalid_state)
    else if is_ok set_blob
    then (called (blob_set key bytes size set_blob ∷ committed commit ∷ []) s, commit)
    else (called (blob_set key bytes size set_blob ∷ []) s, set_blob)

-- `start_private`
unfoldable pub start_private :
    Layout → EspErr → Blob Config → Blob (List AlarmConfig) → Storage → Storage
unfolding nvs_load
start_private l opened config alarms s = record (nvs_load l opened config alarms s).0 {
  ready = true;
}

-- `nn20clock_storage_start`, `rc` the answer of the worker's queue
unfoldable pub start :
    Layout → EspErr → Blob Config → Blob (List AlarmConfig) → ℕ → Storage → Storage × EspErr
unfolding start_private
start l opened config alarms rc s =
    if s.ready
    then (s, invalid_state)
    else if rc == 0
    then (start_private l opened config alarms s, esp_ok)
    else (s, post_result rc)
