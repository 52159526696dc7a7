-- ===== src/Core/Boot.antt =====
-- The handlers of the boot, from NVS_INIT to MQTT_INIT and SENSORS_INIT
-- (perceptive-layer/mqtt_protobuff/governance_core/src/governance_core.cpp). What the chip, the
-- driver and the hooks of the specific firmware answer are arguments.
pub mod Connect
use governance_iot_platform.Prelude.{
  ℕ, ◌+◌, ◌%◌, ◌==◌, ltb, String, str_eq, Bool, true, false, not, ◌&&◌, ◌||◌, if◌then◌else◌, Option,
  none, some, List, [], ◌∷◌,
}
use governance_iot_platform.Nvs.{Nvs, str, i32, read_write, i32_value}
use governance_iot_platform.AppState.Codes.{
  wifi_connecting, time_sync, mqtt_init, operational, ErrorCode, nvs_init_fail, device_id_missing,
  wifi_credentials_missing, cert_missing, firmware_version_missing,
}
use governance_iot_platform.Device.{
  World, at, set_error, transition, load_persisted_errors, read_str,
}
use governance_iot_platform.Device.State.{Core, Effect, set_time, persist_time}
use governance_iot_platform.Ota.{is_empty}
use governance_iot_platform.Crypto.{is_provisioned}

-- nvs_flash_init: success, or an error with its name, which asks for the partition to be erased or
-- does not (ESP_ERR_NVS_NO_FREE_PAGES and ESP_ERR_NVS_NEW_VERSION_FOUND do)
pub data FlashAnswer : Type 0 where
  flash_ok : FlashAnswer
  flash_failed : Bool → String → FlashAnswer

abbrev pub error_name : FlashAnswer → Option String
error_name flash_ok = none
error_name (flash_failed erasable name) = some name

-- the tests of `handle_nvs_init` on what it read, in their order
unfoldable pub missing : String → Bool → Core → Option (ErrorCode × String)
missing ssid provisioned c =
    if is_empty c.device_id
    then some (device_id_missing, "device_id ausente na NVS")
    else if is_empty ssid
    then some (wifi_credentials_missing, "WiFi credentials ausente na NVS")
    else if not provisioned
    then some (cert_missing, "Keycloak credentials ausente na NVS")
    else if is_empty c.firmware_version
    then some (firmware_version_missing, "Firmware Version not found in NVS")
    else none

-- The sources of time: what the hooks answer, none for a hook that is not given and 0 for a time
-- that is not valid; `refresh_every` is CONFIG_GOV_GPS_SYNC_EVERY_N_BOOTS, and `ntp` the time after
-- the wait for SNTP, if it has synchronised by then.
pub record TimeSources : Type 0 where
  pub persisted : Option ℕ
  pub external : Option ℕ
  pub persists : Bool
  pub refresh_every : ℕ
  pub ntp : Option ℕ

abbrev pub refresh_due : ℕ → ℕ → Bool
refresh_due every boots = ltb 0 every && (boots % every == 0)

abbrev pub is_given : Option ℕ → Bool
is_given none = false
is_given (some n) = true

abbrev pub epoch_of : Option ℕ → ℕ
epoch_of none = 0
epoch_of (some n) = n

module _ (nvs : Nvs) where
  -- the first lines of `handle_nvs_init`: the flash, and the error that remains;
  -- `erase` is nvs_flash_erase
  unfoldable pub init_flash :
      (nvs.Flash → nvs.Flash) → FlashAnswer → FlashAnswer → nvs.Flash → nvs.Flash × Option String
  init_flash erase flash_ok second f = (f, none)
  init_flash erase (flash_failed true name) second f = (erase f, error_name second)
  init_flash erase (flash_failed false name) second f = (f, some name)

  -- boot_partition_changed, on the label of the running partition
  unfoldable pub boot_partition_changed : Option String → nvs.Flash → nvs.Flash × Bool
  boot_partition_changed none f = (f, false)
  boot_partition_changed (some label) f =
      let last = read_str nvs "main_store" "boot_part" 17 f in
      (
        if nvs.opens f read_write "main_store"
            then nvs.commit (nvs.set f "main_store" "boot_part" (str label)) "main_store"
            else f,
        not (is_empty last) && not (str_eq last label),
      )

  -- what `handle_nvs_init` keeps of flash
  unfoldable pub read_identity : Option String → World nvs → World nvs
  read_identity label w =
      let w1 = load_persisted_errors nvs w in
      let (f, changed) = boot_partition_changed label w1.flash in
      record w1 {
        flash = f;
        core = record w1.core {
          boot_part_changed = changed;
          firmware_version = read_str nvs "main_store" "fw_version" 32 f;
          device_id = read_str nvs "crypto_store" "device_id" 64 f;
        };
      }

  -- the rest of `handle_nvs_init`
  unfoldable pub check_identity : World nvs → World nvs
  check_identity w =
      elim (missing (read_str nvs "crypto_store" "wifi_ssid" 64 w.flash)
        (is_provisioned nvs w.flash) w.core) [
          | none ↦ transition nvs wifi_connecting w
          | some (code, msg) ↦ set_error nvs code msg (at "GOV_CORE" "handle_nvs_init") [] w
        ]

  -- handle_nvs_init
  unfoldable pub handle_nvs_init :
      (nvs.Flash → nvs.Flash) → FlashAnswer → FlashAnswer → Option String → World nvs → World nvs
  handle_nvs_init erase first second label w =
      let (f, failed) = init_flash erase first second w.flash in
      let w1 = record w { flash = f } in
      elim failed [
        | some name ↦ set_error nvs nvs_init_fail name (at "GOV_CORE" "handle_nvs_init") [] w1
        | none ↦ check_identity (read_identity label w1)
      ]

  -- the counter of boots: its new value, and the flash that holds it
  unfoldable pub count_boot : nvs.Flash → ℕ × nvs.Flash
  count_boot f =
      let n = i32_value 0 (nvs.get f "main_store" "boot_count") + 1 in
      if nvs.opens f read_write "main_store"
      then (n, nvs.commit (nvs.set f "main_store" "boot_count" (i32 n)) "main_store")
      else (0, f)

  -- Each source sets the clock when it has a time. The result says whether there is a time.
  unfoldable pub from_rtc : TimeSources → World nvs → World nvs × Bool
  from_rtc t w =
      if ltb 0 (epoch_of t.persisted)
      then (record w { effects = set_time (epoch_of t.persisted) ∷ w.effects }, true)
      else (w, false)

  abbrev pub keep_time : Bool → ℕ → List Effect → List Effect
  keep_time persists epoch effects = if persists then persist_time epoch ∷ effects else effects

  unfoldable pub from_external : TimeSources → Bool → World nvs → World nvs × Bool
  from_external t synced w =
      let epoch = epoch_of t.external in
      if ltb 0 epoch
      then (record w { effects = keep_time t.persists epoch (set_time epoch ∷ w.effects) }, true)
      else (w, synced)

  -- SNTP sets the clock itself
  unfoldable pub from_ntp : TimeSources → World nvs → World nvs
  from_ntp t w = elim t.ntp [
    | none ↦ w
    | some epoch ↦ record w { effects = keep_time t.persists epoch w.effects }
  ]

  -- the external source is asked without a time, or when a refresh is due
  unfoldable pub ask_external : TimeSources → ℕ → Bool → World nvs → World nvs × Bool
  ask_external t boots synced w =
      if is_given t.external && (not synced || refresh_due t.refresh_every boots)
      then from_external t synced w
      else (w, synced)

  -- handle_time_sync. `boot_count` stays below 2 ^ 31.
  unfoldable pub handle_time_sync : TimeSources → World nvs → World nvs
  handle_time_sync t w =
      let (w1, synced) = from_rtc t w in
      let (n, f) = count_boot w1.flash in
      let w2 = record w1 { flash = f } in
      let (w3, synced') = ask_external t n synced w2 in
      transition nvs mqtt_init (if synced' then w3 else from_ntp t w3)

  -- handle_sensor_discovery: none for a hook that is not given, or a hook that returns NULL
  unfoldable pub handle_sensor_discovery : Option (Option String) → World nvs → World nvs
  handle_sensor_discovery (some (some csv)) w =
      transition nvs operational (record w { core = record w.core { active_sensors = csv } })
  handle_sensor_discovery _ w =
      transition nvs operational (record w { core = record w.core { active_sensors = "" } })
