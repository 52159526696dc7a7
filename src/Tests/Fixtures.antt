-- ===== src/Tests/Fixtures.antt =====
-- A flash in memory, and a device with its identity and its firmware in it.
use governance_iot_platform.Prelude.{
  ℕ, String, str_eq, true, false, ◌&&◌, if◌then◌else◌, Option, none, some, List, [], ◌∷◌, refl,
}
use governance_iot_platform.Nvs.{Nvs, IsHealthy, Value, str, i8}
use governance_iot_platform.AppState.Codes.{DeviceState, nvs_init, wifi_timeout, AppError}
use governance_iot_platform.AppState.{AppState}
use governance_iot_platform.Device.{World, failure, at}
use governance_iot_platform.Device.State.{Mqtt, Wifi, Core, idle, fail_none}
use governance_iot_platform.Core.Publish.{Surroundings}

abbrev pub Entries : Type 0
Entries = String → String → Option Value

abbrev pub store : Entries → String → String → Option Value → Entries
store f ns key v ns' key' = if str_eq ns ns' && str_eq key key' then v else f ns' key'

abbrev pub memory : Nvs
memory = record {
  Flash = Entries;
  opens = λ f m ns. true;
  get = λ f ns key. f ns key;
  set = λ f ns key v. store f ns key (some v);
  erase_key = λ f ns key. store f ns key none;
  commit = λ f ns. f;
  get_set = λ f ns key v ns' key'. refl;
  get_erase = λ f ns key ns' key'. refl;
  get_commit = λ f ns ns' key'. refl;
}

pub memory-IsHealthy : IsHealthy memory
memory-IsHealthy = record { opens_all = λ f m ns. refl }

abbrev pub blank : Entries
blank ns key = none

-- what the provisioning and the first firmware left
abbrev pub provisioned : Entries
provisioned =
    store
      (store
        (store
          (store
            (store
              (store (store blank "main_store" "fw_version" (some (str "1.0"))) "main_store"
                "fw_sha" (some (str "aa")))
              "crypto_store" "device_id" (some (str "dev")))
            "crypto_store" "wifi_ssid" (some (str "net")))
          "crypto_store" "client_cert" (some (str "cert")))
        "crypto_store" "private_key" (some (str "key")))
      "main_store" "crash_count" (some (i8 1))

abbrev pub app_at : DeviceState → List AppError → ℕ → AppState
app_at d q m = record {
  ready = true;
  current = d;
  previous = nvs_init;
  error_queue = q;
  active_error_mask = m;
}

abbrev pub timeout : AppError
timeout = failure wifi_timeout "late" (at "GOV_CORE" "handle_wifi_connecting") []

abbrev pub station : Wifi
station = record {
  event_group = false;
  connected_bit = false;
  fail_bit = false;
  final_ssid = "net";
  final_pass = "";
  final_retries = 2;
  retry_count = 0;
  is_initialized = false;
  status = idle;
  fail_reason = fail_none;
}

abbrev pub connected_station : Wifi
connected_station = record station { event_group = true; connected_bit = true }

abbrev pub no_client : Mqtt
no_client = record {
  client = false;
  timer = false;
  reconnect_count = 0;
  is_connected = false;
  error_reported = false;
  boot_audited = false;
  subscriptions = [];
}

abbrev pub client : Mqtt
client = record no_client {
  client = true;
  timer = true;
  is_connected = true;
  boot_audited = true;
  subscriptions = ("commands/dev/#", 1) ∷ [];
}

abbrev pub core : Core
core = record {
  mac_address = "";
  device_id = "dev";
  firmware_version = "1.0";
  crash_count = 0;
  boot_part_changed = false;
  valid_firmware = false;
  mqtt_started = false;
  active_sensors = "";
  is_wifi_inited = false;
  started = false;
  telemetry_published = false;
  status_published = false;
  low_battery_streak = 0;
}

abbrev pub device : DeviceState → List AppError → Mqtt → World memory
device d q m = record {
  flash = provisioned;
  app = app_at d q 0;
  mqtt = m;
  wifi = station;
  core = core;
  ota = record { current_version = ""; current_version_sha = "" };
  effects = [];
}

-- nanopb with messages that fit
abbrev pub surroundings : Surroundings
surroundings = record { encodes = λ n p. true; now = 1000; ssid = "net" }
