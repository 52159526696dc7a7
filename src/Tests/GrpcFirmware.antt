-- ===== src/Tests/GrpcFirmware.antt =====
-- The firmware over HTTP/2, on a device of its own.
use governance_iot_platform.Prelude.{true, false, none, some, List, [], ◌∷◌, ◌≡◌, refl}
use governance_iot_platform.Device.State.{done}
use governance_iot_platform.Core.Boot.{flash_ok}
use governance_iot_platform.Ota.{finished}
use governance_iot_platform.Grpc.Client.{Client}
use governance_iot_platform.GrpcFirmware.State.{
  DeviceState, Core, Device, nvs_init, mqtt_waiting_connect, ota_found, cleared, start_ota,
  transition, move,
}
use governance_iot_platform.GrpcFirmware.Ota.{Download, read_version, verify_and_update, set_target}
use governance_iot_platform.GrpcFirmware.Command as Commands
use governance_iot_platform.GrpcFirmware.Command.{
  is_updating, get_command_type, update_fields, ota_task_routine, end_task,
}
use governance_iot_platform.GrpcFirmware.Main.{Service}
use governance_iot_platform.GrpcFirmware.Loop.{
  Turn, Step, loop_step, command_step, update_step, run,
}
use governance_iot_platform.GrpcFirmware.Loop.Keeping.{is_audit}
use governance_iot_platform.GrpcFirmware.Loop.Unaudited.{NeverAudits, run-NeverAudits}
use governance_iot_platform.GrpcFirmware.Loop.Updating.{IsUpdating, AsksUpdate}
use governance_iot_platform.GrpcFirmware.Loop.Blocked.{failed_update_blocks}
use governance_iot_platform.Tests.Fixtures.{memory, provisioned, station}
use governance_iot_platform.Tests.Booting.{network, erase_all}
use governance_iot_platform.Tests.Requests.{root, body, text, json}

abbrev core : Core
core = record {
  mac_address = "";
  device_id = "dev";
  firmware_version = "1.0";
  current_version = "";
  crash_count = 0;
  valid_firmware = false;
  is_wifi_inited = false;
  portal_started = false;
  last_advertise = 0;
}

abbrev client : Client
client = record { ready = true; has_callback = true; sub_topic = []; sub_buffer = [] }

abbrev device : DeviceState → Device memory
device s = record {
  flash = provisioned;
  app = record { ready = true; current = s; previous = nvs_init; last_error = cleared };
  wifi = station;
  core = core;
  client = client;
  requests = [];
}

abbrev service : Service
service = record {
  writes = record { set_ok = true; commit_ok = true };
  keys = record {
    allocated = true;
    generated = true;
    private_pem = "key";
    subject_set = true;
    csr_pem = some "csr";
  };
  client = none;
  events = [];
  parse = λ s. none;
  print = λ n. "1";
  as_text = λ bytes. "";
}

abbrev this_turn : Turn
this_turn = record {
  first_init = flash_ok;
  second_init = flash_ok;
  image = none;
  marked = true;
  network = network;
  service = service;
  initialised = true;
  audit = record { crashed = true; reboots = true; last_invalid = some "ota_0" };
  publish = λ message. record { bodies = message ∷ []; accepted = true };
  micros = 0;
  ip = "10.0.0.2";
  ssid = "net";
}

abbrev command_answers : Commands.Answers
command_answers = record { task_created = true; nvs_error = "" }

-- The download does not begin.
abbrev refused : Download
refused = record { begun = some "ESP_ERR_HTTP_CONNECT"; completed = false; finish = finished }

abbrev steps : List (Step memory erase_all json)
steps =
    loop_step this_turn
    ∷ command_step command_answers "{}"
    ∷ update_step none none refused "2.0" "https://firmware"
    ∷ []

run-NeverAudits_example :
    NeverAudits memory erase_all (run memory erase_all json steps (device nvs_init))
unfolding is_audit
run-NeverAudits_example = run-NeverAudits memory erase_all json steps (device nvs_init) refl

abbrev asks_update : AsksUpdate memory json "{}"
unfolding get_command_type update_fields
asks_update = record {
  root = root;
  command = text "Update";
  fields = body;
  version = "2.0";
  url = "https://firmware";
  parsed = refl;
  command_found = refl;
  command_text = refl;
  is_update = refl;
  fields_found = refl;
  fields_object = refl;
  fields_good = refl;
}

-- the device behind the download that did not begin
abbrev left_updating : Device memory
left_updating = record (device ota_found) {
  app = record (device ota_found).app { previous = mqtt_waiting_connect };
  flash = set_target memory "1.0" "2.0" provisioned;
  core = record core { current_version = "1.0" };
  requests = start_ota "2.0" "https://firmware" ∷ [];
}

failed_update_blocks_example :
    IsUpdating memory left_updating
    × (run memory erase_all json
          (command_step command_answers "{}"
            ∷ update_step none none refused "2.0" "https://firmware"
            ∷ loop_step this_turn
            ∷ command_step command_answers "{}"
            ∷ [])
          (device mqtt_waiting_connect)
        ≡ some (done tt left_updating))
unfolding ota_task_routine verify_and_update read_version set_target is_updating transition move
    asks_update
failed_update_blocks_example =
    failed_update_blocks memory json erase_all command_answers refused "{}" asks_update
      (device mqtt_waiting_connect) left_updating
      (loop_step this_turn ∷ command_step command_answers "{}" ∷ []) refl refl refl refl refl
      (tt, (asks_update, tt))
