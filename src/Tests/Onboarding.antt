-- ===== src/Tests/Onboarding.antt =====
-- The boots of the provisioning firmware, and its reports.
use governance_iot_platform.Prelude.{String, true, false, none, some, [], ◌≡◌, refl, inr}
use governance_iot_platform.Nvs.{str, i8}
use governance_iot_platform.AppState.Codes.{nvs_init, boot_audit, provisioning_success}
use governance_iot_platform.Device.{World, read_str, transition}
use governance_iot_platform.Device.State.{done, halted, restart}
use governance_iot_platform.Wifi.{wait_loop}
use governance_iot_platform.Core.Audit as CoreAudit
use governance_iot_platform.Core.Audit.{is_pending, open_audit}
use governance_iot_platform.Ota.{other_state}
use governance_iot_platform.Core.Boot.{flash_ok}
use governance_iot_platform.Core.Loop.Progress.{Reaches}
use governance_iot_platform.Crypto.{is_provisioned}
use governance_iot_platform.Portal.{configure_post_handler}
use governance_iot_platform.Provisioning.Audit.{report_rest, handle_boot_audit}
use governance_iot_platform.Provisioning.Audit.Reported.{IsReported}
use governance_iot_platform.Provisioning.Audit.Once.{audit_reports_once}
use governance_iot_platform.Provisioning.{handle_provisioning}
use governance_iot_platform.Provisioning.Steps.{entry_behind}
use governance_iot_platform.Provisioning.Journey.{activation_completes}
use governance_iot_platform.Provisioning.Loop.{Turn, State, turns}
use governance_iot_platform.Provisioning.Arrival.{Connected, IsWaiting}
use governance_iot_platform.Provisioning.Onboarding.{
  after_form, after_restart, PowersOn, form_reaches_broker,
}
use governance_iot_platform.Tests.Fixtures.{
  memory, memory-IsHealthy, Entries, store, blank, device, no_client, connected_station,
  surroundings,
}
use governance_iot_platform.Tests.Booting.{network, erase_all}
use governance_iot_platform.Tests.Activation.{
  hex_number-ReadsHex, typed_form, http_server, typed, form-Sends, typed-IsRead, activation,
  answers, answers-Succeeds, fresh, waiting,
}

-- The chip gives no reason for a crash.
abbrev quiet : CoreAudit.Answers
quiet = record {
  image = some other_state;
  marked = true;
  sent = true;
  crashed = false;
  max_crash = 3;
  possible = true;
  reboots = true;
  last_invalid = none;
}

abbrev this_turn : Turn
this_turn = record {
  first_init = flash_ok;
  second_init = flash_ok;
  label = some "ota_0";
  network = network;
  rtc = true;
  gps = none;
  ntp = some 1700000000;
  service = answers;
  audit = quiet;
  wifi_later = connected_station;
  now = 60000;
  env = surroundings;
  mqtt = record { timer_created = true; client_created = true };
}

abbrev identified : Entries
identified = store blank "crypto_store" "device_id" (some (str "dev"))

abbrev start : Entries → State memory erase_all
start f = (record (device nvs_init [] no_client) { flash = f }, fresh)

start-PowersOn : PowersOn memory erase_all memory-IsHealthy start
start-PowersOn = record {
  begins = λ f. record {
    at_state = refl;
    ready = refl;
    no_client = refl;
    not_started = refl;
    entries = λ key. refl;
  };
  fresh = λ f. record { not_inited = refl; not_initialized = refl };
}

turn-Connected : Connected memory erase_all memory-IsHealthy this_turn
unfolding wait_loop
turn-Connected = record { flash_answers = refl; station = connected_station; joined = refl }

form_reaches_broker_example : Reaches (IsWaiting memory erase_all memory-IsHealthy) (
    after_form memory erase_all
      (λ f.
        after_restart memory erase_all
          (λ r. turns memory erase_all 4 this_turn (start r.0.flash))
          (turns memory erase_all 4 this_turn (start f)))
      (configure_post_handler memory http_server (some []) identified))
unfolding read_str is_provisioned
form_reaches_broker_example =
    form_reaches_broker memory erase_all memory-IsHealthy start http_server [] typed_form typed
      this_turn this_turn activation "cert2" "csr" 200 identified start-PowersOn hex_number-ReadsHex
      (λ key size. refl) form-Sends (typed-IsRead typed.ssid) (typed-IsRead typed.token)
      turn-Connected turn-Connected refl refl refl answers-Succeeds refl refl

activation_completes_example :
    (new : World memory) × (handle_provisioning memory answers (waiting, fresh)
      ≡ halted restart new)
    × ((key : String)
        → memory.get new.flash "crypto_store" key
          ≡ entry_behind memory memory-IsHealthy answers "cert2" waiting key)
    × Reaches
        (IsWaiting memory erase_all memory-IsHealthy)
        (turns memory erase_all 4 this_turn (start new.flash))
unfolding read_str
activation_completes_example =
    activation_completes memory memory-IsHealthy answers activation "cert2" "csr" 200 waiting fresh
      erase_all start this_turn answers-Succeeds refl refl refl refl start-PowersOn turn-Connected
      refl

-- an update that came to this firmware, and a command, both still to be reported
abbrev updated : World memory
updated = record (device boot_audit [] no_client) {
  flash =
      store
        (store (store identified "ota_store" "target_ver" (some (str "2.0"))) "ota_store"
          "target_sha" (some (str "bb")))
        "command_store" "commandNotified" (some (i8 0));
}

abbrev told : World memory
told = report_rest memory surroundings quiet updated

abbrev audited : World memory
audited = record updated { flash = told.flash }

audit_reports_once_example :
    (new : World memory) × (handle_boot_audit memory surroundings quiet audited
      ≡ done tt (transition memory provisioning_success new))
    × (new.effects ≡ (open_audit memory surroundings quiet audited).effects)
    × IsReported memory surroundings memory-IsHealthy new.flash
audit_reports_once_example =
    audit_reports_once memory surroundings memory-IsHealthy quiet quiet updated audited (inr refl)
      refl refl refl refl refl
