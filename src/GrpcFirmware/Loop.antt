-- ===== src/GrpcFirmware/Loop.antt =====
-- The main loop of the firmware over HTTP/2 (`app_main` of perceptive-layer/grpc/grpc_only/main/main.cpp),
-- and the tasks beside it: the commands of the stream, and the updates that they start.

pub mod Updating
pub mod Blocked
pub mod Keeping
pub mod Handlers
pub mod Tasks
pub mod Unaudited
use governance_iot_platform.Prelude.{ℕ, String, Bool, Option, none, some, List, [], ◌∷◌}
use governance_iot_platform.Nvs.{Nvs}
use governance_iot_platform.Device.State.{Outcome, done, halted, restart}
use governance_iot_platform.Command.{Json}
use governance_iot_platform.Ota.{ImageState}
use governance_iot_platform.Core.Boot.{FlashAnswer}
use governance_iot_platform.Core.Boot.Connect.{Network}
use governance_iot_platform.Grpc.Client.{Publication}
use governance_iot_platform.GrpcFirmware.State.{
  DeviceState, nvs_init, wifi_ap_mode, wifi_connecting, time_sync, provisioning, mqtt_init,
  verify_rollback, provisioning_success, error, rebooting, waiting_response, Device,
}
use governance_iot_platform.GrpcFirmware.Ota.{Download}
use governance_iot_platform.GrpcFirmware.Command as Commands
use governance_iot_platform.GrpcFirmware.Command.{manage, ota_task_routine}
use governance_iot_platform.GrpcFirmware.Audit.{AuditAnswers, handle_boot_audit}
use governance_iot_platform.GrpcFirmware.Main.{
  Service, handle_nvs_init, handle_wifi_ap_mode, handle_wifi_connecting, handle_time_sync,
  handle_provisioning, handle_grpc_init,
}
use governance_iot_platform.GrpcFirmware.Reports.{handle_provisioning_success, handle_error}

-- What the chip, the network and the services answer in one turn of the loop.
pub record Turn : Type 0 where
  pub first_init : FlashAnswer
  pub second_init : FlashAnswer
  pub image : Option ImageState
  pub marked : Bool
  pub network : Network
  pub service : Service
  pub initialised : Bool
  pub audit : AuditAnswers
  pub publish : List ℕ → Publication
  pub micros : ℕ
  pub ip : String
  pub ssid : String

module _ (nvs : Nvs) (erase : nvs.Flash → nvs.Flash) where
  abbrev pub Ended : Type 0
  Ended = Option (Outcome (Device nvs) (Unit {0}))

  abbrev pub still : Option (Device nvs) → Ended
  still none = none
  still (some d) = some (done tt d)

  -- the `switch` of the loop; WAITING_RESPONSE waits without end
  unfoldable pub dispatch : DeviceState → Turn → Device nvs → Ended
  dispatch nvs_init t d = some (done tt (handle_nvs_init nvs erase t.first_init t.second_init d))
  dispatch wifi_ap_mode t d = some (done tt (handle_wifi_ap_mode nvs d))
  dispatch wifi_connecting t d = still (handle_wifi_connecting nvs t.image t.marked t.network d)
  dispatch time_sync t d = some (done tt (handle_time_sync nvs d))
  dispatch provisioning t d = some (handle_provisioning nvs t.service d)
  dispatch mqtt_init t d = some (done tt (handle_grpc_init nvs t.initialised d))
  dispatch verify_rollback t d = some (handle_boot_audit nvs t.audit d)
  dispatch provisioning_success t d =
      some (done tt (handle_provisioning_success nvs t.service.print t.ssid t.publish t.micros d))
  dispatch error t d = some (done tt (handle_error nvs t.service t.ip t.ssid d))
  dispatch rebooting t d = some (halted restart d)
  dispatch waiting_response t d = none
  dispatch _ t d = some (done tt d)

  -- one turn of `while (true)`; none while a wait goes on
  unfoldable pub turn : Turn → Device nvs → Ended
  unfolding dispatch
  turn t d = dispatch d.app.current t d

  module _ (json : Json) where
    -- What may happen next: a turn of the loop, a command of the stream, or an update's task.
    pub data Step : Type 0 where
      loop_step : Turn → Step
      command_step : Commands.Answers → String → Step
      update_step : Option String → Option String → Download → String → String → Step

    unfoldable pub replied : Outcome (Device nvs) Bool → Ended
    replied (done r d) = some (done tt d)
    replied (halted stop d) = some (halted stop d)

    unfoldable pub step : Step → Device nvs → Ended
    unfolding turn replied manage ota_task_routine
    step (loop_step t) d = turn t d
    step (command_step a payload) d = replied (manage nvs json a payload d)
    step (update_step added removed a version url) d =
        some (ota_task_routine nvs json added removed a version url d)

    abbrev pub next_step : (Device nvs → Ended) → Ended → Ended
    next_step f none = none
    next_step f (some (done x d)) = f d
    next_step f (some (halted stop d)) = some (halted stop d)

    -- the steps, one after another
    unfoldable pub run : List Step → Device nvs → Ended
    run [] d = some (done tt d)
    run (x ∷ xs) d = next_step (run xs) (step x d)
