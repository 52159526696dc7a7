-- ===== src/GrpcFirmware/Loop/Unaudited.antt =====
-- The audit of the boot is never reached in the firmware over HTTP/2
-- (perceptive-layer/grpc/grpc_only/main/main.cpp): only MqttManager moves to VERIFY_ROLLBACK, and it is
-- not started.
use governance_iot_platform.Prelude.{Bool, false, Option, none, some, List, [], ◌∷◌, ◌≡◌}
use governance_iot_platform.Nvs.{Nvs}
use governance_iot_platform.Device.State.{Outcome, done, halted}
use governance_iot_platform.Command.{Json}
use governance_iot_platform.Core.Boot.{init_flash}
use governance_iot_platform.GrpcFirmware.State.{
  DeviceState, nvs_init, wifi_ap_mode, wifi_connecting, time_sync, provisioning,
  provisioning_success, mqtt_waiting_connect, mqtt_init, operational, ota_found, ota_downloading,
  verify_rollback, firmware_rollback, rebooting, error, http_init, http_request, waiting_response,
  Device,
}
use governance_iot_platform.GrpcFirmware.Main.{handle_nvs_init, handle_wifi_connecting}
use governance_iot_platform.GrpcFirmware.Loop.{
  Turn, Ended, still, dispatch, turn, Step, loop_step, command_step, update_step, replied, step,
  next_step, run,
}
use governance_iot_platform.GrpcFirmware.Command.{manage}
use governance_iot_platform.GrpcFirmware.Loop.Keeping.{
  is_audit, IsUnaudited, Keeps, handle_provisioning-Keeps,
}
use governance_iot_platform.GrpcFirmware.Loop.Handlers.{
  Waits, identified-IsUnaudited, ap_mode-IsUnaudited, wifi-Waits, time_sync-IsUnaudited,
  grpc_init-IsUnaudited, handle_error-IsUnaudited, success-IsUnaudited,
}
use governance_iot_platform.GrpcFirmware.Loop.Tasks.{task-Keeps, manage-Keeps}

module _ (nvs : Nvs) (erase : nvs.Flash → nvs.Flash) where
  -- Where the steps have ended, the state is not that of the audit.
  abbrev pub NeverAudits : Ended nvs erase → Type 0
  NeverAudits none = Unit
  NeverAudits (some o) = Keeps nvs o

  still-NeverAudits : (o : Option (Device nvs)) → Waits nvs o → NeverAudits (still nvs erase o)
  still-NeverAudits none h = tt
  still-NeverAudits (some d) h = h

  dispatch-NeverAudits :
      (s : DeviceState) (t : Turn) (d : Device nvs)
      → is_audit s ≡ false
      → IsUnaudited nvs d
      → NeverAudits (dispatch nvs erase s t d)
  unfolding dispatch is_audit handle_nvs_init
  dispatch-NeverAudits nvs_init t d e h =
      identified-IsUnaudited nvs (init_flash nvs erase t.first_init t.second_init d.flash) d h
  dispatch-NeverAudits wifi_ap_mode t d e h = ap_mode-IsUnaudited nvs d h
  dispatch-NeverAudits wifi_connecting t d e h =
      still-NeverAudits (handle_wifi_connecting nvs t.image t.marked t.network d)
        (wifi-Waits nvs t.image t.marked t.network d h)
  dispatch-NeverAudits time_sync t d e h = time_sync-IsUnaudited nvs d h
  dispatch-NeverAudits provisioning t d e h = handle_provisioning-Keeps nvs t.service d h
  dispatch-NeverAudits mqtt_init t d e h = grpc_init-IsUnaudited nvs t.initialised d h
  dispatch-NeverAudits verify_rollback t d e h = cc
  dispatch-NeverAudits provisioning_success t d e h =
      success-IsUnaudited nvs t.service.print t.ssid t.publish t.micros d h
  dispatch-NeverAudits error t d e h = handle_error-IsUnaudited nvs t.service t.ip t.ssid d h
  dispatch-NeverAudits rebooting t d e h = h
  dispatch-NeverAudits waiting_response t d e h = tt
  dispatch-NeverAudits mqtt_waiting_connect t d e h = h
  dispatch-NeverAudits operational t d e h = h
  dispatch-NeverAudits ota_found t d e h = h
  dispatch-NeverAudits ota_downloading t d e h = h
  dispatch-NeverAudits firmware_rollback t d e h = h
  dispatch-NeverAudits http_init t d e h = h
  dispatch-NeverAudits http_request t d e h = h

  module _ (json : Json) where
    replied-NeverAudits :
        (o : Outcome (Device nvs) Bool) → Keeps nvs o → NeverAudits (replied nvs erase json o)
    unfolding replied
    replied-NeverAudits (done r d) h = h
    replied-NeverAudits (halted stop d) h = h

    step-NeverAudits :
        (x : Step nvs erase json) (d : Device nvs)
        → IsUnaudited nvs d
        → NeverAudits (step nvs erase json x d)
    unfolding step turn
    step-NeverAudits (loop_step t) d h = dispatch-NeverAudits d.app.current t d h h
    step-NeverAudits (command_step a payload) d h =
        replied-NeverAudits (manage nvs json a payload d) (manage-Keeps nvs json a payload d h)
    step-NeverAudits (update_step added removed a version url) d h =
        task-Keeps nvs json added removed a version url d h

    then_run :
        (xs : List (Step nvs erase json)) (o : Ended nvs erase)
        → ((d : Device nvs) → IsUnaudited nvs d → NeverAudits (run nvs erase json xs d))
        → NeverAudits o
        → NeverAudits (next_step nvs erase json (run nvs erase json xs) o)
    then_run xs none k h = tt
    then_run xs (some (done x d)) k h = k d h
    then_run xs (some (halted stop d)) k h = h

    -- In whatever order the turns of the main loop, the commands of the stream and the tasks of the
    -- updates come, and whatever the chip, the network and the services answer: from a state that is
    -- not VERIFY_ROLLBACK the firmware over HTTP/2 never comes to that state, in which alone it would
    -- count a crash, report a rollback or ban a firmware.
    pub run-NeverAudits :
        (xs : List (Step nvs erase json)) (d : Device nvs)
        → is_audit d.app.current ≡ false
        → NeverAudits (run nvs erase json xs d)
    unfolding run
    run-NeverAudits [] d h = h
    run-NeverAudits (x ∷ xs) d h =
        then_run xs (step nvs erase json x d) (λ d' h'. run-NeverAudits xs d' h')
          (step-NeverAudits x d h)
