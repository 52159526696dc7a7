-- ===== src/GrpcFirmware/Loop/Blocked.antt =====
-- An update of the firmware over HTTP/2 that fails without a restart
-- (perceptive-layer/grpc/grpc_only/main/main.cpp, src/OtaManager.cpp and src/CommandProcessor.cpp):
-- nothing takes the state back from OTA_FOUND or OTA_DOWNLOADING.
use governance_iot_platform.Prelude.{
  String, str_eq, true, false, none, some, List, [], ◌∷◌, ◌≡◌, refl, ap, subst, ◌∙◌,
}
use governance_iot_platform.Nvs.{Nvs}
use governance_iot_platform.Device.State.{done}
use governance_iot_platform.Command.{Json}
use governance_iot_platform.GrpcFirmware.State.{
  DeviceState, nvs_init, wifi_ap_mode, wifi_connecting, time_sync, provisioning,
  provisioning_success, mqtt_waiting_connect, mqtt_init, operational, ota_found, ota_downloading,
  verify_rollback, firmware_rollback, rebooting, error, http_init, http_request, waiting_response,
  state_index, Device,
}
use governance_iot_platform.GrpcFirmware.Ota.{Download, read_version}
use governance_iot_platform.GrpcFirmware.Command as Commands
use governance_iot_platform.GrpcFirmware.Command.{
  update, good, is_updating, get_command_type, update_fields, run_update, dispatch, manage_command,
  manage_item, manage_parsed, manage, add_to_current_task, remove_from_current_task, end_task,
  ota_task_routine,
}
use governance_iot_platform.GrpcFirmware.Loop.{
  Turn, Ended, turn, Step, loop_step, command_step, update_step, replied, step, next_step, run,
}
use governance_iot_platform.GrpcFirmware.Loop as MainLoop
use governance_iot_platform.GrpcFirmware.Loop.Updating.{
  IsUpdating, StillUpdates, AsksUpdate, found, task-StillUpdates, manage_ignored, manage_starts,
  found-IsUpdating,
}

module _ (nvs : Nvs) (json : Json) (erase : nvs.Flash → nvs.Flash) where
  dispatch_updating :
      (s : DeviceState) (t : Turn) (d : Device nvs)
      → is_updating s ≡ true
      → MainLoop.dispatch nvs erase s t d ≡ some (done tt d)
  unfolding MainLoop.dispatch is_updating state_index
  dispatch_updating nvs_init t d h = cc
  dispatch_updating wifi_ap_mode t d h = cc
  dispatch_updating wifi_connecting t d h = cc
  dispatch_updating time_sync t d h = cc
  dispatch_updating provisioning t d h = cc
  dispatch_updating provisioning_success t d h = cc
  dispatch_updating mqtt_waiting_connect t d h = refl
  dispatch_updating mqtt_init t d h = cc
  dispatch_updating operational t d h = refl
  dispatch_updating ota_found t d h = refl
  dispatch_updating ota_downloading t d h = refl
  dispatch_updating verify_rollback t d h = cc
  dispatch_updating firmware_rollback t d h = refl
  dispatch_updating rebooting t d h = cc
  dispatch_updating error t d h = cc
  dispatch_updating http_init t d h = refl
  dispatch_updating http_request t d h = refl
  dispatch_updating waiting_response t d h = cc

  -- A turn of the loop, or a command that asks for an update.
  abbrev IsRetry : Step nvs erase json → Type 0
  IsRetry (loop_step t) = Unit
  IsRetry (command_step a payload) = AsksUpdate nvs json payload
  IsRetry (update_step added removed a version url) = ⊥

  retry_ignored :
      (x : Step nvs erase json) (d : Device nvs)
      → IsRetry x
      → IsUpdating nvs d
      → step nvs erase json x d ≡ some (done tt d)
  unfolding step turn replied
  retry_ignored (loop_step t) d u h = dispatch_updating d.app.current t d h
  retry_ignored (command_step a payload) d u h =
      ap (replied nvs erase json) (manage_ignored nvs json a payload d u h)
  retry_ignored (update_step added removed a version url) d u h = elim u [ ]

  abbrev AreRetries : List (Step nvs erase json) → Type 0
  AreRetries [] = Unit
  AreRetries (x ∷ xs) = IsRetry x × AreRetries xs

  retries_ignored :
      (xs : List (Step nvs erase json)) (d : Device nvs)
      → AreRetries xs
      → IsUpdating nvs d
      → run nvs erase json xs d ≡ some (done tt d)
  unfolding run
  retries_ignored [] d us h = refl
  retries_ignored (x ∷ xs) d us h =
      ap (next_step nvs erase json (run nvs erase json xs)) (retry_ignored x d us.0 h)
      ∙ retries_ignored xs d us.1 h

  -- A device that is not updating takes a command to update to a version that is not the running
  -- one, and the task of the update returns without a restart (the version is banned or empty,
  -- ota_store is shut, or the download does not begin, stops or does not verify): the state is then
  -- still OTA_FOUND or OTA_DOWNLOADING, and every later turn of the main loop, and every further
  -- command that asks for an update, changes nothing. The mutex exists, and the task can be created
  -- and joins the watchdog.
  pub failed_update_blocks :
      (c : Commands.Answers) (a : Download) (payload : String) (u : AsksUpdate nvs json payload)
      (d d' : Device nvs) (xs : List (Step nvs erase json))
      → is_updating d.app.current ≡ false
      → d.app.ready ≡ true
      → c.task_created ≡ true
      → str_eq (read_version nvs d.flash) u.version ≡ false
      → ota_task_routine nvs json none none a u.version u.url (found nvs json u.version u.url d)
        ≡ done tt d'
      → AreRetries xs
      → IsUpdating nvs d'
        × (run nvs erase json
              (command_step c payload ∷ update_step none none a u.version u.url ∷ xs)
              d
            ≡ some (done tt d'))
  unfolding run step replied
  failed_update_blocks c a payload u d d' xs idle ready created other e us =
      let fails : IsUpdating nvs d' =
        subst (λ o. StillUpdates nvs o) e
          (task-StillUpdates nvs json a u.version u.url (found nvs json u.version u.url d) other
            (found-IsUpdating nvs json u.version u.url d ready)) in
      (
        fails,
        rw (manage_starts nvs json c payload d u idle created, e) (retries_ignored xs d' us fails),
      )
