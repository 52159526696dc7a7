-- ===== src/GrpcFirmware/Loop/Tasks.antt =====
-- The commands and the updates of the firmware over HTTP/2 do not move to the audit of the boot
-- (perceptive-layer/grpc/grpc_only/main/src/CommandProcessor.cpp and OtaManager.cpp).
use governance_iot_platform.Prelude.{
  ◌*◌, String, str_eq, Bool, true, false, not, ◌&&◌, ◌==◌, Option, none, some, ◌∷◌, refl,
}
use governance_iot_platform.Nvs.{Nvs, read_write}
use governance_iot_platform.Device.State.{
  Stop, restart, deep_sleep_start, timer_wakeup, Outcome, done, halted,
}
use governance_iot_platform.Command.{Json}
use governance_iot_platform.Ota.{is_empty}
use governance_iot_platform.GrpcFirmware.State.{
  ota_found, ota_downloading, driver, start_ota, Device, transition,
}
use governance_iot_platform.GrpcFirmware.Ota.{
  Download, banned_version, set_target, read_version, with_version, finish_download, begun_download,
  download_ota, update_checked, verify_and_update,
}
use governance_iot_platform.GrpcFirmware.Command as Commands
use governance_iot_platform.GrpcFirmware.Command.{
  CommandType, update, deep_sleep, reboot, unknown, UpdateFields, bad, good, is_updating,
  get_command_type, update_fields, seconds, store_command, run_update, store_and_stop,
  run_deep_sleep, dispatch, manage_command, manage_item, manage_parsed, manage, add_to_current_task,
  remove_from_current_task, end_task, ota_task_routine,
}
use governance_iot_platform.GrpcFirmware.Loop.Keeping.{
  is_audit, IsUnaudited, Keeps, transition-IsUnaudited, set_error-IsUnaudited,
}
use governance_iot_platform.GrpcFirmware.Loop.Handlers.{finish_download-Keeps, either-Keeps}

module _ (nvs : Nvs) where
  begun-Keeps :
      (begun : Option String) (a : Download) (version : String) (d : Device nvs)
      → IsUnaudited nvs d
      → Keeps nvs (begun_download nvs begun a version d)
  unfolding begun_download is_audit
  begun-Keeps (some name) a version d h = h
  begun-Keeps none a version d h =
      let d1 = transition nvs ota_downloading d in
      let h1 = transition-IsUnaudited nvs ota_downloading d refl h in
      either-Keeps nvs a.completed (finish_download nvs a.finish version d1)
        (done (false, "Error: Download incomplete") d1)
        (finish_download-Keeps nvs a.finish version d1 h1) h1

  download-Keeps :
      (a : Download) (version : String) (d : Device nvs)
      → IsUnaudited nvs d
      → Keeps nvs (download_ota nvs a version d)
  unfolding download_ota
  download-Keeps a version d h = begun-Keeps a.begun a version d h

  checked-Keeps :
      (a : Download) (version : String) (d : Device nvs)
      → IsUnaudited nvs d
      → Keeps nvs (update_checked nvs a version d)
  unfolding update_checked
  checked-Keeps a version d h =
      either-Keeps nvs
        (not (is_empty (banned_version nvs d.flash)) && str_eq version (banned_version nvs d.flash))
        (done _ d) _ h
        (either-Keeps nvs (not (is_empty version)) _ (done _ d)
          (download-Keeps a version
            (record d { flash = set_target nvs d.core.current_version version d.flash }) h)
          h)

  update-Keeps :
      (a : Download) (version url : String) (d : Device nvs)
      → IsUnaudited nvs d
      → Keeps nvs (verify_and_update nvs a version url d)
  unfolding verify_and_update
  update-Keeps a version url d h =
      either-Keeps nvs (str_eq (read_version nvs d.flash) version) _ _
        (set_error-IsUnaudited nvs _ _ _ _ (with_version nvs d) h)
        (either-Keeps nvs (not (nvs.opens d.flash read_write "ota_store"))
          (done _ (with_version nvs d)) (update_checked nvs a version (with_version nvs d)) h
          (checked-Keeps a version (with_version nvs d) h))

  module _ (json : Json) where
    added-IsUnaudited :
        (o : Option String) (d : Device nvs)
        → IsUnaudited nvs d
        → IsUnaudited nvs (add_to_current_task nvs json o d)
    unfolding add_to_current_task
    added-IsUnaudited none d h = h
    added-IsUnaudited (some name) d h = set_error-IsUnaudited nvs _ _ _ _ d h

    removed-IsUnaudited :
        (o : Option String) (d : Device nvs)
        → IsUnaudited nvs d
        → IsUnaudited nvs (remove_from_current_task nvs json o d)
    unfolding remove_from_current_task
    removed-IsUnaudited none d h = h
    removed-IsUnaudited (some name) d h = set_error-IsUnaudited nvs _ _ _ _ d h

    end_task-Keeps :
        (removed : Option String) (o : Outcome (Device nvs) (Bool × String))
        → Keeps nvs o
        → Keeps nvs (end_task nvs json removed o)
    unfolding end_task
    end_task-Keeps removed (done r d) h = removed-IsUnaudited removed d h
    end_task-Keeps removed (halted stop d) h = h

    pub task-Keeps :
        (added removed : Option String) (a : Download) (version url : String) (d : Device nvs)
        → IsUnaudited nvs d
        → Keeps nvs (ota_task_routine nvs json added removed a version url d)
    unfolding ota_task_routine
    task-Keeps added removed a version url d h =
        end_task-Keeps removed
          (verify_and_update nvs a version url (add_to_current_task nvs json added d))
          (update-Keeps a version url (add_to_current_task nvs json added d)
            (added-IsUnaudited added d h))

    run_update-Keeps :
        (a : Commands.Answers) (f : UpdateFields) (d : Device nvs)
        → IsUnaudited nvs d
        → Keeps nvs (run_update nvs json a f d)
    unfolding run_update is_audit
    run_update-Keeps a (bad why) d h = set_error-IsUnaudited nvs _ _ _ _ d h
    run_update-Keeps a (good version url) d h =
        let d1 = transition nvs ota_found d in
        let h1 = transition-IsUnaudited nvs ota_found d refl h in
        either-Keeps nvs (is_updating d.app.current) (done true d) _ h (
          either-Keeps nvs a.task_created
            (done true (record d1 { requests = start_ota version url ∷ d1.requests })) _ h1
            (set_error-IsUnaudited nvs _ _ _ _ d1 h1))

    stop-Keeps :
        (a : Commands.Answers) (cmd : String) (stop : Stop) (d : Device nvs)
        → IsUnaudited nvs d
        → Keeps nvs (store_and_stop nvs json a cmd stop d)
    unfolding store_and_stop
    stop-Keeps a cmd stop d h =
        either-Keeps nvs (nvs.opens d.flash read_write "command_store")
          (halted stop (record d { flash = store_command nvs json cmd d.flash })) _ h
          (set_error-IsUnaudited nvs _ _ _ _ d h)

    sleep-Keeps :
        (a : Commands.Answers) (cmd : String) (o : Option json.Item) (d : Device nvs)
        → IsUnaudited nvs d
        → Keeps nvs (run_deep_sleep nvs json a cmd o d)
    unfolding run_deep_sleep
    sleep-Keeps a cmd none d h = set_error-IsUnaudited nvs _ _ _ _ d h
    sleep-Keeps a cmd (some item) d h =
        either-Keeps nvs (not (json.is_number item)) _ _ (set_error-IsUnaudited nvs _ _ _ _ d h) (
          either-Keeps nvs (seconds nvs json item == 0) _ _ (set_error-IsUnaudited nvs _ _ _ _ d h)
            (stop-Keeps a cmd deep_sleep_start
              (record d {
                requests = driver (timer_wakeup (seconds nvs json item * 1000000)) ∷ d.requests;
              })
              h))

    dispatch-Keeps :
        (c : CommandType) (a : Commands.Answers) (cmd : String) (payload : json.Item)
        (d : Device nvs)
        → IsUnaudited nvs d
        → Keeps nvs (dispatch nvs json c a cmd payload d)
    unfolding dispatch
    dispatch-Keeps update a cmd payload d h =
        run_update-Keeps a
          (update_fields nvs json (json.get_object_item payload "version")
            (json.get_object_item payload "url"))
          d h
    dispatch-Keeps deep_sleep a cmd payload d h =
        sleep-Keeps a cmd (json.get_object_item payload "duration_s") d h
    dispatch-Keeps reboot a cmd payload d h = stop-Keeps a cmd restart d h
    dispatch-Keeps unknown a cmd payload d h = h

    command-Keeps :
        (a : Commands.Answers) (cmd : String) (o : Option json.Item) (d : Device nvs)
        → IsUnaudited nvs d
        → Keeps nvs (manage_command nvs json a cmd o d)
    unfolding manage_command
    command-Keeps a cmd none d h = set_error-IsUnaudited nvs _ _ _ _ d h
    command-Keeps a cmd (some payload) d h =
        either-Keeps nvs (json.is_object payload) _ _
          (dispatch-Keeps (get_command_type cmd) a cmd payload d h)
          (set_error-IsUnaudited nvs _ _ _ _ d h)

    item-Keeps :
        (a : Commands.Answers) (o : Option json.Item) (root : json.Item) (d : Device nvs)
        → IsUnaudited nvs d
        → Keeps nvs (manage_item nvs json a o root d)
    unfolding manage_item
    item-Keeps a none root d h = set_error-IsUnaudited nvs _ _ _ _ d h
    item-Keeps a (some command) root d h =
        either-Keeps nvs (json.is_string command) _ _
          (command-Keeps a (json.valuestring command) (json.get_object_item root "payload") d h)
          (set_error-IsUnaudited nvs _ _ _ _ d h)

    parsed-Keeps :
        (a : Commands.Answers) (payload : String) (o : Option json.Item) (d : Device nvs)
        → IsUnaudited nvs d
        → Keeps nvs (manage_parsed nvs json a payload o d)
    unfolding manage_parsed
    parsed-Keeps a payload none d h = set_error-IsUnaudited nvs _ _ _ _ d h
    parsed-Keeps a payload (some root) d h =
        item-Keeps a (json.get_object_item root "command") root d h

    pub manage-Keeps :
        (a : Commands.Answers) (payload : String) (d : Device nvs)
        → IsUnaudited nvs d
        → Keeps nvs (manage nvs json a payload d)
    unfolding manage
    manage-Keeps a payload d h = parsed-Keeps a payload (json.parse payload) d h
