-- ===== src/GrpcFirmware/Loop/Updating.antt =====
-- The updates of the firmware over HTTP/2 that return without a restart, and the commands that ask for
-- them (perceptive-layer/grpc/grpc_only/main/src/OtaManager.cpp and CommandProcessor.cpp).
use governance_iot_platform.Prelude.{
  String, str_eq, Bool, true, false, not, ◌&&◌, if◌then◌else◌, Option, none, some, ◌∷◌, ◌≡◌, refl,
  arith,
}
use governance_iot_platform.Nvs.{Nvs, read_write}
use governance_iot_platform.Device.State.{Outcome, done, halted}
use governance_iot_platform.Command.{Json}
use governance_iot_platform.Ota.{Finish, finished, validate_failed, finish_failed, is_empty}
use governance_iot_platform.GrpcFirmware.State.{
  ota_found, ota_downloading, state_index, Device, start_ota, move, transition,
}
use governance_iot_platform.GrpcFirmware.Ota.{
  Download, banned_version, set_target, read_version, with_version, finish_download, begun_download,
  download_ota, update_checked, verify_and_update,
}
use governance_iot_platform.GrpcFirmware.Command as Commands
use governance_iot_platform.GrpcFirmware.Command.{
  update, good, is_updating, get_command_type, update_fields, run_update, dispatch, manage_command,
  manage_item, manage_parsed, manage, add_to_current_task, remove_from_current_task, end_task,
  ota_task_routine,
}

module _ (nvs : Nvs) where
  abbrev pub IsUpdating : Device nvs → Type 0
  IsUpdating d = is_updating d.app.current ≡ true

  -- A call that returns leaves the update in progress.
  abbrev pub StillUpdates {ℓ} : {A : Type ℓ} → Outcome (Device nvs) A → Type 0
  StillUpdates (done x d) = IsUpdating d
  StillUpdates (halted stop d) = Unit

  either-StillUpdates {ℓ} :
      {A : Type ℓ} (b : Bool) (x y : Outcome (Device nvs) A)
      → StillUpdates x
      → StillUpdates y
      → StillUpdates (if b then x else y)
  either-StillUpdates true x y p q = p
  either-StillUpdates false x y p q = q

  downloading-IsUpdating :
      (d : Device nvs) → IsUpdating d → IsUpdating (transition nvs ota_downloading d)
  unfolding transition move is_updating
  downloading-IsUpdating d h = ground arith

  finish-StillUpdates :
      (f : Finish) (version : String) (d : Device nvs)
      → IsUpdating d
      → StillUpdates (finish_download nvs f version d)
  unfolding finish_download
  finish-StillUpdates finished version d h = tt
  finish-StillUpdates validate_failed version d h = h
  finish-StillUpdates (finish_failed name) version d h = h

  begun-StillUpdates :
      (begun : Option String) (a : Download) (version : String) (d : Device nvs)
      → IsUpdating d
      → StillUpdates (begun_download nvs begun a version d)
  unfolding begun_download
  begun-StillUpdates (some name) a version d h = h
  begun-StillUpdates none a version d h =
      let d1 = transition nvs ota_downloading d in
      let h1 = downloading-IsUpdating d h in
      either-StillUpdates a.completed (finish_download nvs a.finish version d1)
        (done (false, "Error: Download incomplete") d1) (finish-StillUpdates a.finish version d1 h1)
        h1

  checked-StillUpdates :
      (a : Download) (version : String) (d : Device nvs)
      → IsUpdating d
      → StillUpdates (update_checked nvs a version d)
  unfolding update_checked download_ota
  checked-StillUpdates a version d h =
      either-StillUpdates
        (not (is_empty (banned_version nvs d.flash)) && str_eq version (banned_version nvs d.flash))
        (done _ d) _ h
        (either-StillUpdates (not (is_empty version)) _ (done _ d)
          (begun-StillUpdates a.begun a version
            (record d { flash = set_target nvs d.core.current_version version d.flash }) h)
          h)

  update-StillUpdates :
      (a : Download) (version url : String) (d : Device nvs)
      → str_eq (read_version nvs d.flash) version ≡ false
      → IsUpdating d
      → StillUpdates (verify_and_update nvs a version url d)
  unfolding verify_and_update
  update-StillUpdates a version url d other h = simp other (
      either-StillUpdates (not (nvs.opens d.flash read_write "ota_store"))
        (done _ (with_version nvs d)) (update_checked nvs a version (with_version nvs d)) h
        (checked-StillUpdates a version (with_version nvs d) h))

  module _ (json : Json) where
    ended-StillUpdates :
        (o : Outcome (Device nvs) (Bool × String))
        → StillUpdates o
        → StillUpdates (end_task nvs json none o)
    unfolding end_task remove_from_current_task
    ended-StillUpdates (done r d) h = h
    ended-StillUpdates (halted stop d) h = h

    pub task-StillUpdates :
        (a : Download) (version url : String) (d : Device nvs)
        → str_eq (read_version nvs d.flash) version ≡ false
        → IsUpdating d
        → StillUpdates (ota_task_routine nvs json none none a version url d)
    unfolding ota_task_routine add_to_current_task
    task-StillUpdates a version url d other h =
        ended-StillUpdates (verify_and_update nvs a version url d)
          (update-StillUpdates a version url d other h)

    -- A payload that asks for an update.
    pub record AsksUpdate (payload : String) : Type 0 where
      pub root : json.Item
      pub command : json.Item
      pub fields : json.Item
      pub version : String
      pub url : String
      pub parsed : json.parse payload ≡ some root
      pub command_found : json.get_object_item root "command" ≡ some command
      pub command_text : json.is_string command ≡ true
      pub is_update : get_command_type (json.valuestring command) ≡ update
      pub fields_found : json.get_object_item root "payload" ≡ some fields
      pub fields_object : json.is_object fields ≡ true
      pub fields_good :
          update_fields nvs json
            (json.get_object_item fields "version")
            (json.get_object_item fields "url")
          ≡ good version url

    pub manage_ignored :
        (a : Commands.Answers) (payload : String) (d : Device nvs)
        → AsksUpdate payload
        → IsUpdating d
        → manage nvs json a payload d ≡ done true d
    unfolding manage manage_parsed manage_item manage_command dispatch run_update
    manage_ignored a payload d u h =
        simp
          (
            u.parsed, u.command_found, u.command_text, u.is_update, u.fields_found, u.fields_object,
            u.fields_good, h,
          )
          refl

    -- the device on which the task of an update begins
    abbrev pub found : String → String → Device nvs → Device nvs
    found version url d =
        let d1 = transition nvs ota_found d in
        record d1 { requests = start_ota version url ∷ d1.requests }

    pub manage_starts :
        (a : Commands.Answers) (payload : String) (d : Device nvs) (u : AsksUpdate payload)
        → is_updating d.app.current ≡ false
        → a.task_created ≡ true
        → manage nvs json a payload d ≡ done true (found u.version u.url d)
    unfolding manage manage_parsed manage_item manage_command dispatch run_update
    manage_starts a payload d u h created =
        simp
          (
            u.parsed, u.command_found, u.command_text, u.is_update, u.fields_found, u.fields_object,
            u.fields_good, h, created,
          )
          refl

    pub found-IsUpdating :
        (version url : String) (d : Device nvs)
        → d.app.ready ≡ true
        → IsUpdating (found version url d)
    unfolding transition move is_updating state_index
    found-IsUpdating version url d ready = simp ready refl
