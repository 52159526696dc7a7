-- ===== src/Command/Replies.antt =====
-- The replies to commands, with what they leave of the state
-- (perceptive-layer/mqtt_protobuff/governance_core/src/CommandProcessor.cpp).
use governance_iot_platform.Prelude.{
  ◌*◌, ◌==◌, String, Bool, true, false, Option, none, some, List, [], ◌∷◌, ◌++◌, ◌≡◌, refl, ◌⊎◌,
  inl, inr, arith, Bool-cases, Option-cases,
}
use governance_iot_platform.Nvs.{Nvs}
use governance_iot_platform.AppState.Codes.{
  error, ota_found, ErrorCode, ota_fail, command_response_invalid, nvs_init_fail,
  firmware_rollback_failed, Source, AppError,
}
use governance_iot_platform.AppState
use governance_iot_platform.AppState.{AppState, drop_oldest, register}
use governance_iot_platform.Device.{World, at, set_error, transition, read_str}
use governance_iot_platform.Device.State.{Effect, start_reboot, start_deep_sleep, timer_wakeup}
use governance_iot_platform.Command.{
  Json, CommandType, update, deep_sleep, reboot, firmware_rollback, unknown, get_command_type,
  Answers, UpdateFields, bad, good, is, refuse, run_update, store_command, defer, seconds,
  run_deep_sleep, force_rollback, run_rollback, dispatch, manage_command, manage_item, manage,
  record_rollback,
}
use Prim.Native.String.{◌++◌ as text_append}

-- Who reported the newest event.
pub last_source : List AppError → Option Source
last_source [] = none
last_source (e ∷ []) = some e.source
last_source (e ∷ e' ∷ q) = last_source (e' ∷ q)

last_source-append : (q : List AppError) (e : AppError) → last_source (q ++ e ∷ []) ≡ some e.source
unfolding last_source
last_source-append [] e = refl
last_source-append (x ∷ []) e = refl
last_source-append (x ∷ y ∷ q) e = last_source-append (y ∷ q) e

module _ (nvs : Nvs) (json : Json) where
  -- What a reply says: on success no error was queued; on failure either nothing changed, or the
  -- device is in ERROR and the newest event is of `manage`.
  abbrev pub IsReported : World nvs → World nvs × Bool → Type 0
  IsReported w r =
      ((r.1 ≡ true) × (r.0.app.error_queue ≡ w.app.error_queue))
      ⊎ ((r.1 ≡ false) × (r.0 ≡ w))
      ⊎ ((r.1 ≡ false)
          × (r.0.app.current ≡ error)
          × (last_source r.0.app.error_queue ≡ some (at "CommandProcessor" "manage")))

  refused :
      (code : ErrorCode) (msg : String) (w w0 : World nvs)
      → w0.app.ready ≡ true
      → IsReported w (refuse nvs json code msg w0)
  unfolding set_error register
  refused code msg w w0 r =
      rw r (inr (inr (refl, refl, last_source-append (drop_oldest w0.app.error_queue) _)))

  run_update-IsReported :
      (a : Answers) (f : UpdateFields) (w : World nvs)
      → w.app.ready ≡ true
      → IsReported w (run_update nvs json a f w)
  unfolding run_update transition AppState.transition
  run_update-IsReported a (bad why) w r = refused _ why w w r
  run_update-IsReported a (good version url sha) w r =
      ground (arith, refused ota_fail "Failed to create OTA Task" w (transition nvs ota_found w))

  defer-IsReported :
      (a : Answers) (cmd : String) (task : Effect) (w0 w : World nvs)
      → w.app.ready ≡ true
      → w0.app ≡ w.app
      → IsReported w0 (defer nvs json a cmd task w)
  unfolding defer
  defer-IsReported a cmd task w0 w r same = ground (
    arith,
    refused nvs_init_fail a.nvs_error w0 w,
    refused command_response_invalid "Failed to create OTA Task" w0
        (record w { flash = store_command nvs json cmd w.flash }),
  )

  run_deep_sleep-IsReported :
      (a : Answers) (cmd : String) (duration : Option json.Item) (w : World nvs)
      → w.app.ready ≡ true
      → IsReported w (run_deep_sleep nvs json a cmd duration w)
  unfolding run_deep_sleep
  run_deep_sleep-IsReported a cmd duration w r =
      let s = seconds nvs json duration in
      elim (Bool-cases (is nvs json json.is_number duration)) [
        | inl number ↦ elim (Bool-cases (s == 0)) [
          | inl e ↦ rw (number, e) (refused _ _ w w r)
          | inr e ↦
              rw (number, e)
                (defer-IsReported a cmd (start_deep_sleep s) w
                  (record w { effects = timer_wakeup (s * 1000000) ∷ w.effects }) r refl)
        ]
        | inr other ↦ rw other (refused _ _ w w r)
      ]

  force_rollback-IsReported :
      (boot_error : Option String) (cmd : String) (w : World nvs)
      → w.app.ready ≡ true
      → IsReported w (force_rollback nvs json boot_error cmd w)
  unfolding force_rollback
  force_rollback-IsReported none cmd w r =
      ground (arith, refused firmware_rollback_failed "Nenhum firmware anterior registrado" w w)
  force_rollback-IsReported (some name) cmd w r = ground (
    arith,
    refused firmware_rollback_failed "Nenhum firmware anterior registrado" w w,
    refused firmware_rollback_failed (text_append "Falha ao setar partição: " name) w (record w {
      flash =
          record_rollback nvs json (read_str nvs "ota_store" "prev_ver" 32 w.flash)
            (read_str nvs "ota_store" "prev_sha" 65 w.flash) cmd w.flash;
    }),
  )

  dispatch-IsReported :
      (t : CommandType) (a : Answers) (cmd : String) (payload : json.Item) (w : World nvs)
      → w.app.ready ≡ true
      → IsReported w (dispatch nvs json t a cmd payload w)
  unfolding dispatch run_rollback
  dispatch-IsReported update a cmd payload w r = run_update-IsReported a _ w r
  dispatch-IsReported deep_sleep a cmd payload w r = run_deep_sleep-IsReported a cmd _ w r
  dispatch-IsReported reboot a cmd payload w r =
      defer-IsReported a cmd (start_reboot 5000) w w r refl
  dispatch-IsReported firmware_rollback a cmd payload w r = elim (Bool-cases a.has_partition) [
    | inl e ↦ rw e (force_rollback-IsReported a.boot_error cmd w r)
    | inr e ↦ rw e (refused _ _ w w r)
  ]
  dispatch-IsReported unknown a cmd payload w r = inr (inl (refl, refl))

  manage_command-IsReported :
      (a : Answers) (cmd : String) (payload : Option json.Item) (w : World nvs)
      → w.app.ready ≡ true
      → IsReported w (manage_command nvs json a cmd payload w)
  unfolding manage_command
  manage_command-IsReported a cmd none w r = refused _ _ w w r
  manage_command-IsReported a cmd (some payload) w r = elim (Bool-cases (json.is_object payload)) [
    | inl e ↦ rw e (dispatch-IsReported (get_command_type cmd) a cmd payload w r)
    | inr e ↦ rw e (refused _ _ w w r)
  ]

  manage_item-IsReported :
      (a : Answers) (command : Option json.Item) (root : json.Item) (w : World nvs)
      → w.app.ready ≡ true
      → IsReported w (manage_item nvs json a command root w)
  unfolding manage_item
  manage_item-IsReported a none root w r = refused _ _ w w r
  manage_item-IsReported a (some command) root w r = elim (Bool-cases (json.is_string command)) [
    | inl e ↦ rw e (manage_command-IsReported a _ _ w r)
    | inr e ↦ rw e (refused _ _ w w r)
  ]

  -- Once the mutex exists, for every payload: `manage` succeeds and queues no error, or fails and
  -- changes nothing, or fails in ERROR with its own event as the newest.
  pub manage-IsReported :
      (a : Answers) (payload : String) (w : World nvs)
      → w.app.ready ≡ true
      → IsReported w (manage nvs json a payload w)
  unfolding manage
  manage-IsReported a payload w r = elim (Option-cases (json.parse payload)) [
    | inl e ↦ rw (e, manage) (refused _ _ w w r)
    | inr (root, e) ↦ rw (e, manage) (manage_item-IsReported a _ root w r)
  ]
