-- ===== src/Core/Audit/Branches.antt =====
-- The audit of the boot on all its branches.
use governance_iot_platform.Prelude.{
  Bool, true, false, ◌&&◌, if◌then◌else◌, none, some, ◌≡◌, refl, ap, sym, subst, ◌∙◌, arith, inl,
  inr, ◌⊎◌,
}
use governance_iot_platform.Nvs.{Nvs, read_write}
use governance_iot_platform.AppState.Codes.{
  error_index, sensors_init, mqtt_init_fail, mqtt_disconnected, command_complete, ota_successful,
}
use governance_iot_platform.AppState
use governance_iot_platform.AppState.{AppState, is_error_active}
use governance_iot_platform.AppState.Activity.{is_error_active-settle}
use governance_iot_platform.Device.{World, resolve_error, transition}
use governance_iot_platform.Device.Laws.{
  resolve_error-app, settle-ready, settle_self, transition-active, transition-current,
}
use governance_iot_platform.Device.State.{Outcome, done, halted, ◌>>=◌}
use governance_iot_platform.Core.Publish.{Surroundings}
use governance_iot_platform.Core.Audit.{
  Answers, is_pending, command_detail, with_flash, audit_crash, audit_target, audit_command,
  finish_audit, report_update, open_audit, handle_boot_audit,
}
use governance_iot_platform.Core.Audit.Ready.{
  IsReady, Ends, audit_crash-IsReady, announce-IsReady, audit_command-IsReady, audit_target-IsReady,
  open_audit-IsReady,
}

module _ (nvs : Nvs) (env : Surroundings) where
  -- The audit is over, and the errors of the broker are settled.
  abbrev pub IsSettled : AppState → Type 0
  IsSettled s =
      (s.current ≡ sensors_init)
      × (is_error_active mqtt_init_fail s ≡ false)
      × (is_error_active mqtt_disconnected s ≡ false)

  settle_both :
      (s : AppState)
      → s.ready ≡ true
      → IsSettled (
          AppState.transition sensors_init
            (AppState.settle mqtt_disconnected (AppState.settle mqtt_init_fail s).0).0)
  unfolding error_index
  settle_both s r =
      let s1 = (AppState.settle mqtt_init_fail s).0 in
      let s2 = (AppState.settle mqtt_disconnected s1).0 in
      (
        transition-current sensors_init s2
            (settle-ready mqtt_disconnected s1 ∙ settle-ready mqtt_init_fail s ∙ r),
        transition-active mqtt_init_fail sensors_init s2
            ∙ is_error_active-settle mqtt_disconnected s1 mqtt_init_fail
            ∙ ap (λ b. b && true) (settle_self mqtt_init_fail s),
        transition-active mqtt_disconnected sensors_init s2 ∙ settle_self mqtt_disconnected s1,
      )

  finish_audit-IsSettled :
      (w : World nvs) → IsReady nvs env w → IsSettled (finish_audit nvs env w).app
  unfolding finish_audit transition
  finish_audit-IsSettled w r =
      subst (λ s. IsSettled (AppState.transition sensors_init s))
        (sym (
          resolve_error-app nvs mqtt_disconnected (resolve_error nvs mqtt_init_fail w)
          ∙ ap (λ s. (AppState.settle mqtt_disconnected s).0)
              (resolve_error-app nvs mqtt_init_fail w)))
        (settle_both w.app r)

  report_update-current :
      (w : World nvs) → IsReady nvs env w → (report_update nvs env w).app.current ≡ sensors_init
  unfolding report_update with_flash transition
  report_update-current w r = transition-current sensors_init _ (
      ground (
        arith,
        announce-IsReady nvs env command_complete (some (command_detail "FIRMWARE_ROLLBACK")) w r,
        announce-IsReady nvs env ota_successful none w r,
      ))

  -- what the audit does when no update waits to be reported
  audited :
      (a : Answers) (w : World nvs)
      → IsReady nvs env w
      → Ends nvs env
          (λ w'. IsSettled w'.app)
          ((audit_crash nvs env a >>= (λ _ w'.
              done tt (finish_audit nvs env (audit_command nvs env (audit_target nvs env a w')))))
            w)
  audited a w r = after_crash (audit_crash nvs env a w) (audit_crash-IsReady nvs env a w r)
    where
      after_crash :
          (o : Outcome (World nvs) (Unit {0}))
          → Ends nvs env (IsReady nvs env) o
          → Ends nvs env
              (λ w'. IsSettled w'.app)
              (((λ _. o) >>= (λ _ w'.
                  done tt
                    (finish_audit nvs env (audit_command nvs env (audit_target nvs env a w')))))
                w)
      after_crash (done x w') ready =
          finish_audit-IsSettled _
            (audit_command-IsReady nvs env _ (audit_target-IsReady nvs env a w' ready))
      after_crash (halted stop w') e = e

  -- an update has been installed and nobody has been told
  abbrev pub is_update_pending : World nvs → Bool
  is_update_pending w =
      nvs.opens w.flash read_write "ota_store"
      && is_pending nvs env "ota_store" "ota_notified" w.flash

  either-Ends :
      (P : World nvs → Type 0) (b : Bool) (x y : Outcome (World nvs) (Unit {0}))
      → (b ≡ true → Ends nvs env P x)
      → (b ≡ false → Ends nvs env P y)
      → Ends nvs env P (if b then x else y)
  either-Ends P true x y p q = p refl
  either-Ends P false x y p q = q refl

  map-Ends :
      (P Q : World nvs → Type 0) (o : Outcome (World nvs) (Unit {0}))
      → ((w : World nvs) → P w → Q w)
      → Ends nvs env P o
      → Ends nvs env Q o
  map-Ends P Q (done x w) f p = f w p
  map-Ends P Q (halted stop w) f p = p

  -- Once the mutex exists, whatever flash holds and the chip answers, the audit either sends the chip back to the firmware
  -- before or returns in SENSORS_INIT; in that case MQTT_INIT_FAIL and MQTT_DISCONNECTED are settled,
  -- unless an update was waiting to be reported.
  pub handle_boot_audit-Ends :
      (a : Answers) (w : World nvs)
      → w.app.ready ≡ true
      → Ends nvs env
          (λ w'.
            (w'.app.current ≡ sensors_init)
            × ((is_update_pending (open_audit nvs env a w) ≡ true) ⊎ IsSettled w'.app))
          (handle_boot_audit nvs env a w)
  unfolding handle_boot_audit
  handle_boot_audit-Ends a w r =
      let w1 = open_audit nvs env a w in
      let ready = open_audit-IsReady nvs env a w r in
      either-Ends _ (is_update_pending w1) (done tt (report_update nvs env w1)) _
        (λ e. (report_update-current w1 ready, inl e))
        (λ e. map-Ends (λ w'. IsSettled w'.app) _ _ (λ w' s. (s.0, inr s)) (audited a w1 ready))
