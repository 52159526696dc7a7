-- ===== src/Provisioning/Audit/Once.antt =====
-- What the audit of the provisioning firmware has reported, it does not report again
-- (`handle_boot_audit` of
-- perceptive-layer/mqtt_protobuff/FIRM_PROVISIONING_MQTT_PROTOBUFF/main/main.cpp).
use governance_iot_platform.Prelude.{
  some, ℕ, ◌==◌, leb, String, Bool, true, false, not, ◌||◌, if◌then◌else◌, Option, none, ◌≡◌, refl,
  sym, ap, subst, ◌∙◌, arith,
}
use governance_iot_platform.Nvs.{Nvs, IsHealthy, i8_value}
use governance_iot_platform.AppState.Codes.{provisioning_success}
use governance_iot_platform.Device.{World, transition}
use governance_iot_platform.Device.State.{Outcome, done, ◌>>=◌}
use governance_iot_platform.Ota.{ImageState, pending_verify, other_state, set_valid_version}
use governance_iot_platform.Core.Publish.{Surroundings}
use governance_iot_platform.Core.Audit.{
  Answers, is_pending, store_count, count_crash, with_flash, open_audit, needs_validation,
  audit_crash,
}
use governance_iot_platform.Provisioning.Audit.{report_rest, handle_boot_audit}
use governance_iot_platform.Provisioning.Audit.Target.{IsKnown}
use governance_iot_platform.Mqtt.{subscribe_topic, is_subscribed}
use governance_iot_platform.Device.{set_error, save_mask}
use governance_iot_platform.Provisioning.Audit.Reported.{
  IsReported, is_target-get, report_rest-IsReported, report_rest-quiet,
}

module _ (nvs : Nvs) (env : Surroundings) (healthy : IsHealthy nvs) where
  -- the reads of the audit find the same in both
  record Agrees (f f' : nvs.Flash) : Type 0 where
    ota : (key : String) → nvs.get f "ota_store" key ≡ nvs.get f' "ota_store" key
    command :
        nvs.get f "command_store" "commandNotified" ≡ nvs.get f' "command_store" "commandNotified"

  Agrees-IsReported :
      (f f' : nvs.Flash)
      → Agrees f f'
      → IsReported nvs env healthy f'
      → IsReported nvs env healthy f
  Agrees-IsReported f f' s r = record {
    no_update = ap (λ v. i8_value 1 v == 0) (s.ota "ota_notified") ∙ r.no_update;
    no_target = is_target-get nvs env healthy f f' (s.ota "target_ver") ∙ r.no_target;
    no_command = ap (λ v. i8_value 1 v == 0) s.command ∙ r.no_command;
  }

  save_mask-Agrees : (m : ℕ) (f : nvs.Flash) → Agrees (save_mask nvs m f) f
  unfolding save_mask
  save_mask-Agrees m f = record {
    ota = λ key. simp (healthy.opens_all, nvs.get_commit, nvs.get_set) refl;
    command = simp (healthy.opens_all, nvs.get_commit, nvs.get_set) refl;
  }

  same-Agrees : (f : nvs.Flash) → Agrees f f
  same-Agrees f = record { ota = λ key. refl; command = refl }

  either-Agrees :
      (b : Bool) (x y : World nvs) (f : nvs.Flash)
      → Agrees x.flash f
      → Agrees y.flash f
      → Agrees (if b then x else y).flash f
  either-Agrees true x y f p q = p
  either-Agrees false x y f p q = q

  subscribe_topic-Agrees :
      (sent : Bool) (topic : String) (qos : ℕ) (w : World nvs)
      → Agrees (subscribe_topic nvs sent topic qos w).flash w.flash
  unfolding subscribe_topic set_error
  subscribe_topic-Agrees sent topic qos w =
      either-Agrees (not w.mqtt.client || is_subscribed topic w.mqtt.subscriptions) w _ w.flash
        (same-Agrees w.flash)
        (either-Agrees sent _ _ w.flash (same-Agrees w.flash) (
          either-Agrees w.app.ready _ _ w.flash (save_mask-Agrees _ w.flash) (same-Agrees w.flash)))

  -- the firmware, marked as valid
  abbrev validated : Option ImageState → Bool → World nvs → World nvs
  validated image marked w =
      let valid = set_valid_version nvs image marked w in
      if w.core.valid_firmware
      then w
      else record valid { core = record valid.core { valid_firmware = true } }

  validated-rest :
      (image : Option ImageState) (marked : Bool) (w : World nvs)
      → needs_validation image ≡ false
      → ((validated image marked w).flash ≡ w.flash)
        × ((validated image marked w).core.crash_count ≡ w.core.crash_count)
  unfolding set_valid_version
  validated-rest none marked w e = ground arith
  validated-rest (some other_state) marked w e = ground arith
  validated-rest (some pending_verify) marked w e = cc

  subscribe_topic-count :
      (sent : Bool) (topic : String) (qos : ℕ) (w : World nvs)
      → (subscribe_topic nvs sent topic qos w).core.crash_count ≡ w.core.crash_count
  unfolding subscribe_topic set_error
  subscribe_topic-count sent topic qos w = ground arith

  open_audit-Agrees :
      (a : Answers) (w : World nvs)
      → needs_validation a.image ≡ false
      → Agrees (open_audit nvs env a w).flash w.flash
  unfolding open_audit
  open_audit-Agrees a w e =
      subst (Agrees (open_audit nvs env a w).flash) (validated-rest a.image a.marked w e).0
        (subscribe_topic-Agrees a.sent _ 1 (validated a.image a.marked w))

  open_audit-count :
      (a : Answers) (w : World nvs)
      → needs_validation a.image ≡ false
      → (open_audit nvs env a w).core.crash_count ≡ w.core.crash_count
  unfolding open_audit
  open_audit-count a w e =
      subscribe_topic-count a.sent _ 1 (validated a.image a.marked w)
      ∙ (validated-rest a.image a.marked w e).1

  -- the state behind a part on main_store that finds no crash
  abbrev settled : World nvs → World nvs
  settled w = with_flash nvs env (store_count nvs env 0) w

  audit_crash-settled :
      (a : Answers) (w : World nvs)
      → a.crashed ≡ false
      → leb a.max_crash w.core.crash_count ≡ false
      → audit_crash nvs env a w ≡ done tt (settled w)
  unfolding audit_crash count_crash with_flash
  audit_crash-settled a w no_crash below = simp (healthy.opens_all, no_crash, below) refl

  settled-Agrees : (w : World nvs) → Agrees (settled w).flash w.flash
  unfolding with_flash store_count
  settled-Agrees w = record {
    ota = λ key. simp (nvs.get_commit, nvs.get_set) refl;
    command = simp (nvs.get_commit, nvs.get_set) refl;
  }

  >>=-done :
      (m : World nvs → Outcome (World nvs) (Unit {0}))
      (k : Unit {0} → World nvs → Outcome (World nvs) (Unit {0})) (w w' : World nvs)
      → m w ≡ done tt w'
      → (m >>= k) w ≡ k tt w'
  >>=-done m k w w' e = rw (e, ◌>>=◌) refl

  -- The reports of one boot are not repeated by the next: once no message of an update is pending and
  -- an update that waits has its SHA, then after the reports nothing waits, and an audit of a later
  -- boot on that flash, of a firmware that needs no validation, did not crash again and has counted
  -- fewer crashes than the limit, ends in PROVISIONING_SUCCESS and publishes no status; its only
  -- request is the subscription. The flash can be opened.
  pub audit_reports_once :
      (a a' : Answers) (w w' : World nvs)
      → IsKnown nvs env healthy w.flash
      → is_pending nvs env "ota_store" "ota_notified" w.flash ≡ false
      → w'.flash ≡ (report_rest nvs env a w).flash
      → needs_validation a'.image ≡ false
      → a'.crashed ≡ false
      → leb a'.max_crash w'.core.crash_count ≡ false
      → (new : World nvs) × (handle_boot_audit nvs env a' w'
          ≡ done tt (transition nvs provisioning_success new))
        × (new.effects ≡ (open_audit nvs env a' w').effects)
        × IsReported nvs env healthy new.flash
  unfolding handle_boot_audit with_flash
  audit_reports_once a a' w w' known e same image no_crash below =
      let w1 = open_audit nvs env a' w' in
      let told =
        subst (IsReported nvs env healthy) (sym same)
          (report_rest-IsReported nvs env healthy a w known e) in
      let told1 = Agrees-IsReported w1.flash w'.flash (open_audit-Agrees a' w' image) told in
      let told2 = Agrees-IsReported (settled w1).flash w1.flash (settled-Agrees w1) told1 in
      (
        settled w1,
        simp (healthy.opens_all, told1.no_update)
            (>>=-done (audit_crash nvs env a') (λ _ w2. done tt (report_rest nvs env a' w2)) w1
                (settled w1)
                (audit_crash-settled a' w1 no_crash
                  (ap (leb a'.max_crash) (open_audit-count a' w' image) ∙ below))
              ∙ ap (λ v. done tt v) (report_rest-quiet nvs env healthy a' (settled w1) told2)),
        refl,
        told2,
      )
