-- ===== src/Provisioning/Audit/Reported.antt =====
-- What the reports of one boot leave for the next one (`handle_boot_audit` of
-- perceptive-layer/mqtt_protobuff/FIRM_PROVISIONING_MQTT_PROTOBUFF/main/main.cpp).
use governance_iot_platform.Prelude.{
  ◌==◌, String, true, false, ◌≡◌, refl, ap, ◌∙◌, inl, inr, Bool-cases, arith,
}
use governance_iot_platform.Nvs.{Nvs, IsHealthy, i8_value}
use governance_iot_platform.AppState.Codes.{provisioning_success}
use governance_iot_platform.Device.{World, transition, read_str}
use governance_iot_platform.Ota.{is_empty}
use governance_iot_platform.Core.Publish.{Surroundings}
use governance_iot_platform.Core.Audit.{Answers, is_pending, with_flash, set_notified}
use governance_iot_platform.Provisioning.Audit.{audit_target, audit_command, report_rest}
use governance_iot_platform.Provisioning.Audit.Target.{
  is_target, IsKnown, audit_target-IsTold, report_status-flash,
}

module _ (nvs : Nvs) (env : Surroundings) (healthy : IsHealthy nvs) where
  -- Nothing waits to be reported.
  pub record IsReported (f : nvs.Flash) : Type 0 where
    pub no_update : is_pending nvs env "ota_store" "ota_notified" f ≡ false
    pub no_target : is_target nvs env healthy f ≡ false
    pub no_command : is_pending nvs env "command_store" "commandNotified" f ≡ false

  pub is_target-get :
      (f f' : nvs.Flash)
      → nvs.get f "ota_store" "target_ver" ≡ nvs.get f' "ota_store" "target_ver"
      → is_target nvs env healthy f ≡ is_target nvs env healthy f'
  unfolding read_str
  is_target-get f f' e = simp (healthy.opens_all, e) refl

  set_notified-ota :
      (f : nvs.Flash) (key : String)
      → nvs.get (set_notified nvs env "command_store" "commandNotified" f) "ota_store" key
        ≡ nvs.get f "ota_store" key
  unfolding set_notified
  set_notified-ota f key = simp (healthy.opens_all, nvs.get_commit, nvs.get_set) refl

  set_notified-told :
      (f : nvs.Flash)
      → is_pending nvs env "command_store" "commandNotified"
          (set_notified nvs env "command_store" "commandNotified" f)
        ≡ false
  unfolding set_notified
  set_notified-told f = simp (healthy.opens_all, nvs.get_commit, nvs.get_set) refl

  record IsCommanded (old w : World nvs) : Type 0 where
    same_ota : (key : String) → nvs.get w.flash "ota_store" key ≡ nvs.get old.flash "ota_store" key
    told : is_pending nvs env "command_store" "commandNotified" w.flash ≡ false

  audit_command-IsCommanded : (w : World nvs) → IsCommanded w (audit_command nvs env w)
  unfolding audit_command with_flash transition
  audit_command-IsCommanded w =
      elim (Bool-cases (is_pending nvs env "command_store" "commandNotified" w.flash)) [
        | inl waits ↦
            simp (healthy.opens_all, waits)
              (record {
                same_ota = λ key.
                    set_notified-ota _ key
                    ∙ ap (λ f. nvs.get f "ota_store" key) (report_status-flash nvs env healthy _ _);
                told = set_notified-told _;
              })
        | inr told ↦ simp (healthy.opens_all, told) (record { same_ota = λ key. refl; told = told })
      ]

  -- After the reports, nothing waits.
  pub report_rest-IsReported :
      (a : Answers) (w : World nvs)
      → IsKnown nvs env healthy w.flash
      → is_pending nvs env "ota_store" "ota_notified" w.flash ≡ false
      → IsReported (report_rest nvs env a w).flash
  unfolding report_rest transition
  report_rest-IsReported a w known e =
      let w1 = audit_target nvs env a w in
      let told = audit_target-IsTold nvs env healthy a w known in
      let commanded = audit_command-IsCommanded w1 in
      record {
        no_update =
            ap (λ v. i8_value 1 v == 0) (commanded.same_ota "ota_notified" ∙ told.same_notified)
            ∙ e;
        no_target =
            is_target-get (audit_command nvs env w1).flash w1.flash
              (commanded.same_ota "target_ver")
            ∙ told.no_target;
        no_command = commanded.told;
      }

  pub report_rest-quiet :
      (a : Answers) (w : World nvs)
      → IsReported w.flash
      → report_rest nvs env a w ≡ transition nvs provisioning_success w
  unfolding report_rest audit_target audit_command
  report_rest-quiet a w r =
      let empty : is_empty (read_str nvs "ota_store" "target_ver" 32 w.flash) ≡ true =
        ground (arith, r.no_target) in
      simp (empty, healthy.opens_all, r.no_command) refl
