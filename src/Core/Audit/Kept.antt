-- ===== src/Core/Audit/Kept.antt =====
-- What an audit leaves in main_store and ota_store
-- (perceptive-layer/mqtt_protobuff/governance_core/src/governance_core.cpp).
use governance_iot_platform.Prelude.{
  ℕ, String, Bool, true, false, not, ◌||◌, if◌then◌else◌, Option, some, none, ◌≡◌, refl, subst, ◌∙◌,
  arith,
}
use governance_iot_platform.Nvs.{Nvs, IsHealthy}
use governance_iot_platform.Device.{World, save_mask, set_error, resolve_error, transition}
use governance_iot_platform.Ota.{ImageState, pending_verify, other_state, set_valid_version}
use governance_iot_platform.Mqtt.{subscribe_topic, is_subscribed, publish_payload}
use governance_iot_platform.AppState.Codes.{DeviceState}
use governance_iot_platform.Core.Publish.{Surroundings, publish_proto_status}
use governance_iot_platform.Core.Audit.{
  Answers, needs_validation, with_flash, announce, set_notified, audit_command, finish_audit,
  open_audit,
}

module _ (nvs : Nvs) (healthy : IsHealthy nvs) (env : Surroundings) where
  -- What two flashes hold outside the stores of the commands and of the errors is the same.
  pub record Agrees (f f' : nvs.Flash) : Type 0 where
    pub main : (key : String) → nvs.get f "main_store" key ≡ nvs.get f' "main_store" key
    pub ota : (key : String) → nvs.get f "ota_store" key ≡ nvs.get f' "ota_store" key

  same-Agrees : (f : nvs.Flash) → Agrees f f
  same-Agrees f = record { main = λ key. refl; ota = λ key. refl }

  pub then-Agrees : (f g h : nvs.Flash) → Agrees f g → Agrees g h → Agrees f h
  then-Agrees f g h p q = record {
    main = λ key. p.main key ∙ q.main key;
    ota = λ key. p.ota key ∙ q.ota key;
  }

  save_mask-Agrees : (m : ℕ) (f : nvs.Flash) → Agrees (save_mask nvs m f) f
  unfolding save_mask
  save_mask-Agrees m f = record {
    main = λ key. simp (healthy.opens_all, nvs.get_commit, nvs.get_set) refl;
    ota = λ key. simp (healthy.opens_all, nvs.get_commit, nvs.get_set) refl;
  }

  notified-Agrees :
      (f : nvs.Flash) → Agrees (set_notified nvs env "command_store" "commandNotified" f) f
  unfolding set_notified
  notified-Agrees f = record {
    main = λ key. simp (healthy.opens_all, nvs.get_commit, nvs.get_set) refl;
    ota = λ key. simp (healthy.opens_all, nvs.get_commit, nvs.get_set) refl;
  }

  either-Agrees :
      (b : Bool) (x y : World nvs) (f : nvs.Flash)
      → Agrees x.flash f
      → Agrees y.flash f
      → Agrees (if b then x else y).flash f
  either-Agrees true x y f p q = p
  either-Agrees false x y f p q = q

  subscribe_topic-Agrees :
      (sent : Bool) (topic : String) (qos : ℕ) (w : World nvs)
      → Agrees (subscribe_topic nvs sent topic qos w).flash w.flash
  unfolding subscribe_topic set_error
  subscribe_topic-Agrees sent topic qos w =
      either-Agrees (not w.mqtt.client || is_subscribed topic w.mqtt.subscriptions) w _ w.flash
        (same-Agrees w.flash)
        (either-Agrees sent _ _ w.flash (same-Agrees w.flash) (
          either-Agrees w.app.ready _ _ w.flash (save_mask-Agrees _ w.flash) (same-Agrees w.flash)))

  subscribe_topic-part :
      (sent : Bool) (topic : String) (qos : ℕ) (w : World nvs)
      → (subscribe_topic nvs sent topic qos w).core.boot_part_changed ≡ w.core.boot_part_changed
  unfolding subscribe_topic set_error
  subscribe_topic-part sent topic qos w = ground arith

  abbrev validated : Option ImageState → Bool → World nvs → World nvs
  validated image marked w =
      let valid = set_valid_version nvs image marked w in
      if w.core.valid_firmware
      then w
      else record valid { core = record valid.core { valid_firmware = true } }

  validated-rest :
      (image : Option ImageState) (marked : Bool) (w : World nvs)
      → needs_validation image ≡ false
      → ((validated image marked w).flash ≡ w.flash)
        × ((validated image marked w).core.boot_part_changed ≡ w.core.boot_part_changed)
  unfolding set_valid_version
  validated-rest none marked w e = ground arith
  validated-rest (some other_state) marked w e = ground arith
  validated-rest (some pending_verify) marked w e = cc

  pub open_audit-Agrees :
      (a : Answers) (w : World nvs)
      → needs_validation a.image ≡ false
      → Agrees (open_audit nvs env a w).flash w.flash
  unfolding open_audit
  open_audit-Agrees a w e =
      subst (Agrees (open_audit nvs env a w).flash) (validated-rest a.image a.marked w e).0
        (subscribe_topic-Agrees a.sent _ 1 (validated a.image a.marked w))

  pub open_audit-part :
      (a : Answers) (w : World nvs)
      → needs_validation a.image ≡ false
      → (open_audit nvs env a w).core.boot_part_changed ≡ w.core.boot_part_changed
  unfolding open_audit
  open_audit-part a w e =
      subscribe_topic-part a.sent _ 1 (validated a.image a.marked w)
      ∙ (validated-rest a.image a.marked w e).1

  announce-flash :
      (d : DeviceState) (detail : Option String) (w : World nvs)
      → (announce nvs env d detail w).flash ≡ w.flash
  unfolding announce publish_proto_status publish_payload transition
  announce-flash d detail w = ground arith

  pub audit_command-Agrees : (w : World nvs) → Agrees (audit_command nvs env w).flash w.flash
  unfolding audit_command with_flash
  audit_command-Agrees w =
      either-Agrees _ _ w w.flash
        (then-Agrees _ _ _ (notified-Agrees _)
          (subst (Agrees _) (announce-flash _ _ w) (same-Agrees _)))
        (same-Agrees w.flash)

  resolve_error-Agrees : (c : _) (w : World nvs) → Agrees (resolve_error nvs c w).flash w.flash
  unfolding resolve_error
  resolve_error-Agrees c w =
      either-Agrees _ _ _ w.flash (save_mask-Agrees _ w.flash) (same-Agrees w.flash)

  pub finish_audit-Agrees : (w : World nvs) → Agrees (finish_audit nvs env w).flash w.flash
  unfolding finish_audit transition
  finish_audit-Agrees w = then-Agrees _ _ _ (resolve_error-Agrees _ _) (resolve_error-Agrees _ w)
