-- ===== src/Provisioning/Audit/Target.antt =====
-- The report of an update that did not come to its end
-- (`handle_boot_audit` of
-- perceptive-layer/mqtt_protobuff/FIRM_PROVISIONING_MQTT_PROTOBUFF/main/main.cpp).
use governance_iot_platform.Prelude.{
  String, Bool, true, false, not, if◌then◌else◌, Option, none, some, ◌≡◌, refl, sym, ap, subst, ◌∙◌,
  ◌⊎◌, inl, inr, Bool-cases, arith,
}
use governance_iot_platform.Nvs.{Nvs, IsHealthy, str_value}
use governance_iot_platform.Device.{World, read_str}
use governance_iot_platform.Mqtt.{publish_payload}
use governance_iot_platform.Ota.{
  is_empty, Rollback, verify_rollback, rollback_open, restore_previous, ban_target,
}
use governance_iot_platform.Core.Publish.{Surroundings}
use governance_iot_platform.Core.Audit.{Answers, with_flash, forget_target}
use governance_iot_platform.Provisioning.Handlers.{publish_proto_status}
use governance_iot_platform.Provisioning.Audit.{report_status, report_rollback, audit_target}
use Prim.Native.String.{◌++◌ as text_append}

module _ (nvs : Nvs) (env : Surroundings) (healthy : IsHealthy nvs) where
  pub report_status-flash :
      (detail : Option String) (w : World nvs) → (report_status nvs env detail w).flash ≡ w.flash
  unfolding report_status publish_proto_status publish_payload
  report_status-flash detail w = ground arith

  report_rollback-flash :
      (r : Rollback nvs) (w : World nvs) → (report_rollback nvs env r w).flash ≡ w.flash
  unfolding report_rollback
  report_rollback-flash r w = report_status-flash _ w

  -- The SHA of an update that began is in flash beside its version.
  abbrev pub HasSha : nvs.Flash → Type 0
  HasSha f = is_empty (str_value 65 (nvs.get f "ota_store" "target_sha")) ≡ false

  -- an update that began and has not been reported
  abbrev pub is_target : nvs.Flash → Bool
  is_target f = not (is_empty (read_str nvs "ota_store" "target_ver" 32 f))

  -- restore_previous writes main_store alone
  restore_previous-ota :
      (f : nvs.Flash) (key : String)
      → nvs.get (restore_previous nvs f) "ota_store" key ≡ nvs.get f "ota_store" key
  unfolding restore_previous
  restore_previous-ota f key =
      let ver = str_value 32 (nvs.get f "ota_store" "prev_ver") in
      let sha = str_value 65 (nvs.get f "ota_store" "prev_sha") in
      elim (Bool-cases (is_empty ver)) [
        | inl v ↦ elim (Bool-cases (is_empty sha)) [
          | inl s ↦ simp (v, s) refl
          | inr s ↦ simp (v, s, healthy.opens_all, nvs.get_commit, nvs.get_set) refl
        ]
        | inr v ↦ elim (Bool-cases (is_empty sha)) [
          | inl s ↦ simp (v, s, healthy.opens_all, nvs.get_commit, nvs.get_set) refl
          | inr s ↦ simp (v, s, healthy.opens_all, nvs.get_commit, nvs.get_set) refl
        ]
      ]

  -- a rollback of an update whose SHA is known
  module _ (label : String) (f : nvs.Flash) (sha : HasSha f) where
    abbrev version : String
    version = str_value 32 (nvs.get f "ota_store" "target_ver")

    abbrev rolled : nvs.Flash
    rolled =
        nvs.commit
          (restore_previous nvs
            (ban_target nvs version (str_value 65 (nvs.get f "ota_store" "target_sha")) f))
          "ota_store"

    verify_rollback-rolled :
        (r : Rollback nvs) × (verify_rollback nvs (some label) f ≡ (rolled, r))
        × (r.detected ≡ true)
    unfolding verify_rollback rollback_open
    verify_rollback-rolled = (
      record {
        detected = true;
        msg = text_append "Firmware v" (
            text_append version
              (text_append " causou rollback na particao '" (text_append label "'. Banido.")));
        invalid_ver = version;
      },
      simp (healthy.opens_all, sha) refl,
      refl,
    )

    rolled-target : nvs.get rolled "ota_store" "target_ver" ≡ none
    unfolding ban_target
    rolled-target = simp (nvs.get_commit, restore_previous-ota, nvs.get_erase) refl

    rolled-notified :
        nvs.get rolled "ota_store" "ota_notified" ≡ nvs.get f "ota_store" "ota_notified"
    unfolding ban_target
    rolled-notified = simp (nvs.get_commit, restore_previous-ota, nvs.get_erase, nvs.get_set) refl

  is_target-none : (f : nvs.Flash) → nvs.get f "ota_store" "target_ver" ≡ none → is_target f ≡ false
  unfolding read_str
  is_target-none f e = simp (healthy.opens_all, e) refl

  forgotten : (f : nvs.Flash) → is_target (forget_target nvs env f) ≡ false
  unfolding forget_target read_str
  forgotten f = simp (healthy.opens_all, nvs.get_commit, nvs.get_erase) refl

  forgotten-notified :
      (f : nvs.Flash)
      → nvs.get (forget_target nvs env f) "ota_store" "ota_notified"
        ≡ nvs.get f "ota_store" "ota_notified"
  unfolding forget_target
  forgotten-notified f = simp (healthy.opens_all, nvs.get_commit, nvs.get_erase) refl

  -- Nothing of an update waits, but perhaps a message that it succeeded.
  pub record IsTold (old w : World nvs) : Type 0 where
    pub no_target : is_target w.flash ≡ false
    pub same_notified :
        nvs.get w.flash "ota_store" "ota_notified" ≡ nvs.get old.flash "ota_store" "ota_notified"

  -- An update that waits has its SHA.
  abbrev pub IsKnown : nvs.Flash → Type 0
  IsKnown f = (is_target f ≡ false) ⊎ HasSha f

  -- The two branches for an update that waits.
  rollback-IsTold :
      (label : String) (w : World nvs) (r : Rollback nvs) (sha : HasSha w.flash)
      → IsTold w (report_rollback nvs env r (record w { flash = rolled label w.flash sha }))
  rollback-IsTold label w r sha =
      let w1 = record w { flash = rolled label w.flash sha } in
      record {
        no_target =
            ap is_target (report_rollback-flash r w1)
            ∙ is_target-none w1.flash (rolled-target label w.flash sha);
        same_notified =
            ap (λ f. nvs.get f "ota_store" "ota_notified") (report_rollback-flash r w1)
            ∙ rolled-notified label w.flash sha;
      }

  forgotten-IsTold : (w : World nvs) → IsTold w (with_flash nvs env (forget_target nvs env) w)
  unfolding with_flash
  forgotten-IsTold w = record {
    no_target = forgotten w.flash;
    same_notified = forgotten-notified w.flash;
  }

  -- the part on `lastTarget`, where an update waits
  abbrev found : nvs.Flash × Rollback nvs → World nvs → World nvs
  found (f, r) w =
      if r.detected
      then report_rollback nvs env r (record w { flash = f })
      else with_flash nvs env (forget_target nvs env) (record w { flash = f })

  found-IsTold :
      (last : Option String) (w : World nvs)
      → HasSha w.flash
      → IsTold w (found (verify_rollback nvs last w.flash) w)
  unfolding verify_rollback
  found-IsTold none w sha = forgotten-IsTold w
  found-IsTold (some label) w sha =
      let (r, e, detected) = verify_rollback-rolled label w.flash sha in
      subst (λ v. IsTold w (found v w)) (sym e)
        (subst
          (λ b. IsTold w (
            if b
            then report_rollback nvs env r (record w { flash = rolled label w.flash sha })
            else with_flash nvs env (forget_target nvs env)
                (record w { flash = rolled label w.flash sha })))
          (sym detected) (rollback-IsTold label w r sha))

  pub audit_target-IsTold :
      (a : Answers) (w : World nvs) → IsKnown w.flash → IsTold w (audit_target nvs env a w)
  unfolding audit_target
  audit_target-IsTold a w known =
      elim (Bool-cases (is_empty (read_str nvs "ota_store" "target_ver" 32 w.flash))) [
        | inl empty ↦ rw empty (record { no_target = ap not empty; same_notified = refl })
        | inr waits ↦ rw waits (found-IsTold a.last_invalid w (known_sha waits known))
      ]
    where
      known_sha :
          is_empty (read_str nvs "ota_store" "target_ver" 32 w.flash) ≡ false
          → IsKnown w.flash
          → HasSha w.flash
      known_sha waits (inl e) = cc (waits, e)
      known_sha waits (inr sha) = sha
