-- ===== src/Core/Audit/Boots.antt =====
-- Boots that each follow a crash: the audits, with what lies between them
-- (perceptive-layer/mqtt_protobuff/governance_core/src/governance_core.cpp).
use governance_iot_platform.Prelude.{ℕ, zero, suc, String, true, false, some, ◌≡◌}
use governance_iot_platform.Nvs.{Nvs, IsHealthy, i8, str_value}
use governance_iot_platform.Device.{World}
use governance_iot_platform.Device.State.{Outcome, done, halted}
use governance_iot_platform.Ota.{is_empty}
use governance_iot_platform.Ota.Lifecycle.{Runs}
use governance_iot_platform.Core.Publish.{Surroundings}
use governance_iot_platform.Core.Audit.{Answers, is_pending, handle_boot_audit}

module _ (nvs : Nvs) (healthy : IsHealthy nvs) (env : Surroundings) where
  -- The audits of boots that each follow a crash, of which each ends or stops the chip; `arrive` is the
  -- state in which the next boot comes to its audit, by the flash that it finds.
  abbrev pub next_boot :
      (nvs.Flash → Outcome (World nvs) (Unit {0}))
      → Outcome (World nvs) (Unit {0})
      → Outcome (World nvs) (Unit {0})
  next_boot f (done x w) = f w.flash
  next_boot f (halted stop w) = halted stop w

  unfoldable pub crash_boots :
      Answers → (nvs.Flash → World nvs) → ℕ → World nvs → Outcome (World nvs) (Unit {0})
  crash_boots a arrive zero w = done tt w
  crash_boots a arrive (suc n) w =
      next_boot (λ f. crash_boots a arrive n (arrive f)) (handle_boot_audit nvs env a w)

  -- A boot on its way to the audit leaves main_store and ota_store, and runs in the same partition as
  -- the boot before.
  pub record Returns (arrive : nvs.Flash → World nvs) : Type 0 where
    pub same_main :
        (f : nvs.Flash) (key : String)
        → nvs.get (arrive f).flash "main_store" key ≡ nvs.get f "main_store" key
    pub same_ota :
        (f : nvs.Flash) (key : String)
        → nvs.get (arrive f).flash "ota_store" key ≡ nvs.get f "ota_store" key
    pub same_part : (f : nvs.Flash) → (arrive f).core.boot_part_changed ≡ false

  -- No update waits to be reported, and none is in progress.
  pub record IsQuiet (f : nvs.Flash) : Type 0 where
    pub no_update : is_pending nvs env "ota_store" "ota_notified" f ≡ false
    pub no_target : is_empty (str_value 32 (nvs.get f "ota_store" "target_ver")) ≡ true

  -- What decides the audit of a boot that crashed n times before: the count, the running firmware,
  -- and that nothing waits.
  record CanCrash (v s : String) (n : ℕ) (f : nvs.Flash) : Type 0 where
    counted : nvs.get f "main_store" "crash_count" ≡ some (i8 n)
    runs : Runs nvs healthy v s f
    quiet : IsQuiet f
