-- ===== src/Core/Audit/Crash.antt =====
-- The count of crashes: below the limit it is kept in flash, at the limit the firmware is banned.
use governance_iot_platform.Prelude.{
  ℕ, ◌+◌, ◌<◌, String, true, false, some, ◌≡◌, refl, sym, ap, subst, ◌∙◌, arith,
}
use governance_iot_platform.Nvs.{Nvs, IsHealthy, str, i8}
use governance_iot_platform.Device.{World}
use governance_iot_platform.Device.State.{Outcome, done, halted, rollback_and_reboot}
use governance_iot_platform.Ota.{set_invalid_version, ban_current}
use governance_iot_platform.Ota.Lifecycle.{Fits, Runs, read_current_lem}
use governance_iot_platform.Core.Publish.{Surroundings}
use governance_iot_platform.Core.Audit.{Answers, with_flash, store_count, count_crash, audit_crash}

module _ (nvs : Nvs) (healthy : IsHealthy nvs) (env : Surroundings) where
  -- What flash and the boot say: so many crashes, all of this partition.
  pub record HasCrashed (n : ℕ) (w : World nvs) : Type 0 where
    pub counted : nvs.get w.flash "main_store" "crash_count" ≡ some (i8 n)
    pub same_part : w.core.boot_part_changed ≡ false

  abbrev pub after_crash : ℕ → World nvs → World nvs
  after_crash n w = record w {
    core = record w.core { crash_count = n + 1 };
    flash = store_count nvs env (n + 1) w.flash;
  }

  pub one_crash :
      (a : Answers) (n : ℕ) (w : World nvs)
      → a.crashed ≡ true
      → n + 1 < a.max_crash
      → HasCrashed n w
      → audit_crash nvs env a w ≡ done tt (after_crash n w)
  unfolding audit_crash count_crash
  one_crash a n w c below h = simp (healthy.opens_all, c, h.same_part, h.counted) (ground arith)

  after_crash-HasCrashed :
      (n : ℕ) (w : World nvs) → n + 1 < 128 → HasCrashed n w → HasCrashed (n + 1) (after_crash n w)
  unfolding store_count
  after_crash-HasCrashed n w small h = record {
    counted = simp (nvs.get_commit, nvs.get_set) (ap (λ k. some (i8 k)) (omega arith));
    same_part = h.same_part;
  }

  -- a boot goes on, with so many crashes in flash
  abbrev pub GoesOn : ℕ → Outcome (World nvs) (Unit {0}) → Type 0
  GoesOn n (done x w) = nvs.get w.flash "main_store" "crash_count" ≡ some (i8 n)
  GoesOn n (halted stop w) = ⊥

  -- the chip goes back to the firmware before, and flash bans this one by its SHA with the reason
  abbrev pub IsBanned : String → Outcome (World nvs) (Unit {0}) → Type 0
  IsBanned sha (done x w) = ⊥
  IsBanned sha (halted stop w) =
      (stop ≡ rollback_and_reboot)
      × (nvs.get w.flash "ota_store" "invalid_sha" ≡ some (str sha))
      × (nvs.get w.flash "ota_store" "rollbackReason" ≡ some (str "crashCount"))
      × (nvs.get w.flash "main_store" "crash_count" ≡ some (i8 0))

  pub store_count-Runs :
      (n : ℕ) (v s : String) (f : nvs.Flash)
      → Runs nvs healthy v s f
      → Runs nvs healthy v s (store_count nvs env n f)
  unfolding store_count
  store_count-Runs n v s f r = record {
    version_stored = simp (nvs.get_commit, nvs.get_set) r.version_stored;
    sha_stored = simp (nvs.get_commit, nvs.get_set) r.sha_stored;
  }

  over_limit :
      (a : Answers) (n : ℕ) (w : World nvs)
      → a.crashed ≡ true
      → n + 1 ≡ a.max_crash
      → HasCrashed n w
      → audit_crash nvs env a w
        ≡ set_invalid_version nvs a.possible a.reboots "crashCount"
            (with_flash nvs env (store_count nvs env 0) (after_crash n w))
  unfolding audit_crash count_crash
  over_limit a n w c limit h = simp (healthy.opens_all, c, h.same_part, h.counted) (ground arith)

  invalidate :
      (v s : String) (w : World nvs)
      → Fits 32 v
      → Fits 65 s
      → Runs nvs healthy v s w.flash
      → nvs.get w.flash "main_store" "crash_count" ≡ some (i8 0)
      → IsBanned s (set_invalid_version nvs true true "crashCount" w)
  unfolding set_invalid_version ban_current
  invalidate v s w fv fs r zeroed =
      simp (healthy.opens_all, read_current_lem nvs healthy w.flash fv fs r)
        (
          refl,
          simp (nvs.get_commit, nvs.get_set),
          simp (nvs.get_commit, nvs.get_set),
          simp (nvs.get_commit, nvs.get_set) zeroed,
        )

  abbrev zeroed_world : ℕ → World nvs → World nvs
  zeroed_world n w = with_flash nvs env (store_count nvs env 0) (after_crash n w)

  pub last_crash :
      (a : Answers) (n : ℕ) (v s : String) (w : World nvs)
      → a.crashed ≡ true
      → a.possible ≡ true
      → a.reboots ≡ true
      → n + 1 ≡ a.max_crash
      → HasCrashed n w
      → Fits 32 v
      → Fits 65 s
      → Runs nvs healthy v s w.flash
      → IsBanned s (audit_crash nvs env a w)
  unfolding store_count with_flash
  last_crash a n v s w c p b limit h fv fs r =
      subst (IsBanned s)
        (sym (
          over_limit a n w c limit h
          ∙ ap (λ x. set_invalid_version nvs x a.reboots "crashCount" (zeroed_world n w)) p
          ∙ ap (λ x. set_invalid_version nvs true x "crashCount" (zeroed_world n w)) b))
        (invalidate v s _ fv fs (store_count-Runs 0 v s _ (store_count-Runs (n + 1) v s w.flash r))
          (simp (nvs.get_commit, nvs.get_set)))
