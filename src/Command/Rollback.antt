-- ===== src/Command/Rollback.antt =====
-- The command FIRMWARE_ROLLBACK: what it records, before it knows whether the partition is switched.
use governance_iot_platform.Prelude.{
  ℕ, String, str_eq, Bool-cases, inl, inr, Bool, true, false, Option, none, some, ◌≡◌, refl,
}
use governance_iot_platform.Nvs.{Nvs, IsHealthy, str, i8}
use governance_iot_platform.Device.{World, set_error, read_str, save_mask}
use governance_iot_platform.Command.{
  Json, Answers, store_command, record_rollback, force_rollback, run_rollback,
}
use governance_iot_platform.Ota.{is_empty}
use governance_iot_platform.Ota.Lifecycle.{Runs}

abbrev pub is_none : Option String → Bool
is_none none = true
is_none (some s) = false

module _ (nvs : Nvs) (json : Json) (healthy : IsHealthy nvs) where
  -- What the flash says after a forced rollback to `version` and `sha` by the command `cmd`.
  pub record IsRolledBack (version sha cmd : String) (f : nvs.Flash) : Type 0 where
    pub runs : Runs nvs healthy version sha f
    pub no_previous_ver : nvs.get f "ota_store" "prev_ver" ≡ none
    pub no_previous_sha : nvs.get f "ota_store" "prev_sha" ≡ none
    pub command_stored : nvs.get f "command_store" "lastCommand" ≡ some (str cmd)
    pub not_notified : nvs.get f "command_store" "commandNotified" ≡ some (i8 0)

  record_rollback_lem :
      (version sha cmd : String) (f : nvs.Flash)
      → IsRolledBack version sha cmd (record_rollback nvs json version sha cmd f)
  unfolding record_rollback store_command
  record_rollback_lem version sha cmd f = record {
    runs = record {
      version_stored = simp (healthy.opens_all, nvs.get_commit, nvs.get_set, nvs.get_erase);
      sha_stored = simp (healthy.opens_all, nvs.get_commit, nvs.get_set, nvs.get_erase);
    };
    no_previous_ver = simp (healthy.opens_all, nvs.get_commit, nvs.get_set, nvs.get_erase);
    no_previous_sha = simp (healthy.opens_all, nvs.get_commit, nvs.get_set, nvs.get_erase);
    command_stored = simp (healthy.opens_all, nvs.get_commit, nvs.get_set);
    not_notified = simp (healthy.opens_all, nvs.get_commit, nvs.get_set);
  }

  -- Saving the mask of errors touches nothing of this.
  IsRolledBack-save :
      (version sha cmd : String) (m : ℕ) (f : nvs.Flash)
      → IsRolledBack version sha cmd f
      → IsRolledBack version sha cmd (save_mask nvs m f)
  unfolding save_mask
  IsRolledBack-save version sha cmd m f h = record {
    runs = record {
      version_stored = simp (healthy.opens_all, nvs.get_commit, nvs.get_set) h.runs.version_stored;
      sha_stored = simp (healthy.opens_all, nvs.get_commit, nvs.get_set) h.runs.sha_stored;
    };
    no_previous_ver = simp (healthy.opens_all, nvs.get_commit, nvs.get_set) h.no_previous_ver;
    no_previous_sha = simp (healthy.opens_all, nvs.get_commit, nvs.get_set) h.no_previous_sha;
    command_stored = simp (healthy.opens_all, nvs.get_commit, nvs.get_set) h.command_stored;
    not_notified = simp (healthy.opens_all, nvs.get_commit, nvs.get_set) h.not_notified;
  }

  module _ (version sha cmd : String) (a : Answers) (w : World nvs) where
    force_rollback_lem :
        (e : Option String)
        → w.app.ready ≡ true
        → read_str nvs "ota_store" "prev_ver" 32 w.flash ≡ version
        → read_str nvs "ota_store" "prev_sha" 65 w.flash ≡ sha
        → is_empty sha ≡ false
        → str_eq sha (read_str nvs "main_store" "fw_sha" 65 w.flash) ≡ false
        → let r = force_rollback nvs json e cmd w in
          (r.1 ≡ is_none e) × IsRolledBack version sha cmd r.0.flash
    unfolding force_rollback set_error
    force_rollback_lem none ready pv ps given new =
        rw (pv, ps, given, new) (refl, record_rollback_lem version sha cmd w.flash)
    force_rollback_lem (some name) ready pv ps given new =
        rw (pv, ps, given, new, ready)
          (
            refl,
            IsRolledBack-save version sha cmd _ _ (record_rollback_lem version sha cmd w.flash),
          )

    -- Once the mutex exists, on an NVS that opens, with an update partition and a previous SHA that
    -- is not empty and not the running one: the rollback records the previous firmware as the running
    -- one, forgets it as the previous one and stores the command as not notified. It does so also
    -- when the partition cannot be switched, and only then the reply is failure.
    pub rollback_records :
        w.app.ready ≡ true
        → a.has_partition ≡ true
        → read_str nvs "ota_store" "prev_ver" 32 w.flash ≡ version
        → read_str nvs "ota_store" "prev_sha" 65 w.flash ≡ sha
        → is_empty sha ≡ false
        → str_eq sha (read_str nvs "main_store" "fw_sha" 65 w.flash) ≡ false
        → let r = run_rollback nvs json a cmd w in
          (r.1 ≡ is_none a.boot_error) × IsRolledBack version sha cmd r.0.flash
    unfolding run_rollback
    rollback_records ready p pv ps given new =
        rw p (force_rollback_lem a.boot_error ready pv ps given new)

    -- On a flash as such a rollback leaves it, a rollback fails.
    pub rollback_not_repeated :
        IsRolledBack version sha cmd w.flash → (run_rollback nvs json a cmd w).1 ≡ false
    unfolding run_rollback force_rollback read_str
    rollback_not_repeated h = elim (Bool-cases a.has_partition) [
      | inl p ↦ rw p (simp (healthy.opens_all, h.no_previous_sha))
      | inr p ↦ rw p
    ]
