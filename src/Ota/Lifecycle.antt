-- ===== src/Ota/Lifecycle.antt =====
-- An update and what may follow it: the new firmware is confirmed, or the bootloader goes back and
-- the old one is restored and the new one banned.
use governance_iot_platform.Prelude.{
  ℕ, ltb, String, str_eq, len, true, false, none, some, ◌≡◌, refl, ◌∙◌, arith, and_false,
}
use governance_iot_platform.Nvs.{Nvs, IsHealthy, str}
use governance_iot_platform.AppState
use governance_iot_platform.AppState.Codes.{ota_downloading}
use governance_iot_platform.Device.{World, transition, read_str}
use governance_iot_platform.Device.State.{Ota, halted, final, restart}
use governance_iot_platform.Ota.{
  Download, finished, is_empty, too_large, keep_previous, record_firmware, finish_download,
  download_ota, read_current, banned_sha, set_target, update_checked, verify_and_update,
  restore_previous, ban_target, rollback_open, verify_rollback,
}

-- A text that ota_store and main_store give back whole, and that is not empty.
pub record Fits (size : ℕ) (s : String) : Type 0 where
  pub short : ltb (len s) size ≡ true
  pub given : is_empty s ≡ false

-- Every step of the download succeeds.
pub record Succeeds (d : Download) : Type 0 where
  pub begun : d.begun ≡ none
  pub fitting : too_large d.target d.image_size ≡ false
  pub completed : d.completed ≡ true
  pub finish : d.finish ≡ finished

module _ (nvs : Nvs) (healthy : IsHealthy nvs) where
  -- What main_store holds.
  pub record Runs (version sha : String) (f : nvs.Flash) : Type 0 where
    pub version_stored : nvs.get f "main_store" "fw_version" ≡ some (str version)
    pub sha_stored : nvs.get f "main_store" "fw_sha" ≡ some (str sha)

  pub read_current_lem :
      {v s : String} (f : nvs.Flash)
      → Fits 32 v
      → Fits 65 s
      → Runs v s f
      → read_current nvs f ≡ record { current_version = v; current_version_sha = s }
  unfolding read_current read_str
  read_current_lem f fv fs r =
      simp (healthy.opens_all, r.version_stored, r.sha_stored, fv.short, fs.short)

  abbrev updated : Ota → String → String → nvs.Flash → nvs.Flash
  updated o v s f = record_firmware nvs v s (keep_previous nvs o (set_target nvs v s f))

  abbrev rebooting : Ota → String → String → World nvs → World nvs
  rebooting o v s w = record w {
    ota = o;
    flash = updated o v s w.flash;
    app = AppState.transition ota_downloading w.app;
  }

  download_ota_restarts :
      (d : Download) (v s : String) (w : World nvs)
      → Succeeds d
      → download_ota nvs d v s w
        ≡ halted restart (record w {
          app = AppState.transition ota_downloading w.app;
          flash = record_firmware nvs v s (keep_previous nvs w.ota w.flash);
        })
  unfolding download_ota finish_download transition
  download_ota_restarts d v s w ok = ground arith

  verify_and_update_restarts :
      (d : Download) (v s v' s' : String) (w : World nvs)
      → Succeeds d
      → Fits 32 v
      → Fits 65 s
      → Fits 32 v'
      → Fits 65 s'
      → Runs v s w.flash
      → str_eq s s' ≡ false
      → str_eq s' (banned_sha nvs w.flash) ≡ false
      → verify_and_update nvs d v' s' w
        ≡ halted restart
            (rebooting (record { current_version = v; current_version_sha = s }) v' s' w)
  unfolding verify_and_update update_checked
  verify_and_update_restarts d v s v' s' w ok fv fs fv' fs' r new allowed =
      simp
        (
          read_current_lem w.flash fv fs r,
          new,
          healthy.opens_all,
          allowed,
          fv'.given,
          fs'.given,
          and_false,
        )
        (download_ota_restarts d v' s' _ ok)

  stored :
      (o : Ota) (v s : String) (f : nvs.Flash)
      → (nvs.get (updated o v s f) "ota_store" "target_ver" ≡ some (str v))
        × (nvs.get (updated o v s f) "ota_store" "target_sha" ≡ some (str s))
        × (nvs.get (updated o v s f) "ota_store" "prev_ver" ≡ some (str o.current_version))
        × (nvs.get (updated o v s f) "ota_store" "prev_sha" ≡ some (str o.current_version_sha))
        × Runs v s (updated o v s f)
  unfolding record_firmware keep_previous set_target
  stored o v s f = (
    simp (healthy.opens_all, nvs.get_commit, nvs.get_set),
    simp (healthy.opens_all, nvs.get_commit, nvs.get_set),
    simp (healthy.opens_all, nvs.get_commit, nvs.get_set),
    simp (healthy.opens_all, nvs.get_commit, nvs.get_set),
    record {
      version_stored = simp (healthy.opens_all, nvs.get_commit, nvs.get_set);
      sha_stored = simp (healthy.opens_all, nvs.get_commit, nvs.get_set);
    },
  )

  ban_target_lem :
      (v s : String) (f : nvs.Flash)
      → (nvs.get (ban_target nvs v s f) "ota_store" "prev_ver" ≡ nvs.get f "ota_store" "prev_ver")
        × (nvs.get (ban_target nvs v s f) "ota_store" "prev_sha" ≡ nvs.get f "ota_store" "prev_sha")
        × (nvs.get (ban_target nvs v s f) "ota_store" "invalid_sha" ≡ some (str s))
  unfolding ban_target
  ban_target_lem v s f = (
    simp (nvs.get_erase, nvs.get_set),
    simp (nvs.get_erase, nvs.get_set),
    simp (nvs.get_erase, nvs.get_set),
  )

  restore_previous-Runs :
      (v s : String) (f : nvs.Flash)
      → Fits 32 v
      → Fits 65 s
      → nvs.get f "ota_store" "prev_ver" ≡ some (str v)
      → nvs.get f "ota_store" "prev_sha" ≡ some (str s)
      → Runs v s (restore_previous nvs f)
        × (nvs.get (restore_previous nvs f) "ota_store" "invalid_sha"
            ≡ nvs.get f "ota_store" "invalid_sha")
  unfolding restore_previous
  restore_previous-Runs v s f fv fs pv ps =
      simp (pv, ps, fv.short, fs.short, fv.given, fs.given, healthy.opens_all)
        (
          record {
            version_stored = simp (nvs.get_commit, nvs.get_set);
            sha_stored = simp (nvs.get_commit, nvs.get_set);
          },
          simp (nvs.get_commit, nvs.get_set),
        )

  -- A boot that finds a target which was never confirmed, and the firmware before it.
  verify_rollback_lem :
      (v s v' s' label : String) (f : nvs.Flash)
      → Fits 32 v
      → Fits 65 s
      → Fits 32 v'
      → Fits 65 s'
      → nvs.get f "ota_store" "target_ver" ≡ some (str v')
      → nvs.get f "ota_store" "target_sha" ≡ some (str s')
      → nvs.get f "ota_store" "prev_ver" ≡ some (str v)
      → nvs.get f "ota_store" "prev_sha" ≡ some (str s)
      → let (f', found) = verify_rollback nvs (some label) f in
        (found.detected ≡ true) × (found.invalid_ver ≡ v') × Runs v s f' × (banned_sha nvs f' ≡ s')
  unfolding verify_rollback rollback_open banned_sha
  verify_rollback_lem v s v' s' label f fv fs fv' fs' tv ts pv ps =
      let (pv', ps', banned) = ban_target_lem v' s' f in
      let (runs, kept) =
        restore_previous-Runs v s (ban_target nvs v' s' f) fv fs (pv' ∙ pv) (ps' ∙ ps) in
      simp (healthy.opens_all, tv, ts, fv'.short, fs'.short, fs'.given)
        (
          refl,
          refl,
          record {
            version_stored = simp nvs.get_commit runs.version_stored;
            sha_stored = simp nvs.get_commit runs.sha_stored;
          },
          simp (nvs.get_commit, kept, banned, fs'.short),
        )

  -- A download that succeeds at each step, of a version and a SHA that fit their buffers, where the
  -- SHA is neither the running one nor the banned one, on an NVS that opens: main_store names the new
  -- firmware. If the bootloader then goes back, the audit of the old image on that flash detects the
  -- rollback, with the version of the new one; main_store names the old firmware again, and the new
  -- one's SHA is banned.
  pub rollback_restores :
      (d : Download) (v s v' s' label : String) (w : World nvs)
      → Succeeds d
      → Fits 32 v
      → Fits 65 s
      → Fits 32 v'
      → Fits 65 s'
      → Runs v s w.flash
      → str_eq s s' ≡ false
      → str_eq s' (banned_sha nvs w.flash) ≡ false
      → let f = (final (verify_and_update nvs d v' s' w)).flash in
        let (f', found) = verify_rollback nvs (some label) f in
        Runs v' s' f
        × ((found.detected ≡ true)
            × (found.invalid_ver ≡ v')
            × Runs v s f'
            × (banned_sha nvs f' ≡ s'))
  rollback_restores d v s v' s' label w ok fv fs fv' fs' r new allowed =
      let o : Ota = record { current_version = v; current_version_sha = s } in
      let (tv, ts, pv, ps, runs) = stored o v' s' w.flash in
      rw (verify_and_update_restarts d v s v' s' w ok fv fs fv' fs' r new allowed)
        (runs, verify_rollback_lem v s v' s' label _ fv fs fv' fs' tv ts pv ps)
