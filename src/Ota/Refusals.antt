-- ===== src/Ota/Refusals.antt =====
-- Updates that do not go through: what is refused at once, and what a failed download leaves.
use governance_iot_platform.Prelude.{
  String, Bool, true, false, ◌≡◌, refl, arith, inl, inr, ◌⊎◌, eq_iff, sym, subst,
}
use governance_iot_platform.Nvs.{Nvs, read_write}
use governance_iot_platform.Device.{World, transition}
use governance_iot_platform.Device.State.{Outcome, done, halted, final}
use governance_iot_platform.Ota.{
  Download, is_empty, clear_ota_target, finish_download, download_ota, read_current, banned_sha,
  set_target, update_checked, verify_and_update,
}

-- What the caller of `verify_and_update` is told; a restart is the success that it never sees.
abbrev pub reports_success : {S : Type 0} → Outcome S (Bool × String) → Bool
reports_success (done r s) = r.0
reports_success (halted r s) = true

module _ (nvs : Nvs) where
  -- If ota_store opens, an update with a SHA that is not empty and is the banned one or the running
  -- one is refused: of the device's state, only the copy of the current version and SHA that
  -- OtaManager reads from flash changes.
  pub update_refused :
      (d : Download) (v s : String) (w : World nvs)
      → nvs.opens w.flash read_write "ota_store" ≡ true
      → is_empty s ≡ false
      → (s ≡ banned_sha nvs w.flash) ⊎ (s ≡ (read_current nvs w.flash).current_version_sha)
      → let r = verify_and_update nvs d v s w in
        (reports_success r ≡ false) × (final r ≡ record w { ota = read_current nvs w.flash })
  unfolding verify_and_update update_checked
  update_refused d v s w opened given why = ground (
    arith,
    eq_iff s (banned_sha nvs w.flash),
    eq_iff (read_current nvs w.flash).current_version_sha s,
    eq_iff (banned_sha nvs w.flash) "",
    eq_iff s "",
  )

  -- What an update that returns may have changed of the flash.
  pub record Kept (f f' : nvs.Flash) : Type 0 where
    pub firmware : (key : String) → nvs.get f' "main_store" key ≡ nvs.get f "main_store" key
    pub previous_ver : nvs.get f' "ota_store" "prev_ver" ≡ nvs.get f "ota_store" "prev_ver"
    pub previous_sha : nvs.get f' "ota_store" "prev_sha" ≡ nvs.get f "ota_store" "prev_sha"
    pub banned : nvs.get f' "ota_store" "invalid_sha" ≡ nvs.get f "ota_store" "invalid_sha"

  Kept-refl : (f : nvs.Flash) → Kept f f
  Kept-refl f = record {
    firmware = λ k. refl;
    previous_ver = refl;
    previous_sha = refl;
    banned = refl;
  }

  Kept-given_up :
      (v s : String) (f : nvs.Flash) → Kept f (clear_ota_target nvs (set_target nvs v s f))
  unfolding clear_ota_target set_target
  Kept-given_up v s f = record {
    firmware = λ k. simp (nvs.get_commit, nvs.get_erase, nvs.get_set);
    previous_ver = simp (nvs.get_commit, nvs.get_erase, nvs.get_set);
    previous_sha = simp (nvs.get_commit, nvs.get_erase, nvs.get_set);
    banned = simp (nvs.get_commit, nvs.get_erase, nvs.get_set);
  }

  -- what a download that returns leaves: the flash it was given, less the target
  download_returns :
      (d : Download) (v s : String) (w : World nvs) (r : Bool × String) (w' : World nvs)
      → download_ota nvs d v s w ≡ done r w'
      → (r.0 ≡ false) × (w'.flash ≡ clear_ota_target nvs w.flash)
  unfolding download_ota finish_download transition
  download_returns d v s w r w' h = ground arith

  update_returns :
      (d : Download) (v s : String) (w : World nvs) (r : Bool × String) (w' : World nvs)
      → verify_and_update nvs d v s w ≡ done r w'
      → (w'.flash ≡ w.flash) ⊎ (w'.flash ≡ clear_ota_target nvs (set_target nvs v s w.flash))
  unfolding verify_and_update update_checked
  update_returns d v s w r w' h = ground (
    arith,
    download_returns d v s
        (record w { ota = read_current nvs w.flash; flash = set_target nvs v s w.flash }) r w',
  )

  -- An update that returns, whatever the reason, leaves main_store, the previous firmware and the
  -- ban as they were: only one that restarts the device replaces the firmware on record.
  pub update_returns-Kept :
      (d : Download) (v s : String) (w : World nvs) (r : Bool × String) (w' : World nvs)
      → verify_and_update nvs d v s w ≡ done r w'
      → Kept w.flash w'.flash
  update_returns-Kept d v s w r w' h = elim (update_returns d v s w r w' h) [
    | inl same ↦ subst (Kept w.flash) (sym same) (Kept-refl w.flash)
    | inr cleared ↦ subst (Kept w.flash) (sym cleared) (Kept-given_up v s w.flash)
  ]
