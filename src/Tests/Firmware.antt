-- ===== src/Tests/Firmware.antt =====
-- Updates, rollbacks and crashes.
use governance_iot_platform.Prelude.{true, false, none, some, [], ◌≡◌, refl, ◌⊎◌, inr}
use governance_iot_platform.AppState.Codes.{operational, boot_audit, sensors_init}
use governance_iot_platform.Device.{World, read_str, transition}
use governance_iot_platform.Device.State.{final}
use governance_iot_platform.Ota.{
  other_state, Download, finished, update_checked, download_ota, set_target, verify_and_update,
  verify_rollback, banned_sha, read_current,
}
use governance_iot_platform.Ota.Lifecycle.{Succeeds, Runs, rollback_restores}
use governance_iot_platform.Ota.Refusals.{
  reports_success, Kept, update_refused, update_returns-Kept,
}
use governance_iot_platform.Core.Audit
use governance_iot_platform.Core.Audit.{open_audit, handle_boot_audit}
use governance_iot_platform.Core.Audit.Ready.{Ends}
use governance_iot_platform.Core.Audit.Branches.{
  IsSettled, is_update_pending, handle_boot_audit-Ends,
}
use governance_iot_platform.Tests.Fixtures.{
  Entries, memory, memory-IsHealthy, device, client, surroundings,
}

abbrev running : World memory
running = device operational [] client

abbrev download : Download
download = record {
  begun = none;
  target = some 1000;
  image_size = 900;
  oversize = "too large";
  completed = true;
  finish = finished;
}

download-Succeeds : Succeeds download
download-Succeeds = record { begun = refl; fitting = refl; completed = refl; finish = refl }

rollback_restores_example :
    let f = (final (verify_and_update memory download "2.0" "bb" running)).flash in
    let (f', found) = verify_rollback memory (some "ota_1") f in
    Runs memory memory-IsHealthy "2.0" "bb" f
    × ((found.detected ≡ true)
        × (found.invalid_ver ≡ "2.0")
        × Runs memory memory-IsHealthy "1.0" "aa" f'
        × (banned_sha memory f' ≡ "bb"))
unfolding banned_sha
rollback_restores_example =
    rollback_restores memory memory-IsHealthy download "1.0" "aa" "2.0" "bb" "ota_1" running
      download-Succeeds (record { short = refl; given = refl })
      (record { short = refl; given = refl }) (record { short = refl; given = refl })
      (record { short = refl; given = refl }) (record { version_stored = refl; sha_stored = refl })
      refl refl

update_refused_example :
    let r = verify_and_update memory download "2.0" "aa" running in
    (reports_success r ≡ false)
    × (final r ≡ record running { ota = read_current memory running.flash })
unfolding read_current read_str
update_refused_example = update_refused memory download "2.0" "aa" running refl refl (inr refl)

abbrev cut_off : Download
cut_off = record download { completed = false }

update_returns-Kept_example :
    Kept memory running.flash (final (verify_and_update memory cut_off "2.0" "bb" running)).flash
unfolding verify_and_update update_checked download_ota read_current read_str banned_sha set_target
    transition
update_returns-Kept_example =
    update_returns-Kept memory cut_off "2.0" "bb" running (false, "Error: Download incomplete")
      (final (verify_and_update memory cut_off "2.0" "bb" running)) refl

abbrev answers : Audit.Answers
answers = record {
  image = some other_state;
  marked = true;
  sent = true;
  crashed = true;
  max_crash = 3;
  possible = true;
  reboots = true;
  last_invalid = none;
}

-- A boot comes to its audit with the flash that it finds.
abbrev arrive : Entries → World memory
arrive f = record running { flash = f }

abbrev connected_first : World memory
connected_first = device boot_audit [] client

handle_boot_audit-Ends_example :
    Ends memory surroundings
      (λ w'.
        (w'.app.current ≡ sensors_init)
        × ((is_update_pending memory surroundings
                (open_audit memory surroundings answers connected_first)
              ≡ true)
            ⊎ IsSettled memory surroundings w'.app))
      (handle_boot_audit memory surroundings answers connected_first)
handle_boot_audit-Ends_example =
    handle_boot_audit-Ends memory surroundings answers connected_first refl
