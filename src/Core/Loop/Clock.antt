-- ===== src/Core/Loop/Clock.antt =====
-- The turn of the loop that sets the clock
-- (`handle_time_sync` of perceptive-layer/mqtt_protobuff/governance_core/src/governance_core.cpp).
use governance_iot_platform.Prelude.{
  ℕ, ltb, String, Bool, true, false, not, ◌&&◌, ◌||◌, if◌then◌else◌, List, ◌≡◌, refl, ◌∙◌, inl, inr,
  Bool-cases, Option-cases,
}
use governance_iot_platform.Nvs.{Nvs, IsHealthy}
use governance_iot_platform.AppState.Codes.{DeviceState, time_sync, mqtt_init}
use governance_iot_platform.Device.{World}
use governance_iot_platform.Device.State.{Effect}
use governance_iot_platform.Core.Boot.{
  epoch_of, refresh_due, is_given, TimeSources, handle_time_sync, count_boot, from_rtc,
  from_external, ask_external, from_ntp,
}
use governance_iot_platform.Core.Loop.Identity.{IsAt, moved}

module _ (nvs : Nvs) (healthy : IsHealthy nvs) where
  -- a change of effects, and of flash that leaves the keys
  changed :
      (d : DeviceState) (cert key : String) (w : World nvs) (f : nvs.Flash) (es : List Effect)
      → ((k : String) → nvs.get f "crypto_store" k ≡ nvs.get w.flash "crypto_store" k)
      → IsAt nvs healthy d cert key w
      → IsAt nvs healthy d cert key (record w { flash = f; effects = es })
  changed d cert key w f es same i = record {
    at_state = i.at_state;
    ready = i.ready;
    no_client = i.no_client;
    not_started = i.not_started;
    keys = record {
      cert_stored = same "client_cert" ∙ i.keys.cert_stored;
      key_stored = same "private_key" ∙ i.keys.key_stored;
      cert_given = i.keys.cert_given;
      key_given = i.keys.key_given;
    };
  }

  from_rtc-IsAt :
      (d : DeviceState) (cert key : String) (t : TimeSources) (w : World nvs)
      → IsAt nvs healthy d cert key w
      → IsAt nvs healthy d cert key (from_rtc nvs t w).0
  unfolding from_rtc
  from_rtc-IsAt d cert key t w i = elim (Bool-cases (ltb 0 (epoch_of t.persisted))) [
    | inl e ↦ rw e (changed d cert key w w.flash _ (λ k. refl) i)
    | inr e ↦ rw e i
  ]

  from_external-IsAt :
      (d : DeviceState) (cert key : String) (t : TimeSources) (b : Bool) (w : World nvs)
      → IsAt nvs healthy d cert key w
      → IsAt nvs healthy d cert key (from_external nvs t b w).0
  unfolding from_external
  from_external-IsAt d cert key t b w i = elim (Bool-cases (ltb 0 (epoch_of t.external))) [
    | inl e ↦ rw e (changed d cert key w w.flash _ (λ k. refl) i)
    | inr e ↦ rw e i
  ]

  ask_external-IsAt :
      (d : DeviceState) (cert key : String) (t : TimeSources) (n : ℕ) (b : Bool) (w : World nvs)
      → IsAt nvs healthy d cert key w
      → IsAt nvs healthy d cert key (ask_external nvs t n b w).0
  unfolding ask_external
  ask_external-IsAt d cert key t n b w i =
      elim (Bool-cases (is_given t.external && (not b || refresh_due t.refresh_every n))) [
        | inl e ↦ rw e (from_external-IsAt d cert key t b w i)
        | inr e ↦ rw e i
      ]

  from_ntp-IsAt :
      (d : DeviceState) (cert key : String) (t : TimeSources) (w : World nvs)
      → IsAt nvs healthy d cert key w
      → IsAt nvs healthy d cert key (from_ntp nvs t w)
  unfolding from_ntp
  from_ntp-IsAt d cert key t w i = elim (Option-cases t.ntp) [
    | inl e ↦ rw e i
    | inr (n, e) ↦ rw e (changed d cert key w w.flash _ (λ k. refl) i)
  ]

  count_boot-crypto :
      (f : nvs.Flash) (k : String)
      → nvs.get (count_boot nvs f).1 "crypto_store" k ≡ nvs.get f "crypto_store" k
  unfolding count_boot
  count_boot-crypto f k = simp (healthy.opens_all, nvs.get_commit, nvs.get_set)

  one_of :
      (d : DeviceState) (cert key : String) (b : Bool) (x y : World nvs)
      → IsAt nvs healthy d cert key x
      → IsAt nvs healthy d cert key y
      → IsAt nvs healthy d cert key (if b then x else y)
  one_of d cert key true x y i j = i
  one_of d cert key false x y i j = j

  pub time_sync_goes :
      (t : TimeSources) (cert key : String) (w : World nvs)
      → IsAt nvs healthy time_sync cert key w
      → IsAt nvs healthy mqtt_init cert key (handle_time_sync nvs t w)
  unfolding handle_time_sync
  time_sync_goes t cert key w i =
      let (w1, synced) = from_rtc nvs t w in
      let (n, f) = count_boot nvs w1.flash in
      let w2 = record w1 { flash = f } in
      let i2 =
        changed time_sync cert key w1 f w1.effects (count_boot-crypto w1.flash)
          (from_rtc-IsAt time_sync cert key t w i) in
      moved nvs healthy time_sync mqtt_init cert key _ (
        one_of time_sync cert key (ask_external nvs t n synced w2).1
          (ask_external nvs t n synced w2).0 (from_ntp nvs t (ask_external nvs t n synced w2).0)
          (ask_external-IsAt time_sync cert key t n synced w2 i2)
          (from_ntp-IsAt time_sync cert key t _
            (ask_external-IsAt time_sync cert key t n synced w2 i2)))
