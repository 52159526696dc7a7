-- ===== src/Crypto.antt =====
-- The device's credentials in flash
-- (perceptive-layer/mqtt_protobuff/governance_core/src/CryptoManager.cpp): what the boot reads of
-- them.
pub mod Provisioning
pub mod Escape
pub mod Response
use governance_iot_platform.Prelude.{
  String, Bool, true, false, ◌&&◌, if◌then◌else◌, Option, none, some, [],
}
use governance_iot_platform.Nvs.{Nvs, Value, str, read_only}
use governance_iot_platform.AppState.Codes.{nvs_load_fail}
use governance_iot_platform.Device.{World, at, set_error}
use Prim.Native.String.{◌++◌ as text_append}

-- A text is stored with its terminator: the size that nvs_get_str reports of it is never 0.
abbrev pub text_of : Option Value → Option String
text_of (some (str s)) = some s
text_of _ = none

abbrev pub is_some : Option String → Bool
is_some none = false
is_some (some s) = true

module _ (nvs : Nvs) where
  -- CryptoManager::isProvisioned
  unfoldable pub is_provisioned : nvs.Flash → Bool
  is_provisioned f =
      nvs.opens f read_only "crypto_store"
      && is_some (text_of (nvs.get f "crypto_store" "client_cert"))

  -- CryptoManager::loadFromNVS
  unfoldable pub load_from_nvs : String → World nvs → World nvs × String
  load_from_nvs key w =
      if nvs.opens w.flash read_only "crypto_store"
      then elim (text_of (nvs.get w.flash "crypto_store" key)) [
        | some s ↦ (w, s)
        | none ↦ (
          set_error nvs nvs_load_fail
              (text_append "NVS failed to load [key: " (text_append key "] from NVS"))
              (at "CryptoManager" "loadFromNVS") [] w,
          "",
        )
      ]
      else (w, "")
