-- ===== src/Wifi/Recovery.antt =====
-- The recovery of the station, and what WifiManager tells of the network
-- (perceptive-layer/mqtt_protobuff/governance_core/src/WifiManager.cpp).
use governance_iot_platform.Prelude.{
  ℕ, ◌+◌, ◌/◌, ◌%◌, ltb, String, Bool, true, false, if◌then◌else◌, Option, none, some, List, [],
  ◌∷◌, ◌++◌,
}
use governance_iot_platform.Prelude.Int.{ℤ, negsuc}
use governance_iot_platform.Device.State.{
  Wifi, connecting, Outcome, done, halted, restart, Effect, wifi_connect,
}
use governance_iot_platform.Wifi.{Round, wait_for_connection}

-- CONFIG_WIFI_RECOVERY_RESET, _SWAP and _NONE; a build without any of them restarts
pub data Strategy : Type 0 where
  reset_strategy swap_strategy none_strategy undefined_strategy : Strategy

-- the station with using_backup_creds
pub record Station : Type 0 where
  pub wifi : Wifi
  pub using_backup : Bool

-- the station that tries the backup network
unfoldable pub to_backup : Station → Station
to_backup s = record {
  wifi = record s.wifi { retry_count = 0; fail_bit = false; status = connecting };
  using_backup = true;
}

-- the requests to the driver, and the station behind the wait
unfoldable pub waited : Station → Option (Bool × Wifi) → Option (Outcome Station (List Effect))
waited s none = none
waited s (some (up, f)) = some (done (wifi_connect ∷ []) (record s { wifi = f }))

-- WifiManager::recover, with the time, the fuel and the rounds of the wait for the backup network;
-- none while it still waits
unfoldable pub recover :
    Strategy → ℕ → ℕ → (ℕ → Round) → Station → Option (Outcome Station (List Effect))
unfolding to_backup waited
recover reset_strategy started fuel rounds s = some (halted restart s)
recover none_strategy started fuel rounds s = some (done [] s)
recover undefined_strategy started fuel rounds s = some (halted restart s)
recover swap_strategy started fuel rounds s =
    if s.using_backup
    then some (halted restart s)
    else waited (to_backup s) (wait_for_connection started fuel rounds (to_backup s).wifi)

-- WifiManager::getRssi, from what the driver knows of the access point
unfoldable pub get_rssi : Option ℤ → ℤ
get_rssi none = negsuc 126
get_rssi (some rssi) = rssi

-- %X of one digit; the letters start 55 behind the value 10
unfoldable pub hex_digit : ℕ → ℕ
hex_digit v = if ltb v 10 then b'0' + v else v + 55

unfoldable pub hex_byte : ℕ → List ℕ
unfolding hex_digit
hex_byte b = hex_digit (b / 16) ∷ hex_digit (b % 16) ∷ []

-- WifiManager::getMacAddress, on the six bytes of the address
unfoldable pub get_mac_address : ℕ → ℕ → ℕ → ℕ → ℕ → ℕ → List ℕ
unfolding hex_byte
get_mac_address a b c d e f =
    hex_byte a
    ++ (b':'
        ∷ (hex_byte b
            ++ (b':'
                ∷ (hex_byte c
                    ++ (b':' ∷ (hex_byte d ++ (b':' ∷ (hex_byte e ++ (b':' ∷ hex_byte f)))))))))

-- WifiManager::getIp, from the text of the address
unfoldable pub get_ip : Option String → String
get_ip none = "0.0.0.0"
get_ip (some address) = address

-- WifiManager::getSSID
unfoldable pub get_ssid : Option String → String
get_ssid none = "Desconectado"
get_ssid (some ssid) = ssid
