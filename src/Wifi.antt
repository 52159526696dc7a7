-- ===== src/Wifi.antt =====
-- The WiFi station: its events, its retries and the wait for a connection
-- (perceptive-layer/mqtt_protobuff/governance_core/src/WifiManager.cpp). The state is the record Wifi
-- of Device/State; what the driver is asked to do is a list of effects, newest first.
pub mod Retries
pub mod Waiting
pub mod Recovery
use governance_iot_platform.Prelude.{
  ℕ, zero, suc, ◌+◌, ◌-◌, ◌*◌, ltb, leb, String, len, Bool, true, false, not, ◌&&◌, if◌then◌else◌,
  Option, none, some, List, [], ◌∷◌,
}
use governance_iot_platform.Device.State.{
  Wifi, WifiStatus, idle, connecting, connected, failed, reconnecting, FailReason, fail_none,
  fail_timeout, fail_auth, fail_no_ap, fail_connection, fail_max_retries, fail_unknown, Effect,
  wifi_connect, wifi_start, wifi_stop,
}

-- failReasonToString; a reason with no case of its own falls to the `default`
pub fail_reason_to_string : FailReason → String
fail_reason_to_string fail_none = "NONE"
fail_reason_to_string fail_auth = "AUTH FAIL"
fail_reason_to_string fail_no_ap = "NO AP FOUND"
fail_reason_to_string fail_max_retries = "MAX RETRIES"
fail_reason_to_string fail_timeout = "TIMEOUT"
fail_reason_to_string fail_unknown = "UNKNOWN"
fail_reason_to_string _ = "INVALID REASON"

-- the reasons of WIFI_EVENT_STA_DISCONNECTED that the handler tells apart
pub data Reason : Type 0 where
  auth_expire four_way_handshake_timeout auth_fail assoc_fail handshake_timeout not_authed : Reason
  no_ap_found beacon_timeout assoc_expire not_associated : Reason
  connection_fail other_reason : Reason

unfoldable pub classify : Reason → FailReason
classify auth_expire = fail_auth
classify four_way_handshake_timeout = fail_auth
classify auth_fail = fail_auth
classify assoc_fail = fail_auth
classify handshake_timeout = fail_auth
classify not_authed = fail_auth
classify no_ap_found = fail_no_ap
classify beacon_timeout = fail_no_ap
classify assoc_expire = fail_no_ap
classify not_associated = fail_no_ap
classify connection_fail = fail_connection
classify other_reason = fail_unknown

abbrev pub is_failed : WifiStatus → Bool
is_failed failed = true
is_failed _ = false

-- set_failure: the first reason stays
unfoldable pub set_failure : FailReason → Wifi → Wifi
set_failure r f = record f {
  status = failed;
  fail_reason = if is_failed f.status then f.fail_reason else r;
  fail_bit = true;
}

-- set_success
unfoldable pub set_success : Wifi → Wifi
set_success f = record f {
  status = connected;
  fail_reason = fail_none;
  retry_count = 0;
  connected_bit = true;
  fail_bit = false;
}

-- a disconnection that nobody asked for
abbrev pub is_intended : WifiStatus → Bool
is_intended idle = true
is_intended reconnecting = true
is_intended _ = false

abbrev pub exhausted_reason : FailReason → FailReason
exhausted_reason fail_unknown = fail_max_retries
exhausted_reason r = r

-- the case WIFI_EVENT_STA_DISCONNECTED
unfoldable pub on_disconnected : Reason → Wifi → Wifi × List Effect
unfolding set_failure
on_disconnected r f =
    let retried = record f {
      status = connecting;
      retry_count = f.retry_count + 1;
      connected_bit = false;
    } in
    if is_intended f.status
    then (f, [])
    else if ltb f.retry_count f.final_retries
    then (retried, wifi_connect ∷ [])
    else (record (set_failure (exhausted_reason (classify r)) f) { connected_bit = false }, [])

pub data WifiEvent : Type 0 where
  sta_start got_ip other_event : WifiEvent
  sta_disconnected : Reason → WifiEvent

-- event_handler
unfoldable pub event_handler : WifiEvent → Wifi → Wifi × List Effect
event_handler sta_start f = (record f { status = connecting }, wifi_connect ∷ [])
event_handler got_ip f = (set_success f, [])
event_handler (sta_disconnected r) f = on_disconnected r f
event_handler other_event f = (f, [])

-- WifiConfig: an SSID or a password that is not given is empty, `max_retries` is none when negative
pub record WifiConfig : Type 0 where
  pub ssid : String
  pub password : String
  pub max_retries : Option ℕ

-- the settings of menuconfig
pub record Menuconfig : Type 0 where
  pub wifi_ssid : String
  pub wifi_password : String
  pub wifi_max_retries : ℕ

abbrev pub or_else : String → String → String
or_else given default_text = if ltb 0 (len given) then given else default_text

abbrev pub retries_or : Option ℕ → ℕ → ℕ
retries_or none d = d
retries_or (some n) d = n

-- WifiManager::init. `copy n` is strlcpy into a buffer of n bytes; the calls of the driver under
-- ESP_ERROR_CHECK succeed, or abort the program.
unfoldable pub init : (ℕ → String → String) → Menuconfig → WifiConfig → Wifi → Wifi × List Effect
init copy menu cfg f = if f.is_initialized then (f, []) else (
  record f {
    event_group = true;
    connected_bit = false;
    fail_bit = false;
    is_initialized = true;
    final_ssid = copy 33 (or_else cfg.ssid menu.wifi_ssid);
    final_pass = copy 64 (or_else cfg.password menu.wifi_password);
    final_retries = retries_or cfg.max_retries menu.wifi_max_retries;
  },
  wifi_start ∷ [],
)

-- WifiManager::reconnect
unfoldable pub reconnect : Wifi → Wifi × List Effect
reconnect f =
    if f.event_group
    then (
      record f { status = reconnecting; connected_bit = false; fail_bit = false; retry_count = 0 },
      wifi_start ∷ wifi_stop ∷ [],
    )
    else (f, [])

-- WifiManager::stop
unfoldable pub stop : Wifi → Wifi × List Effect
stop f =
    let quiet = record f { status = idle } in
    if not f.is_initialized then (f, []) else (
      if f.event_group then record quiet { connected_bit = false; fail_bit = false } else quiet,
      wifi_stop ∷ [],
    )

-- WifiManager::start
unfoldable pub start : Wifi → Wifi × List Effect
start f = if f.is_initialized then (record f { status = connecting }, wifi_start ∷ []) else (f, [])

-- WifiManager::deinit
unfoldable pub deinit : Wifi → Wifi × List Effect
deinit f =
    if f.is_initialized
    then (
      record f {
        event_group = false;
        connected_bit = false;
        fail_bit = false;
        is_initialized = false;
        retry_count = 0;
        status = idle;
        fail_reason = fail_none;
      },
      wifi_stop ∷ [],
    )
    else (f, [])

-- WifiManager::initAP: the access point of a device that has no network yet
unfoldable pub init_ap : Wifi → Wifi × List Effect
init_ap f = if f.is_initialized then (f, []) else (
  record f { event_group = true; connected_bit = false; fail_bit = false; is_initialized = true },
  wifi_start ∷ [],
)

-- WifiManager::hasFailed
unfoldable pub has_failed : Wifi → Bool
has_failed f = f.event_group && f.fail_bit

-- What one round of the wait finds: the state of the driver after at most TICK_WAIT_MS, and the clock
-- in microseconds.
pub record Round : Type 0 where
  pub seen : Wifi
  pub clock : ℕ

abbrev pub max_wait_us : ℕ
max_wait_us = 100000 * 1000

-- the loop of `waitForConnection` from the time `started`, on the rounds that it may take; none if
-- they do not suffice
unfoldable pub wait_loop : ℕ → ℕ → (ℕ → Round) → Option (Bool × Wifi)
wait_loop started zero rounds = none
wait_loop started (suc fuel) rounds =
    let r = rounds 0 in
    let rest = wait_loop started fuel (λ i. rounds (suc i)) in
    if leb max_wait_us (r.clock - started)
    then some (false, set_failure fail_timeout r.seen)
    else if r.seen.connected_bit
    then some (true, r.seen)
    else if r.seen.fail_bit
    then some (false, r.seen)
    else rest

-- WifiManager::waitForConnection
unfoldable pub wait_for_connection : ℕ → ℕ → (ℕ → Round) → Wifi → Option (Bool × Wifi)
wait_for_connection started fuel rounds f =
    if f.event_group then wait_loop started fuel rounds else some (false, f)
