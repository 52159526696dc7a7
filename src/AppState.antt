-- ===== src/AppState.antt =====
-- The process-wide state of the device: its state, its queue of error events and the mask of active
-- errors (perceptive-layer/mqtt_protobuff/governance_core/src/AppState.cpp). Each function here is a
-- critical section of `_mutex`, or a read under it; the writes to flash that follow some of them
-- are in Device.
pub mod Codes
pub mod Names
pub mod Tracking
pub mod Activity
pub mod Backlog
use governance_iot_platform.Prelude.{
  ℕ, zero, suc, ◌+◌, ◌-◌, ◌^◌, ◌==◌, ltb, leb, bit_and, bit_or, Bool, true, false, not, ◌||◌,
  if◌then◌else◌, List, [], ◌∷◌, ◌++◌, length, Option, none, some,
}
use Codes.{DeviceState, error, nvs_init, ErrorCode, no_error, error_index, AppError, Source}

-- `ready` says that `_mutex` has been created.
pub record AppState : Type 0 where
  pub ready : Bool
  pub current : DeviceState
  pub previous : DeviceState
  pub error_queue : List AppError
  pub active_error_mask : ℕ  -- uint32_t

pub initial : AppState
initial = record {
  ready = false;
  current = nvs_init;
  previous = nvs_init;
  error_queue = [];
  active_error_mask = 0;
}

-- AppState::init
unfoldable pub init : AppState → AppState
init s = record s { ready = true }

unfoldable pub error_bit : ErrorCode → ℕ
error_bit code = let idx = error_index code in if idx == 0 || leb 32 idx then 0 else 2 ^ idx

-- AppState::transition
unfoldable pub transition : DeviceState → AppState → AppState
transition next s = if s.ready then record s { previous = s.current; current = next } else s

abbrev pub max_error_queue : ℕ
max_error_queue = 32

-- `while (_errorQueue.size() >= MAX_ERROR_QUEUE) _errorQueue.pop();`
unfoldable pub drop_oldest : List AppError → List AppError
drop_oldest [] = []
drop_oldest (e ∷ q) =
    let rest = drop_oldest q in if leb max_error_queue (length (e ∷ q)) then rest else e ∷ q

-- the critical section of AppState::setError
unfoldable pub register : AppError → AppState → AppState
register evt s =
    let bit = error_bit evt.code in
    record s {
      error_queue = drop_oldest s.error_queue ++ evt ∷ [];
      active_error_mask = if bit == 0 then s.active_error_mask else bit_or s.active_error_mask bit;
      previous = s.current;
      current = error;
    }

-- the event that AppState::resolveError queues: the defaults of `struct AppError` but for two fields
abbrev pub resolution : ErrorCode → AppError
resolution c = record {
  code = c;
  msg = "";
  source = record { class_name = ""; method = "" };
  details = [];
  resolved = true;
}

-- AppState::isErrorActive
unfoldable pub is_error_active : ErrorCode → AppState → Bool
is_error_active code s =
    let bit = error_bit code in
    if bit == 0 then false else not (bit_and s.active_error_mask bit == 0)

-- the critical section of AppState::resolveError, with `wasActive`
unfoldable pub settle : ErrorCode → AppState → AppState × Bool
settle code s =
    let bit = error_bit code in
    let was_active = not (bit_and s.active_error_mask bit == 0) in
    if bit == 0
    then (s, false)
    else if was_active
    then (
      record s {
        error_queue = s.error_queue ++ resolution code ∷ [];
        active_error_mask = bit_and s.active_error_mask (2 ^ 32 - 1 - bit);
      },
      true,
    )
    else (s, false)

-- AppState::hasActiveErrors
unfoldable pub has_active_errors : AppState → Bool
has_active_errors s = not (s.active_error_mask == 0)

-- AppState::hasQueuedErrors
unfoldable pub has_queued_errors : AppState → Bool
has_queued_errors s = elim s.error_queue [ [] ↦ false | _ ∷ _ ↦ true ]

-- `AppError{}`
abbrev pub empty_error : AppError
empty_error = record {
  code = no_error;
  msg = "";
  source = record { class_name = ""; method = "" };
  details = [];
  resolved = false;
}

-- AppState::popError
unfoldable pub pop_error : AppState → AppState × AppError
pop_error s = elim s.error_queue [
  | [] ↦ (s, empty_error)
  | e ∷ q ↦ (record s { error_queue = q }, e)
]

-- AppState::peekError
unfoldable pub peek_error : AppState → AppError
peek_error s = elim s.error_queue [ [] ↦ empty_error | e ∷ q ↦ e ]

-- the critical section of AppState::loadPersistedErrors
unfoldable pub restore_mask : ℕ → AppState → AppState
restore_mask mask s = record s { active_error_mask = mask }
