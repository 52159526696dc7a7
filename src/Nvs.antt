-- ===== src/Nvs.antt =====
-- The non-volatile storage of ESP-IDF (nvs.h), which the firmware only calls: an interface with the
-- documented behaviour of its calls. A handle is the namespace that it was opened on.
use governance_iot_platform.Prelude.{
  ℕ, String, len, str_eq, Bool, true, ◌&&◌, Option, none, some, ◌≡◌, if◌then◌else◌, ltb,
}

-- Entries carry their type: a read under another type finds nothing.
pub data Value : Type 0 where
  str : String → Value
  i8 u32 : ℕ → Value
  i32 : ℕ → Value

pub data OpenMode : Type 0 where
  read_only read_write : OpenMode

pub record Nvs : Type 1 where
  pub Flash : Type 0
  -- nvs_open(ns, mode, &h) == ESP_OK
  pub opens : Flash → OpenMode → String → Bool
  pub get : Flash → String → String → Option Value
  pub set : Flash → String → String → Value → Flash
  pub erase_key : Flash → String → String → Flash
  pub commit : Flash → String → Flash
  -- a write is seen by reads of its key, and by no other
  pub get_set :
      (f : Flash) (ns key : String) (v : Value) (ns' key' : String)
      → get (set f ns key v) ns' key'
        ≡ (if str_eq ns ns' && str_eq key key' then some v else get f ns' key')
  pub get_erase :
      (f : Flash) (ns key ns' key' : String)
      → get (erase_key f ns key) ns' key'
        ≡ (if str_eq ns ns' && str_eq key key' then none else get f ns' key')
  pub get_commit : (f : Flash) (ns ns' key' : String) → get (commit f ns) ns' key' ≡ get f ns' key'

-- Every namespace can be opened: it exists, and the partition is initialised.
pub record IsHealthy (nvs : Nvs) : Type 0 where
  pub opens_all : (f : nvs.Flash) (m : OpenMode) (ns : String) → nvs.opens f m ns ≡ true

-- What nvs_get_str leaves in a zeroed buffer of `size` bytes: the text with its terminator, if it
-- fits, and the empty text otherwise.
abbrev pub str_value : ℕ → Option Value → String
str_value size (some (str s)) = if ltb (len s) size then s else ""
str_value size _ = ""

-- What nvs_get_i8 leaves in a variable that held `old`.
abbrev pub i8_value : ℕ → Option Value → ℕ
i8_value old (some (i8 n)) = n
i8_value old _ = old

abbrev pub i32_value : ℕ → Option Value → ℕ
i32_value old (some (i32 n)) = n
i32_value old _ = old
