-- ===== src/Payload.antt =====
-- PayloadManager (perceptive-layer/mqtt_protobuff/governance_core/src/PayloadManager.cpp): JSON
-- objects as text, field by field. The text of a number is that of the C library.
use governance_iot_platform.Prelude.{
  ℕ, zero, suc, ◌-◌, String, Bool, true, false, not, List, [], ◌∷◌, if◌then◌else◌,
}
use Prim.Native.String.{◌++◌ as text_append}
use mathlib.Core.List.{foldl}
pub mod Fields

pub record PayloadManager : Type 0 where
  pub payload : String
  pub is_first : Bool
  pub is_closed : Bool

-- PayloadManager::PayloadManager and clear
unfoldable pub clear : PayloadManager
clear = record { payload = "{"; is_first = true; is_closed = false }

unfoldable pub append : String → PayloadManager → PayloadManager
append s p = record p { payload = text_append p.payload s }

-- PayloadManager::addComma
unfoldable pub add_comma : PayloadManager → PayloadManager
unfolding append
add_comma p = let q = if p.is_first then p else append "," p in record q { is_first = false }

-- `"key":`
unfoldable pub key_text : String → String
key_text key = text_append "\"" (text_append key "\":")

-- The first `n` characters of a text.
unfoldable pub cut : ℕ → String → String
cut zero s = ""
cut (suc n) String.[] = ""
cut (suc n) (String.◌∷◌ c s) = String.◌∷◌ c (cut n s)

-- The calls of add, one for each type of value, and addObject; `number` is the text of an int,
-- `decimal` the text of a float or double with two decimals.
pub data Field : Type 0 where
  text : String → String → Field
  number : String → String → Field
  decimal : String → String → Field
  flag : String → Bool → Field
  object : String → String → Field

-- what the call appends; snprintf writes a decimal into 32 bytes
unfoldable pub field_text : Field → String
unfolding key_text cut
field_text (text key value) = text_append (key_text key) (text_append "\"" (text_append value "\""))
field_text (number key shown) = text_append (key_text key) shown
field_text (decimal key shown) = cut 31 (text_append (key_text key) shown)
field_text (flag key value) = text_append (key_text key) (if value then "true" else "false")
field_text (object key json) = text_append (key_text key) json

unfoldable pub add : PayloadManager → Field → PayloadManager
unfolding append add_comma field_text
add p f = append (field_text f) (add_comma p)

-- PayloadManager::build, with the text that it returns
unfoldable pub build : PayloadManager → PayloadManager × String
unfolding append
build p =
    let q = if p.is_closed then p else record (append "}" p) { is_closed = true } in (q, q.payload)

-- PayloadManager::getString
unfoldable pub get_string : PayloadManager → String
get_string p = if p.is_closed then p.payload else text_append p.payload "}"

-- the fields of one object, in the order of the calls
unfoldable pub add_all : PayloadManager → List Field → PayloadManager
unfolding add
add_all p fields = foldl add p fields
