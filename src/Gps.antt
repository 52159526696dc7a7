-- ===== src/Gps.antt =====
-- The reader of the GPS module
-- (perceptive-layer/mqtt_protobuff/FIRM_OPERATIONAL_MQTT_PROTOBUFF/main/src/GpsManager.cpp): lines
-- from the bytes of the UART, what a sentence changes, the wait for a fix. minmea is an interface.
use governance_iot_platform.Prelude.{
  ℕ, zero, suc, ◌+◌, ◌-◌, Bool, true, false, ◌&&◌, ◌||◌, not, Option, none, some, List, [], ◌∷◌,
  ◌++◌, if◌then◌else◌, ltb, leb, ◌==◌, length,
}
use mathlib.Core.List.{foldl}
use governance_iot_platform.Prelude.Text.{text_in}
pub mod Lines
pub mod Waiting

pub data SentenceId : Type 0 where
  rmc gga other : SentenceId

-- the fields of minmea_sentence_rmc that the reader uses, with the coordinates and the time that
-- minmea_tocoord and minmea_getdatetime make of them; the year has two digits
pub record Rmc (Number Time : Type 0) : Type 0 where
  pub valid : Bool
  pub year : ℕ
  pub rmc_latitude : Number
  pub rmc_longitude : Number
  pub rmc_time : Time

pub record Gga (Number : Type 0) : Type 0 where
  pub fix_quality : ℕ
  pub gga_altitude : Number

pub record Minmea : Type 1 where
  pub Number : Type 0
  pub Time : Type 0
  pub sentence_id : List ℕ → SentenceId
  pub parse_rmc : List ℕ → Option (Rmc Number Time)
  pub parse_gga : List ℕ → Option (Gga Number)

-- MINMEA_MAX_SENTENCE_LENGTH, the size of line_buf
abbrev pub line_size : ℕ
line_size = 80

unfoldable pub is_line_end : ℕ → Bool
is_line_end c = c == 10 || c == 13

-- `if (line_pos < sizeof(line_buf) - 1) line_buf[line_pos++] = c`
unfoldable pub append_char : List ℕ → ℕ → List ℕ
append_char line c = if ltb (length line) (line_size - 1) then line ++ c ∷ [] else line

-- The reader with the line that it collects, over what its sentences change.
pub record Reader (S : Type 0) : Type 0 where
  pub line : List ℕ
  pub result : S

module _ {S : Type 0} (apply : S → List ℕ → S) where
  -- the body of the loop over the received bytes; minmea reads the line up to its terminator
  unfoldable pub read_char : Reader S → ℕ → Reader S
  unfolding is_line_end append_char text_in
  read_char r c =
      if is_line_end c
      then record { line = []; result = apply r.result (text_in r.line) }
      else record r { line = append_char r.line c }

  -- one uart_read_bytes
  unfoldable pub read_bytes : Reader S → List ℕ → Reader S
  unfolding read_char
  read_bytes r bytes = foldl read_char r bytes

module _ (m : Minmea) where
  open m use {Number, Time, sentence_id, parse_rmc, parse_gga}

  -- _latitude, _longitude, _altitude, _hasFix
  pub record Position : Type 0 where
    pub latitude : Number
    pub longitude : Number
    pub altitude : Number
    pub has_fix : Bool

  unfoldable pub take_rmc : Option (Rmc Number Time) → Position → Position
  take_rmc none p = p
  take_rmc (some f) p =
      if f.valid
      then record p { latitude = f.rmc_latitude; longitude = f.rmc_longitude; has_fix = true }
      else p

  unfoldable pub take_gga : Option (Gga Number) → Position → Position
  take_gga none p = p
  take_gga (some f) p = if ltb 0 f.fix_quality then record p { altitude = f.gga_altitude } else p

  unfoldable pub take_sentence : SentenceId → List ℕ → Position → Position
  unfolding take_rmc take_gga
  take_sentence rmc line p = take_rmc (parse_rmc line) p
  take_sentence gga line p = take_gga (parse_gga line) p
  take_sentence other line p = p

  unfoldable pub on_line : Position → List ℕ → Position
  unfolding take_sentence
  on_line p line = take_sentence (sentence_id line) line p

  -- GpsManager::run, for the reads so far
  unfoldable pub run : Reader Position → List (List ℕ) → Reader Position
  unfolding read_bytes on_line
  run r reads = foldl (read_bytes on_line) r reads

  -- The fix that waitForFix fills, and has_rmc with its coordinates.
  pub record Fix : Type 0 where
    pub from_rmc : Option (Rmc Number Time)
    pub fix_altitude : Option Number

  unfoldable pub is_recent : Rmc Number Time → Bool
  is_recent f = f.valid && leb 20 f.year

  unfoldable pub fix_rmc : Option (Rmc Number Time) → Fix → Fix
  unfolding is_recent
  fix_rmc none x = x
  fix_rmc (some f) x = if is_recent f then record x { from_rmc = some f } else x

  unfoldable pub fix_gga : Option (Gga Number) → Fix → Fix
  fix_gga none x = x
  fix_gga (some f) x =
      if ltb 0 f.fix_quality then record x { fix_altitude = some f.gga_altitude } else x

  unfoldable pub has_rmc : Option (Rmc Number Time) → Bool
  has_rmc none = false
  has_rmc (some f) = true

  unfoldable pub fix_sentence : SentenceId → List ℕ → Fix → Fix
  unfolding fix_rmc fix_gga has_rmc
  fix_sentence rmc line x = if not (has_rmc x.from_rmc) then fix_rmc (parse_rmc line) x else x
  fix_sentence gga line x = fix_gga (parse_gga line) x
  fix_sentence other line x = x

  unfoldable pub fix_line : Fix → List ℕ → Fix
  unfolding fix_sentence
  fix_line x line = fix_sentence (sentence_id line) line x

  -- The loop of waitForFix, whose fuel is a bound of its reads: the reads that it takes from `reads`
  -- at the round `k`, and the reader behind them; none if the fuel ends before.
  unfoldable pub wait_loop : ℕ → (ℕ → List ℕ) → ℕ → ℕ → ℕ → Reader Fix → Option (ℕ × Reader Fix)
  unfolding read_bytes fix_line has_rmc
  wait_loop zero reads timeout k elapsed r = none
  wait_loop (suc n) reads timeout k elapsed r =
      let rest =
        wait_loop n reads timeout (suc k) (elapsed + 100) (read_bytes fix_line r (reads k)) in
      if ltb elapsed timeout && not (has_rmc r.result.from_rmc) then rest else some (k, r)

  abbrev pub no_fix : Reader Fix
  no_fix = record { line = []; result = record { from_rmc = none; fix_altitude = none } }

  -- GpsManager::waitForFix, once the driver and the buffer are there
  unfoldable pub wait_for_fix : ℕ → (ℕ → List ℕ) → ℕ → Option (ℕ × Reader Fix)
  unfolding wait_loop
  wait_for_fix fuel reads timeout = wait_loop fuel reads timeout 0 0 no_fix
