-- ===== src/Tests/Streams.antt =====
-- The stream of the gRPC client and the lines of the GPS.
use governance_iot_platform.Prelude.{
  ℕ, zero, suc, ◌+◌, true, false, if◌then◌else◌, Option, none, some, List, [], ◌∷◌, length, flatten,
  ◌≡◌, refl, arith, take,
}
use mathlib.Core.List.{foldl}
use governance_iot_platform.Grpc.{grpc_frame, header, overrun, subscribe_data_callback, read_length}
use governance_iot_platform.Grpc.Limits.{length_wraps}
use governance_iot_platform.Grpc.Client.{
  Client, message, Decoder, streamed, dispatch_all, subscribe_task_fn,
}
use governance_iot_platform.Grpc.Client.Delivery.{subscription_delivers}
use governance_iot_platform.Gps
use governance_iot_platform.Gps.{Minmea, rmc, Rmc, Position, Reader, on_line, wait_for_fix}
use governance_iot_platform.Gps.Lines.{lines, pieces, rest_line, run-lines}
use governance_iot_platform.Gps.Waiting.{Waited, wait_for_fix-Waited}

-- nanopb with one field to a message
abbrev one_field : Decoder
one_field pb = (message pb ∷ [], true)

abbrev as_given : List ℕ → Option (List ℕ)
as_given t = some t

abbrev subscriber : Client
subscriber = record {
  ready = true;
  has_callback = true;
  sub_topic = 99 ∷ [];
  sub_buffer = 1 ∷ 2 ∷ [];
}

abbrev commands : List (List ℕ)
commands = (7 ∷ 8 ∷ []) ∷ (9 ∷ []) ∷ []

abbrev portions : List (List ℕ)
portions = (0 ∷ 0 ∷ 0 ∷ []) ∷ (0 ∷ 2 ∷ 7 ∷ 8 ∷ 0 ∷ []) ∷ (0 ∷ 0 ∷ 0 ∷ 1 ∷ 9 ∷ []) ∷ []

subscription_delivers_example :
    subscribe_task_fn one_field as_given subscriber portions true
    ≡ streamed
        (record subscriber { sub_buffer = [] })
        (grpc_frame (99 ∷ []))
        (dispatch_all one_field true commands)
        (if true then 0 else 3000)
unfolding grpc_frame
subscription_delivers_example =
    subscription_delivers one_field as_given subscriber (99 ∷ []) portions commands true 2 5 refl
      refl (omega arith) (omega arith) (omega arith) refl

length_wraps_example : subscribe_data_callback [] (0 ∷ 255 ∷ 255 ∷ 255 ∷ 255 ∷ 1 ∷ []) ≡ overrun []
unfolding header read_length
length_wraps_example =
    length_wraps (0 ∷ 255 ∷ 255 ∷ 255 ∷ 255 ∷ 1 ∷ []) (1 ∷ []) 4294967295 (omega arith) refl
      (omega arith) (omega arith)

-- minmea that takes every line for a position
abbrev dated : Minmea
dated = record {
  Number = ℕ;
  Time = ℕ;
  sentence_id = λ l. rmc;
  parse_rmc = λ l. some (record {
    valid = true;
    year = 15 + length l;
    rmc_latitude = length l;
    rmc_longitude = 5;
    rmc_time = 1700;
  });
  parse_gga = λ l. none;
}

abbrev nowhere : Position dated
nowhere = record { latitude = 0; longitude = 0; altitude = 0; has_fix = false }

abbrev uart : List (List ℕ)
uart = (36 ∷ 71 ∷ []) ∷ [] ∷ (80 ∷ 10 ∷ 36 ∷ []) ∷ []

run-lines_example : Gps.run dated (record { line = []; result = nowhere }) uart ≡ record {
  line = take 79 (rest_line (pieces (flatten uart)).first (pieces (flatten uart)).more);
  result = foldl (on_line dated) nowhere (lines (flatten uart));
}
run-lines_example = run-lines dated nowhere uart

-- a line of year 19, then one of year 21 in two portions
abbrev ticks : ℕ → List ℕ
ticks zero = 36 ∷ 71 ∷ 80 ∷ 82 ∷ 10 ∷ []
ticks (suc zero) = 36 ∷ 71 ∷ 80 ∷ []
ticks (suc (suc k)) = 82 ∷ 77 ∷ 67 ∷ 10 ∷ []

wait_for_fix-Waited_example : Waited dated ticks 300 (wait_for_fix dated 4 ticks 300)
wait_for_fix-Waited_example = wait_for_fix-Waited dated 4 ticks 300 (omega arith)
