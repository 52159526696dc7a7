-- ===== src/Grpc.antt =====
-- The client of the gRPC firmware
-- (perceptive-layer/grpc/grpc_only/main/src/GrpcManager.cpp): frames, the stream of commands, the
-- publication of messages. A byte is a number; a text of the program is the list of its bytes.
use governance_iot_platform.Prelude.{
  ℕ, suc, zero, ◌+◌, ◌-◌, ◌*◌, ◌/◌, ◌%◌, ◌^◌, Bool, true, false, ◌&&◌, not, Option, none, some,
  List, [], ◌∷◌, ◌++◌, if◌then◌else◌, ltb, ◌==◌, length, take, drop,
}
mod Frames
pub mod Stream
pub mod Limits
pub mod Client

-- The four bytes of the length, the highest first. They set disjoint bits, so that `|` adds them.
unfoldable pub read_length : ℕ → ℕ → ℕ → ℕ → ℕ
read_length a b c d = a * 2 ^ 24 + b * 2 ^ 16 + c * 2 ^ 8 + d

-- static size_t grpc_frame
unfoldable pub grpc_frame : List ℕ → List ℕ
grpc_frame proto =
    let plen = length proto in
    0 ∷ (plen / 2 ^ 24 % 256) ∷ (plen / 2 ^ 16 % 256) ∷ (plen / 2 ^ 8 % 256) ∷ (plen % 256) ∷ proto

-- The length that the bytes at `pos` declare, with the bytes behind it; none if five are not there.
unfoldable pub header : List ℕ → Option (ℕ × List ℕ)
unfolding read_length
header (flag ∷ a ∷ b ∷ c ∷ d ∷ rest) = some (read_length a b c d, rest)
header _ = none

-- How the loop over the buffer ends: with the messages in their order and the bytes behind them;
-- with a length that reaches past what was received; or not within the fuel.
pub data Scan : Type 0 where
  stopped : List (List ℕ) → List ℕ → Scan
  overrun : List (List ℕ) → Scan
  unfinished : Scan

unfoldable pub found : List ℕ → Scan → Scan
found msg (stopped msgs rest) = stopped (msg ∷ msgs) rest
found msg (overrun msgs) = overrun (msg ∷ msgs)
found msg unfinished = unfinished

-- `pos + 5 + msg_len > s_sub_len` in the 32 bits of size_t
unfoldable pub is_incomplete : ℕ → ℕ → List ℕ → Bool
is_incomplete pos len body = ltb (pos + 5 + length body) ((pos + 5 + len) % 2 ^ 32)

-- one round of the while loop of subscribe_data_callback, at `pos` with the bytes from there on;
-- `next` is the loop behind the message
unfoldable pub scan_round : ℕ → List ℕ → Option (ℕ × List ℕ) → (ℕ → List ℕ → Scan) → Scan
unfolding found is_incomplete
scan_round pos bytes none next = stopped [] bytes
scan_round pos bytes (some (len, body)) next =
    if is_incomplete pos len body
    then stopped [] bytes
    else if ltb (length body) len
    then overrun []
    else found (take len body) (next (pos + 5 + len) (drop len body))

unfoldable pub scan : ℕ → ℕ → List ℕ → Scan
unfolding header scan_round
scan zero pos bytes = unfinished
scan (suc n) pos bytes = scan_round pos bytes (header bytes) (scan n)

abbrev pub buffer_size : ℕ
buffer_size = 1024

-- the bytes that memcpy leaves in the buffer; none if they do not fit into it
unfoldable pub joined : List ℕ → List ℕ → Option (List ℕ)
joined buffer chunk =
    let kept = if ltb buffer_size (length buffer + length chunk) then [] else buffer in
    if ltb buffer_size (length kept + length chunk) then none else some (kept ++ chunk)

unfoldable pub scanned : Option (List ℕ) → Scan
unfolding scan
scanned none = overrun []
scanned (some bytes) = scan (suc (length bytes)) 0 bytes

-- subscribe_data_callback, up to the dispatch of the messages that it finds
unfoldable pub subscribe_data_callback : List ℕ → List ℕ → Scan
unfolding joined scanned
subscribe_data_callback buffer chunk = scanned (joined buffer chunk)

-- what follows once a scan has stopped
unfoldable pub and_then : Scan → (List ℕ → Scan) → Scan
unfolding found
and_then (stopped [] rest) next = next rest
and_then (stopped (m ∷ ms) rest) next = found m (and_then (stopped ms rest) next)
and_then (overrun msgs) next = overrun msgs
and_then unfinished next = unfinished

-- The calls of one stream, chunk after chunk.
unfoldable pub receive : List ℕ → List (List ℕ) → Scan
unfolding subscribe_data_callback and_then
receive buffer [] = stopped [] buffer
receive buffer (chunk ∷ chunks) =
    and_then (subscribe_data_callback buffer chunk) (λ rest. receive rest chunks)
