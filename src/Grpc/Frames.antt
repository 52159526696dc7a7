-- ===== src/Grpc/Frames.antt =====
-- Frames of the gRPC firmware (perceptive-layer/grpc/grpc_only/main/src/GrpcManager.cpp): what the
-- loop over the buffer makes of the frames that grpc_frame writes.
use governance_iot_platform.Prelude.{
  ℕ, suc, ◌+◌, ◌/◌, ◌%◌, ◌^◌, ◌≤◌, ◌<◌, List, [], ◌∷◌, ◌++◌, some, none, length, ◌≡◌, refl, ap,
  arith, length-append, take-append_length, drop-append_length, ◌⊎◌, inl, inr, ◌∙◌,
}
use governance_iot_platform.Grpc.{
  read_length, grpc_frame, header, scan_round, is_incomplete, Scan, stopped, found, scan, joined,
}

-- The four bytes hold every length of 32 bits.
pub read_length-write :
    (n : ℕ)
    → n < 2 ^ 32
    → read_length (n / 2 ^ 24 % 256) (n / 2 ^ 16 % 256) (n / 2 ^ 8 % 256) (n % 256) ≡ n
unfolding read_length
read_length-write n h = omega arith

pub header-grpc_frame :
    (m rest : List ℕ)
    → length m < 2 ^ 32
    → header (grpc_frame m ++ rest) ≡ some (length m, m ++ rest)
unfolding header grpc_frame
header-grpc_frame m rest h = ap (λ n. some (n, m ++ rest)) (read_length-write (length m) h)

pub length-grpc_frame : (m : List ℕ) → length (grpc_frame m) ≡ length m + 5
unfolding grpc_frame
length-grpc_frame m = omega arith

scan_round_whole :
    (pos : ℕ) (bytes m rest : List ℕ) (next : ℕ → List ℕ → Scan)
    → pos + 5 + length m < 2 ^ 32
    → scan_round pos bytes (some (length m, m ++ rest)) next
      ≡ found m (next (pos + 5 + length m) rest)
unfolding scan_round is_incomplete
scan_round_whole pos bytes m rest next h =
    simp (drop-append_length, take-append_length) (ground (arith, length-append m rest))

-- A whole frame is found, and the loop goes on behind it.
pub scan-grpc_frame :
    (n pos : ℕ) (m rest : List ℕ)
    → pos + 5 + length m < 2 ^ 32
    → scan (suc n) pos (grpc_frame m ++ rest) ≡ found m (scan n (pos + 5 + length m) rest)
unfolding scan
scan-grpc_frame n pos m rest h =
    ap (λ o. scan_round pos (grpc_frame m ++ rest) o (scan n))
      (header-grpc_frame m rest (omega arith))
    ∙ scan_round_whole pos (grpc_frame m ++ rest) m rest (scan n) h

-- The front of a frame shows no length yet, or the length with fewer bytes than it says.
header_front :
    (m front back : List ℕ)
    → front ++ back ≡ grpc_frame m
    → length front < length (grpc_frame m)
    → length m < 2 ^ 32
    → (header front ≡ none)
      ⊎ ((body : List ℕ) × (header front ≡ some (length m, body))
          × (length front ≡ length body + 5))
unfolding header grpc_frame
header_front m [] back e l h = inl refl
header_front m (a ∷ []) back e l h = inl refl
header_front m (a ∷ b ∷ []) back e l h = inl refl
header_front m (a ∷ b ∷ c ∷ []) back e l h = inl refl
header_front m (a ∷ b ∷ c ∷ d ∷ []) back e l h = inl refl
header_front m (a ∷ b ∷ c ∷ d ∷ f ∷ body) back e l h =
    inr (body, cc (read_length-write (length m) h), omega arith)

shut_round :
    (pos : ℕ) (bytes : List ℕ) (next : ℕ → List ℕ → Scan)
    → scan_round pos bytes none next ≡ stopped [] bytes
unfolding scan_round
shut_round pos bytes next = refl

scan_round_partial :
    (pos : ℕ) (bytes m body : List ℕ) (next : ℕ → List ℕ → Scan)
    → pos + 5 + length m < 2 ^ 32
    → length body < length m
    → scan_round pos bytes (some (length m, body)) next ≡ stopped [] bytes
unfolding scan_round is_incomplete
scan_round_partial pos bytes m body next h l = ground arith

-- The front of a frame that is not whole is left for the next call.
pub scan_partial :
    (n pos : ℕ) (m front back : List ℕ)
    → front ++ back ≡ grpc_frame m
    → length front < length (grpc_frame m)
    → pos + 5 + length m < 2 ^ 32
    → scan (suc n) pos front ≡ stopped [] front
unfolding scan
scan_partial n pos m front back e l h = elim (header_front m front back e l (omega arith)) [
  | inl short ↦ ap (λ o. scan_round pos front o (scan n)) short ∙ shut_round pos front (scan n)
  | inr (body, long, size) ↦
      ap (λ o. scan_round pos front o (scan n)) long
      ∙ scan_round_partial pos front m body (scan n) h (omega (arith, length-grpc_frame m))
]

pub scan_nothing : (n pos : ℕ) → scan (suc n) pos [] ≡ stopped [] []
unfolding scan header scan_round
scan_nothing n pos = refl

pub found_stopped :
    (m : List ℕ) (ms : List (List ℕ)) (rest : List ℕ)
    → found m (stopped ms rest) ≡ stopped (m ∷ ms) rest
unfolding found
found_stopped m ms rest = refl

pub joined_fits :
    (buffer chunk : List ℕ)
    → length buffer + length chunk ≤ 1024
    → joined buffer chunk ≡ some (buffer ++ chunk)
unfolding joined
joined_fits buffer chunk h = ground arith
