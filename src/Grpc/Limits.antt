-- ===== src/Grpc/Limits.antt =====
-- subscribe_data_callback on bytes of any kind
-- (perceptive-layer/grpc/grpc_only/main/src/GrpcManager.cpp): how its loop goes on and what it keeps,
-- and the lengths that it takes although they reach past the buffer.
use governance_iot_platform.Prelude.{
  ℕ, zero, suc, ◌+◌, ◌^◌, ◌≤◌, ◌<◌, List, [], ◌∷◌, Option, some, none, length, drop, take, ◌≡◌,
  refl, ap, arith, length-append, length-drop, inl, inr, ◌∙◌, Bool-cases, ltb,
}
use governance_iot_platform.Grpc.{
  header, Scan, stopped, overrun, unfinished, found, scan, scan_round, is_incomplete, joined,
  scanned, subscribe_data_callback, buffer_size,
}
use governance_iot_platform.Grpc.Frames.{joined_fits}

-- The loop has stopped with a rest that fits into the buffer, or it ran over the end of the buffer.
abbrev pub Ends : Scan → Type 0
Ends (stopped msgs rest) = length rest ≤ buffer_size
Ends (overrun msgs) = Unit
Ends unfinished = ⊥

length-header :
    (bytes body : List ℕ) (len : ℕ)
    → header bytes ≡ some (len, body)
    → length bytes ≡ length body + 5
unfolding header
length-header [] body len e = cc
length-header (a ∷ []) body len e = cc
length-header (a ∷ b ∷ []) body len e = cc
length-header (a ∷ b ∷ c ∷ []) body len e = cc
length-header (a ∷ b ∷ c ∷ d ∷ []) body len e = cc
length-header (a ∷ b ∷ c ∷ d ∷ f ∷ rest) body len e = ground arith

found-Ends : (m : List ℕ) (s : Scan) → Ends s → Ends (found m s)
unfolding found
found-Ends m (stopped msgs rest) h = h
found-Ends m (overrun msgs) h = h
found-Ends m unfinished h = h

scan_round-Ends :
    (pos : ℕ) (bytes : List ℕ) (o : Option (ℕ × List ℕ)) (next : ℕ → List ℕ → Scan)
    → length bytes ≤ buffer_size
    → ((len : ℕ) (body : List ℕ)
        → o ≡ some (len, body)
        → Ends (next (pos + 5 + len) (drop len body)))
    → Ends (scan_round pos bytes o next)
unfolding scan_round
scan_round-Ends pos bytes none next h more = h
scan_round-Ends pos bytes (some (len, body)) next h more =
    elim (Bool-cases (is_incomplete pos len body)) [
      | inl e ↦ rw e h
      | inr e ↦ elim (Bool-cases (ltb (length body) len)) [
        | inl past ↦ rw (e, past) tt
        | inr inside ↦
            rw (e, inside)
              (found-Ends (take len body) (next (pos + 5 + len) (drop len body))
                (more len body refl))
      ]
    ]

scan-Ends :
    (n pos : ℕ) (bytes : List ℕ)
    → length bytes < n
    → length bytes ≤ buffer_size
    → Ends (scan n pos bytes)
unfolding scan
scan-Ends zero pos bytes f h = absurd (omega arith)
scan-Ends (suc n) pos bytes f h = scan_round-Ends pos bytes (header bytes) (scan n) h (λ len body e.
    let size = length-header bytes body len e in
    let left = length-drop len body in
    scan-Ends n (pos + 5 + len) (drop len body) (omega arith) (omega arith))

scanned-Ends :
    (o : Option (List ℕ))
    → ((bytes : List ℕ) → o ≡ some bytes → length bytes ≤ buffer_size)
    → Ends (scanned o)
unfolding scanned
scanned-Ends none h = tt
scanned-Ends (some bytes) h = scan-Ends (suc (length bytes)) 0 bytes (omega arith) (h bytes refl)

joined-length :
    (buffer chunk bytes : List ℕ) → joined buffer chunk ≡ some bytes → length bytes ≤ buffer_size
unfolding joined
joined-length buffer chunk bytes e = ground (arith, length-append buffer chunk)

-- For any bytes in the buffer and any chunk, within as many rounds as there are bytes, the loop of the
-- callback stops with a rest that fits into the buffer, or it has run over the end of the buffer.
pub callback-Ends : (buffer chunk : List ℕ) → Ends (subscribe_data_callback buffer chunk)
unfolding subscribe_data_callback
callback-Ends buffer chunk = scanned-Ends (joined buffer chunk) (joined-length buffer chunk)

scan_round_wraps :
    (bytes body : List ℕ) (len : ℕ) (next : ℕ → List ℕ → Scan)
    → length bytes ≡ length body + 5
    → length bytes ≤ buffer_size
    → 2 ^ 32 ≤ len + 5
    → len < 2 ^ 32
    → scan_round 0 bytes (some (len, body)) next ≡ overrun []
unfolding scan_round is_incomplete
scan_round_wraps bytes body len next size h l u = ground arith

-- A first length within five of 2 ^ 32 passes the test for an incomplete message, because its sum
-- wraps around: the message is then taken from past the end of the buffer.
pub length_wraps :
    (chunk body : List ℕ) (len : ℕ)
    → length chunk ≤ buffer_size
    → header chunk ≡ some (len, body)
    → 2 ^ 32 ≤ len + 5
    → len < 2 ^ 32
    → subscribe_data_callback [] chunk ≡ overrun []
unfolding subscribe_data_callback scanned scan
length_wraps chunk body len h e l u =
    ap scanned (joined_fits [] chunk (omega arith))
    ∙ ap (λ o. scan_round 0 chunk o (scan (length chunk))) e
    ∙ scan_round_wraps chunk body len (scan (length chunk)) (length-header chunk body len e) h l u
