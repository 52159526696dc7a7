-- ===== src/Grpc/Stream.antt =====
-- The stream of commands of the gRPC firmware
-- (perceptive-layer/grpc/grpc_only/main/src/GrpcManager.cpp): subscribe_data_callback against the
-- messages that a sender framed.
use governance_iot_platform.Prelude.{
  ℕ, zero, suc, ◌+◌, ◌^◌, ◌≤◌, ◌<◌, List, [], ◌∷◌, ◌++◌, length, flatten, map, ◌≡◌, refl, sym, ap,
  subst, arith, length-append, append_split, inl, inr, ◌∙◌, All, All-append, Bool-cases, ltb,
}
use mathlib.Core.List.{append_assoc}
use governance_iot_platform.Grpc.{
  grpc_frame, Scan, stopped, found, scan, scanned, subscribe_data_callback, and_then, receive,
  buffer_size,
}
use governance_iot_platform.Grpc.Frames.{
  scan-grpc_frame, scan_partial, scan_nothing, found_stopped, joined_fits, length-grpc_frame,
}

-- what a sender of these messages writes
abbrev pub frames : List (List ℕ) → List ℕ
frames ms = flatten (map grpc_frame ms)

-- Bytes that stop before the first of these messages is whole.
abbrev pub Pending : List ℕ → List (List ℕ) → Type 0
Pending bytes [] = bytes ≡ []
Pending bytes (m ∷ ms) = length bytes < length m + 5

abbrev pub Fits : ℕ → List ℕ → Type 0
Fits n bytes = length bytes ≤ n

-- A point in a stream of frames: the messages before it, those after it, and the bytes of the
-- frame that it cuts.
record Cut (front back : List ℕ) (ms : List (List ℕ)) : Type 0 where
  before : List (List ℕ)
  after : List (List ℕ)
  partial : List ℕ
  messages : ms ≡ before ++ after
  front_is : front ≡ frames before ++ partial
  back_is : partial ++ back ≡ frames after
  pending : Pending partial after

cut : (front back : List ℕ) (ms : List (List ℕ)) → front ++ back ≡ frames ms → Cut front back ms
cut front back [] e = record {
  before = [];
  after = [];
  partial = front;
  messages = refl;
  front_is = refl;
  back_is = e;
  pending = nothing front e;
}
  where
    nothing : (xs : List ℕ) → xs ++ back ≡ [] → xs ≡ []
    nothing [] h = refl
    nothing (x ∷ xs) h = cc
cut front back (m ∷ ms) e = elim (Bool-cases (ltb (length front) (length m + 5))) [
  | inl short ↦ record {
    before = [];
    after = m ∷ ms;
    partial = front;
    messages = refl;
    front_is = refl;
    back_is = e;
    pending = ground arith;
  }
  | inr long ↦
      let (rest, head, tail) =
        append_split front back (grpc_frame m) (frames ms) e
          (ground (arith, length-grpc_frame m)) in
      behind rest head (cut rest back ms (sym tail))
]
  where
    behind :
        (rest : List ℕ) → front ≡ grpc_frame m ++ rest → Cut rest back ms → Cut front back (m ∷ ms)
    behind rest head c = record {
      before = m ∷ c.before;
      after = c.after;
      partial = c.partial;
      messages = ap (λ t. m ∷ t) c.messages;
      front_is =
          head
          ∙ ap (λ t. grpc_frame m ++ t) c.front_is
          ∙ sym (append_assoc (grpc_frame m) (frames c.before) c.partial);
      back_is = c.back_is;
      pending = c.pending;
    }

-- A scan finds the whole frames, and stops at the one behind them that is not whole.
scan-Pending :
    (n pos : ℕ) (after : List (List ℕ)) (partial back : List ℕ)
    → partial ++ back ≡ frames after
    → Pending partial after
    → pos < 2 ^ 31
    → All (Fits 1024) after
    → scan (suc n) pos partial ≡ stopped [] partial
scan-Pending n pos [] partial back e p h a =
    ap (λ t. scan (suc n) pos t) p ∙ scan_nothing n pos ∙ ap (λ t. stopped [] t) (sym p)
scan-Pending n pos (m ∷ ms) partial back e p h a =
    let (rest, whole, tail) =
      append_split (grpc_frame m) (frames ms) partial back (sym e)
        (omega (arith, length-grpc_frame m)) in
    scan_partial n pos m partial rest (sym whole) (omega (arith, length-grpc_frame m)) (omega arith)

scan-frames :
    (n pos : ℕ) (ms after : List (List ℕ)) (partial back : List ℕ)
    → partial ++ back ≡ frames after
    → Pending partial after
    → length ms < n
    → pos + length (frames ms) < 2 ^ 31
    → All (Fits 1024) (ms ++ after)
    → scan n pos (frames ms ++ partial) ≡ stopped ms partial
scan-frames zero pos ms after partial back e p f h a = absurd (omega arith)
scan-frames (suc n) pos [] after partial back e p f h a =
    scan-Pending n pos after partial back e p (omega arith) a
scan-frames (suc n) pos (m ∷ ms) after partial back e p f h a =
    let size = length-append (grpc_frame m) (frames ms) in
    ap (scan (suc n) pos) (append_assoc (grpc_frame m) (frames ms) partial)
    ∙ scan-grpc_frame n pos m (frames ms ++ partial) (omega (arith, a.0))
    ∙ ap (found m) (
        scan-frames n (pos + 5 + length m) ms after partial back e p (omega arith)
          (omega (arith, size, length-grpc_frame m)) a.1)
    ∙ found_stopped m ms partial

length-frames : (ms : List (List ℕ)) → length ms ≤ length (frames ms)
length-frames [] = omega arith
length-frames (m ∷ ms) =
    omega (arith, length-append (grpc_frame m) (frames ms), length-grpc_frame m, length-frames ms)

All-weaken : (k n : ℕ) (ms : List (List ℕ)) → k ≤ n → All (Fits k) ms → All (Fits n) ms
All-weaken k n [] h a = a
All-weaken k n (m ∷ ms) h a = (omega (arith, a.0), All-weaken k n ms h a.1)

Pending-length :
    (k : ℕ) (bytes : List ℕ) (ms : List (List ℕ))
    → Pending bytes ms
    → All (Fits k) ms
    → length bytes ≤ k + 4
Pending-length k bytes [] p a = omega (arith, ap length p)
Pending-length k bytes (m ∷ ms) p a = omega (arith, a.0)

-- One call of the callback, at a point of the stream.
callback-cut :
    (buffer chunk back : List ℕ) (ms : List (List ℕ)) (c : Cut (buffer ++ chunk) back ms)
    → length buffer + length chunk ≤ 1024
    → All (Fits 1024) ms
    → subscribe_data_callback buffer chunk ≡ stopped c.before c.partial
unfolding subscribe_data_callback
callback-cut buffer chunk back ms c h a =
    ap (λ o. scanned o) (joined_fits buffer chunk h)
    ∙ ap (scan (suc (length (buffer ++ chunk))) 0) c.front_is
    ∙ scan-frames (suc (length (buffer ++ chunk))) 0 c.before c.after c.partial back c.back_is
        c.pending (omega (arith, size, length-frames c.before))
        (omega (arith, size, length-append buffer chunk)) (subst (All (Fits 1024)) c.messages a)
  where
    size : length (buffer ++ chunk) ≡ length (frames c.before) + length c.partial
    size = ap length c.front_is ∙ length-append (frames c.before) c.partial

and_then_stopped :
    (ms ms' : List (List ℕ)) (rest rest' : List ℕ) (next : List ℕ → Scan)
    → next rest ≡ stopped ms' rest'
    → and_then (stopped ms rest) next ≡ stopped (ms ++ ms') rest'
unfolding and_then
and_then_stopped [] ms' rest rest' next e = e
and_then_stopped (m ∷ ms) ms' rest rest' next e =
    ap (found m) (and_then_stopped ms ms' rest rest' next e) ∙ found_stopped m (ms ++ ms') rest'

-- Whatever the chunks in which the bytes of a sequence of frames arrive, the callback finds exactly
-- the sent messages in their order and ends with an empty buffer, if a chunk and the largest message
-- with four bytes of its header fit into the buffer together.
pub receive-frames :
    (k c : ℕ) (buffer : List ℕ) (chunks ms : List (List ℕ))
    → k + 4 + c ≤ buffer_size
    → All (Fits k) ms
    → All (Fits c) chunks
    → Pending buffer ms
    → buffer ++ flatten chunks ≡ frames ms
    → receive buffer chunks ≡ stopped ms []
unfolding receive
receive-frames k c buffer [] [] h fits small p e = ap (λ t. stopped [] t) p
receive-frames k c buffer [] (m ∷ ms) h fits small p e = absurd (
    omega (
      arith,
      ap length e,
      length-append buffer (flatten []),
      length-append (grpc_frame m) (frames ms),
      length-grpc_frame m,
    ))
receive-frames k c buffer (d ∷ chunks) ms h fits small p e =
    let t = cut (buffer ++ d) (flatten chunks) ms (append_assoc buffer d (flatten chunks) ∙ e) in
    let both = All-append (Fits k) t.before t.after (subst (All (Fits k)) t.messages fits) in
    ap (λ s. and_then s (λ rest. receive rest chunks))
      (callback-cut buffer d (flatten chunks) ms t
        (omega (arith, small.0, Pending-length k buffer ms p fits))
        (All-weaken k 1024 ms (omega arith) fits))
    ∙ and_then_stopped t.before t.after t.partial [] (λ rest. receive rest chunks)
        (receive-frames k c t.partial chunks t.after h both.1 small.1 t.pending t.back_is)
    ∙ ap (λ l. stopped l []) (sym t.messages)
