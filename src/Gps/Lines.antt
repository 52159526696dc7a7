-- ===== src/Gps/Lines.antt =====
-- The lines of the GPS reader against a splitting of the whole stream
-- (perceptive-layer/mqtt_protobuff/FIRM_OPERATIONAL_MQTT_PROTOBUFF/main/src/GpsManager.cpp).
use governance_iot_platform.Prelude.{
  ℕ, ◌-◌, List, [], ◌∷◌, ◌++◌, map, flatten, if◌then◌else◌, take, take-snoc, ◌≡◌, refl, sym, ap,
  ◌∙◌, inl, inr, Bool-cases,
}
use mathlib.Core.List.{foldl, append_assoc, append-nil, foldl-append}
use governance_iot_platform.Prelude.Text.{text_in}
use governance_iot_platform.Gps.{
  is_line_end, append_char, Reader, read_char, read_bytes, line_size, Minmea, Position, on_line,
  run,
}

-- A stream cut at its line ends: the bytes before the first one, and the pieces behind each.
pub record Pieces : Type 0 where
  pub first : List ℕ
  pub more : List (List ℕ)

abbrev pub split : ℕ → Pieces → Pieces
split c p =
    if is_line_end c
    then record { first = []; more = p.first ∷ p.more }
    else record p { first = c ∷ p.first }

unfoldable pub pieces : List ℕ → Pieces
pieces [] = record { first = []; more = [] }
pieces (c ∷ cs) = split c (pieces cs)

-- All pieces but the last one are lines; the last one still waits for its end.
unfoldable pub whole_lines : List ℕ → List (List ℕ) → List (List ℕ)
whole_lines first [] = []
whole_lines first (m ∷ ms) = first ∷ whole_lines m ms

unfoldable pub rest_line : List ℕ → List (List ℕ) → List ℕ
rest_line first [] = first
rest_line first (m ∷ ms) = rest_line m ms

-- what line_buf holds of a line, as minmea reads it
unfoldable pub line_text : List ℕ → List ℕ
line_text line = text_in (take (line_size - 1) line)

-- the lines of a stream, each as minmea reads it
unfoldable pub lines : List ℕ → List (List ℕ)
lines stream = map line_text (whole_lines (pieces stream).first (pieces stream).more)

module _ {S : Type 0} (apply : S → List ℕ → S) where
  -- the reader behind these pieces, the first of which continues `raw`
  abbrev behind : S → List ℕ → Pieces → Reader S
  behind s raw p = record {
    line = take (line_size - 1) (rest_line (raw ++ p.first) p.more);
    result = foldl apply s (map line_text (whole_lines (raw ++ p.first) p.more));
  }

  foldl-read_char :
      (s : S) (raw bytes : List ℕ)
      → foldl (read_char apply) (record { line = take (line_size - 1) raw; result = s }) bytes
        ≡ behind s raw (pieces bytes)
  unfolding pieces whole_lines rest_line read_char line_text
  foldl-read_char s raw [] =
      ap (λ l. let r : Reader S = record { line = take (line_size - 1) l; result = s } in r)
        (sym (append-nil raw))
  foldl-read_char s raw (c ∷ cs) = elim (Bool-cases (is_line_end c)) [
    | inl e ↦
        simp e (
          foldl-read_char (apply s (line_text raw)) [] cs
          ∙ ap (λ l. ended l) (sym (append-nil raw)))
    | inr e ↦
        simp (e, append_char)
          (ap
              (λ l.
                foldl (read_char apply) (let r : Reader S = record { line = l; result = s } in r)
                  cs)
              (sym (take-snoc (line_size - 1) raw c))
            ∙ foldl-read_char s (raw ++ c ∷ []) cs
            ∙ ap (λ l. longer l) (append_assoc raw (c ∷ []) (pieces cs).first))
  ]
    where
      ended : List ℕ → Reader S
      ended l = behind (apply s (line_text l)) [] (pieces cs)

      longer : List ℕ → Reader S
      longer l = record {
        line = take (line_size - 1) (rest_line l (pieces cs).more);
        result = foldl apply s (map line_text (whole_lines l (pieces cs).more));
      }

  -- The reads of a stream, in whatever portions the driver hands them over.
  pub reads-stream :
      (r : Reader S) (reads : List (List ℕ))
      → foldl (read_bytes apply) r reads ≡ foldl (read_char apply) r (flatten reads)
  unfolding read_bytes
  reads-stream r [] = refl
  reads-stream r (bytes ∷ reads) =
      reads-stream (foldl (read_char apply) r bytes) reads
      ∙ sym (foldl-append (read_char apply) r bytes (flatten reads))

  pub reads-lines :
      (s : S) (reads : List (List ℕ))
      → foldl (read_bytes apply) (record { line = []; result = s }) reads ≡ record {
        line =
            take
              (line_size - 1)
              (rest_line (pieces (flatten reads)).first (pieces (flatten reads)).more);
        result = foldl apply s (lines (flatten reads));
      }
  unfolding lines
  reads-lines s reads =
      reads-stream (record { line = []; result = s }) reads ∙ foldl-read_char s [] (flatten reads)

module _ (m : Minmea) where
  -- However the bytes of the UART are divided among the reads, the task applies exactly the lines of
  -- the stream that have ended, in their order and each cut to 79 bytes, to the position, and keeps
  -- the first 79 bytes of the line that has not ended.
  pub run-lines :
      (p : Position m) (reads : List (List ℕ))
      → run m (record { line = []; result = p }) reads ≡ record {
        line = take 79 (rest_line (pieces (flatten reads)).first (pieces (flatten reads)).more);
        result = foldl (on_line m) p (lines (flatten reads));
      }
  unfolding run
  run-lines p reads = reads-lines (on_line m) p reads
