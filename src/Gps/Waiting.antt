-- ===== src/Gps/Waiting.antt =====
-- The wait for a fix
-- (perceptive-layer/mqtt_protobuff/FIRM_OPERATIONAL_MQTT_PROTOBUFF/main/src/GpsManager.cpp,
-- GpsManager::waitForFix): when it ends, and which sentence it answers with.
use governance_iot_platform.Prelude.{
  ℕ, zero, suc, ◌+◌, ◌*◌, ◌≤◌, ◌<◌, true, not, ◌&&◌, Option, some, none, List, [], ◌∷◌, ◌++◌,
  flatten, if◌then◌else◌, ltb, ◌≡◌, refl, sym, ap, ◌∙◌, ◌⊎◌, inl, inr, Bool-cases, arith,
}
use mathlib.Core.List.{foldl, foldl-append}
use governance_iot_platform.Gps.{
  SentenceId, rmc, gga, other, Rmc, Gga, Minmea, Reader, read_bytes, Fix, is_recent, fix_rmc,
  fix_gga, has_rmc, fix_sentence, fix_line, wait_loop, no_fix, wait_for_fix,
}
use governance_iot_platform.Gps.Lines.{lines, reads-lines}

-- the first `k` reads
unfoldable pub first_reads : (ℕ → List ℕ) → ℕ → List (List ℕ)
first_reads reads zero = []
first_reads reads (suc k) = first_reads reads k ++ reads k ∷ []

module _ (m : Minmea) where
  open m use {Number, Time, sentence_id, parse_rmc, parse_gga}

  -- a valid RMC sentence whose two-digit year is 20 or more
  unfoldable pub recent : Option (Rmc Number Time) → Option (Rmc Number Time)
  recent none = none
  recent (some f) = if is_recent m f then some f else none

  unfoldable pub dated : SentenceId → List ℕ → Option (Rmc Number Time)
  dated rmc line = recent (parse_rmc line)
  dated gga line = none
  dated other line = none

  unfoldable pub or_else :
      Option (Rmc Number Time) → Option (Rmc Number Time) → Option (Rmc Number Time)
  or_else none b = b
  or_else (some f) b = some f

  -- the first such sentence of the lines
  unfoldable pub first_dated : List (List ℕ) → Option (Rmc Number Time)
  first_dated [] = none
  first_dated (l ∷ ls) = or_else (dated (sentence_id l) l) (first_dated ls)

  or_else-none : (a : Option (Rmc Number Time)) → or_else a none ≡ a
  unfolding or_else
  or_else-none none = refl
  or_else-none (some f) = refl

  or_else_assoc :
      (a b c : Option (Rmc Number Time)) → or_else (or_else a b) c ≡ or_else a (or_else b c)
  unfolding or_else
  or_else_assoc none b c = refl
  or_else_assoc (some f) b c = refl

  fix_rmc-recent :
      (o : Option (Rmc Number Time)) (x : Fix m)
      → x.from_rmc ≡ none
      → (fix_rmc m o x).from_rmc ≡ recent o
  unfolding fix_rmc recent
  fix_rmc-recent none x e = e
  fix_rmc-recent (some f) x e = ground arith

  fix_gga_rmc : (o : Option (Gga Number)) (x : Fix m) → (fix_gga m o x).from_rmc ≡ x.from_rmc
  unfolding fix_gga
  fix_gga_rmc none x = refl
  fix_gga_rmc (some f) x = ground arith

  -- A sentence changes the fix only where there was none.
  fix_sentence-dated :
      (i : SentenceId) (line : List ℕ) (a : Option (Rmc Number Time)) (h : Option Number)
      → (fix_sentence m i line (record { from_rmc = a; fix_altitude = h })).from_rmc
        ≡ or_else a (dated i line)
  unfolding fix_sentence dated or_else has_rmc
  fix_sentence-dated rmc line none h =
      fix_rmc-recent (parse_rmc line) (record { from_rmc = none; fix_altitude = h }) refl
  fix_sentence-dated rmc line (some f) h = refl
  fix_sentence-dated gga line none h =
      fix_gga_rmc (parse_gga line) (record { from_rmc = none; fix_altitude = h })
  fix_sentence-dated gga line (some f) h =
      fix_gga_rmc (parse_gga line) (record { from_rmc = some f; fix_altitude = h })
  fix_sentence-dated other line a h = sym (or_else-none a)

  foldl-fix_line :
      (x : Fix m) (ls : List (List ℕ))
      → (foldl (fix_line m) x ls).from_rmc ≡ or_else x.from_rmc (first_dated ls)
  unfolding fix_line first_dated
  foldl-fix_line x [] = sym (or_else-none x.from_rmc)
  foldl-fix_line x (l ∷ ls) =
      foldl-fix_line (fix_sentence m (sentence_id l) l x) ls
      ∙ ap (λ a. or_else a (first_dated ls))
          (fix_sentence-dated (sentence_id l) l x.from_rmc x.fix_altitude)
      ∙ or_else_assoc x.from_rmc (dated (sentence_id l) l) (first_dated ls)

  -- the reader behind the first `k` reads
  abbrev behind : (ℕ → List ℕ) → ℕ → Reader (Fix m)
  behind reads k = foldl (read_bytes (fix_line m)) (no_fix m) (first_reads reads k)

  behind_next :
      (reads : ℕ → List ℕ) (k : ℕ)
      → read_bytes (fix_line m) (behind reads k) (reads k) ≡ behind reads (suc k)
  unfolding first_reads
  behind_next reads k =
      sym (foldl-append (read_bytes (fix_line m)) (no_fix m) (first_reads reads k) (reads k ∷ []))

  behind-rmc :
      (reads : ℕ → List ℕ) (k : ℕ)
      → (behind reads k).result.from_rmc ≡ first_dated (lines (flatten (first_reads reads k)))
  unfolding or_else
  behind-rmc reads k =
      ap (λ r. r.result.from_rmc)
        (reads-lines (fix_line m) (record { from_rmc = none; fix_altitude = none })
          (first_reads reads k))
      ∙ foldl-fix_line (record { from_rmc = none; fix_altitude = none })
          (lines (flatten (first_reads reads k)))

  -- How a wait ends: after how many reads, with what.
  pub record Waited (reads : ℕ → List ℕ) (timeout : ℕ) (o : Option (ℕ × Reader (Fix m)))
      : Type 0 where
    pub count : ℕ
    pub reader : Reader (Fix m)
    pub answer : o ≡ some (count, reader)
    pub first : reader.result.from_rmc ≡ first_dated (lines (flatten (first_reads reads count)))
    pub in_time : 100 * count < timeout + 100
    pub ending : (has_rmc m reader.result.from_rmc ≡ true) ⊎ (timeout ≤ 100 * count)

  wait_loop-Waited :
      (n : ℕ) (reads : ℕ → List ℕ) (timeout k elapsed : ℕ) (r : Reader (Fix m))
      → r ≡ behind reads k
      → elapsed ≡ 100 * k
      → elapsed < timeout + 100
      → timeout + 100 ≤ elapsed + 100 * n
      → Waited reads timeout (wait_loop m n reads timeout k elapsed r)
  unfolding wait_loop
  wait_loop-Waited zero reads timeout k elapsed r same e lt enough = absurd (omega arith)
  wait_loop-Waited (suc n) reads timeout k elapsed r same e lt enough =
      elim (Bool-cases (ltb elapsed timeout && not (has_rmc m r.result.from_rmc))) [
        | inl go ↦ rw go (
            wait_loop-Waited n reads timeout (suc k) (elapsed + 100)
              (read_bytes (fix_line m) r (reads k))
              (ap (λ s. read_bytes (fix_line m) s (reads k)) same ∙ behind_next reads k)
              (omega arith) (ground arith) (omega arith))
        | inr end ↦ rw end (record {
          count = k;
          reader = r;
          answer = refl;
          first = ap (λ s. s.result.from_rmc) same ∙ behind-rmc reads k;
          in_time = omega arith;
          ending = elim (Bool-cases (has_rmc m r.result.from_rmc)) [
            | inl found ↦ inl found
            | inr lost ↦ inr (ground arith)
          ];
        })
      ]

  -- With fuel for one read more than the timeout has tenths of a second, the wait ends, after fewer
  -- than one read more than fit into the timeout. It answers with the first valid RMC sentence
  -- whose two-digit year is 20 or more in the bytes that it read, and ends without one only when the
  -- timeout has passed.
  pub wait_for_fix-Waited :
      (fuel : ℕ) (reads : ℕ → List ℕ) (timeout : ℕ)
      → timeout + 100 ≤ 100 * fuel
      → Waited reads timeout (wait_for_fix m fuel reads timeout)
  unfolding wait_for_fix first_reads
  wait_for_fix-Waited fuel reads timeout enough =
      wait_loop-Waited fuel reads timeout 0 0 (no_fix m) refl (omega arith) (omega arith)
        (omega arith)
