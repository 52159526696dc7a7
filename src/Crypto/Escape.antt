-- ===== src/Crypto/Escape.antt =====
-- The JSON texts of the provisioning request
-- (perceptive-layer/mqtt_protobuff/governance_core/src/CryptoManager.cpp, escapeJSONString) against a
-- reader of JSON strings.
use governance_iot_platform.Prelude.{
  ℕ, ◌≤◌, ◌≢◌, Bool, true, false, ◌||◌, if◌then◌else◌, ◌==◌, ltb, Option, none, some, List, [], ◌∷◌,
  ◌++◌, ◌≡◌, refl, ap, ◌∙◌, ◌⊎◌, inl, inr, All, arith, Bool-cases, ==_iff,
}
use mathlib.Core.List.{append_assoc}
use governance_iot_platform.Crypto.Provisioning.{escape_char, escape_json_string}

-- the characters that the escapes of one letter stand for
abbrev unescaped : ℕ → Option ℕ
unescaped c =
    if c == b'n'
    then some 10
    else if c == b'r'
    then some 13
    else if c == b'"' || c == b'\\' || c == b'/'
    then some c
    else none

abbrev with_char : ℕ → Option (List ℕ × List ℕ) → Option (List ℕ × List ℕ)
with_char c none = none
with_char c (some (text, rest)) = some (c ∷ text, rest)

-- A reader of the rest of a JSON string, up to its quotation mark: the text, and what follows. The
-- flag says that a backslash was read. Control characters must be escaped; of the escapes, those of
-- one letter that a certificate request can need are read.
unfoldable pub read_string : Bool → List ℕ → Option (List ℕ × List ℕ)
read_string escape [] = none
read_string true (c ∷ cs) =
    let rest = read_string false cs in
    elim (unescaped c) [ none ↦ none | some d ↦ with_char d rest ]
read_string false (c ∷ cs) =
    let escaped = read_string true cs in
    let rest = read_string false cs in
    if c == b'"'
    then some ([], cs)
    else if c == b'\\'
    then escaped
    else if ltb c 32
    then none
    else with_char c rest

-- printable characters but the backslash, and the two line ends
abbrev pub IsPlain : ℕ → Type 0
IsPlain c = ((c ≡ 10) ⊎ (c ≡ 13)) ⊎ ((32 ≤ c) × (c ≢ b'\\'))

read_string-escape_char :
    (c : ℕ) (rest : List ℕ)
    → IsPlain c
    → read_string false (escape_char c ++ rest) ≡ with_char c (read_string false rest)
unfolding read_string escape_char
read_string-escape_char c rest (inl (inl e)) = rw e refl
read_string-escape_char c rest (inl (inr e)) = rw e refl
read_string-escape_char c rest (inr (h, k)) = elim (Bool-cases (c == b'"')) [
  | inl quote ↦ let e : c ≡ b'"' = (==_iff c b'"').0 quote in rw e refl
  | inr other ↦
      let not_line : (c == 10) ≡ false = ground arith in
      let not_return : (c == 13) ≡ false = ground arith in
      let not_slash : (c == b'\\') ≡ false = ground arith in
      let printable : ltb c 32 ≡ false = ground arith in
      rw (not_line, not_return, other) (rw (not_slash, other, printable) refl)
]

-- A JSON reader gets back the text that was escaped, and stops at the quotation mark behind it: for
-- every text of printable characters and line ends in which there is no backslash.
pub read_string-escape :
    (text rest : List ℕ)
    → All IsPlain text
    → read_string false (escape_json_string text ++ b'"' ∷ rest) ≡ some (text, rest)
unfolding escape_json_string
read_string-escape [] rest h = unfold read_string in refl
read_string-escape (c ∷ cs) rest h =
    ap (read_string false) (append_assoc (escape_char c) (escape_json_string cs) (b'"' ∷ rest))
    ∙ read_string-escape_char c (escape_json_string cs ++ b'"' ∷ rest) h.0
    ∙ ap (with_char c) (read_string-escape cs rest h.1)
