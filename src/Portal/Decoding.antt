-- ===== src/Portal/Decoding.antt =====
-- url_decode of the captive portal against the encoding of forms
-- (perceptive-layer/mqtt_protobuff/FIRM_PROVISIONING_MQTT_PROTOBUFF/main/src/CaptivePortal.cpp).
use governance_iot_platform.Prelude.{
  ℕ, zero, suc, ◌+◌, ◌-◌, ◌*◌, ◌≤◌, ◌<◌, ◌≢◌, List, [], ◌∷◌, take, ◌≡◌, refl, ap, ◌∙◌, arith,
}
use governance_iot_platform.Portal.{next_char, decode_loop, url_decode}

-- a hexadecimal digit of the value `v`, in either case
pub data HexDigit : ℕ → ℕ → Type 0 where
  decimal : (v : ℕ) → v < 10 → HexDigit v (b'0' + v)
  upper : (v : ℕ) → 10 ≤ v → v < 16 → HexDigit v (b'A' + v - 10)
  small : (v : ℕ) → 10 ≤ v → v < 16 → HexDigit v (b'a' + v - 10)

-- An encoding of a text as application/x-www-form-urlencoded: a browser may escape any byte, and
-- must escape '+' and '%'.
pub data Encodes : List ℕ → List ℕ → Type 0 where
  nothing : Encodes [] []
  space : {enc text : List ℕ} → Encodes enc text → Encodes (b'+' ∷ enc) (b' ' ∷ text)
  plain :
      {enc text : List ℕ} (c : ℕ)
      → c ≢ b'+'
      → c ≢ b'%'
      → Encodes enc text
      → Encodes (c ∷ enc) (c ∷ text)
  escaped :
      {enc text : List ℕ} (high low a b : ℕ)
      → HexDigit high a
      → HexDigit low b
      → Encodes enc text
      → Encodes (b'%' ∷ a ∷ b ∷ enc) ((high * 16 + low) ∷ text)

HexDigit-lt : {v c : ℕ} → HexDigit v c → v < 16
HexDigit-lt (decimal v h) = omega arith
HexDigit-lt (upper v h l) = omega arith
HexDigit-lt (small v h l) = omega arith

-- strtol reads two hexadecimal digits as the number that they write.
abbrev pub ReadsHex : (ℕ → ℕ → ℕ) → Type 0
ReadsHex strtol =
    (high low a b : ℕ) → HexDigit high a → HexDigit low b → strtol a b ≡ high * 16 + low

next_char_space : (strtol : ℕ → ℕ → ℕ) (rest : List ℕ) → next_char strtol b'+' rest ≡ (b' ', rest)
unfolding next_char
next_char_space strtol [] = refl
next_char_space strtol (a ∷ []) = refl
next_char_space strtol (a ∷ b ∷ rest) = refl

next_char_plain :
    (strtol : ℕ → ℕ → ℕ) (c : ℕ) (rest : List ℕ)
    → c ≢ b'+'
    → c ≢ b'%'
    → next_char strtol c rest ≡ (c, rest)
unfolding next_char
next_char_plain strtol c [] h k = ground arith
next_char_plain strtol c (a ∷ []) h k = ground arith
next_char_plain strtol c (a ∷ b ∷ rest) h k = ground arith

next_char_escaped :
    (strtol : ℕ → ℕ → ℕ) (v a b : ℕ) (rest : List ℕ)
    → strtol a b ≡ v
    → v < 256
    → next_char strtol b'%' (a ∷ b ∷ rest) ≡ (v, rest)
unfolding next_char
next_char_escaped strtol v a b rest e h =
    ap (λ (n : ℕ). let p : ℕ × List ℕ = (n, rest) in p) (omega arith)

decode_step :
    (strtol : ℕ → ℕ → ℕ) (n c d : ℕ) (cs rest : List ℕ)
    → next_char strtol c cs ≡ (d, rest)
    → decode_loop strtol (suc n) (c ∷ cs) ≡ d ∷ decode_loop strtol n rest
unfolding decode_loop
decode_step strtol n c d cs rest e = ap (λ p. p.0 ∷ decode_loop strtol n p.1) e

decode_loop-Encodes :
    (strtol : ℕ → ℕ → ℕ)
    → ReadsHex strtol
    → (n : ℕ) {enc text : List ℕ} → Encodes enc text
    → decode_loop strtol n enc ≡ take n text
decode_loop-Encodes strtol hex zero e = none_left strtol _
  where
    none_left : (strtol : ℕ → ℕ → ℕ) (src : List ℕ) → decode_loop strtol zero src ≡ []
    none_left strtol src = unfold decode_loop in refl
decode_loop-Encodes strtol hex (suc n) nothing = unfold decode_loop in refl
decode_loop-Encodes strtol hex (suc n) (space {enc} {text} e) =
    decode_step strtol n b'+' b' ' enc enc (next_char_space strtol enc)
    ∙ ap (λ t. b' ' ∷ t) (decode_loop-Encodes strtol hex n e)
decode_loop-Encodes strtol hex (suc n) (plain {enc} {text} c h k e) =
    decode_step strtol n c c enc enc (next_char_plain strtol c enc h k)
    ∙ ap (λ t. c ∷ t) (decode_loop-Encodes strtol hex n e)
decode_loop-Encodes strtol hex (suc n) (escaped {enc} {text} high low a b ha hb e) =
    decode_step strtol n b'%' (high * 16 + low) (a ∷ b ∷ enc) enc (
      next_char_escaped strtol (high * 16 + low) a b enc (hex high low a b ha hb)
        (omega (arith, HexDigit-lt ha, HexDigit-lt hb)))
    ∙ ap (λ t. (high * 16 + low) ∷ t) (decode_loop-Encodes strtol hex n e)

-- Whatever bytes a browser chose to escape, and in either case of the digits, the portal decodes the
-- text that was typed, cut to the buffer less its terminator.
pub url_decode-Encodes :
    (strtol : ℕ → ℕ → ℕ)
    → ReadsHex strtol
    → (dst_len : ℕ) {enc text : List ℕ} → Encodes enc text
    → url_decode strtol enc dst_len ≡ take (dst_len - 1) text
unfolding url_decode
url_decode-Encodes strtol hex dst_len e = decode_loop-Encodes strtol hex (dst_len - 1) e
