-- ===== src/AppState/Activity.antt =====
-- Which errors are active: the mask as a set of codes.
use governance_iot_platform.Prelude.{
  ℕ, ◌-◌, ◌^◌, ◌<◌, ◌==◌, bit_and, bit_or, true, false, not, ◌&&◌, ◌||◌, ◌≡◌, ap, ◌∙◌, arith,
  Bool-cases, inl, inr,
}
use governance_iot_platform.Prelude.Bits.{
  test_bit, test_bit-bit_and, test_bit-bit_or, test_bit-pow, test_bit-complement, mask_test,
}
use governance_iot_platform.AppState.Codes.{ErrorCode, no_error, error_index, AppError}
use governance_iot_platform.AppState.{
  AppState, error_bit, register, settle, is_error_active, resolution,
}
use mathlib.Core.List.{[], ◌∷◌, ◌++◌}
use native.Mathlib.Nat.{one-le-pow, pow-le-pow_right}

pub error_index-lt : (c : ErrorCode) → error_index c < 32
unfolding error_index
error_index-lt no_error = omega arith
error_index-lt _ = omega arith

pow-ne-zero : (i : ℕ) → (2 ^ i == 0) ≡ false
pow-ne-zero i = ground (arith, one-le-pow i 2)

-- A code has a bit exactly when it is not NONE: all 31 others fit the word.
error_bit-zero : (c : ErrorCode) → (error_bit c == 0) ≡ (error_index c == 0)
unfolding error_bit
error_bit-zero c = elim (Bool-cases (error_index c == 0)) [
  | inl e ↦ rw (e, ◌||◌)
  | inr e ↦ ground (arith, error_index-lt c, pow-ne-zero (error_index c))
]

error_bit-pow : (c : ErrorCode) → (error_index c == 0) ≡ false → error_bit c ≡ 2 ^ error_index c
unfolding error_bit
error_bit-pow c h = ground (arith, error_index-lt c)

-- `isErrorActive` reads one digit of the mask.
pub is_error_active_lem :
    (c : ErrorCode) (s : AppState)
    → is_error_active c s
      ≡ (not (error_index c == 0) && test_bit s.active_error_mask (error_index c))
unfolding is_error_active
is_error_active_lem c s = elim (Bool-cases (error_index c == 0)) [
  | inl e ↦ rw (error_bit-zero c, e)
  | inr e ↦
      rw (error_bit-zero c, e, error_bit-pow c e, mask_test s.active_error_mask (error_index c))
        (ground arith)
]

set_bit : (m i j : ℕ) → test_bit (bit_or m (2 ^ i)) j ≡ (test_bit m j || (i == j))
set_bit m i j = rw (test_bit-bit_or, test_bit-pow)

pub clear_bit :
    (m i j : ℕ)
    → i < 32
    → j < 32
    → test_bit (bit_and m (2 ^ 32 - 1 - 2 ^ i)) j ≡ (test_bit m j && not (i == j))
clear_bit m i j p q =
    test_bit-bit_and m (2 ^ 32 - 1 - 2 ^ i) j
    ∙ ap (λ b. test_bit m j && b)
        (test_bit-complement 32 (2 ^ i) j
            (omega (arith, pow-le-pow_right {n = 2} (omega arith) {i = i} {j = 31} (omega arith))) q
          ∙ ap not (test_bit-pow i j))

-- After an event is registered, a code is active exactly if it was, or if it is the code of the
-- event and not NONE.
pub is_error_active-register :
    (e : AppError) (s : AppState) (c : ErrorCode)
    → is_error_active c (register e s)
      ≡ (is_error_active c s || (not (error_index c == 0) && error_index e.code == error_index c))
unfolding register
is_error_active-register e s c = ground (
  arith,
  is_error_active_lem c s,
  is_error_active_lem c (register e s),
  error_bit-zero e.code,
  error_bit-pow e.code,
  set_bit s.active_error_mask (error_index e.code) (error_index c),
)

-- After a code is settled, a code is active exactly if it was and is another one.
pub is_error_active-settle :
    (r : ErrorCode) (s : AppState) (c : ErrorCode)
    → is_error_active c (settle r s).0
      ≡ (is_error_active c s && not (error_index r == error_index c))
unfolding settle
is_error_active-settle r s c = ground (
  arith,
  is_error_active_lem c s,
  is_error_active_lem c (settle r s).0,
  error_bit-zero r,
  error_bit-pow r,
  mask_test s.active_error_mask (error_index r),
  clear_bit s.active_error_mask (error_index r) (error_index c) (error_index-lt r)
      (error_index-lt c),
)

-- `resolveError` of an error that is not active changes nothing.
pub settle_inactive :
    (r : ErrorCode) (s : AppState) → is_error_active r s ≡ false → settle r s ≡ (s, false)
unfolding settle is_error_active
settle_inactive r s h = ground arith

-- Of an active one it queues the resolution and clears the bit, and nothing else.
pub settle_active :
    (r : ErrorCode) (s : AppState)
    → is_error_active r s ≡ true
    → settle r s ≡ (
      record s {
        error_queue = s.error_queue ++ resolution r ∷ [];
        active_error_mask = bit_and s.active_error_mask (2 ^ 32 - 1 - 2 ^ error_index r);
      },
      true,
    )
unfolding settle is_error_active
settle_active r s h = ground (arith, error_bit-zero r, error_bit-pow r)
