-- ===== src/Word/Laws.antt =====
-- What INT32 and WITHIN_BOUNDS of native/macros.h compute.
use audio_fs.Base.{ℕ, ◌-◌, ◌≡◌, ◌⊎◌, ◌↔◌, ◌<◌, ◌^◌, arith}
use audio_fs.Base.Int.{pos, negsuc}
use audio_fs.Word.{int32, within_bounds}

-- INT32 keeps every number that an int32_t can hold, if it is not negative.
pub int32_small : (n : ℕ) → n < 2 ^ 31 → int32 (pos n) ≡ pos n
unfolding int32
int32_small n h = ground arith

-- INT32 turns each negative number into a positive one: -1 into INT32_MAX.
pub int32_negative : (n : ℕ) → n < 2 ^ 31 → int32 (negsuc n) ≡ pos (2 ^ 31 - 1 - n)
unfolding int32
int32_negative n h = ground arith

-- The clamp is 0 exactly where the value is not positive or the upper bound is 0.
pub within_bounds_zero_iff :
    (n max : ℕ) → n < 2 ^ 63 → (within_bounds (pos n) max ≡ 0) ↔ ((n ≡ 0) ⊎ (max ≡ 0))
unfolding within_bounds
within_bounds_zero_iff n max h = ground arith
