-- ===== src/Word.antt =====
-- Fixed-width arithmetic of the C code: wrap-around of unsigned types, conversions between signed
-- and unsigned ones, and the macros of native/macros.h that compute with numbers.
pub mod Laws
use audio_fs.Base.{ℕ, ◌+◌, ◌-◌, ◌%◌, ◌^◌, ltb, leb, if◌then◌else◌}
use audio_fs.Base.Int.{ℤ, pos, negsuc, is_neg, is_nonzero}

abbrev pub u8 : ℕ → ℕ
u8 n = n % 2 ^ 8

abbrev pub u16 : ℕ → ℕ
u16 n = n % 2 ^ 16

abbrev pub u32 : ℕ → ℕ
u32 n = n % 2 ^ 32

abbrev pub u64 : ℕ → ℕ
u64 n = n % 2 ^ 64

-- a - b of two uint64_t; `-` on ℕ stops at 0, so the modulus is added first.
abbrev pub sub64 : ℕ → ℕ → ℕ
sub64 a b = (a + 2 ^ 64 - b) % 2 ^ 64

-- The uint64_t that an int64_t (or a ssize_t) converts to.
abbrev pub to_u64 : ℤ → ℕ
to_u64 (pos n) = n % 2 ^ 64
to_u64 (negsuc n) = 2 ^ 64 - 1 - n % 2 ^ 64

-- The int64_t that a uint64_t converts to.
abbrev pub to_int64 : ℕ → ℤ
to_int64 w = if ltb w (2 ^ 63) then pos w else negsuc (2 ^ 64 - 1 - w)

-- INT32(X), `(int32_t)((X) & INT32_MAX)`, at a 64-bit X: the mask keeps the low 31 bits.
unfoldable pub int32 : ℤ → ℤ
int32 x = pos (to_u64 x % 2 ^ 31)

-- MIN(X, Y) and MAX(X, Y) at two uint64_t.
abbrev pub c_min : ℕ → ℕ → ℕ
c_min x y = if ltb x y then x else y

abbrev pub c_max : ℕ → ℕ → ℕ
c_max x y = if ltb y x then x else y

-- WITHIN_BOUNDS(0, check, max) at an int64_t and a uint64_t. It is a clamp, not a test: the
-- comparison with 0 is signed, the one with `max` is made in uint64_t.
unfoldable pub within_bounds : ℤ → ℕ → ℕ
within_bounds (pos n) max = if ltb 0 n then (if leb (u64 n) max then u64 n else max) else 0
within_bounds (negsuc n) max = 0
