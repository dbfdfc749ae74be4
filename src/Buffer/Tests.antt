-- ===== src/Buffer/Tests.antt =====
-- Runs of the buffer's operations, and the theorems about them at concrete buffers.
use audio_fs.Base.{ℕ, ◌≡◌, refl, true, Bool, Option, some, none, arith}
use audio_fs.Memory.{Outcome, done, fault, zeroed}
use audio_fs.Buffer.{Buffer, buffer_alloc, realloc_data, buffer_realloc}
use audio_fs.Buffer.Valid.{IsValid, block_byte, buffer_alloc-IsValid}
use audio_fs.Buffer.Realloc.{buffer_realloc-IsValid, buffer_realloc_grow, buffer_realloc_shrink}
use audio_fs.Samples.{generous, small_buffer, small_buffer-IsValid}

-- The length of the buffer that a call returns, and its verdict.
abbrev summary : Outcome (Buffer × Bool) → Option (ℕ × Bool)
summary (done (b, r)) = some (b.len, r)
summary _ = none

realloc_grows : summary (buffer_realloc generous small_buffer 9) ≡ some (9, true)
unfolding buffer_realloc
realloc_grows = refl

realloc_frees : summary (buffer_realloc generous small_buffer 0) ≡ some (0, true)
unfolding buffer_realloc
realloc_frees = refl

realloc_shrink_runs_over : buffer_realloc generous small_buffer 3 ≡ fault
unfolding buffer_realloc
realloc_shrink_runs_over = refl

-- `small_buffer` with three zeros, and grown to nine bytes.
abbrev three_zeros : Buffer
three_zeros = record small_buffer { block = some (zeroed 3); len = 3 }

abbrev grown_to_nine : Buffer
grown_to_nine = record small_buffer { block = realloc_data generous small_buffer.block 9; len = 9 }

buffer_alloc-IsValid_example : IsValid three_zeros × (three_zeros.len ≡ 3)
unfolding buffer_alloc
buffer_alloc-IsValid_example =
    let r = buffer_alloc-IsValid generous 64 3 {b = three_zeros} refl in (r.0, r.1)

buffer_realloc-IsValid_example : IsValid grown_to_nine
unfolding buffer_realloc
buffer_realloc-IsValid_example =
    (buffer_realloc-IsValid generous 9 small_buffer-IsValid {b' = grown_to_nine} {r = true} refl).0

buffer_realloc_grow_example :
    (b : Buffer) × (buffer_realloc generous small_buffer 9 ≡ done (b, true))
    × (block_byte b.block 2 ≡ some 12)
    × (block_byte b.block 4 ≡ some 7)
buffer_realloc_grow_example =
    let (b, run, _, _, kept, fresh) =
      buffer_realloc_grow generous 9 small_buffer-IsValid (omega arith) refl in
    (b, run, kept 2 (omega arith), fresh 4 (omega arith) (omega arith))

buffer_realloc_shrink_example : buffer_realloc generous small_buffer 3 ≡ fault
buffer_realloc_shrink_example =
    buffer_realloc_shrink generous 3 small_buffer-IsValid (omega arith) (omega arith) refl
