-- ===== src/Buffer/Realloc.antt =====
-- audiofs_buffer_realloc on a valid buffer: growing, shrinking, refusals, and the lock.
use audio_fs.Base.{ℕ, ◌≡◌, refl, ◌<◌, ◌≤◌, ◌≢◌, Bool, true, false, some, arith}
use audio_fs.Memory.{done, fault, blocked, Allocator, resize, reallocated}
use audio_fs.Buffer.{Buffer, realloc_data, buffer_realloc}
use audio_fs.Buffer.Valid.{IsValid, block_byte}

module _ (mem : Allocator) {b : Buffer} (size : ℕ) (v : IsValid b) where
  -- Every return leaves a valid buffer; where the call says true the length is the one asked for,
  -- and where it says false length and data are what they were.
  pub buffer_realloc-IsValid :
      {b' : Buffer} {r : Bool}
      → buffer_realloc mem b size ≡ done (b', r)
      → IsValid b'
        × (r ≡ true → b'.len ≡ size)
        × (r ≡ false → (b'.len ≡ b.len) × (b'.block ≡ b.block))
  unfolding buffer_realloc reallocated
  buffer_realloc-IsValid h = ground arith

  -- It never waits for a mutex.
  pub buffer_realloc-ne-blocked : buffer_realloc mem b size ≢ blocked
  unfolding buffer_realloc
  buffer_realloc-ne-blocked h = ground arith

  -- A buffer that is to shrink, and not to 0, makes the memset write behind the new block.
  pub buffer_realloc_shrink :
      0 < size → size < b.len → mem.grants resize size ≡ true → buffer_realloc mem b size ≡ fault
  unfolding buffer_realloc reallocated
  buffer_realloc_shrink p q g = ground arith

  -- The buffer that growing with room leaves.
  abbrev grown : Buffer
  grown = record b {
    block = realloc_data mem b.block size;
    len = size;
    lock = false;
    used_outside_audiofs = false;
  }

  -- A buffer that is to grow, with memory granted, keeps the bytes it had and has the new length; the
  -- bytes behind them are what the fresh memory happened to hold.
  pub buffer_realloc_grow :
      b.len < size
      → mem.grants resize size ≡ true
      → (b' : Buffer) × (buffer_realloc mem b size ≡ done (b', true))
        × IsValid b'
        × (b'.len ≡ size)
        × ((i : ℕ) → i < b.len → block_byte b'.block i ≡ block_byte b.block i)
        × ((i : ℕ) → b.len ≤ i → i < size → block_byte b'.block i ≡ some (mem.garbage i))
  unfolding buffer_realloc reallocated
  buffer_realloc_grow p g =
      (grown, ground arith, ground arith, refl, λ i q. ground arith, λ i q r. ground arith)

  -- Where the memory is refused, the buffer stays as it was, and the call says false.
  pub buffer_realloc_refused :
      0 < size
      → size ≢ b.len
      → mem.grants resize size ≡ false
      → buffer_realloc mem b size ≡ done (record b { used_outside_audiofs = false }, false)
  unfolding buffer_realloc
  buffer_realloc_refused p ne g = ground arith
