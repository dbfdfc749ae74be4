-- ===== src/Buffer/Valid.antt =====
-- The representation invariant of `audiofs_buffer`, and what audiofs_buffer_alloc establishes.
use audio_fs.Base.{
  ℕ, zero, suc, ◌≡◌, ◌<◌, ◌≢◌, true, false, Option, none, some, arith, ltb, if◌then◌else◌,
}
use audio_fs.Memory.{Allocator, Block, buffer_struct, buffer_data}
use audio_fs.Buffer.{Buffer, magic_a, sizeof_buffer, buffer_alloc, buffer_ok}

abbrev pub block_size : Option Block → ℕ
block_size none = 0
block_size (some b) = b.size

-- The byte at an index of a buffer's data, if the index is inside.
abbrev pub block_byte : Option Block → ℕ → Option ℕ
block_byte none i = none
block_byte (some b) i = if ltb i b.size then some (b.byte i) else none

-- The cookie and the self pointer are set, nobody holds the lock, and the data has `len` bytes.
pub record IsValid (b : Buffer) : Type 0 where
  pub cookie_set : b.cookie ≡ magic_a
  pub self_set : b.self ≡ b.address
  pub unlocked : b.lock ≡ false
  pub sized : block_size b.block ≡ b.len

-- A valid buffer passes audiofs_buffer_ok.
pub IsValid-buffer_ok : {b : Buffer} → IsValid b → buffer_ok b ≡ true
unfolding buffer_ok
IsValid-buffer_ok v = ground arith

-- A buffer that audiofs_buffer_alloc returns is valid, has the length asked for, and holds zeros.
pub buffer_alloc-IsValid :
    (mem : Allocator) (address size : ℕ) {b : Buffer}
    → buffer_alloc mem address size ≡ some b
    → IsValid b × (b.len ≡ size) × ((i : ℕ) → i < size → block_byte b.block i ≡ some 0)
unfolding buffer_alloc
buffer_alloc-IsValid mem address zero h = ground arith
buffer_alloc-IsValid mem address (suc n) h = (ground arith, ground arith, λ i p. ground arith)

-- It returns NULL exactly where the allocator refuses the structure, or the data of a size other
-- than 0.
pub buffer_alloc-none :
    (mem : Allocator) (address size : ℕ)
    → mem.grants buffer_struct sizeof_buffer ≡ true
    → size ≢ 0
    → mem.grants buffer_data size ≡ false
    → buffer_alloc mem address size ≡ none
unfolding buffer_alloc
buffer_alloc-none mem address size g ne h = ground arith
