-- ===== src/Setup.antt =====
-- audiofs_libav_setup of native/libav.c with its test buffer, and COnwedByteSliceFromAudioFSBuffer of
-- native/golang_glue.go, by which Go takes the data of a buffer.
pub mod Laws
mod Tests
use audio_fs.Base.{ℕ, Bool, true, false, List, [], ◌∷◌, Option, none, some, ltb, if◌then◌else◌}
use audio_fs.Memory.{Outcome, done, fault, blocked, ◌>>=◌, Block, Allocator, copy_in, copy_out}
use audio_fs.Buffer.{Buffer, buffer_alloc}

-- "test"
abbrev pub test_text : List ℕ
test_text = b't' ∷ b'e' ∷ b's' ∷ b't' ∷ []

-- The test buffer that audiofs_libav_setup leaves.
unfoldable pub audiofs_libav_setup : Allocator → ℕ → Outcome Buffer
unfolding buffer_alloc copy_in
audiofs_libav_setup mem address = elim (buffer_alloc mem address 5) [
  | none ↦ fault
  | some b ↦ elim b.block [
    | none ↦ fault
    | some block ↦ copy_in 4 test_text block >>= λ data'. done (record b { block = some data' })
  ]
]

-- unsafe.Slice of the data: nil at a length that is not 0 panics, for which `fault` stands here.
unfoldable pub slice : Option Block → ℕ → Outcome (List ℕ)
unfolding copy_out
slice none len = if ltb 0 len then fault else done []
slice (some block) len = copy_out len len block

-- The buffer is marked as in use, and its bytes are given.
unfoldable pub owned_byte_slice : Buffer → Outcome (Buffer × List ℕ)
unfolding slice
owned_byte_slice b =
    if b.lock
    then blocked
    else if b.used_outside_audiofs
    then blocked
    else slice b.block b.len >>= λ bytes. done (record b { used_outside_audiofs = true }, bytes)
