-- ===== src/Setup/Laws.antt =====
-- What Go reads at the start, and what the mark on a buffer in use keeps off.
use audio_fs.Base.{
  ℕ, ◌≡◌, ◌<◌, refl, true, false, List, [], ◌∷◌, none, some, arith, ltb, get_or, Bool,
  if◌then◌else◌,
}
use audio_fs.Memory.{
  done, blocked, Allocator, buffer_struct, buffer_data, resize, tabulate, copy_in, copy_out,
}
use audio_fs.Buffer.{Buffer, magic_a, sizeof_buffer, buffer_alloc, buffer_realloc}
use audio_fs.Buffer.Valid.{IsValid}
use audio_fs.Buffer.Realloc.{buffer_realloc_grow}
use audio_fs.Setup.{test_text, audiofs_libav_setup, slice, owned_byte_slice}

-- The bytes that a slice of the data gives.
abbrev bytes_of : Buffer → List ℕ
bytes_of b = elim b.block [ none ↦ [] | some block ↦ tabulate b.len block.byte ]

owned_byte_slice_lem :
    (b : Buffer)
    → IsValid b
    → b.used_outside_audiofs ≡ false
    → owned_byte_slice b ≡ done (record b { used_outside_audiofs = true }, bytes_of b)
unfolding owned_byte_slice slice copy_out
owned_byte_slice_lem b v free = ground arith

owned_byte_slice_again :
    (b : Buffer) → owned_byte_slice (record b { used_outside_audiofs = true }) ≡ blocked
unfolding owned_byte_slice
owned_byte_slice_again b = ground arith

abbrev marked : Buffer → Buffer
marked b = record b { used_outside_audiofs = true }

marked-IsValid : {b : Buffer} → IsValid b → IsValid (marked b)
marked-IsValid v = record {
  cookie_set = v.cookie_set;
  self_set = v.self_set;
  unlocked = v.unlocked;
  sized = v.sized;
}

-- audiofs_buffer_realloc takes the mark away wherever it returns.
buffer_realloc-unmarked :
    (mem : Allocator) (b : Buffer) (size : ℕ)
    → IsValid b
    → {b' : Buffer} {r : Bool} → buffer_realloc mem b size ≡ done (b', r)
    → b'.used_outside_audiofs ≡ false
unfolding buffer_realloc
buffer_realloc-unmarked mem b size v h = ground arith

-- The buffer that the set-up leaves: "test" in the first four of five zeros.
abbrev test_buffer : ℕ → Buffer
test_buffer address = record {
  address = address;
  cookie = magic_a;
  block = some (record { size = 5; byte = λ i. if ltb i 4 then get_or test_text i 0 else 0 });
  len = 5;
  lock = false;
  self = address;
  used_outside_audiofs = false;
}

test_buffer-IsValid : (address : ℕ) → IsValid (test_buffer address)
test_buffer-IsValid address = record {
  cookie_set = refl;
  self_set = refl;
  unlocked = refl;
  sized = refl;
}

audiofs_libav_setup-test_buffer :
    (mem : Allocator) (address : ℕ)
    → mem.grants buffer_struct sizeof_buffer ≡ true
    → mem.grants buffer_data 5 ≡ true
    → audiofs_libav_setup mem address ≡ done (test_buffer address)
unfolding audiofs_libav_setup buffer_alloc copy_in
audiofs_libav_setup-test_buffer mem address g g' = ground arith

-- Where memory is granted, Go reads "test" and a NUL from the buffer of audiofs_libav_setup, and would
-- wait for ever if it took that buffer again. audiofs_buffer_realloc to a larger size is not kept off:
-- it returns true, and the buffer is valid, larger and no longer marked as in use.
pub audiofs_libav_setup-owned_byte_slice :
    (mem : Allocator) (address size : ℕ)
    → mem.grants buffer_struct sizeof_buffer ≡ true
    → mem.grants buffer_data 5 ≡ true
    → 5 < size
    → mem.grants resize size ≡ true
    → (b taken grown : Buffer) × (audiofs_libav_setup mem address ≡ done b)
      × (owned_byte_slice b ≡ done (taken, b't' ∷ b'e' ∷ b's' ∷ b't' ∷ 0 ∷ []))
      × (owned_byte_slice taken ≡ blocked)
      × (buffer_realloc mem taken size ≡ done (grown, true))
      × IsValid grown
      × (grown.len ≡ size)
      × (grown.used_outside_audiofs ≡ false)
audiofs_libav_setup-owned_byte_slice mem address size g g' p g'' =
    let b : Buffer = test_buffer address in
    let valid = marked-IsValid (test_buffer-IsValid address) in
    let (grown, run, sound, long, same, fresh) = buffer_realloc_grow mem size valid p g'' in
    (
      b,
      marked b,
      grown,
      audiofs_libav_setup-test_buffer mem address g g',
      owned_byte_slice_lem b (test_buffer-IsValid address) refl,
      owned_byte_slice_again b,
      run,
      sound,
      long,
      buffer_realloc-unmarked mem (marked b) size valid run,
    )
