-- ===== src/Sharing.antt =====
-- Threads that share one buffer: COnwedByteSliceFromAudioFSBuffer of native/golang_glue.go and
-- audiofs_buffer_realloc of native/util.h, an access to the mutexes at a time, in any order.
pub mod Exclusion
pub mod Deadlock
pub mod Freed
mod Tests
use audio_fs.Base.{ℕ, ◌+◌, ◌≡◌, Bool, true, false, ◌&&◌, not, List, ◌==◌, if◌then◌else◌}
use audio_fs.Memory.{done, Allocator}
use audio_fs.Buffer.{Buffer, buffer_ok, realloc_locked}
use audio_fs.Setup.{slice}
use audio_fs.Threads.{System}

-- The buffer, and how often its data was given to free or to realloc.
pub record Shared : Type 0 where
  pub buffer : Buffer
  pub moves : ℕ

-- Where a thread stands. The first three points are in COnwedByteSliceFromAudioFSBuffer behind its
-- calls of pthread_mutex_lock and pthread_mutex_unlock; `sliced` has the slice of the data as it was
-- after so many moves. The last two are in audiofs_buffer_realloc, behind the lock of `lock` and the
-- unlock of `used_outside_audiofs`.
pub data Pc : Type 0 where
  idle asking marked unlocked : Pc
  sliced : ℕ → Pc
  locked unmarked : ℕ → Pc

abbrev pub with_lock : Bool → Shared → Shared
with_lock held s = record s { buffer = record (s.buffer) { lock = held } }

abbrev pub with_mark : Bool → Shared → Shared
with_mark held s = record s { buffer = record (s.buffer) { used_outside_audiofs = held } }

-- The state behind the body of audiofs_buffer_realloc, which leaves the data alone where the size is
-- the one it has, or memory was refused.
abbrev pub resized : ℕ → Shared → Buffer → Bool → Shared
resized size s b r = record {
  buffer = b;
  moves = if r && not (size == s.buffer.len) then s.moves + 1 else s.moves;
}

-- The moves of one thread. One that waits for a mutex has no move. The body of
-- audiofs_buffer_realloc with the unlock at its end is one move, and so are the two reads of the slice.
pub data Move (mem : Allocator) (s : Shared) : Pc → Shared → Pc → Type 0 where
  take_lock : s.buffer.lock ≡ false → Move mem s idle (with_lock true s) asking
  take_mark : s.buffer.used_outside_audiofs ≡ false → Move mem s asking (with_mark true s) marked
  take_unlock : Move mem s marked (with_lock false s) unlocked
  take_slice :
      (bytes : List ℕ)
      → slice s.buffer.block s.buffer.len ≡ done bytes
      → Move mem s unlocked s (sliced s.moves)
  forget : (g : ℕ) → Move mem s (sliced g) s idle
  realloc_no_buffer : buffer_ok s.buffer ≡ false → Move mem s idle s idle
  realloc_lock :
      (size : ℕ)
      → buffer_ok s.buffer ≡ true
      → s.buffer.lock ≡ false
      → Move mem s idle (with_lock true s) (locked size)
  realloc_unmark : (size : ℕ) → Move mem s (locked size) (with_mark false s) (unmarked size)
  realloc_body :
      (size : ℕ) (b : Buffer) (r : Bool)
      → realloc_locked mem s.buffer size ≡ done (b, r)
      → Move mem s (unmarked size) (resized size s b r) idle

-- The buffer and the threads at it.
abbrev pub Sharers : Type 0
Sharers = System Shared Pc
