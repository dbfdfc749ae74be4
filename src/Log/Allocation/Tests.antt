-- ===== src/Log/Allocation/Tests.antt =====
-- The macros for memory at concrete calls.
use audio_fs.Base.{ℕ, ◌≡◌, refl, false, List, [], ◌∷◌, Option, none, some, arith, if◌then◌else◌}
use audio_fs.Base.Int.{pos}
use audio_fs.Base.Decimal.{bytes_of}
use audio_fs.Memory.{done}
use audio_fs.Samples.{generous}
use audio_fs.Log.{Logger}
use audio_fs.Log.Allocation.{Libc, Heap, MemoryCall, malloc, calloc, free, Program, traced_calls}
use audio_fs.Log.Allocation.Laws.{Ready}
use audio_fs.Log.Allocation.Sound.{Sound, traced_calls-Sound}

-- Two addresses, and NULL once both are alive.
abbrev two_places : Heap → ℕ → ℕ → Option ℕ
two_places h count size = if h.live 64 then (if h.live 128 then none else some 128) else some 64

abbrev small_libc : Libc
small_libc = record { calloc = two_places; shown = λ p. bytes_of "0x40" }

small_libc-fresh :
    (h : Heap) (count size a : ℕ) → two_places h count size ≡ some a → h.live a ≡ false
small_libc-fresh h count size a e = ground (arith, e)

-- At the level of the traces.
abbrev listening : Logger
listening = record {
  go_log_mutex = false;
  go_log_buffer = none;
  go_log_buffer_len = 0;
  go_log_level = pos 6;
  entries = [];
  complaints = 0;
  lost = 0;
}

abbrev empty : Program
empty = record { heap = record { live = λ x. false; logger = listening }; slots = λ i. none }

empty-Sound : Sound empty
empty-Sound = record { alive = λ i a e. cc; apart = λ i j a e e'. cc }

-- The third allocation fails; the first variable is freed twice.
abbrev uses : List MemoryCall
uses =
    malloc 0 (bytes_of "size") 5
    ∷ calloc 1 (bytes_of "256") (bytes_of "sizeof(char)") 256 1
    ∷ malloc 2 (bytes_of "s") 8
    ∷ free 0 (bytes_of "buffer")
    ∷ free 0 (bytes_of "buffer")
    ∷ []

traced_calls-Sound_example :
    (q : Program) × (traced_calls generous small_libc uses empty ≡ done q)
    × Ready q.heap.logger
    × Sound q
traced_calls-Sound_example =
    traced_calls-Sound generous small_libc small_libc-fresh (λ p. omega arith) uses empty
      empty-Sound (refl, refl) refl
