-- ===== src/Log/Allocation/Calls.antt =====
-- Uses of the macros for memory in the build with tracing, against the build without.
use audio_fs.Base.{
  ℕ, ◌^◌, ◌≡◌, ◌<◌, ◌≤◌, refl, Bool, true, ◌&&◌, List, [], ◌∷◌, Option, none, some, length, ltb,
  arith,
}
use audio_fs.Base.Int.{pos}
use audio_fs.Base.Decimal.{bytes_of, length-digits, decimal, length-decimal}
use audio_fs.Memory.{done, Allocator}
use audio_fs.Log.{Logger}
use audio_fs.Log.Allocation.Laws.{
  Ready, logging, traceval-Ready, length-cast_text, calloc_no_trace-done, free_no_trace-done,
}
use audio_fs.Log.Allocation.{
  Libc, Heap, calloc_no_trace, malloc_no_trace, free_no_trace, malloc_name, calloc_name, free_name,
  cast_text, size_text, traced_malloc, traced_calloc, traced_free, MemoryCall, malloc, calloc, free,
}

-- `%p` gives a text of at most 2^20 bytes.
abbrev pub Shows : Libc → Type 0
Shows libc = (p : Option ℕ) → length (libc.shown p) ≤ 2 ^ 20

-- The arguments are written in less than 2^20 bytes.
abbrev pub brief : MemoryCall → Bool
brief (malloc i arg size) = ltb (length arg) (2 ^ 20)
brief (calloc i arg arg' count size) = ltb (length arg) (2 ^ 20) && ltb (length arg') (2 ^ 20)
brief (free i arg) = ltb (length arg) (2 ^ 20)

abbrev pub all_brief : List MemoryCall → Bool
all_brief [] = true
all_brief (c ∷ cs) = brief c && all_brief cs

module _ (mem : Allocator) (libc : Libc) (shows : Shows libc) where
  -- AUDIOFS_MALLOC returns, and gives what calloc gives at the heap behind the first trace.
  pub traced_malloc-done :
      (arg : List ℕ) (size : ℕ) (h : Heap)
      → Ready h.logger
      → length arg < 2 ^ 20
      → (l l' : Logger) × (h' : Heap) × (p : Option ℕ) × (malloc_no_trace libc size (logging l h)
          ≡ done (h', p))
        × (traced_malloc mem libc arg size h ≡ done (logging l' h', p))
        × Ready l'
  unfolding traced_malloc
  traced_malloc-done arg size h ready short =
      let cast : List ℕ = bytes_of "(size_t)" in
      let (l1, before, ready1) =
        traceval-Ready mem malloc_name (cast_text cast arg) (size_text size) h ready
          (omega (arith, length-cast_text cast arg, length-digits 20 size [])) in
      let (h', p, given, same) = calloc_no_trace-done libc 1 size (logging l1 h) in
      let (l2, after, ready2) =
        traceval-Ready mem malloc_name (bytes_of "pointer") (libc.shown p) h' (rw same ready1)
          (omega (arith, shows p)) in
      (l1, l2, h', p, given, rw before (rw given (rw after refl)), ready2)

  pub traced_calloc-done :
      (arg arg' : List ℕ) (count size : ℕ) (h : Heap)
      → Ready h.logger
      → length arg < 2 ^ 20
      → length arg' < 2 ^ 20
      → (l l' : Logger) × (h' : Heap) × (p : Option ℕ) × (calloc_no_trace libc count size
            (logging l h)
          ≡ done (h', p))
        × (traced_calloc mem libc arg arg' count size h ≡ done (logging l' h', p))
        × Ready l'
  unfolding traced_calloc
  traced_calloc-done arg arg' count size h ready short short' =
      let cast : List ℕ = bytes_of "(size_t)" in
      let (l1, first, ready1) =
        traceval-Ready mem calloc_name arg (decimal (pos count)) h ready
          (omega (arith, length-decimal (pos count))) in
      let (l2, second, ready2) =
        traceval-Ready mem calloc_name (cast_text cast arg') (size_text size) (logging l1 h) ready1
          (omega (arith, length-cast_text cast arg', length-digits 20 size [])) in
      let (h', p, given, same) = calloc_no_trace-done libc count size (logging l2 h) in
      let (l3, after, ready3) =
        traceval-Ready mem calloc_name (bytes_of "pointer") (libc.shown p) h' (rw same ready2)
          (omega (arith, shows p)) in
      (l2, l3, h', p, given, rw first (rw second (rw given (rw after refl))), ready3)

  pub traced_free-done :
      (arg : List ℕ) (p : Option ℕ) (h : Heap)
      → Ready h.logger
      → length arg < 2 ^ 20
      → ((a : ℕ) → p ≡ some a → h.live a ≡ true)
      → (l : Logger) × (h' : Heap) × (free_no_trace p (logging l h) ≡ done (h', none))
        × (traced_free mem libc arg p h ≡ done (h', none))
        × Ready h'.logger
  unfolding traced_free
  traced_free-done arg p h ready short ok =
      let cast : List ℕ = bytes_of "(void *)" in
      let (l1, before, ready1) =
        traceval-Ready mem free_name (cast_text cast arg) (libc.shown p) h ready
          (omega (arith, length-cast_text cast arg, shows p)) in
      let (h', given, same) = free_no_trace-done p (logging l1 h) ok in
      (l1, h', given, rw before given, rw same ready1)
