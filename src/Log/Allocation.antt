-- ===== src/Log/Allocation.antt =====
-- AUDIOFS_MALLOC, AUDIOFS_CALLOC and AUDIOFS_FREE of native/macros.h, in the build with tracing and in
-- the one without, and the allocator of native/libav.c that Jansson is given.
pub mod Laws
pub mod Calls
pub mod Sound
mod Tests
use audio_fs.Base.{
  ℕ, Bool, true, false, List, [], ◌∷◌, ◌++◌, Option, none, some, ◌==◌, if◌then◌else◌,
}
use audio_fs.Base.Int.{ℤ, pos}
use audio_fs.Base.Decimal.{bytes_of, digits, decimal}
use audio_fs.Memory.{Outcome, done, fault, ◌>>=◌, Allocator}
use audio_fs.Log.{Logger, trace, audiofs_log}

-- The blocks of the program that are alive, by their addresses, and the log, whose buffer and lost
-- blocks take memory too.
pub record Heap : Type 0 where
  pub live : ℕ → Bool
  pub logger : Logger

-- calloc of the C library, which gives NULL or an address, and `%p` of printf. What calloc gives may
-- depend on all memory that is in use, that of the log included.
pub record Libc : Type 0 where
  pub calloc : Heap → ℕ → ℕ → Option ℕ
  pub shown : Option ℕ → List ℕ

abbrev pub marked : (ℕ → Bool) → ℕ → Bool → ℕ → Bool
marked live a b x = if x == a then b else live x

-- AUDIOFS_CALLOC_NO_TRACE
unfoldable pub calloc_no_trace : Libc → ℕ → ℕ → Heap → Outcome (Heap × Option ℕ)
calloc_no_trace libc count size h = elim (libc.calloc h count size) [
  | none ↦ done (h, none)
  | some a ↦ done (record h { live = marked h.live a true }, some a)
]

-- AUDIOFS_MALLOC_NO_TRACE
abbrev pub malloc_no_trace : Libc → ℕ → Heap → Outcome (Heap × Option ℕ)
malloc_no_trace libc size = calloc_no_trace libc 1 size

-- AUDIOFS_FREE_NO_TRACE: beside the heap, what the variable holds afterwards.
unfoldable pub free_no_trace : Option ℕ → Heap → Outcome (Heap × Option ℕ)
free_no_trace none h = done (h, none)
free_no_trace (some a) h =
    if h.live a then done (record h { live = marked h.live a false }, none) else fault

-- The text of AUDIOFS_TRACEVAL_PREFIX: the prefix, the argument as it is written, and its value.
abbrev pub trace_text : List ℕ → List ℕ → List ℕ → List ℕ
trace_text prefix val value = prefix ++ (b':' ∷ (val ++ (b'=' ∷ value)))

-- AUDIOFS_TRACEVAL_PREFIX
unfoldable pub traceval : Allocator → List ℕ → List ℕ → List ℕ → Heap → Outcome Heap
unfolding audiofs_log
traceval mem prefix val value h =
    audiofs_log mem trace (some (trace_text prefix val value)) h.logger >>= λ l.
    done (record h { logger = l })

abbrev pub malloc_name : List ℕ
malloc_name = bytes_of "AUDIOFS_MALLOC"

abbrev pub calloc_name : List ℕ
calloc_name = bytes_of "AUDIOFS_CALLOC"

abbrev pub free_name : List ℕ
free_name = bytes_of "AUDIOFS_FREE"

-- `(cast)(arg)` for an argument as it is written at the call.
abbrev pub cast_text : List ℕ → List ℕ → List ℕ
cast_text cast arg = cast ++ (b'(' ∷ (arg ++ (b')' ∷ [])))

-- A size_t has at most 20 digits.
abbrev pub size_text : ℕ → List ℕ
size_text n = digits 20 n []

-- AUDIOFS_MALLOC(size), where `arg` is how the size is written.
unfoldable pub traced_malloc : Allocator → Libc → List ℕ → ℕ → Heap → Outcome (Heap × Option ℕ)
unfolding traceval calloc_no_trace
traced_malloc mem libc arg size h =
    traceval mem malloc_name (cast_text (bytes_of "(size_t)") arg) (size_text size) h >>= λ h1.
    malloc_no_trace libc size h1 >>= λ r.
    traceval mem malloc_name (bytes_of "pointer") (libc.shown r.1) r.0 >>= λ h2. done (h2, r.1)

-- AUDIOFS_CALLOC(count, size), where `arg` and `arg'` are how these are written, for a count that is
-- not negative.
unfoldable pub traced_calloc :
    Allocator → Libc → List ℕ → List ℕ → ℕ → ℕ → Heap → Outcome (Heap × Option ℕ)
unfolding traceval calloc_no_trace
traced_calloc mem libc arg arg' count size h =
    traceval mem calloc_name arg (decimal (pos count)) h >>= λ h1.
    traceval mem calloc_name (cast_text (bytes_of "(size_t)") arg') (size_text size) h1 >>= λ h2.
    calloc_no_trace libc count size h2 >>= λ r.
    traceval mem calloc_name (bytes_of "pointer") (libc.shown r.1) r.0 >>= λ h3. done (h3, r.1)

-- AUDIOFS_FREE(ptr), where `arg` is how the variable is written.
unfoldable pub traced_free : Allocator → Libc → List ℕ → Option ℕ → Heap → Outcome (Heap × Option ℕ)
unfolding traceval free_no_trace
traced_free mem libc arg p h =
    traceval mem free_name (cast_text (bytes_of "(void *)") arg) (libc.shown p) h >>= λ h1.
    free_no_trace p h1

-- jansson_custom_malloc
abbrev pub jansson_custom_malloc : Allocator → Libc → ℕ → Heap → Outcome (Heap × Option ℕ)
jansson_custom_malloc mem libc s = traced_malloc mem libc (bytes_of "s") s

-- jansson_custom_free: the variable that is set to NULL is the function's own.
unfoldable pub jansson_custom_free : Allocator → Libc → Option ℕ → Heap → Outcome Heap
unfolding traced_free
jansson_custom_free mem libc p h = traced_free mem libc (bytes_of "p") p h >>= λ r. done (r.0)

-- The uses of the three macros on variables of the program, numbered.
pub data MemoryCall : Type 0 where
  malloc : ℕ → List ℕ → ℕ → MemoryCall
  calloc : ℕ → List ℕ → List ℕ → ℕ → ℕ → MemoryCall
  free : ℕ → List ℕ → MemoryCall

pub record Program : Type 0 where
  pub heap : Heap
  pub slots : ℕ → Option ℕ

abbrev pub assigned : (ℕ → Option ℕ) → ℕ → Option ℕ → ℕ → Option ℕ
assigned slots i p j = if j == i then p else slots j

-- The variable `i` is given what the macro came to.
abbrev pub assign : ℕ → Program → Heap × Option ℕ → Program
assign i p r = record { heap = r.0; slots = assigned p.slots i (r.1) }

-- A use in the build with tracing.
unfoldable pub traced_call : Allocator → Libc → MemoryCall → Program → Outcome (Heap × Option ℕ)
unfolding traced_malloc traced_calloc traced_free
traced_call mem libc (malloc i arg size) p = traced_malloc mem libc arg size p.heap
traced_call mem libc (calloc i arg arg' count size) p =
    traced_calloc mem libc arg arg' count size p.heap
traced_call mem libc (free i arg) p = traced_free mem libc arg (p.slots i) p.heap

abbrev pub slot_of : MemoryCall → ℕ
slot_of (malloc i arg size) = i
slot_of (calloc i arg arg' count size) = i
slot_of (free i arg) = i

unfoldable pub traced_calls : Allocator → Libc → List MemoryCall → Program → Outcome Program
unfolding traced_call
traced_calls mem libc [] p = done p
traced_calls mem libc (c ∷ cs) p =
    traced_call mem libc c p >>= λ r. traced_calls mem libc cs (assign (slot_of c) p r)
