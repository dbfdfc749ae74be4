-- ===== src/Log/Allocation/Laws.antt =====
-- The macros for memory with tracing and without it.
use audio_fs.Base.{
  ℕ, ◌+◌, ◌≡◌, ◌<◌, refl, ap, true, false, Bool-cases, Option-cases, inl, inr, List, [], ◌∷◌, ◌++◌,
  Option, none, some, length, length-append, arith,
}
use audio_fs.Memory.{done, ◌>>=◌, Allocator, log_line}
use audio_fs.Avio.{int32_max}
use audio_fs.Log.{Level, trace, Logger, listens, audiofs_log}
use audio_fs.Log.Laws.{audiofs_log_granted, audiofs_log_refused, audiofs_log_quiet}
use audio_fs.Log.Allocation.{
  Libc, Heap, marked, calloc_no_trace, free_no_trace, trace_text, traceval, cast_text,
}

-- The mutex is free, and the length of the log buffer is as the program starts with it.
abbrev pub Ready : Logger → Type 0
Ready l = (l.go_log_mutex ≡ false) × (l.go_log_buffer_len ≡ 0)

audiofs_log-Ready :
    (mem : Allocator) (level : Level) (line : List ℕ) (l : Logger)
    → Ready l
    → length line < int32_max
    → (l' : Logger) × (audiofs_log mem level (some line) l ≡ done l') × Ready l'
audiofs_log-Ready mem level line l (idle, e) short =
    elim (Bool-cases (listens l.go_log_level level)) [
      | inl on ↦ elim (Bool-cases (mem.grants log_line (length line + 1))) [
        | inl g ↦ (_, audiofs_log_granted mem level line l idle e short on g, (refl, e))
        | inr g ↦ (_, audiofs_log_refused mem level line l idle e short on g, (refl, e))
      ]
      | inr off ↦ (l, audiofs_log_quiet mem level (some line) l off, (idle, e))
    ]

-- The heap with another log.
abbrev pub logging : Logger → Heap → Heap
logging l h = record h { logger = l }

length-trace_text :
    (prefix val value : List ℕ)
    → length (trace_text prefix val value) ≡ length prefix + (length val + length value) + 2
length-trace_text prefix val value =
    omega (
      arith,
      length-append prefix (b':' ∷ (val ++ (b'=' ∷ value))),
      length-append val (b'=' ∷ value),
    )

-- A trace of texts that are not long returns, and changes the log only.
pub traceval-Ready :
    (mem : Allocator) (prefix val value : List ℕ) (h : Heap)
    → Ready h.logger
    → length prefix + (length val + length value) + 2 < int32_max
    → (l : Logger) × (traceval mem prefix val value h ≡ done (logging l h)) × Ready l
unfolding traceval
traceval-Ready mem prefix val value h ready short =
    let (l, run, ready') =
      audiofs_log-Ready mem trace (trace_text prefix val value) h.logger ready
        (omega (arith, length-trace_text prefix val value)) in
    (l, ap (λ o. o >>= λ l. done (record h { logger = l })) run, ready')

pub length-cast_text :
    (cast arg : List ℕ) → length (cast_text cast arg) ≡ length cast + length arg + 2
length-cast_text cast arg =
    omega (arith, length-append cast (b'(' ∷ (arg ++ (b')' ∷ []))), length-append arg (b')' ∷ []))

-- calloc leaves the log alone.
pub calloc_no_trace-done :
    (libc : Libc) (count size : ℕ) (h : Heap)
    → (h' : Heap) × (p : Option ℕ) × (calloc_no_trace libc count size h ≡ done (h', p))
      × (h'.logger ≡ h.logger)
unfolding calloc_no_trace
calloc_no_trace-done libc count size h = elim (Option-cases (libc.calloc h count size)) [
  | inl e ↦ (h, none, ground arith, refl)
  | inr (a, e) ↦ (record h { live = marked h.live a true }, some a, ground arith, refl)
]

-- A pointer that is NULL or alive can be freed.
pub free_no_trace-done :
    (p : Option ℕ) (h : Heap)
    → ((a : ℕ) → p ≡ some a → h.live a ≡ true)
    → (h' : Heap) × (free_no_trace p h ≡ done (h', none)) × (h'.logger ≡ h.logger)
unfolding free_no_trace
free_no_trace-done none h ok = (h, refl, refl)
free_no_trace-done (some a) h ok =
    let e = ok a refl in (record h { live = marked h.live a false }, ground arith, refl)
