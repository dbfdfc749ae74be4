-- ===== src/Log/Allocation/Sound.antt =====
-- Programs that use the macros for memory in the build with tracing never free a block twice.
use audio_fs.Base.{
  ℕ, ◌≡◌, ◌≢◌, ◌⊎◌, refl, sym, ap, ◌∙◌, Bool, true, false, ◌&&◌, Option-cases, ==-cases, ==-ne, inl,
  inr, List, [], ◌∷◌, Option, none, some, ltb→lt, arith,
}
use mathlib.Core.Path.{subst}
use audio_fs.Memory.{done, Allocator}
use audio_fs.Log.{Logger}
use audio_fs.Log.Allocation.{
  Libc, Heap, marked, calloc_no_trace, free_no_trace, MemoryCall, malloc, calloc, free, Program,
  assigned, assign, traced_call, slot_of, traced_calls,
}
use audio_fs.Log.Allocation.Laws.{Ready, logging}
use audio_fs.Log.Allocation.Calls.{
  Shows, brief, all_brief, traced_malloc-done, traced_calloc-done, traced_free-done,
}

-- Each pointer that a variable holds is alive, and no two variables hold the same.
pub record Sound (p : Program) : Type 0 where
  pub alive : (i a : ℕ) → p.slots i ≡ some a → p.heap.live a ≡ true
  pub apart : (i j a : ℕ) → p.slots i ≡ some a → p.slots j ≡ some a → i ≡ j

-- calloc gives no address that is alive.
abbrev pub Fresh : Libc → Type 0
Fresh libc = (h : Heap) (count size a : ℕ) → libc.calloc h count size ≡ some a → h.live a ≡ false

assigned-some :
    (slots : ℕ → Option ℕ) (i : ℕ) (v : Option ℕ) (j a : ℕ)
    → assigned slots i v j ≡ some a
    → ((j ≡ i) × (v ≡ some a)) ⊎ ((j ≢ i) × (slots j ≡ some a))
assigned-some slots i v j a e = elim (==-cases j i) [
  | inl here ↦ inl (here, ground arith)
  | inr apart ↦ inr (apart, ground arith)
]

marked-other : (live : ℕ → Bool) (a x : ℕ) (b : Bool) → x ≢ a → marked live a b x ≡ live x
marked-other live a x b n = rw (==-ne x a n) refl

-- A variable that is set to NULL.
none-Sound : (i : ℕ) (p : Program) → Sound p → Sound (assign i p (p.heap, none))
none-Sound i p ok = record {
  alive = λ j a e. elim (assigned-some p.slots i none j a e) [
    | inl (_, e') ↦ cc
    | inr (_, e') ↦ ok.alive j a e'
  ];
  apart = λ j k a e e'. elim (assigned-some p.slots i none j a e) [
    | inl (_, f) ↦ cc
    | inr (_, f) ↦ elim (assigned-some p.slots i none k a e') [
      | inl (_, f') ↦ cc
      | inr (_, f') ↦ ok.apart j k a f f'
    ]
  ];
}

abbrev marking : Heap → ℕ → Bool → Heap
marking h a b = record h { live = marked h.live a b }

-- A variable that is given a fresh block.
some-Sound :
    (i : ℕ) (p : Program) (a : ℕ)
    → Sound p
    → p.heap.live a ≡ false
    → Sound (assign i p (marking p.heap a true, some a))
some-Sound i p a ok unused = record {
  alive = λ j x e. elim (assigned-some p.slots i (some a) j x e) [
    | inl (_, f) ↦ ground (arith, f)
    | inr (_, f) ↦ let old = ok.alive j x f in ground arith
  ];
  apart = λ j k x e e'. elim (assigned-some p.slots i (some a) j x e) [
    | inl (here, f) ↦ elim (assigned-some p.slots i (some a) k x e') [
      | inl (here', f') ↦ here ∙ sym here'
      | inr (_, f') ↦ let old = ok.alive k x f' in ground (arith, f)
    ]
    | inr (_, f) ↦ elim (assigned-some p.slots i (some a) k x e') [
      | inl (here', f') ↦ let old = ok.alive j x f in ground (arith, f')
      | inr (_, f') ↦ ok.apart j k x f f'
    ]
  ];
}

-- A variable whose block is freed.
freed-Sound :
    (i : ℕ) (p : Program) (a : ℕ)
    → Sound p
    → p.slots i ≡ some a
    → Sound (assign i p (marking p.heap a false, none))
freed-Sound i p a ok holds = record {
  alive = λ j x e. elim (assigned-some p.slots i none j x e) [
    | inl (_, f) ↦ cc
    | inr (other, f) ↦ elim (==-cases x a) [
      | inl same ↦ absurd (other (ok.apart j i a (f ∙ ap some same) holds))
      | inr n ↦ marked-other p.heap.live a x false n ∙ ok.alive j x f
    ]
  ];
  apart = λ j k x e e'. elim (assigned-some p.slots i none j x e) [
    | inl (_, f) ↦ cc
    | inr (_, f) ↦ elim (assigned-some p.slots i none k x e') [
      | inl (_, f') ↦ cc
      | inr (_, f') ↦ ok.apart j k x f f'
    ]
  ];
}

calloc-Sound :
    (libc : Libc) (count size i : ℕ) (p : Program) {h' : Heap} {v : Option ℕ}
    → Fresh libc
    → Sound p
    → calloc_no_trace libc count size p.heap ≡ done (h', v)
    → Sound (assign i p (h', v))
unfolding calloc_no_trace
calloc-Sound libc count size i p {h'} {v} fresh ok run =
    elim (Option-cases (libc.calloc p.heap count size)) [
      | inl e ↦
          let kept : Heap × Option ℕ = (p.heap, none) in
          let same : kept ≡ (h', v) = ground (arith, run) in
          subst (λ r. Sound (assign i p r)) same (none-Sound i p ok)
      | inr (a, e) ↦
          let taken : Heap × Option ℕ = (marking p.heap a true, some a) in
          let same : taken ≡ (h', v) = ground (arith, run) in
          subst (λ r. Sound (assign i p r)) same (some-Sound i p a ok (fresh p.heap count size a e))
    ]

free-Sound :
    (i : ℕ) (p : Program) {h' : Heap}
    → Sound p
    → free_no_trace (p.slots i) p.heap ≡ done (h', none)
    → Sound (assign i p (h', none))
unfolding free_no_trace
free-Sound i p {h'} ok run = elim (Option-cases (p.slots i)) [
  | inl e ↦
      let kept : Heap × Option ℕ = (p.heap, none) in
      let same : kept ≡ (h', none) = ground (arith, run) in
      subst (λ r. Sound (assign i p r)) same (none-Sound i p ok)
  | inr (a, e) ↦
      let live = ok.alive i a e in
      let freed : Heap × Option ℕ = (marking p.heap a false, none) in
      let same : freed ≡ (h', none) = ground (arith, run) in
      subst (λ r. Sound (assign i p r)) same (freed-Sound i p a ok e)
]

-- The program with another log.
abbrev pub logged : Logger → Program → Program
logged l p = record p { heap = logging l p.heap }

-- Neither what a variable holds nor what is alive depends on the log.
logged-Sound : (l : Logger) (p : Program) → Sound p → Sound (logged l p)
logged-Sound l p ok = record { alive = ok.alive; apart = ok.apart }

both-true : (a b : Bool) → (a && b) ≡ true → (a ≡ true) × (b ≡ true)
both-true a b e = ground arith

module _ (mem : Allocator) (libc : Libc) (fresh : Fresh libc) (shows : Shows libc) where
  traced_call-Sound :
      (c : MemoryCall) (p : Program)
      → Sound p
      → Ready p.heap.logger
      → brief c ≡ true
      → (h' : Heap) × (v : Option ℕ) × (traced_call mem libc c p ≡ done (h', v))
        × Ready h'.logger
        × Sound (assign (slot_of c) p (h', v))
  unfolding traced_call
  traced_call-Sound (malloc i arg size) p ok ready short =
      let (l, l', h', v, given, run, ready') =
        traced_malloc-done mem libc shows arg size p.heap ready (ltb→lt _ _ short) in
      let sound = calloc-Sound libc 1 size i (logged l p) fresh (logged-Sound l p ok) given in
      (logging l' h', v, run, ready', logged-Sound l' _ sound)
  traced_call-Sound (calloc i arg arg' count size) p ok ready short =
      let (one, other) = both-true _ _ short in
      let (l, l', h', v, given, run, ready') =
        traced_calloc-done mem libc shows arg arg' count size p.heap ready (ltb→lt _ _ one)
          (ltb→lt _ _ other) in
      let sound = calloc-Sound libc count size i (logged l p) fresh (logged-Sound l p ok) given in
      (logging l' h', v, run, ready', logged-Sound l' _ sound)
  traced_call-Sound (free i arg) p ok ready short =
      let (l, h', given, run, ready') =
        traced_free-done mem libc shows arg (p.slots i) p.heap ready (ltb→lt _ _ short)
          (ok.alive i) in
      (h', none, run, ready', free-Sound i (logged l p) (logged-Sound l p ok) given)

  -- In the build with tracing, from a state in which the variables hold distinct blocks that are
  -- alive, with the mutex of the log free and `go_log_buffer_len` 0, and a C library whose calloc gives
  -- no address of a block of the program that is alive and whose %p is not long: every sequence of
  -- uses of the macros with arguments that are not long returns, so that no block is freed twice;
  -- the variables again hold distinct blocks that are alive, and the mutex is free.
  pub traced_calls-Sound :
      (cs : List MemoryCall) (p : Program)
      → Sound p
      → Ready p.heap.logger
      → all_brief cs ≡ true
      → (q : Program) × (traced_calls mem libc cs p ≡ done q) × Ready q.heap.logger × Sound q
  unfolding traced_calls
  traced_calls-Sound [] p ok ready short = (p, refl, ready, ok)
  traced_calls-Sound (c ∷ cs) p ok ready short =
      let (one, others) = both-true _ _ short in
      let (h', v, run, ready1, ok1) = traced_call-Sound c p ok ready one in
      let next : Program = assign (slot_of c) p (h', v) in
      let (q, rest, ready', ok') = traced_calls-Sound cs next ok1 ready1 others in
      (q, rw run rest, ready', ok')
