-- ===== src/Log/Sequence.antt =====
-- Any number of log calls, against a description that has neither memory nor a mutex.
use audio_fs.Base.{
  ℕ, ◌+◌, ◌≡◌, refl, sym, ap, ◌∙◌, ◌<◌, Bool, true, false, ◌&&◌, Bool-cases, inl, inr, List, [],
  ◌∷◌, ◌++◌, none, some, length, arith, ltb, ltb→lt, if◌then◌else◌,
}
use mathlib.Core.List.{append-nil, append_assoc}
use audio_fs.Base.Int.{ℤ}
use audio_fs.Memory.{done, ◌>>=◌, Allocator, log_line}
use audio_fs.Avio.{int32_max}
use audio_fs.Log.{
  Level, Entry, Logger, listens, severity_of, LogCall, set_level, log, log_calls,
  audiofs_log_level_set,
}
use audio_fs.Log.Laws.{
  with_line, present, room, audiofs_log_granted, audiofs_log_refused, audiofs_log_quiet,
}

-- Each text can be formatted and has less than INT_MAX bytes.
abbrev pub printable : List LogCall → Bool
printable [] = true
printable (set_level n ∷ cs) = printable cs
printable (log mem level none ∷ cs) = false
printable (log mem level (some line) ∷ cs) = ltb (length line) int32_max && printable cs

abbrev pub granted : Allocator → List ℕ → Bool
granted mem line = mem.grants log_line (length line + 1)

-- The entries: the lines whose level is listened to and that memory is granted for, in order.
abbrev pub heard : ℤ → List LogCall → List Entry
heard go_log_level [] = []
heard go_log_level (set_level n ∷ cs) = heard n cs
heard go_log_level (log mem level none ∷ cs) = heard go_log_level cs
heard go_log_level (log mem level (some line) ∷ cs) =
    let rest = heard go_log_level cs in
    if listens go_log_level level && granted mem line
    then (severity_of level, line) ∷ rest
    else rest

-- How many lines memory is refused for.
abbrev pub refusals : ℤ → List LogCall → ℕ
refusals go_log_level [] = 0
refusals go_log_level (set_level n ∷ cs) = refusals n cs
refusals go_log_level (log mem level none ∷ cs) = refusals go_log_level cs
refusals go_log_level (log mem level (some line) ∷ cs) =
    let rest = refusals go_log_level cs in
    if listens go_log_level level then (if granted mem line then rest else rest + 1) else rest

-- How many of them find a buffer, which the line before has left if it was granted memory.
abbrev pub losses : ℤ → Bool → List LogCall → ℕ
losses go_log_level buffered [] = 0
losses go_log_level buffered (set_level n ∷ cs) = losses n buffered cs
losses go_log_level buffered (log mem level none ∷ cs) = losses go_log_level buffered cs
losses go_log_level buffered (log mem level (some line) ∷ cs) =
    let after = losses go_log_level true cs in
    let gone = losses go_log_level false cs in
    let off = losses go_log_level buffered cs in
    if listens go_log_level level
    then (if granted mem line then after else (if buffered then 1 else 0) + gone)
    else off

pub record Logged (cs : List LogCall) (s s' : Logger) : Type 0 where
  pub free : s'.go_log_mutex ≡ false
  pub written : s'.entries ≡ s.entries ++ heard s.go_log_level cs
  pub refused : s'.complaints ≡ s.complaints + refusals s.go_log_level cs
  pub leaked : s'.lost ≡ s.lost + losses s.go_log_level (present s.go_log_buffer) cs

-- The state that a granted, and a refused line leaves.
abbrev after_granted : Allocator → Level → List ℕ → Logger → Logger
after_granted mem level line s = record s {
  go_log_mutex = false;
  go_log_buffer = some (with_line line (room mem (length line + 1) s.go_log_buffer));
  entries = s.entries ++ ((severity_of level, line) ∷ []);
}

abbrev after_refused : Logger → Logger
after_refused s = record s {
  go_log_mutex = false;
  go_log_buffer = none;
  complaints = s.complaints + 1;
  lost = s.lost + (if present s.go_log_buffer then 1 else 0);
}

granted-Logged :
    (mem : Allocator) (level : Level) (line : List ℕ) (cs : List LogCall) (s s' : Logger)
    → listens s.go_log_level level ≡ true
    → granted mem line ≡ true
    → Logged cs (after_granted mem level line s) s'
    → Logged (log mem level (some line) ∷ cs) s s'
granted-Logged mem level line cs s s' on g r = record {
  free = r.free;
  written =
      r.written
      ∙ append_assoc s.entries ((severity_of level, line) ∷ []) (heard s.go_log_level cs)
      ∙ ground arith;
  refused = ground (arith, r.refused);
  leaked = ground (arith, r.leaked);
}

refused-Logged :
    (mem : Allocator) (level : Level) (line : List ℕ) (cs : List LogCall) (s s' : Logger)
    → listens s.go_log_level level ≡ true
    → granted mem line ≡ false
    → Logged cs (after_refused s) s'
    → Logged (log mem level (some line) ∷ cs) s s'
refused-Logged mem level line cs s s' on g r = record {
  free = r.free;
  written = ground (arith, r.written);
  refused = ground (arith, r.refused);
  leaked = ground (arith, r.leaked);
}

quiet-Logged :
    (mem : Allocator) (level : Level) (line : List ℕ) (cs : List LogCall) (s s' : Logger)
    → listens s.go_log_level level ≡ false
    → Logged cs s s'
    → Logged (log mem level (some line) ∷ cs) s s'
quiet-Logged mem level line cs s s' off r = record {
  free = r.free;
  written = ground (arith, r.written);
  refused = ground (arith, r.refused);
  leaked = ground (arith, r.leaked);
}

-- From a state where nobody holds the mutex and go_log_buffer_len is 0, as at the start, any sequence
-- of calls with printable texts returns: no access is outside the buffer and no call waits. The
-- entries are, in order, the lines whose level was listened to at that time and that memory was
-- granted for. The others that were listened to went to stderr, and each of those that found a buffer
-- has lost it.
pub log_calls_lem :
    (cs : List LogCall) (s : Logger)
    → s.go_log_mutex ≡ false
    → s.go_log_buffer_len ≡ 0
    → printable cs ≡ true
    → (s' : Logger) × (log_calls cs s ≡ done s') × Logged cs s s'
unfolding log_calls audiofs_log_level_set
log_calls_lem [] s free e ok = (
  s,
  refl,
  record {
    free = free;
    written = sym (append-nil s.entries);
    refused = omega arith;
    leaked = omega arith;
  },
)
log_calls_lem (set_level n ∷ cs) s free e ok =
    let (s', run, r) = log_calls_lem cs (record s { go_log_level = n }) free e ok in
    (s', run, record { free = r.free; written = r.written; refused = r.refused; leaked = r.leaked })
log_calls_lem (log mem level none ∷ cs) s free e ok = absurd (ground arith)
log_calls_lem (log mem level (some line) ∷ cs) s free e ok =
    let short : length line < int32_max = ltb→lt (length line) int32_max (ground arith) in
    let rest : printable cs ≡ true = ground arith in
    elim (Bool-cases (listens s.go_log_level level)) [
      | inr off ↦
          let (s', run, r) = log_calls_lem cs s free e rest in
          (
            s',
            ap (λ o. o >>= log_calls cs) (audiofs_log_quiet mem level (some line) s off) ∙ run,
            quiet-Logged mem level line cs s s' off r,
          )
      | inl on ↦ elim (Bool-cases (granted mem line)) [
        | inl g ↦
            let (s', run, r) = log_calls_lem cs (after_granted mem level line s) refl e rest in
            (
              s',
              ap (λ o. o >>= log_calls cs) (audiofs_log_granted mem level line s free e short on g)
                  ∙ run,
              granted-Logged mem level line cs s s' on g r,
            )
        | inr g ↦
            let (s', run, r) = log_calls_lem cs (after_refused s) refl e rest in
            (
              s',
              ap (λ o. o >>= log_calls cs) (audiofs_log_refused mem level line s free e short on g)
                  ∙ run,
              refused-Logged mem level line cs s s' on g r,
            )
      ]
    ]
