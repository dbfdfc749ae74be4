-- ===== src/Log.antt =====
-- The log of the C code: the variables of native/logbuffer.c, audiofs_log of native/macros.h as cgo
-- builds it, and go_print of native/golang_glue.go.
pub mod Laws
pub mod Sequence
pub mod Allocation
mod Tests
use audio_fs.Base.{
  ℕ, ◌+◌, Bool, true, false, List, [], ◌∷◌, ◌++◌, Option, none, some, length, ltb, ◌==◌,
  if◌then◌else◌,
}
use audio_fs.Base.Int.{ℤ, pos, leb_ℤ}
use audio_fs.Memory.{
  Outcome, done, fault, blocked, ◌>>=◌, Block, log_line, Allocator, reallocated, copy_in, copy_out,
}
use audio_fs.Avio.{int32_max}

-- AUDIOFS_LOG_PANIC to AUDIOFS_LOG_TRACE
pub data Level : Type 0 where
  panic fatal error warn info debug trace : Level

abbrev pub level_code : Level → ℕ
level_code panic = 0
level_code fatal = 1
level_code error = 2
level_code warn = 3
level_code info = 4
level_code debug = 5
level_code trace = 6

-- The levels at which go_print hands a text to logrus.
pub data Severity : Type 0 where
  as_error as_warn as_info as_debug as_trace : Severity

abbrev pub Entry : Type 0
Entry = Severity × List ℕ

-- The variables of native/logbuffer.c; the mutex is whether it is held. `entries` is what go_print has
-- handed to logrus, `complaints` counts the lines that went to stderr instead, and `lost` the blocks that are
-- allocated with no pointer left to them.
pub record Logger : Type 0 where
  pub go_log_mutex : Bool
  pub go_log_buffer : Option Block
  pub go_log_buffer_len : ℕ
  pub go_log_level : ℤ
  pub entries : List Entry
  pub complaints : ℕ
  pub lost : ℕ

-- audiofs_log_level_set
unfoldable pub audiofs_log_level_set : ℤ → Logger → Logger
audiofs_log_level_set level s = record s { go_log_level = level }

-- `level <= go_log_level`
abbrev pub listens : ℤ → Level → Bool
listens go_log_level level = leb_ℤ (pos (level_code level)) go_log_level

-- The switch of go_print.
unfoldable pub severity_of : Level → Severity
severity_of panic = as_error
severity_of fatal = as_error
severity_of error = as_error
severity_of warn = as_warn
severity_of info = as_info
severity_of debug = as_debug
severity_of trace = as_trace

-- The choice of memory for `size` bytes, len + 1 in the code.
unfoldable pub room_for : Allocator → ℕ → Logger → Logger
unfolding reallocated
room_for mem size s = elim s.go_log_buffer [
  | none ↦
      if mem.grants log_line size
      then record s { go_log_buffer = some (record { size = size; byte = mem.garbage }) }
      else s
  | some b ↦
      if ltb s.go_log_buffer_len size
      then (if mem.grants log_line size
          then record s { go_log_buffer = some (reallocated mem b size) }
          else record s { go_log_buffer = none; lost = s.lost + 1 })
      else s
]

-- The second snprintf into the buffer, and go_print, which copies the text without its NUL.
unfoldable pub print_line : Level → List ℕ → Block → Logger → Outcome Logger
unfolding copy_in copy_out severity_of
print_line level line b s = do
  b' ← copy_in (length line + 1) (line ++ (0 ∷ [])) b
  heard ← copy_out (length line) (length line) b'
  done (record s {
    go_log_buffer = some b';
    entries = s.entries ++ ((severity_of level, heard) ∷ []);
  })

-- The line on stderr where there is no buffer.
abbrev pub complained : Logger → Logger
complained s = record s { complaints = s.complaints + 1 }

-- A text that the first snprintf has measured.
unfoldable pub write_line : Allocator → Level → List ℕ → Logger → Outcome Logger
unfolding room_for print_line
write_line mem level line s =
    let s' = room_for mem (length line + 1) s in
    elim s'.go_log_buffer [ none ↦ done (complained s') | some b ↦ print_line level line b s' ]

-- A text that snprintf gives -1 for: no byte is asked for, and go_print is given the length -1, for
-- which C.GoStringN panics. `fault` stands for the panic.
unfoldable pub write_nothing : Allocator → Logger → Outcome Logger
unfolding room_for
write_nothing mem s =
    let s' = room_for mem 0 s in
    elim s'.go_log_buffer [ none ↦ done (complained s') | some b ↦ fault ]

-- What is done with the mutex held. The message is the formatted text, or `none` where it cannot be
-- formatted; a text of INT_MAX bytes makes `len + 1` overflow, and a longer one is an error of
-- snprintf.
unfoldable pub log_locked : Allocator → Level → Option (List ℕ) → Logger → Outcome Logger
unfolding write_line write_nothing
log_locked mem level none s = write_nothing mem s
log_locked mem level (some line) s =
    if ltb int32_max (length line)
    then write_nothing mem s
    else if length line == int32_max
    then fault
    else write_line mem level line s

-- audiofs_log
unfoldable pub audiofs_log : Allocator → Level → Option (List ℕ) → Logger → Outcome Logger
unfolding log_locked
audiofs_log mem level message s =
    if listens s.go_log_level level
    then (if s.go_log_mutex
        then blocked
        else log_locked mem level message (record s { go_log_mutex = true }) >>= λ s'.
            done (record s' { go_log_mutex = false }))
    else done s

-- The calls from the program, with the allocator as it is at that time.
pub data LogCall : Type 0 where
  set_level : ℤ → LogCall
  log : Allocator → Level → Option (List ℕ) → LogCall

unfoldable pub log_calls : List LogCall → Logger → Outcome Logger
unfolding audiofs_log audiofs_log_level_set
log_calls [] s = done s
log_calls (set_level level ∷ cs) s = log_calls cs (audiofs_log_level_set level s)
log_calls (log mem level message ∷ cs) s = audiofs_log mem level message s >>= log_calls cs
