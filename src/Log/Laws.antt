-- ===== src/Log/Laws.antt =====
-- One call of audiofs_log.
use audio_fs.Base.{
  ℕ, zero, suc, ◌+◌, ◌≡◌, refl, ◌<◌, Bool, true, false, List, [], ◌∷◌, ◌++◌, Option, none, some,
  length, get_or, length-append, list_ext, arith, ltb, if◌then◌else◌,
}
use audio_fs.Memory.{
  done, Block, Allocator, log_line, copy_in, copy_out, tabulate, length-tabulate, get_or-tabulate,
  reallocated,
}
use audio_fs.Avio.{int32_max}
use audio_fs.Log.{
  Level, Logger, listens, severity_of, room_for, print_line, write_line, log_locked, audiofs_log,
}

-- The block behind a line: the text and its NUL.
abbrev pub with_line : List ℕ → Block → Block
with_line line b = record b {
  byte = λ i. if ltb i (length line + 1) then get_or (line ++ (0 ∷ [])) i 0 else b.byte i;
}

get_or-append-front :
    (xs ys : List ℕ) (i : ℕ) → i < length xs → get_or (xs ++ ys) i 0 ≡ get_or xs i 0
get_or-append-front [] ys i p = absurd (omega arith)
get_or-append-front (x ∷ xs) ys zero p = refl
get_or-append-front (x ∷ xs) ys (suc i) p = get_or-append-front xs ys i (omega arith)

tabulate-with_line :
    (line : List ℕ) (b : Block) → tabulate (length line) (with_line line b).byte ≡ line
tabulate-with_line line b =
    list_ext (tabulate (length line) (with_line line b).byte) line
      (length-tabulate (length line) (with_line line b).byte)
      (λ i p. ground (
        arith,
        get_or-tabulate (length line) (with_line line b).byte i 0 p,
        get_or-append-front line (0 ∷ []) i p,
      ))

print_line_lem :
    (level : Level) (line : List ℕ) (b : Block) (s : Logger)
    → b.size ≡ length line + 1
    → print_line level line b s
      ≡ done (record s {
        go_log_buffer = some (with_line line b);
        entries = s.entries ++ ((severity_of level, line) ∷ []);
      })
unfolding print_line copy_in copy_out
print_line_lem level line b s p =
    ground (arith, length-append line (0 ∷ []), tabulate-with_line line b)

abbrev pub present : Option Block → Bool
present none = false
present (some b) = true

-- The memory for a line of `n` bytes, NUL included, where the allocator grants it.
abbrev pub room : Allocator → ℕ → Option Block → Block
room mem n none = record { size = n; byte = mem.garbage }
room mem n (some b) = reallocated mem b n

size-room : (mem : Allocator) (n : ℕ) (o : Option Block) → (room mem n o).size ≡ n
unfolding reallocated
size-room mem n none = refl
size-room mem n (some b) = refl

room_for_granted :
    (mem : Allocator) (n : ℕ) (s : Logger)
    → s.go_log_buffer_len ≡ 0
    → 0 < n
    → mem.grants log_line n ≡ true
    → room_for mem n s ≡ record s { go_log_buffer = some (room mem n s.go_log_buffer) }
unfolding room_for
room_for_granted mem n s e p g = ground arith

room_for_refused :
    (mem : Allocator) (n : ℕ) (s : Logger)
    → s.go_log_buffer_len ≡ 0
    → 0 < n
    → mem.grants log_line n ≡ false
    → room_for mem n s ≡ record s {
      go_log_buffer = none;
      lost = s.lost + (if present s.go_log_buffer then 1 else 0);
    }
unfolding room_for
room_for_refused mem n s e p g = ground arith

-- A line that is heard: its text is in the log, and it lies in the buffer with its NUL.
pub audiofs_log_granted :
    (mem : Allocator) (level : Level) (line : List ℕ) (s : Logger)
    → s.go_log_mutex ≡ false
    → s.go_log_buffer_len ≡ 0
    → length line < int32_max
    → listens s.go_log_level level ≡ true
    → mem.grants log_line (length line + 1) ≡ true
    → audiofs_log mem level (some line) s
      ≡ done (record s {
        go_log_mutex = false;
        go_log_buffer = some (with_line line (room mem (length line + 1) s.go_log_buffer));
        entries = s.entries ++ ((severity_of level, line) ∷ []);
      })
unfolding audiofs_log log_locked write_line
audiofs_log_granted mem level line s free e short on g =
    let held : Logger = record s { go_log_mutex = true } in
    ground (
      arith,
      room_for_granted mem (length line + 1) held e (omega arith) g,
      print_line_lem level line (room mem (length line + 1) s.go_log_buffer)
          (record held { go_log_buffer = some (room mem (length line + 1) s.go_log_buffer) })
          (size-room mem (length line + 1) s.go_log_buffer),
    )

-- A line that memory is refused for goes to stderr, and a buffer that was there is lost.
pub audiofs_log_refused :
    (mem : Allocator) (level : Level) (line : List ℕ) (s : Logger)
    → s.go_log_mutex ≡ false
    → s.go_log_buffer_len ≡ 0
    → length line < int32_max
    → listens s.go_log_level level ≡ true
    → mem.grants log_line (length line + 1) ≡ false
    → audiofs_log mem level (some line) s
      ≡ done (record s {
        go_log_mutex = false;
        go_log_buffer = none;
        complaints = s.complaints + 1;
        lost = s.lost + (if present s.go_log_buffer then 1 else 0);
      })
unfolding audiofs_log log_locked write_line
audiofs_log_refused mem level line s free e short on g =
    let held : Logger = record s { go_log_mutex = true } in
    ground (arith, room_for_refused mem (length line + 1) held e (omega arith) g)

pub audiofs_log_quiet :
    (mem : Allocator) (level : Level) (message : Option (List ℕ)) (s : Logger)
    → listens s.go_log_level level ≡ false
    → audiofs_log mem level message s ≡ done s
unfolding audiofs_log
audiofs_log_quiet mem level message s off = ground arith
