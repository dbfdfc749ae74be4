-- ===== src/Avio/Open.antt =====
-- audiofs_avio_open, audiofs_avio_close, audiofs_avio_get_size and audiofs_avio_is_memory_backed of
-- native/custom_avio.c, in the release build, where debugf is empty.
pub mod Laws
use audio_fs.Base.{
  ℕ, ◌+◌, ◌-◌, Bool, true, false, ◌&&◌, List, [], ◌∷◌, Option, none, some, ◌==◌, if◌then◌else◌,
}
use audio_fs.Base.Int.{ℤ, pos, negsuc, is_neg, eq_ℤ}
use audio_fs.Word.{to_int64}
use audio_fs.Memory.{Allocator, handle_struct}
use audio_fs.Buffer.{Buffer, buffer_alloc}
use audio_fs.Avio.{Handle, Posix}

-- What the code has allocated and opened, and not given back: handle structures, buffer structures,
-- blocks of data, file descriptors.
pub record Ledger : Type 0 where
  pub handles : ℕ
  pub buffers : ℕ
  pub blocks : ℕ
  pub files : ℕ

-- sizeof(audiofs_avio_handle) on 64-bit Linux
abbrev pub sizeof_handle : ℕ
sizeof_handle = 32

-- The bytes of "memory".
abbrev pub memory_name : List ℕ
memory_name = b'm' ∷ b'e' ∷ b'm' ∷ b'o' ∷ b'r' ∷ b'y' ∷ []

-- memcmp(a, b, strlen(a)) == 0 for two C strings without their final 0: a difference at the end of
-- `b` counts, since `a` holds no 0 byte. Where `a` is longer than `b`, the call names bytes behind the
-- literal; the comparison is taken to end at the first difference, as that of the C library does.
unfoldable pub begins : List ℕ → List ℕ → Bool
begins [] b = true
begins (x ∷ a) [] = false
begins (x ∷ a) (y ∷ b) = x == y && begins a b

-- The branch for a handle in memory. The test `handle->buffer < 0` never holds of a pointer, so a
-- buffer that is NULL passes.
unfoldable pub open_memory : Allocator → ℕ → Ledger → Option Handle × Ledger
open_memory mem address l =
    let buffer = buffer_alloc mem address 1024 in
    (
      some (record {
        file = pos 0;
        in_memory = true;
        buffer = buffer;
        apparent_size = 0;
        position = 0;
      }),
      elim buffer [
        | none ↦ l
        | some b ↦ record l { buffers = l.buffers + 1; blocks = l.blocks + 1 }
      ],
    )

-- The branch for a file. A failure returns with the handle structure still allocated.
unfoldable pub open_path : Posix → List ℕ → Ledger → Option Handle × Ledger
open_path os filename l =
    let file = os.open_file filename in
    if is_neg file then (none, l) else (
      some (record {
        file = file;
        in_memory = false;
        buffer = none;
        apparent_size = 0;
        position = 0;
      }),
      record l { files = l.files + 1 },
    )

-- audiofs_avio_open; `address` is where a buffer structure goes.
unfoldable pub avio_open : Allocator → Posix → ℕ → List ℕ → Ledger → Option Handle × Ledger
unfolding open_memory open_path begins
avio_open mem os address filename l =
    if mem.grants handle_struct sizeof_handle
    then (let l' = record l { handles = l.handles + 1 } in
        if begins filename memory_name
        then open_memory mem address l'
        else open_path os filename l')
    else (none, l)

-- audiofs_avio_close: it frees the buffer structure, and not the block that it points to.
unfoldable pub avio_close : Handle → Ledger → Ledger
avio_close h l =
    let l' =
      if h.in_memory
      then elim h.buffer [ none ↦ l | some b ↦ record l { buffers = l.buffers - 1 } ]
      else record l { files = l.files - 1 } in
    record l' { handles = l'.handles - 1 }

-- audiofs_avio_get_size
unfoldable pub avio_get_size : Posix → Handle → ℤ
avio_get_size os h = if h.in_memory then to_int64 h.apparent_size else elim (os.fstat_size h.file) [
  | none ↦ negsuc 0
  | some size ↦ if eq_ℤ size (pos 0) then negsuc 0 else size
]

-- audiofs_avio_is_memory_backed
unfoldable pub is_memory_backed : Handle → Bool
is_memory_backed h = h.in_memory
