-- ===== src/Avio/Transfer.antt =====
-- audiofs_avio_read and audiofs_avio_write of native/custom_avio.c.
pub mod Laws
pub mod Reads
pub mod Sequence
pub mod Replay
pub mod Descriptor
use audio_fs.Base.{ℕ, ◌+◌, Bool, true, false, List, [], none, some, Option, ltb, if◌then◌else◌}
use audio_fs.Base.Int.{ℤ, pos, negsuc, is_nonzero}
use audio_fs.Word.{u64, sub64, c_min, int32}
use audio_fs.Memory.{Outcome, done, fault, ◌>>=◌, Block, Allocator, copy_in, copy_out}
use audio_fs.Buffer.{Buffer}
use audio_fs.Avio.{Handle, Posix, int32_max}
use audio_fs.Avio.Resize.{resize_to}

-- What a read does: the handle, the value returned, and the bytes that it put into `buf`.
abbrev pub Reading : Type 0
Reading = Handle × ℤ × List ℕ

-- `handle->buffer->data`; a use of a buffer or of data that is NULL is a fault.
abbrev pub data_of : Option Buffer → Outcome Block
data_of none = fault
data_of (some b) = elim b.block [ none ↦ fault | some block ↦ done block ]

-- The branch of audiofs_avio_read for a handle in memory.
unfoldable pub read_memory : Handle → ℕ → Outcome Reading
unfolding copy_out int32
read_memory h bs64 =
    let end_position = c_min (u64 (h.position + bs64)) h.apparent_size in
    let read_count = sub64 end_position h.position in
    do
      block ← data_of h.buffer
      bytes ← copy_out bs64 read_count block
      done (record h { position = end_position }, int32 (pos read_count), bytes)

-- audiofs_avio_read into a `buf` of `buf_size` bytes.
unfoldable pub avio_read : Posix → Handle → ℤ → Outcome Reading
unfolding read_memory int32
avio_read os h (negsuc n) = done (h, negsuc 0, [])
avio_read os h (pos n) =
    if ltb int32_max n
    then done (h, negsuc 0, [])
    else if h.in_memory
    then read_memory h n
    else (let (ret, bytes) = os.read h.file n in done (h, int32 ret, bytes))

-- The memcpy and what follows it, once the buffer has room.
unfoldable pub write_block : Handle → List ℕ → ℕ → Outcome (Handle × ℤ)
unfolding copy_in int32
write_block h buf bs64 = elim h.buffer [
  | none ↦ fault
  | some b ↦ elim b.block [
    | none ↦ fault
    | some block ↦ copy_in bs64 buf block >>= λ block'. done (
      record h {
        buffer = some (record b { block = some block' });
        position = u64 (h.position + bs64);
        apparent_size = u64 (h.apparent_size + bs64);
      },
      int32 (pos bs64),
    )
  ]
]

-- The branch of audiofs_avio_write for a handle in memory.
unfoldable pub write_memory : Allocator → Handle → List ℕ → ℕ → Outcome (Handle × ℤ)
unfolding write_block
write_memory mem h buf bs64 = resize_to mem h (u64 (h.position + bs64)) >>= λ r.
    if is_nonzero r.1 then done (r.0, negsuc 0) else write_block r.0 buf bs64

-- audiofs_avio_write of the first `buf_size` bytes of `buf`.
unfoldable pub avio_write : Allocator → Posix → Handle → List ℕ → ℤ → Outcome (Handle × ℤ)
unfolding write_memory int32
avio_write mem os h buf (negsuc n) = done (h, negsuc 0)
avio_write mem os h buf (pos n) =
    if ltb int32_max n
    then done (h, negsuc 0)
    else if h.in_memory
    then write_memory mem h buf n
    else done (h, int32 (os.write h.file buf n))
