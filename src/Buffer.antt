-- ===== src/Buffer.antt =====
-- `audiofs_buffer` of native/types.h and its operations in native/util.h. An operation on a pointer
-- to a buffer takes the buffer and returns it changed; NULL is `none`.
pub mod Valid
pub mod Realloc
mod Tests
use audio_fs.Base.{
  ℕ, ◌+◌, ◌-◌, Bool, true, false, ◌&&◌, Option, none, some, ltb, leb, ◌==◌, if◌then◌else◌,
}
use audio_fs.Memory.{
  Outcome, done, fault, blocked, ◌>>=◌, Block, Request, buffer_struct, buffer_data, resize,
  emergency, Allocator, zeroed, reallocated,
}

-- _AUDIOFS_CONTEXT_MAGIC_A
abbrev pub magic_a : ℕ
magic_a = 0xd0d0cafe

-- `address` is where the structure lies; a mutex is whether it is held.
pub record Buffer : Type 0 where
  pub address : ℕ
  pub cookie : ℕ
  pub block : Option Block
  pub len : ℕ
  pub lock : Bool
  pub self : ℕ
  pub used_outside_audiofs : Bool

-- sizeof(audiofs_buffer) on 64-bit Linux
abbrev pub sizeof_buffer : ℕ
sizeof_buffer = 112

-- The structure as calloc gives it.
abbrev cleared : ℕ → Buffer
cleared address = record {
  address = address;
  cookie = 0;
  block = none;
  len = 0;
  lock = false;
  self = 0;
  used_outside_audiofs = false;
}

-- audiofs_buffer_alloc: `address` is where calloc puts the structure, if it finds room.
unfoldable pub buffer_alloc : Allocator → ℕ → ℕ → Option Buffer
buffer_alloc mem address size =
    if mem.grants buffer_struct sizeof_buffer
    then (let b = record (cleared address) { cookie = magic_a; self = address; len = size } in
        if size == 0
        then some b
        else if mem.grants buffer_data size
        then some
            (record b { block = some (zeroed size); used_outside_audiofs = false; lock = false })
        else none)
    else none

-- audiofs_buffer_ok, at a pointer that is not NULL.
unfoldable pub buffer_ok : Buffer → Bool
buffer_ok b = b.cookie == magic_a && b.self == b.address

-- What realloc hands back for `buffer->data`: NULL counts as a block of no bytes.
unfoldable pub realloc_data : Allocator → Option Block → ℕ → Option Block
unfolding reallocated
realloc_data mem none size =
    if mem.grants resize size then some (record { size = size; byte = mem.garbage }) else none
realloc_data mem (some b) size =
    if mem.grants resize size then some (reallocated mem b size) else none

-- The memset behind `if (buffer->len > size)`: it clears `len - size` bytes from index `len` of the
-- new block.
unfoldable pub blank_out : ℕ → ℕ → Block → Outcome Block
blank_out len size new =
    if ltb size len
    then (if leb (len + (len - size)) new.size
        then done (record new {
          byte = λ i. if leb len i && ltb i (len + (len - size)) then 0 else new.byte i;
        })
        else fault)
    else done new

-- The "emergency check": data that is NULL at a length that is not 0 is allocated, if there is room.
unfoldable pub provide_data : Allocator → ℕ → Option Block → Option Block
provide_data mem len none =
    if ltb 0 len then (if mem.grants emergency len then some (zeroed len) else none) else none
provide_data mem len (some b) = some b

-- The emergency check and what follows the label `ret`.
unfoldable pub finish_realloc : Allocator → Buffer → Outcome (Buffer × Bool)
unfolding provide_data
finish_realloc mem b =
    done (record b { block = provide_data mem b.len b.block; lock = false }, true)

-- The branch `size != buffer->len`.
unfoldable pub resize_data : Allocator → Buffer → ℕ → Outcome (Buffer × Bool)
unfolding realloc_data blank_out finish_realloc
resize_data mem b size = elim (realloc_data mem b.block size) [
  | none ↦ done (record b { lock = false }, false)
  | some new ↦ do
    new' ← blank_out b.len size new
    finish_realloc mem (record b { len = size; block = some new' })
]

-- What audiofs_buffer_realloc does with `lock` held.
unfoldable pub realloc_locked : Allocator → Buffer → ℕ → Outcome (Buffer × Bool)
unfolding resize_data finish_realloc
realloc_locked mem b size =
    if size == 0
    then done (record b { block = none; len = 0; lock = false }, true)
    else if size == b.len
    then finish_realloc mem b
    else resize_data mem b size

-- audiofs_buffer_realloc
unfoldable pub buffer_realloc : Allocator → Buffer → ℕ → Outcome (Buffer × Bool)
unfolding buffer_ok realloc_locked
buffer_realloc mem b size =
    if buffer_ok b
    then (if b.lock
        then blocked
        else realloc_locked mem (record b { lock = true; used_outside_audiofs = false }) size)
    else done (b, false)
