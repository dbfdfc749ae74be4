-- ===== src/Avio/Open/Laws.antt =====
-- Which names open a buffer in memory, what the handle is like, and what open and close leave behind.
use audio_fs.Base.{
  ℕ, ◌+◌, ◌≡◌, refl, ◌≤◌, ◌<◌, ◌↔◌, true, false, List, [], ◌∷◌, ◌++◌, none, some, arith,
  if◌then◌else◌,
}
use audio_fs.Base.Int.{pos, negsuc}
use audio_fs.Avio.Resize.{resize_to}
use audio_fs.Memory.{zeroed, Request, fault, Allocator, handle_struct, buffer_struct, buffer_data}
use audio_fs.Buffer.{Buffer, magic_a, sizeof_buffer, buffer_alloc}
use audio_fs.Buffer.Valid.{block_byte}
use audio_fs.Avio.{Handle, Posix, int32_max}
use audio_fs.Avio.Transfer.{avio_write}
use audio_fs.Avio.Transfer.Laws.{MemoryBacked}
use audio_fs.Avio.Open.{Ledger, sizeof_handle, memory_name, begins, avio_open, avio_close}

-- The comparison by memcmp takes exactly the prefixes of "memory", the empty name among them.
begins_iff : (a b : List ℕ) → (begins a b ≡ true) ↔ ((rest : List ℕ) × (a ++ rest ≡ b))
unfolding begins
begins_iff [] b = (λ e. (b, refl), λ p. refl)
begins_iff (x ∷ a) [] = (λ e. cc, λ p. cc (p.1))
begins_iff (x ∷ a) (y ∷ b) = (
  λ e.
      let (rest, same) = (begins_iff a b).0 (ground arith) in
      let head : x ≡ y = ground arith in (rest, cc (same, head)),
  λ p.
      let tails : a ++ p.0 ≡ b = cc (p.1) in
      let heads : x ≡ y = cc (p.1) in ground (arith, (begins_iff a b).1 (p.0, tails)),
)

-- The buffer of a handle that has just been opened in memory.
abbrev new_buffer : ℕ → Buffer
new_buffer address = record {
  address = address;
  cookie = magic_a;
  block = some (zeroed 1024);
  len = 1024;
  lock = false;
  self = address;
  used_outside_audiofs = false;
}

module _ (mem : Allocator) (os : Posix) (address : ℕ) (filename : List ℕ) (l : Ledger) where
  -- With memory granted, a name that is a prefix of "memory" opens a handle in memory, at position and
  -- size 0, with a valid buffer of 1024 zero bytes; one handle, one buffer and one block are allocated.
  pub avio_open_memory :
      begins filename memory_name ≡ true
      → ((r : Request) (size : ℕ) → mem.grants r size ≡ true)
      → (h : Handle) × (b : Buffer) × (avio_open mem os address filename l ≡ (
        some h,
        record l { handles = l.handles + 1; buffers = l.buffers + 1; blocks = l.blocks + 1 },
      ))
        × MemoryBacked h b
        × (h.position ≡ 0)
        × (h.apparent_size ≡ 0)
        × (b.len ≡ 1024)
        × ((i : ℕ) → i < 1024 → block_byte b.block i ≡ some 0)
  unfolding avio_open buffer_alloc
  avio_open_memory name all = (
    record {
      file = pos 0;
      in_memory = true;
      buffer = some (new_buffer address);
      apparent_size = 0;
      position = 0;
    },
    new_buffer address,
    ground (
      arith,
      all handle_struct sizeof_handle,
      all buffer_struct sizeof_buffer,
      all buffer_data 1024,
    ),
    record { memory = refl; held = refl; valid = ground arith; nonempty = omega arith },
    refl,
    refl,
    refl,
    λ i p. ground arith,
  )

  -- Where the allocator refuses the buffer, the handle is returned all the same, and every write of
  -- up to INT32_MAX bytes to it uses a NULL pointer.
  avio_open-avio_write_fault :
      begins filename memory_name ≡ true
      → mem.grants handle_struct sizeof_handle ≡ true
      → mem.grants buffer_struct sizeof_buffer ≡ false
      → (h : Handle) × (avio_open mem os address filename l
          ≡ (some h, record l { handles = l.handles + 1 }))
        × ((buf : List ℕ) (n : ℕ) → n ≤ int32_max → avio_write mem os h buf (pos n) ≡ fault)
  unfolding avio_open buffer_alloc avio_write resize_to
  avio_open-avio_write_fault name g refused = (
    record { file = pos 0; in_memory = true; buffer = none; apparent_size = 0; position = 0 },
    ground arith,
    λ buf n p. ground arith,
  )

  -- A name that opens a file: the handle has the descriptor; where open(2) fails the result is NULL,
  -- and the handle structure that was allocated stays so.
  avio_open_file :
      begins filename memory_name ≡ false
      → mem.grants handle_struct sizeof_handle ≡ true
      → ((fd : ℕ)
          → os.open_file filename ≡ pos fd
          → (h : Handle) × (avio_open mem os address filename l
              ≡ (some h, record l { handles = l.handles + 1; files = l.files + 1 }))
            × (h.file ≡ pos fd)
            × (h.in_memory ≡ false))
        × ((e : ℕ)
            → os.open_file filename ≡ negsuc e
            → avio_open mem os address filename l ≡ (none, record l { handles = l.handles + 1 }))
  unfolding avio_open
  avio_open_file name g = (
    λ fd e. (
      record { file = pos fd; in_memory = false; buffer = none; apparent_size = 0; position = 0 },
      ground arith,
      refl,
      refl,
    ),
    λ n e. ground arith,
  )

  -- Open and close of a handle in memory give back the handle and the buffer structure, and leave one
  -- block of data allocated; of a file they leave nothing.
  avio_open-avio_close :
      {h : Handle} {l' : Ledger}
      → mem.grants buffer_struct sizeof_buffer ≡ true
      → mem.grants buffer_data 1024 ≡ true
      → avio_open mem os address filename l ≡ (some h, l')
      → avio_close h l' ≡ (if h.in_memory then record l { blocks = l.blocks + 1 } else l)
  unfolding avio_open avio_close buffer_alloc
  avio_open-avio_close g g' e = ground arith
