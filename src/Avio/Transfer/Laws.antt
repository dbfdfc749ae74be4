-- ===== src/Avio/Transfer/Laws.antt =====
-- A write to a handle in memory, on every branch, and where the bytes go.
use audio_fs.Base.{
  ℕ, ◌+◌, ◌^◌, ◌≡◌, refl, ap, ◌∙◌, ◌≤◌, ◌<◌, ◌⊎◌, inl, inr, true, false, List, Option, none, some,
  arith, ltb, length, get_or, if◌then◌else◌,
}
use audio_fs.Base.Int.{pos, negsuc}
use audio_fs.Word.{u64}
use audio_fs.Word.Laws.{int32_small}
use audio_fs.Memory.{done, Block, Allocator, resize}
use audio_fs.Buffer.{Buffer}
use audio_fs.Buffer.Valid.{IsValid, block_size, block_byte}
use audio_fs.Avio.{Handle, Posix, int32_max, int64_max}
use audio_fs.Avio.Resize.{resize_to}
use audio_fs.Avio.Resize.Laws.{Grew, resize_to-Resized}
use audio_fs.Avio.Transfer.{write_block, write_memory, avio_write}

-- A handle in memory, and its buffer, which is valid and not empty.
pub record MemoryBacked (h : Handle) (b : Buffer) : Type 0 where
  pub memory : h.in_memory ≡ true
  pub held : h.buffer ≡ some b
  pub valid : IsValid b
  pub nonempty : 0 < b.len

-- A handle whose buffer has grown is backed by it.
pub MemoryBacked-grown :
    (h : Handle) {b b' : Buffer}
    → MemoryBacked h b
    → Grew b b'
    → MemoryBacked (record h { buffer = some b' }) b'
MemoryBacked-grown h m g = record {
  memory = m.memory;
  held = refl;
  valid = g.valid;
  nonempty = omega (arith, g.longer, m.nonempty);
}

pub block_of :
    (o : Option Block) {n : ℕ}
    → block_size o ≡ n
    → 0 < n
    → (block : Block) × (o ≡ some block) × (block.size ≡ n)
block_of none e p = absurd (omega arith)
block_of (some block) e p = (block, refl, e)

-- What a write of `n` bytes of `buf` leaves: position and size have moved on by `n`, and the bytes
-- stand at the start of the buffer; the bytes behind them are the old ones.
pub record Written (h : Handle) (b : Buffer) (buf : List ℕ) (n : ℕ) (h' : Handle) (b' : Buffer)
    : Type 0 where
  pub backed : MemoryBacked h' b'
  pub moved : h'.position ≡ h.position + n
  pub counted : h'.apparent_size ≡ h.apparent_size + n
  pub room : h.position + n ≤ b'.len
  pub longer : b.len ≤ b'.len
  pub front : (i : ℕ) → i < n → block_byte b'.block i ≡ some (get_or buf i 0)
  pub behind : (i : ℕ) → n ≤ i → i < b.len → block_byte b'.block i ≡ block_byte b.block i

module _ (h : Handle) (buf : List ℕ) (n : ℕ) (b : Buffer) where
  abbrev stored : Block → Handle
  stored block = record h {
    buffer = some (record b {
      block = some (record block { byte = λ i. if ltb i n then get_or buf i 0 else block.byte i });
    });
    position = u64 (h.position + n);
    apparent_size = u64 (h.apparent_size + n);
  }

  write_block_lem :
      (block : Block)
      → h.buffer ≡ some b
      → b.block ≡ some block
      → n ≤ length buf
      → n ≤ block.size
      → n ≤ int32_max
      → write_block h buf n ≡ done (stored block, pos n)
  unfolding write_block
  write_block_lem block e f p q r = ground (arith, int32_small n (omega arith))

-- The stored handle is what a write should leave, seen from the buffer before it grew.
stored-Written :
    (h : Handle) (buf : List ℕ) (n : ℕ) (b grown : Buffer) (block : Block)
    → h.in_memory ≡ true
    → 0 < b.len
    → Grew b grown
    → grown.block ≡ some block
    → block.size ≡ grown.len
    → h.position + n ≤ grown.len
    → h.position + n ≤ int64_max
    → h.apparent_size + n < 2 ^ 64
    → (b' : Buffer) × Written h b buf n (stored h buf n grown block) b'
stored-Written h buf n b grown block m ne g e size room small fits = (
  record grown {
    block = some (record block { byte = λ i. if ltb i n then get_or buf i 0 else block.byte i });
  },
  record {
    backed = record {
      memory = m;
      held = refl;
      valid = ground (arith, g.valid);
      nonempty = omega (arith, g.longer);
    };
    moved = omega arith;
    counted = omega arith;
    room = room;
    longer = g.longer;
    front = λ i p. ground arith;
    behind = λ i p q. ground (arith, g.kept i q, g.longer);
  },
)

-- What a write that gets no memory leaves: position and size as they were, and a buffer that begins with
-- its bytes, which may have grown by the sizes that were granted.
pub record Refused (h : Handle) (b : Buffer) (h' : Handle) (b' : Buffer) : Type 0 where
  pub backed : MemoryBacked h' b'
  pub stayed : h'.position ≡ h.position
  pub uncounted : h'.apparent_size ≡ h.apparent_size
  pub same : Grew b b'

module _ (mem : Allocator) (os : Posix) (h : Handle) (buf : List ℕ) (n : ℕ) where
  write_unfold :
      h.in_memory ≡ true
      → n ≤ int32_max
      → avio_write mem os h buf (pos n) ≡ write_memory mem h buf n
  unfolding avio_write
  write_unfold m p = ground arith

  write_memory_room :
      (h1 : Handle)
      → resize_to mem h (u64 (h.position + n)) ≡ done (h1, pos 0)
      → write_memory mem h buf n ≡ write_block h1 buf n
  unfolding write_memory
  write_memory_room h1 e = ground arith

  write_memory_refused :
      (h1 : Handle)
      → resize_to mem h (u64 (h.position + n)) ≡ done (h1, negsuc 0)
      → write_memory mem h buf n ≡ done (h1, negsuc 0)
  unfolding write_memory
  write_memory_refused h1 e = ground arith

  -- A write of up to INT32_MAX bytes to a handle in memory always returns, and leaves a valid buffer.
  -- It returns `n`, with the bytes at the start of the buffer, wherever the position was, and
  -- position and size moved on by `n`; or -1, with position and size as they were and a buffer that
  -- may have grown and begins with the bytes it had, and then the allocator refused a size.
  pub avio_write_lem :
      {b : Buffer}
      → MemoryBacked h b
      → n ≤ length buf
      → n ≤ int32_max
      → h.position + n ≤ int64_max
      → h.apparent_size + n < 2 ^ 64
      → (h' : Handle) × (b' : Buffer) × (((avio_write mem os h buf (pos n) ≡ done (h', pos n))
            × Written h b buf n h' b')
          ⊎ ((avio_write mem os h buf (pos n) ≡ done (h', negsuc 0))
              × Refused h b h' b'
              × ((size : ℕ) × (mem.grants resize size ≡ false))))
  avio_write_lem {b} m have small within fits =
      let whole : u64 (h.position + n) ≡ h.position + n = omega arith in
      let (b1, code, run, spec) = resize_to-Resized mem h (u64 (h.position + n)) m.held m.valid in
      let grown = spec.0 in
      elim spec.1 [
        | inl (zero_code, room) ↦
            let (block, at_block, size) =
              block_of b1.block grown.valid.sized (omega (arith, grown.longer, m.nonempty)) in
            let h1 : Handle = record h { buffer = some b1 } in
            let (b', w) =
              stored-Written h buf n b b1 block m.memory m.nonempty grown at_block size
                (omega arith) within fits in
            (
              stored h buf n b1 block,
              b',
              inl (
                write_unfold m.memory small
                    ∙ write_memory_room h1 (run ∙ ap (λ c. done (h1, c)) zero_code)
                    ∙ write_block_lem h1 buf n b1 block refl at_block have (omega arith) small,
                w,
              ),
            )
        | inr (minus, why) ↦
            let h1 : Handle = record h { buffer = some b1 } in
            (
              h1,
              b1,
              inr (
                write_unfold m.memory small
                    ∙ write_memory_refused h1 (run ∙ ap (λ c. done (h1, c)) minus),
                record {
                  backed = MemoryBacked-grown h m grown;
                  stayed = refl;
                  uncounted = refl;
                  same = grown;
                },
                elim why [ inl over ↦ absurd (omega arith) | inr r ↦ r ],
              ),
            )
      ]
