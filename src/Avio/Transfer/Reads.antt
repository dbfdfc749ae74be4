-- ===== src/Avio/Transfer/Reads.antt =====
-- A read from a handle in memory: how much it gives, which bytes, and where it goes wrong.
use Prim.Native.Nat.{min}
use audio_fs.Base.{ℕ, ◌+◌, ◌-◌, ◌≡◌, ◌∙◌, ◌≤◌, ◌<◌, true, List, some, arith, length, get_or}
use audio_fs.Base.Int.{pos}
use audio_fs.Word.{sub64, c_min, u64}
use audio_fs.Word.Laws.{int32_small}
use audio_fs.Memory.{done, fault, Block, tabulate, length-tabulate, get_or-tabulate}
use audio_fs.Buffer.{Buffer}
use audio_fs.Buffer.Valid.{block_byte}
use audio_fs.Avio.{Handle, Posix, int32_max, int64_max}
use audio_fs.Avio.Transfer.{read_memory, avio_read}
use audio_fs.Avio.Transfer.Laws.{MemoryBacked, block_of}

-- How many bytes a read of `n` should give: what is left before the end, at most `n`.
abbrev pub available : Handle → ℕ → ℕ
available h n = min n (h.apparent_size - h.position)

module _ (os : Posix) (h : Handle) (n : ℕ) where
  read_unfold : h.in_memory ≡ true → n ≤ int32_max → avio_read os h (pos n) ≡ read_memory h n
  unfolding avio_read
  read_unfold m p = ground arith

  end_position_lem :
      h.position ≤ h.apparent_size
      → h.apparent_size ≤ int64_max
      → n ≤ int32_max
      → c_min (u64 (h.position + n)) h.apparent_size ≡ h.position + available h n
  end_position_lem p r s = ground arith

  read_count_lem :
      h.position ≤ h.apparent_size
      → h.apparent_size ≤ int64_max
      → n ≤ int32_max
      → sub64 (h.position + available h n) h.position ≡ available h n
  read_count_lem p r s = omega arith

  read_within :
      {b : Buffer} (block : Block)
      → h.buffer ≡ some b
      → b.block ≡ some block
      → h.position ≤ h.apparent_size
      → h.apparent_size ≤ block.size
      → h.apparent_size ≤ int64_max
      → n ≤ int32_max
      → read_memory h n
        ≡ done (
          record h { position = h.position + available h n },
          pos (available h n),
          tabulate (available h n) block.byte,
        )
  unfolding read_memory
  read_within block e f p q r s = ground (
    arith,
    end_position_lem p r s,
    read_count_lem p r s,
    int32_small (available h n) (omega arith),
  )

  -- With the position at most the size, and the size at most what the buffer holds, a read gives what
  -- is left before the end, at most `n` bytes, returns their number and moves the position on by it.
  -- The bytes are those at the start of the buffer, wherever the position was.
  pub avio_read_lem :
      {b : Buffer}
      → MemoryBacked h b
      → h.position ≤ h.apparent_size
      → h.apparent_size ≤ b.len
      → h.apparent_size ≤ int64_max
      → n ≤ int32_max
      → (bytes : List ℕ) × (avio_read os h (pos n)
          ≡ done (record h { position = h.position + available h n }, pos (available h n), bytes))
        × (length bytes ≡ available h n)
        × ((i : ℕ) → i < available h n → block_byte b.block i ≡ some (get_or bytes i 0))
  avio_read_lem {b} m p q r s =
      let (block, at_block, size) = block_of b.block m.valid.sized m.nonempty in
      let k = available h n in
      (
        tabulate k block.byte,
        read_unfold m.memory s ∙ read_within block m.held at_block p (omega arith) r s,
        length-tabulate k block.byte,
        λ i below. ground (arith, get_or-tabulate k block.byte i 0 below),
      )

  -- A read from a position behind the size is undefined: the count wraps round, and memcpy runs over
  -- the caller's buffer.
  pub avio_read_past_end :
      {b : Buffer}
      → MemoryBacked h b
      → h.apparent_size < h.position
      → h.position ≤ int64_max
      → n ≤ int32_max
      → avio_read os h (pos n) ≡ fault
  unfolding read_memory
  avio_read_past_end {b} m p q s =
      let (block, at_block, size) = block_of b.block m.valid.sized m.nonempty in
      read_unfold m.memory s ∙ ground (arith, m.held)
