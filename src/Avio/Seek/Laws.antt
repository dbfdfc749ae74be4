-- ===== src/Avio/Seek/Laws.antt =====
-- What audiofs_avio_seek does to a handle in memory, and what a read behind it meets.
use audio_fs.Base.{ℕ, ◌+◌, ◌≡◌, refl, ap, ◌∙◌, ◌≤◌, ◌<◌, ◌⊎◌, inl, inr, true, false, some, arith}
use audio_fs.Base.Int.{ℤ, pos, negsuc}
use audio_fs.Word.{to_u64}
use audio_fs.Memory.{done, fault, Allocator, resize, ◌>>=◌}
use audio_fs.Buffer.{Buffer}
use audio_fs.Avio.{
  Handle, Posix, Whence, seek_cur, seek_set, seek_end, other_whence, int32_max, int64_max,
}
use audio_fs.Avio.Resize.{resize_to}
use audio_fs.Avio.Resize.Laws.{Grew, resize_to-Resized, resize_to_enough}
use audio_fs.Avio.Transfer.{avio_read}
use audio_fs.Avio.Transfer.Laws.{MemoryBacked}
use audio_fs.Avio.Transfer.Reads.{avio_read_past_end}
use audio_fs.Avio.Seek.{minus_einval, minus_enomem, target_offset, seek_to, avio_seek}

to_u64_small : (t : ℕ) → t ≤ int64_max → to_u64 (pos t) ≡ t
to_u64_small t p = omega arith

-- The position that an offset counts from.
abbrev pub base_of : Handle → Whence → ℕ
base_of h seek_cur = h.position
base_of h seek_set = 0
base_of h seek_end = h.apparent_size
base_of h (other_whence n) = 0

abbrev pub IsSupported : Whence → Type 0
IsSupported (other_whence n) = ⊥
IsSupported _ = Unit {0}

module _ (mem : Allocator) (os : Posix) (h : Handle) where
  -- An offset below 0 is refused for every `whence`, also where the target would be inside.
  pub avio_seek_negative :
      (n : ℕ) (whence : Whence) → avio_seek mem os h (negsuc n) whence ≡ done (h, negsuc 0)
  unfolding avio_seek
  avio_seek_negative n whence = refl

  -- A `whence` other than the three gives -EINVAL, on a handle in memory.
  pub avio_seek_unsupported :
      (n k : ℕ)
      → h.in_memory ≡ true
      → avio_seek mem os h (pos n) (other_whence k) ≡ done (h, minus_einval)
  unfolding avio_seek
  avio_seek_unsupported n k m = ground arith

  target_offset_lem :
      (n : ℕ) (whence : Whence)
      → IsSupported whence
      → base_of h whence + n ≤ int64_max
      → target_offset h n whence ≡ some (pos (base_of h whence + n))
  unfolding target_offset
  target_offset_lem n seek_cur s p = ground arith
  target_offset_lem n seek_set s p = ground arith
  target_offset_lem n seek_end s p = ground arith
  target_offset_lem n (other_whence k) s p = absurd s

  avio_seek_unfold :
      (n : ℕ) (whence : Whence)
      → h.in_memory ≡ true
      → IsSupported whence
      → base_of h whence + n ≤ int64_max
      → avio_seek mem os h (pos n) whence ≡ seek_to mem h (pos (base_of h whence + n))
  unfolding avio_seek
  avio_seek_unfold n whence m s p = ground (arith, target_offset_lem n whence s p)

  seek_to_within :
      (t : ℕ)
      → 0 < t
      → t ≤ int64_max
      → 0 < h.apparent_size
      → seek_to mem h (pos t) ≡ done (record h { position = t }, pos t)
  unfolding seek_to
  seek_to_within t p q r = ground arith

  -- Once the size is not 0, a seek to any target over 0 moves the position there, also far behind
  -- the size and the buffer, and leaves the buffer alone.
  avio_seek_moves :
      (n : ℕ) (whence : Whence)
      → h.in_memory ≡ true
      → IsSupported whence
      → 0 < h.apparent_size
      → 0 < base_of h whence + n
      → base_of h whence + n ≤ int64_max
      → let t = base_of h whence + n in
        avio_seek mem os h (pos n) whence ≡ done (record h { position = t }, pos t)
  avio_seek_moves n whence m s p q r =
      avio_seek_unfold n whence m s r ∙ seek_to_within (base_of h whence + n) q r p

  -- So a seek behind the size, and a read after it, end in undefined behaviour.
  pub avio_seek-avio_read_fault :
      (t n : ℕ) {b : Buffer}
      → MemoryBacked h b
      → 0 < h.apparent_size
      → h.apparent_size < t
      → t ≤ int64_max
      → n ≤ int32_max
      → (avio_seek mem os h (pos t) seek_set >>= λ r. avio_read os r.0 (pos n)) ≡ fault
  avio_seek-avio_read_fault t n {b} m p q r s =
      ap (λ o. o >>= λ r. avio_read os r.0 (pos n))
        (avio_seek_moves t seek_set m.memory tt p (omega arith) (omega arith))
      ∙ avio_read_past_end os (record h { position = 0 + t }) n moved (omega arith) (omega arith) s
    where
      moved : MemoryBacked (record h { position = 0 + t }) b
      moved = record { memory = m.memory; held = m.held; valid = m.valid; nonempty = m.nonempty }

  -- A seek back to the start always succeeds, and changes the position only.
  pub avio_seek_start :
      {b : Buffer}
      → MemoryBacked h b
      → avio_seek mem os h (pos 0) seek_set ≡ done (record h { position = 0 }, pos 0)
  unfolding avio_seek
  avio_seek_start m = ground (arith, m.memory, resize_to_enough mem h 0 m.held (omega arith))

  seek_to_empty :
      (t : ℕ) (b' : Buffer)
      → t ≤ int64_max
      → h.apparent_size ≡ 0
      → (resize_to mem h t ≡ done (record h { buffer = some b' }, pos 0)
          → seek_to mem h (pos t) ≡ done (record h { buffer = some b'; position = t }, pos t))
        × (resize_to mem h t ≡ done (record h { buffer = some b' }, negsuc 0)
            → seek_to mem h (pos t) ≡ done (record h { buffer = some b' }, minus_enomem))
  unfolding seek_to
  seek_to_empty t b' p z =
      (λ e. ground (arith, to_u64_small t p), λ e. ground (arith, to_u64_small t p))

  -- While the size is 0, a seek grows the buffer to hold the target. It returns the target, with the
  -- position there and room for it, or -ENOMEM with the position as it was, and then the allocator
  -- refused a size; the buffer stays valid and keeps its bytes on both branches.
  pub avio_seek_empty :
      (n : ℕ) (whence : Whence) {b : Buffer}
      → MemoryBacked h b
      → IsSupported whence
      → h.apparent_size ≡ 0
      → base_of h whence + n ≤ int64_max
      → let t = base_of h whence + n in
        (b' : Buffer) × Grew b b'
        × (((avio_seek mem os h (pos n) whence
                ≡ done (record h { buffer = some b'; position = t }, pos t))
              × (t ≤ b'.len))
            ⊎ ((avio_seek mem os h (pos n) whence
                  ≡ done (record h { buffer = some b' }, minus_enomem))
                × ((size : ℕ) × (mem.grants resize size ≡ false))))
  avio_seek_empty n whence {b} m s z p =
      let t = base_of h whence + n in
      let (b', code, run, spec) = resize_to-Resized mem h t m.held m.valid in
      let unfolded = avio_seek_unfold n whence m.memory s p in
      let step =
        λ (c : ℤ). λ (e : code ≡ c). run ∙ ap (λ c. done (record h { buffer = some b' }, c)) e in
      elim spec.1 [
        | inl (zero_code, room) ↦
            (b', spec.0, inl (unfolded ∙ (seek_to_empty t b' p z).0 (step (pos 0) zero_code), room))
        | inr (minus, inl over) ↦ absurd (omega arith)
        | inr (minus, inr refused) ↦ (
          b',
          spec.0,
          inr (unfolded ∙ (seek_to_empty t b' p z).1 (step (negsuc 0) minus), refused),
        )
      ]
