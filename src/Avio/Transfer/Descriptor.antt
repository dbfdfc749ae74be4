-- ===== src/Avio/Transfer/Descriptor.antt =====
-- Reads and writes of a handle that is not in memory: what INT32 makes of the system's results.
use audio_fs.Base.{ℕ, ◌-◌, ◌^◌, ◌≡◌, ◌≤◌, false, List, arith}
use audio_fs.Base.Int.{pos, negsuc}
use audio_fs.Word.Laws.{int32_small, int32_negative}
use audio_fs.Memory.{done, Allocator}
use audio_fs.Avio.{Handle, Posix, int32_max}
use audio_fs.Avio.Transfer.{avio_read, avio_write}

module _ (os : Posix) (h : Handle) (n : ℕ) (file : h.in_memory ≡ false)
    (small : n ≤ int32_max) where
  -- A read(2) that succeeds is passed on with its count and its bytes.
  pub avio_read_file :
      (k : ℕ)
      → (os.read h.file n).0 ≡ pos k
      → k ≤ n
      → avio_read os h (pos n) ≡ done (h, pos k, (os.read h.file n).1)
  unfolding avio_read
  avio_read_file k e p = ground (arith, int32_small k (omega arith))

  -- A read(2) that fails, with -1, is reported as a read of INT32_MAX bytes.
  avio_read_file_error :
      (os.read h.file n).0 ≡ negsuc 0
      → avio_read os h (pos n) ≡ done (h, pos (2 ^ 31 - 1), (os.read h.file n).1)
  unfolding avio_read
  avio_read_file_error e = ground (arith, int32_negative 0 (omega arith))

  -- So is a write(2) that fails; one that succeeds is passed on.
  avio_write_file :
      (mem : Allocator) (buf : List ℕ)
      → ((k : ℕ)
          → os.write h.file buf n ≡ pos k
          → k ≤ n
          → avio_write mem os h buf (pos n) ≡ done (h, pos k))
        × (os.write h.file buf n ≡ negsuc 0
            → avio_write mem os h buf (pos n) ≡ done (h, pos (2 ^ 31 - 1)))
  unfolding avio_write
  avio_write_file mem buf = (
    λ k e p. ground (arith, int32_small k (omega arith)),
    λ e. ground (arith, int32_negative 0 (omega arith)),
  )
