-- ===== src/Avio/Transfer/Replay.antt =====
-- What is read back after a sequence of writes to a fresh handle in memory.
use audio_fs.Base.{
  ℕ, ◌+◌, ◌≡◌, sym, ap, ◌∙◌, ◌≤◌, ◌<◌, ◌≢◌, inl, inr, true, List, [], ◌∷◌, ◌++◌, Option, none, some,
  arith, length, get_or, list_ext,
}
use audio_fs.Base.Int.{pos}
use audio_fs.Memory.{Outcome, done, ◌>>=◌, Allocator, resize}
use audio_fs.Buffer.{Buffer}
use audio_fs.Avio.{Handle, Posix, seek_set, int32_max}
use audio_fs.Avio.Seek.{avio_seek}
use audio_fs.Avio.Seek.Laws.{avio_seek_start}
use audio_fs.Avio.Transfer.{Reading, avio_read}
use audio_fs.Avio.Transfer.Laws.{MemoryBacked}
use audio_fs.Avio.Transfer.Reads.{available, avio_read_lem}
use audio_fs.Avio.Transfer.Sequence.{
  write_all, overlay_all, overlay-nil, total, Filled, write_all_lem,
}

module _ (mem : Allocator) (os : Posix) where
  -- A seek to the start, and a read of `n` bytes.
  abbrev pub read_all : Handle → ℕ → Outcome Reading
  read_all h n = avio_seek mem os h (pos 0) seek_set >>= λ s. avio_read os s.0 (pos n)

  -- The writes of `cs`, and a read of as many bytes as were written.
  abbrev pub replay : Handle → List (List ℕ) → Outcome (Option Reading)
  replay h cs = write_all mem os h cs >>= λ o. elim o [
    | none ↦ done none
    | some h' ↦ read_all h' (total cs) >>= λ r. done (some r)
  ]

  replay_run :
      (h h1 : Handle) (cs : List (List ℕ)) (r : Reading)
      → write_all mem os h cs ≡ done (some h1)
      → read_all h1 (total cs) ≡ done r
      → replay h cs ≡ done (some r)
  replay_run h h1 cs r e f =
      ap
        (λ o. o >>= λ o. elim o [
          | none ↦ done none
          | some h' ↦ read_all h' (total cs) >>= λ r. done (some r)
        ])
        e
      ∙ ap (λ o. o >>= λ r. done (some r)) f

  -- The handle and the bytes of a replay that ends.
  abbrev pub Replayed : Handle → List (List ℕ) → Type 0
  Replayed h cs =
      (h' : Handle) × (bytes : List ℕ) × (replay h cs ≡ done (some (h', pos (total cs), bytes)))
      × (length bytes ≡ total cs)
      × ((i : ℕ)
          → i < length (overlay_all [] cs)
          → get_or bytes i 0 ≡ get_or (overlay_all [] cs) i 0)

  read_back :
      (h : Handle) {b : Buffer} (acc : List ℕ) (n : ℕ)
      → Filled h b acc
      → h.apparent_size ≡ n
      → n ≤ int32_max
      → (h' : Handle) × (bytes : List ℕ) × (read_all h n ≡ done (h', pos n, bytes))
        × (length bytes ≡ n)
        × ((i : ℕ) → i < length acc → get_or bytes i 0 ≡ get_or acc i 0)
  read_back h {b} acc n f size small =
      let start : Handle = record h { position = 0 } in
      let backed : MemoryBacked start b = record {
        memory = f.backed.memory;
        held = f.backed.held;
        valid = f.backed.valid;
        nonempty = f.backed.nonempty;
      } in
      let (bytes, run, len, same) =
        avio_read_lem os start n backed (omega arith) f.fits (omega arith) small in
      let all : available start n ≡ n = omega arith in
      (
        record start { position = 0 + available start n },
        bytes,
        ap (λ o. o >>= λ s. avio_read os s.0 (pos n)) (avio_seek_start mem os h f.backed)
            ∙ run
            ∙ ap (λ k. done (record start { position = 0 + available start n }, pos k, bytes)) all,
        len ∙ all,
        λ i p. cc (same i (omega (arith, f.counted)), f.bytes i p),
      )

  -- From a fresh handle (position and size 0), with memory granted, the writes, a seek to the start and
  -- a read of everything return as many bytes as were written; in front stand the chunks laid over
  -- each other.
  replay_lem :
      (h : Handle) {b : Buffer} (cs : List (List ℕ))
      → MemoryBacked h b
      → h.position ≡ 0
      → h.apparent_size ≡ 0
      → ((size : ℕ) → mem.grants resize size ≡ true)
      → total cs ≤ int32_max
      → Replayed h cs
  replay_lem h {b} cs m at_start no_size all small =
      let fresh : Filled h b [] = record {
        backed = m;
        at_end = omega arith;
        fits = omega arith;
        counted = omega arith;
        bytes = λ i p. absurd (omega arith);
      } in
      elim (write_all_lem mem os cs [] h fresh (omega arith)) [
        | inl (_, size, refused) ↦ absurd (cc (all size))
        | inr (h1, b1, e, f, size) ↦
            let (h', bytes, run, len, same) =
              read_back h1 (overlay_all [] cs) (total cs) f (omega arith) small in
            (h', bytes, replay_run h h1 cs (h', pos (total cs), bytes) e run, len, same)
      ]

-- The fresh handle that a replay starts from: in memory, at position and size 0, with memory granted.
pub record Fresh (mem : Allocator) (h : Handle) (b : Buffer) : Type 0 where
  pub backed : MemoryBacked h b
  pub at_start : h.position ≡ 0
  pub no_size : h.apparent_size ≡ 0
  pub granted : (size : ℕ) → mem.grants resize size ≡ true

module _ (mem : Allocator) (os : Posix) (h : Handle) {b : Buffer} (fresh : Fresh mem h b) where
  replay_fresh : (cs : List (List ℕ)) → total cs ≤ int32_max → Replayed mem os h cs
  replay_fresh cs small =
      replay_lem mem os h cs fresh.backed fresh.at_start fresh.no_size fresh.granted small

  -- What one write puts into a fresh handle, a seek to the start and a read give back whole.
  pub write-read_roundtrip :
      (c : List ℕ)
      → length c ≤ int32_max
      → (h' : Handle) × (replay mem os h (c ∷ []) ≡ done (some (h', pos (length c), c)))
  write-read_roundtrip c small =
      let (h', bytes, run, len, same) = replay_fresh (c ∷ []) (omega arith) in
      let whole : bytes ≡ c = list_ext bytes c (omega (arith, len)) (λ i p.
        same i (omega (arith, ap length (overlay-nil c)))
        ∙ ap (λ l. get_or l i 0) (overlay-nil c)) in
      let amount : total (c ∷ []) ≡ length c = omega arith in
      (
        h',
        run
            ∙ ap (λ n. done (some (h', pos n, bytes))) amount
            ∙ ap (λ l. done (some (h', pos (length c), l))) whole,
      )

  -- After two writes only the second is read back at the start: unless the two chunks begin alike,
  -- what is read is not the first chunk and then the second.
  second_write_overwrites :
      (x y : ℕ) (xs ys : List ℕ)
      → x ≢ y
      → total ((x ∷ xs) ∷ (y ∷ ys) ∷ []) ≤ int32_max
      → (h' : Handle) × (bytes : List ℕ) × (replay mem os h ((x ∷ xs) ∷ (y ∷ ys) ∷ [])
          ≡ done (some (h', pos (length (x ∷ xs) + length (y ∷ ys)), bytes)))
        × (get_or bytes 0 0 ≡ y)
        × (bytes ≢ (x ∷ xs) ++ (y ∷ ys))
  second_write_overwrites x y xs ys ne small =
      let (h', bytes, run, len, same) = replay_fresh ((x ∷ xs) ∷ (y ∷ ys) ∷ []) small in
      (
        h',
        bytes,
        run ∙ ap (λ n. done (some (h', pos n, bytes))) (omega arith),
        same 0 (omega arith),
        λ e. ne (sym (ap (λ l. get_or l 0 0) e) ∙ same 0 (omega arith)),
      )
