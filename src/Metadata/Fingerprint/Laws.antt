-- ===== src/Metadata/Fingerprint/Laws.antt =====
-- The text of a fingerprint, from the bytes that the transcode wrote.
use audio_fs.Base.{
  ℕ, suc, ◌+◌, ◌≡◌, refl, ap, ◌∙◌, ◌≤◌, ◌<◌, Bool, true, ◌&&◌, ◌-◌, Bool-cases, ltb→lt,
  Option-cases, inl, inr, List, [], ◌∷◌, some, length, get_or, arith, ltb,
}
use audio_fs.Base.Int.{pos}
use audio_fs.Memory.{done, ◌>>=◌, Block, Allocator}
use audio_fs.Buffer.{Buffer}
use audio_fs.Buffer.Valid.{block_byte}
use audio_fs.Avio.{Handle, Posix, int32_max}
use audio_fs.Avio.Open.{avio_get_size, avio_close}
use audio_fs.Avio.Transfer.Sequence.{write_all, overlay-nil, Filled, write_all_lem}
use audio_fs.Avio.Transfer.Replay.{Fresh}
use audio_fs.Transcode.Session.{Session}
use audio_fs.Metadata.Fingerprint.{copy_string, read_print}

-- The bytes hold no 0, as those of a text.
abbrev pub textual : List ℕ → Bool
textual [] = true
textual (x ∷ xs) = ltb 0 x && textual xs

pub copy_string_next :
    (n i x : ℕ) (src : Block)
    → i < src.size
    → src.byte i ≡ x
    → ltb 0 x ≡ true
    → copy_string (suc n) i src ≡ (copy_string n (suc i) src >>= λ rest. done (x ∷ rest))
unfolding copy_string
copy_string_next n i x src p e nz = ground arith

copy_string_lem :
    (c : List ℕ) (i : ℕ) (src : Block)
    → i + length c ≤ src.size
    → ((j : ℕ) → j < length c → src.byte (i + j) ≡ get_or c j 0)
    → textual c ≡ true
    → copy_string (length c) i src ≡ done c
unfolding copy_string
copy_string_lem [] i src p same t = refl
copy_string_lem (x ∷ xs) i src p same t =
    copy_string_next (length xs) i x src (omega arith) (ground (arith, same 0 (omega arith)))
      (ground arith)
    ∙ ap (λ o. o >>= λ rest. done (x ∷ rest))
        (copy_string_lem xs (suc i) src (omega arith)
          (λ j q. ground (arith, same (suc j) (omega arith))) (ground arith))

pub avio_get_size_memory :
    (os : Posix) (h : Handle) (n : ℕ)
    → h.in_memory ≡ true
    → h.apparent_size ≡ n
    → n ≤ int32_max
    → avio_get_size os h ≡ pos n
unfolding avio_get_size
avio_get_size_memory os h n m e small = ground arith

pub read_print_copied :
    (os : Posix) (grants : ℕ → Bool) (s : Session) (h : Handle) (b : Buffer) (src : Block) (n : ℕ)
    (c : List ℕ)
    → avio_get_size os h ≡ pos (suc n)
    → h.buffer ≡ some b
    → b.block ≡ some src
    → copy_string (suc n) 0 src ≡ done c
    → grants (suc n + 1) ≡ true
    → read_print os grants (s, some h) ≡ done (record s { ledger = avio_close h s.ledger }, some c)
unfolding read_print
read_print_copied os grants s h b src n c size held block copied g = ground arith

found :
    (src : Block) (i x : ℕ) → block_byte (some src) i ≡ some x → (i < src.size) × (src.byte i ≡ x)
found src i x e = elim (Bool-cases (ltb i src.size)) [
  | inl there ↦ (ltb→lt i src.size there, ground arith)
  | inr out ↦ absurd (ground arith)
]

-- The block behind a buffer that begins with some bytes.
pub block_of :
    (b : Buffer) (c : List ℕ)
    → 0 < length c
    → ((i : ℕ) → i < length c → block_byte b.block i ≡ some (get_or c i 0))
    → (src : Block) × (b.block ≡ some src)
      × (length c ≤ src.size)
      × ((j : ℕ) → j < length c → src.byte j ≡ get_or c j 0)
block_of b c p same = elim (Option-cases b.block) [
  | inl e ↦ absurd (ground (arith, same 0 p))
  | inr (src, e) ↦
      let inside : (i : ℕ) → i < length c → (i < src.size) × (src.byte i ≡ get_or c i 0) =
        λ i q. found src i (get_or c i 0) (rw e at (same i q)) in
      (src, e, omega (arith, (inside (length c - 1) (omega arith)).0), λ j q. (inside j q).1)
]

read_print_text :
    (os : Posix) (grants : ℕ → Bool) (s : Session) (h : Handle) {b : Buffer} (x : ℕ) (xs : List ℕ)
    → Filled h b (x ∷ xs)
    → h.apparent_size ≡ length (x ∷ xs)
    → length (x ∷ xs) ≤ int32_max
    → textual (x ∷ xs) ≡ true
    → grants (length (x ∷ xs) + 1) ≡ true
    → read_print os grants (s, some h)
      ≡ done (record s { ledger = avio_close h s.ledger }, some (x ∷ xs))
read_print_text os grants s h {b} x xs f size small t g =
    let (src, block, room, same) = block_of b (x ∷ xs) (omega arith) f.bytes in
    read_print_copied os grants s h b src (length xs) (x ∷ xs)
      (avio_get_size_memory os h (length (x ∷ xs)) f.backed.memory size small) f.backed.held block
      (copy_string_lem (x ∷ xs) 0 src (omega arith) (λ j q. ground (arith, same j q)) t) g

pub empty-Filled : (mem : Allocator) (h : Handle) {b : Buffer} → Fresh mem h b → Filled h b []
empty-Filled mem h fresh = record {
  backed = fresh.backed;
  at_end = omega (arith, fresh.at_start, fresh.no_size);
  fits = omega (arith, fresh.no_size);
  counted = omega arith;
  bytes = λ i p. absurd (omega arith);
}

-- A handle in memory that is fresh, with memory granted, and one write of a text of up to INT32_MAX
-- bytes that holds no 0 give that text as the fingerprint; the handle is closed.
pub write_all-read_print :
    (mem : Allocator) (os : Posix) (grants : ℕ → Bool) (s : Session) (h : Handle) {b : Buffer}
    → Fresh mem h b
    → (x : ℕ) (xs : List ℕ) → length (x ∷ xs) ≤ int32_max
    → textual (x ∷ xs) ≡ true
    → grants (length (x ∷ xs) + 1) ≡ true
    → (h' : Handle) × (write_all mem os h ((x ∷ xs) ∷ []) ≡ done (some h'))
      × (read_print os grants (s, some h')
          ≡ done (record s { ledger = avio_close h' s.ledger }, some (x ∷ xs)))
write_all-read_print mem os grants s h {b} fresh x xs small t g =
    elim (write_all_lem mem os ((x ∷ xs) ∷ []) [] h (empty-Filled mem h fresh)
      (omega (arith, fresh.no_size))) [
        | inl (_, size, refused) ↦ absurd (cc (fresh.granted size))
        | inr (h', b', run, f, size) ↦
            let whole : Filled h' b' (x ∷ xs) = rw (overlay-nil (x ∷ xs)) at f in
            (
              h',
              run,
              read_print_text os grants s h' x xs whole (omega (arith, fresh.no_size)) small t g,
            )
      ]
