-- ===== src/Metadata/Fingerprint/Chunks.antt =====
-- The text of a fingerprint that the muxer writes in several chunks.
use audio_fs.Base.{
  ℕ, zero, suc, ◌+◌, ◌≡◌, refl, ap, ◌∙◌, ◌≤◌, ◌<◌, Bool, true, ◌&&◌, Bool-cases, inl, inr, List, [],
  ◌∷◌, ◌++◌, some, length, get_or, arith, ◌==◌,
}
use audio_fs.Memory.{done, ◌>>=◌, Block, Allocator}
use audio_fs.Buffer.{Buffer}
use audio_fs.Avio.{Handle, Posix, int32_max}
use audio_fs.Avio.Open.{avio_close}
use audio_fs.Avio.Transfer.Sequence.{
  write_all, overlay, overlay_all, length-overlay, total, Filled, write_all_lem,
}
use audio_fs.Avio.Transfer.Replay.{Fresh}
use audio_fs.Transcode.Session.{Session}
use audio_fs.Metadata.Fingerprint.{copy_string, read_print}
use audio_fs.Metadata.Fingerprint.Laws.{
  textual, copy_string_next, avio_get_size_memory, read_print_copied, block_of, empty-Filled,
}

abbrev pub all_textual : List (List ℕ) → Bool
all_textual [] = true
all_textual (c ∷ cs) = textual c && all_textual cs

textual-overlay :
    (c acc : List ℕ) → textual c ≡ true → textual acc ≡ true → textual (overlay c acc) ≡ true
textual-overlay [] acc t u = u
textual-overlay (x ∷ c) [] t u = let rest = textual-overlay c [] (ground arith) refl in ground arith
textual-overlay (x ∷ c) (y ∷ acc) t u =
    let rest = textual-overlay c acc (ground arith) (ground arith) in ground arith

textual-overlay_all :
    (cs : List (List ℕ)) (acc : List ℕ)
    → all_textual cs ≡ true
    → textual acc ≡ true
    → textual (overlay_all acc cs) ≡ true
textual-overlay_all [] acc t u = u
textual-overlay_all (c ∷ cs) acc t u =
    textual-overlay_all cs (overlay c acc) (ground arith) (textual-overlay c acc (ground arith) u)

length-overlay_all : (cs : List (List ℕ)) (acc : List ℕ) → length acc ≤ length (overlay_all acc cs)
length-overlay_all [] acc = omega arith
length-overlay_all (c ∷ cs) acc =
    omega (arith, length-overlay_all cs (overlay c acc), length-overlay c acc)

-- Inside the block the copy returns.
copy_string-done :
    (n i : ℕ) (src : Block) → i + n ≤ src.size → (rest : List ℕ) × (copy_string n i src ≡ done rest)
unfolding copy_string
copy_string-done zero i src p = ([], refl)
copy_string-done (suc n) i src p =
    let (rest, run) = copy_string-done n (suc i) src (omega arith) in
    elim (Bool-cases (src.byte i == 0)) [
      | inl e ↦ ([], ground arith)
      | inr e ↦ (src.byte i ∷ rest, ground arith)
    ]

-- A copy that goes on behind a text.
copy_string_longer :
    (c : List ℕ) (n i : ℕ) (src : Block)
    → length c ≤ n
    → i + n ≤ src.size
    → ((j : ℕ) → j < length c → src.byte (i + j) ≡ get_or c j 0)
    → textual c ≡ true
    → (rest : List ℕ) × (copy_string n i src ≡ done (c ++ rest))
copy_string_longer [] n i src q p same t = copy_string-done n i src p
copy_string_longer (x ∷ xs) zero i src q p same t = absurd (omega arith)
copy_string_longer (x ∷ xs) (suc n) i src q p same t =
    let (rest, run) =
      copy_string_longer xs n (suc i) src (omega arith) (omega arith)
        (λ j r. ground (arith, same (suc j) (omega arith))) (ground arith) in
    (
      rest,
      copy_string_next n i x src (omega arith) (ground (arith, same 0 (omega arith))) (ground arith)
          ∙ ap (λ o. o >>= λ rest. done (x ∷ rest)) run,
    )

-- What is read of a handle that is filled with a text.
read_print_longer :
    (os : Posix) (grants : ℕ → Bool) (s : Session) (h : Handle) {b : Buffer} (c : List ℕ) (n : ℕ)
    → Filled h b c
    → 0 < length c
    → h.apparent_size ≡ suc n
    → suc n ≤ int32_max
    → textual c ≡ true
    → grants (suc n + 1) ≡ true
    → (rest : List ℕ) × (read_print os grants (s, some h)
        ≡ done (record s { ledger = avio_close h s.ledger }, some (c ++ rest)))
read_print_longer os grants s h {b} c n f some_text size small t g =
    let (src, block, _, same) = block_of b c some_text f.bytes in
    let sized : src.size ≡ b.len = ground (arith, f.backed.valid.sized) in
    let (rest, copied) =
      copy_string_longer c (suc n) 0 src (omega (arith, f.counted)) (omega (arith, f.fits))
        (λ j q. ground (arith, same j q)) t in
    (
      rest,
      read_print_copied os grants s h b src n (c ++ rest)
          (avio_get_size_memory os h (suc n) f.backed.memory size small) f.backed.held block copied
          g,
    )

-- Writes of chunks of up to INT32_MAX bytes in all, the first of which is not empty and none of which holds
-- a 0, to a handle in memory that is fresh, with memory granted: the fingerprint that is read begins
-- with the chunks laid over each other, each from the start.
pub chunks-read_print :
    (mem : Allocator) (os : Posix) (grants : ℕ → Bool) (s : Session) (h : Handle) {b : Buffer}
    → Fresh mem h b
    → (x : ℕ) (xs : List ℕ) (cs : List (List ℕ)) → total ((x ∷ xs) ∷ cs) ≤ int32_max
    → all_textual ((x ∷ xs) ∷ cs) ≡ true
    → grants (total ((x ∷ xs) ∷ cs) + 1) ≡ true
    → (h' : Handle) × (rest : List ℕ) × (write_all mem os h ((x ∷ xs) ∷ cs) ≡ done (some h'))
      × (read_print os grants (s, some h')
          ≡ done (
            record s { ledger = avio_close h' s.ledger },
            some (overlay_all [] ((x ∷ xs) ∷ cs) ++ rest),
          ))
chunks-read_print mem os grants s h fresh x xs cs small t g =
    let whole : List (List ℕ) = (x ∷ xs) ∷ cs in
    elim (write_all_lem mem os whole [] h (empty-Filled mem h fresh)
      (omega (arith, fresh.no_size))) [
        | inl (_, size, refused) ↦ absurd (cc (fresh.granted size))
        | inr (h', b', run, f, size) ↦
            let (rest, read) =
              read_print_longer os grants s h' (overlay_all [] whole) (length xs + total cs) f
                (omega (arith, length-overlay_all cs (overlay (x ∷ xs) [])))
                (omega (arith, fresh.no_size)) (omega arith) (textual-overlay_all whole [] t refl)
                (ground (arith, g)) in
            (h', rest, run, read)
      ]
