-- ===== src/Avio/Transfer/Sequence.antt =====
-- Sequences of writes to a handle in memory, as a muxer makes them, and what is read back.
use Prim.Native.Nat.{max}
use native.Mathlib.Decide.{dec_lt}
use audio_fs.Base.{
  ℕ, zero, suc, ◌+◌, ◌≡◌, refl, sym, ap, ◌∙◌, ◌≤◌, ◌<◌, ◌⊎◌, inl, inr, true, false, List, [], ◌∷◌,
  Option, none, some, arith, length, get_or,
}
use audio_fs.Base.Int.{pos, negsuc, eq_ℤ}
use audio_fs.Memory.{Outcome, done, ◌>>=◌, Allocator, resize}
use audio_fs.Buffer.{Buffer}
use audio_fs.Buffer.Valid.{block_byte}
use audio_fs.Avio.{Handle, Posix, int32_max}
use audio_fs.Avio.Transfer.{avio_write}
use audio_fs.Avio.Transfer.Laws.{MemoryBacked, Written, avio_write_lem}

-- The writes of a list of chunks, one after the other; nothing where one of them is refused.
pub write_all : Allocator → Posix → Handle → List (List ℕ) → Outcome (Option Handle)
write_all mem os h [] = done (some h)
write_all mem os h (c ∷ cs) = avio_write mem os h c (pos (length c)) >>= λ r.
    elim (eq_ℤ r.1 (pos (length c))) [ true ↦ write_all mem os r.0 cs | false ↦ done none ]

-- One chunk laid over the bytes that are there, from the start.
abbrev pub overlay : List ℕ → List ℕ → List ℕ
overlay [] acc = acc
overlay (x ∷ c) [] = x ∷ overlay c []
overlay (x ∷ c) (y ∷ acc) = x ∷ overlay c acc

abbrev pub overlay_all : List ℕ → List (List ℕ) → List ℕ
overlay_all acc [] = acc
overlay_all acc (c ∷ cs) = overlay_all (overlay c acc) cs

abbrev pub total : List (List ℕ) → ℕ
total [] = 0
total (c ∷ cs) = length c + total cs

get_or-overlay_front :
    (c acc : List ℕ) (i : ℕ) → i < length c → get_or (overlay c acc) i 0 ≡ get_or c i 0
get_or-overlay_front [] acc i p = absurd (omega arith)
get_or-overlay_front (x ∷ c) [] zero p = refl
get_or-overlay_front (x ∷ c) [] (suc i) p = get_or-overlay_front c [] i (omega arith)
get_or-overlay_front (x ∷ c) (y ∷ acc) zero p = refl
get_or-overlay_front (x ∷ c) (y ∷ acc) (suc i) p = get_or-overlay_front c acc i (omega arith)

get_or-overlay_behind :
    (c acc : List ℕ) (i : ℕ) → length c ≤ i → get_or (overlay c acc) i 0 ≡ get_or acc i 0
get_or-overlay_behind [] acc i p = refl
get_or-overlay_behind (x ∷ c) [] zero p = absurd (omega arith)
get_or-overlay_behind (x ∷ c) [] (suc i) p = get_or-overlay_behind c [] i (omega arith)
get_or-overlay_behind (x ∷ c) (y ∷ acc) zero p = absurd (omega arith)
get_or-overlay_behind (x ∷ c) (y ∷ acc) (suc i) p = get_or-overlay_behind c acc i (omega arith)

pub overlay-nil : (c : List ℕ) → overlay c [] ≡ c
overlay-nil [] = refl
overlay-nil (x ∷ c) = ap (λ l. x ∷ l) (overlay-nil c)

pub length-overlay : (c acc : List ℕ) → length (overlay c acc) ≡ max (length c) (length acc)
length-overlay [] acc = omega arith
length-overlay (x ∷ c) [] = omega (arith, length-overlay c [])
length-overlay (x ∷ c) (y ∷ acc) = omega (arith, length-overlay c acc)

-- The handle is in memory, its position stands at its size, which the buffer has room for, and the
-- buffer begins with `acc`.
pub record Filled (h : Handle) (b : Buffer) (acc : List ℕ) : Type 0 where
  pub backed : MemoryBacked h b
  pub at_end : h.position ≡ h.apparent_size
  pub fits : h.apparent_size ≤ b.len
  pub counted : length acc ≤ h.apparent_size
  pub bytes : (i : ℕ) → i < length acc → block_byte b.block i ≡ some (get_or acc i 0)

Written-Filled :
    {h h' : Handle} {b b' : Buffer} {acc : List ℕ} (c : List ℕ)
    → Filled h b acc
    → Written h b c (length c) h' b'
    → Filled h' b' (overlay c acc)
Written-Filled {acc} c f w = record {
  backed = w.backed;
  at_end = omega (arith, w.moved, w.counted, f.at_end);
  fits = omega (arith, w.counted, w.room, f.at_end);
  counted = omega (arith, w.counted, f.counted, length-overlay c acc);
  bytes = λ i p. elim (dec_lt i (length c)) [
    | yes q ↦ w.front i q ∙ ap some (sym (get_or-overlay_front c acc i q))
    | no q ↦
        w.behind i (omega arith) (omega (arith, length-overlay c acc, f.counted, f.fits))
        ∙ f.bytes i (omega (arith, length-overlay c acc))
        ∙ ap some (sym (get_or-overlay_behind c acc i (omega arith)))
  ];
}

eq_ℤ-pos : (n : ℕ) → eq_ℤ (pos n) (pos n) ≡ true
eq_ℤ-pos n = ground arith

module _ (mem : Allocator) (os : Posix) where
  write_all_next :
      (h h1 : Handle) (c : List ℕ) (cs : List (List ℕ))
      → (avio_write mem os h c (pos (length c)) ≡ done (h1, pos (length c))
          → write_all mem os h (c ∷ cs) ≡ write_all mem os h1 cs)
        × (avio_write mem os h c (pos (length c)) ≡ done (h1, negsuc 0)
            → write_all mem os h (c ∷ cs) ≡ done none)
  unfolding write_all
  write_all_next h h1 c cs = (λ e. ground (arith, eq_ℤ-pos (length c)), λ e. ground arith)

  -- What the writes of `cs` come to, from a handle that is filled with `acc`: they return, and either
  -- the allocator refused a size, or the buffer begins with the chunks laid over each other.
  abbrev pub Writes : List ℕ → List (List ℕ) → Handle → Type 0
  Writes acc cs h =
      ((write_all mem os h cs ≡ done none) × (size : ℕ) × (mem.grants resize size ≡ false))
      ⊎ ((h' : Handle) × (b' : Buffer) × (write_all mem os h cs ≡ done (some h'))
          × Filled h' b' (overlay_all acc cs)
          × (h'.apparent_size ≡ h.apparent_size + total cs))

  -- From a handle that is filled with `acc`, the writes of chunks of up to INT32_MAX bytes in all
  -- return; the size grows by all their bytes, but the buffer holds each chunk laid over the ones
  -- before from the start of the buffer. Only a refusal of the allocator keeps them from it.
  pub write_all_lem :
      (cs : List (List ℕ)) (acc : List ℕ) (h : Handle) {b : Buffer}
      → Filled h b acc
      → h.apparent_size + total cs ≤ int32_max
      → Writes acc cs h
  unfolding write_all
  write_all_lem [] acc h {b} f small = inr (h, b, refl, f, omega arith)
  write_all_lem (c ∷ cs) acc h f small =
      let (h1, b1, result) =
        avio_write_lem mem os h c (length c) f.backed (omega arith) (omega arith)
          (omega (arith, f.at_end)) (omega arith) in
      elim result [
        | inr (e, _, refused) ↦ inl ((write_all_next h h1 c cs).1 e, refused.0, refused.1)
        | inl (e, w) ↦
            let next = (write_all_next h h1 c cs).0 e in
            elim (write_all_lem cs (overlay c acc) h1 (Written-Filled c f w)
              (omega (arith, w.counted))) [
                | inl (e1, size, refused) ↦ inl (next ∙ e1, size, refused)
                | inr (h', b', e1, f', size) ↦ inr (h', b', next ∙ e1, f', omega (arith, w.counted))
              ]
      ]
