-- ===== src/Metadata/File/Laws.antt =====
-- The references that the calls of get_metadate_from_file give, and the first of its loops.
use audio_fs.Base.{
  ℕ, zero, suc, ◌+◌, ◌*◌, ◌≡◌, refl, ◌<◌, true, false, Bool-cases, inl, inr, List, [], ◌∷◌, ◌++◌,
  none, some, arith, ltb, if◌then◌else◌,
}
use audio_fs.Memory.{done, fault, ◌>>=◌, >>=-eq-done}
use audio_fs.Metadata.{JsonCall, Stream, CodecPar, MediaFile}
use audio_fs.Metadata.Leaves.{
  Leaves, set_leaves, format_leaves, file_leaves, tag_leaves, stream_leaves, codec_leaves,
  file_calls, stream_calls,
}
use audio_fs.Metadata.File.{enter_streams, release_streams, entry_calls}
use audio_fs.Metadata.Owned.{gives, total, total-append}

pub done_inj : {A : Type 0} {x y : A} → done x ≡ done y → x ≡ y
done_inj e = cc

pub fault_ne : {A : Type 0} (x : A) → fault ≡ done x → ⊥
fault_ne x e = cc

-- Leaves give the caller no reference.
gives-set_leaves : (r o : ℕ) (ls : Leaves) → total (gives r) (set_leaves o ls) ≡ 0
gives-set_leaves r o [] = refl
gives-set_leaves r o (l ∷ ls) = omega (arith, gives-set_leaves r o ls)

gives-set_leaves_three :
    (r a b c : ℕ) (ls ms ns : Leaves)
    → total (gives r) (set_leaves a ls ++ (set_leaves b ms ++ set_leaves c ns)) ≡ 0
gives-set_leaves_three r a b c ls ms ns = omega (
  arith,
  total-append (gives r) (set_leaves a ls) (set_leaves b ms ++ set_leaves c ns),
  total-append (gives r) (set_leaves b ms) (set_leaves c ns),
  gives-set_leaves r a ls,
  gives-set_leaves r b ms,
  gives-set_leaves r c ns,
)

pub gives-file_calls : (r : ℕ) (f : MediaFile) → total (gives r) (file_calls f) ≡ 0
unfolding file_calls
gives-file_calls r f =
    gives-set_leaves_three r 2 1 3 (format_leaves f) (file_leaves f) (tag_leaves f.tags)

pub gives-stream_calls :
    (r i : ℕ) (p : CodecPar) (st : Stream) → total (gives r) (stream_calls i p st) ≡ 0
unfolding stream_calls
gives-stream_calls r i p st =
    gives-set_leaves_three r (5 + 3 * i) (7 + 3 * i) (6 + 3 * i) (stream_leaves st) (codec_leaves p)
      (tag_leaves st.tags)

pub gives-release_streams : (r i n : ℕ) → total (gives r) (release_streams i n) ≡ 0
unfolding release_streams
gives-release_streams r i zero = refl
gives-release_streams r i (suc n) = omega (arith, gives-release_streams r (suc i) n)

pub enter_streams_next :
    (room i n : ℕ)
    → ltb i room ≡ true
    → enter_streams room i (suc n)
      ≡ (enter_streams room (suc i) n >>= λ rest. done (entry_calls i ++ rest))
unfolding enter_streams
enter_streams_next room i n e = ground arith

pub enter_streams_full : (room i n : ℕ) → ltb i room ≡ false → enter_streams room i (suc n) ≡ fault
unfolding enter_streams
enter_streams_full room i n e = ground arith

pub enter_streams_more :
    (room i n : ℕ) {cs : List JsonCall}
    → enter_streams room i (suc n) ≡ done cs
    → (rest : List JsonCall) × (enter_streams room (suc i) n ≡ done rest)
      × (cs ≡ entry_calls i ++ rest)
enter_streams_more room i n {cs} e = elim (Bool-cases (ltb i room)) [
  | inl inside ↦
      let (rest, run, last) =
        >>=-eq-done (enter_streams room (suc i) n) (λ rest. done (entry_calls i ++ rest)) {b = cs}
          (cc (enter_streams_next room i n inside, e)) in
      (rest, run, cc (last))
  | inr full ↦ absurd (fault_ne cs (cc (enter_streams_full room i n full, e)))
]

-- The values made for the streams are none of the first five.
pub gives-enter_streams :
    (room i n r : ℕ) {cs : List JsonCall}
    → enter_streams room i n ≡ done cs
    → r < 5
    → total (gives r) cs ≡ 0
unfolding enter_streams
gives-enter_streams room i zero r {cs} e p =
    let none_made : [] ≡ cs = cc (e) in rw (← none_made) refl
gives-enter_streams room i (suc n) r {cs} e p =
    let (rest, run, eq) = enter_streams_more room i n e in
    let later = gives-enter_streams room (suc i) n r run p in rw eq (ground (arith, later))

-- The audio streams that the loop looks at.
unfoldable pub audio_streams : List Stream → ℕ
audio_streams [] = 0
audio_streams (st ∷ sts) = elim st.codecpar [
  | none ↦ audio_streams sts
  | some p ↦ if p.is_audio then audio_streams sts + 1 else audio_streams sts
]
