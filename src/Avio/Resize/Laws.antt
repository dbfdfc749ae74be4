-- ===== src/Avio/Resize/Laws.antt =====
-- audiofs_avio_resize_to ends, keeps what the buffer holds, and reaches the size asked for.
use audio_fs.Base.{
  ℕ, zero, suc, ◌+◌, ◌/◌, ◌^◌, ◌≡◌, refl, ap, ◌∙◌, ◌≤◌, ◌<◌, ◌⊎◌, inl, inr, Bool, true, false, some,
  arith, ltb, if◌then◌else◌, Bool-cases,
}
use native.Mathlib.Decide.{dec_lt}
use audio_fs.Base.Int.{ℤ, pos, negsuc}
use audio_fs.Memory.{Outcome, done, fault, blocked, spent, Allocator, resize}
use audio_fs.Buffer.{Buffer, buffer_realloc}
use audio_fs.Buffer.Valid.{IsValid, block_byte}
use audio_fs.Buffer.Realloc.{buffer_realloc_grow, buffer_realloc_refused}
use audio_fs.Avio.{Handle, int64_max}
use audio_fs.Avio.Resize.{kib64, mib, mib16, next_size, resize_loop, enough, resize_to}

-- `b'` is `b`, grown or as it was: valid, not shorter, with the same bytes in front.
pub record Grew (b b' : Buffer) : Type 0 where
  pub valid : IsValid b'
  pub longer : b.len ≤ b'.len
  pub kept : (i : ℕ) → i < b.len → block_byte b'.block i ≡ block_byte b.block i

Grew-refl : {b : Buffer} → IsValid b → Grew b b
Grew-refl v = record { valid = v; longer = omega arith; kept = λ i p. refl }

Grew-trans : {a b c : Buffer} → Grew a b → Grew b c → Grew a c
Grew-trans g h = record {
  valid = h.valid;
  longer = omega (arith, g.longer, h.longer);
  kept = λ i p. h.kept i (omega (arith, g.longer)) ∙ g.kept i p;
}

-- The growth steps that lie below a length, counted.
abbrev level : ℕ → ℕ
level n =
    if ltb n kib64 then 0 else if ltb n mib then 1 else if ltb n mib16 then 2 else n / mib16 + 2

next_size-gt : (len : ℕ) → len < 2 ^ 63 → len < next_size len
unfolding next_size
next_size-gt len h = ground arith

level-next_size : (len : ℕ) → len < 2 ^ 63 → level len < level (next_size len)
unfolding next_size
level-next_size len h = ground arith

level_mono : (m n : ℕ) → m ≤ n → level m ≤ level n
level_mono m n h = ground arith

level-enough : (n : ℕ) → level n + 2 ≤ enough n
level-enough n = ground arith

-- What a call of audiofs_avio_resize_to must come to: it returns; it returns 0 with room for `n`
-- bytes, or -1 where `n` is over INT64_MAX or memory was refused.
abbrev pub Resized : Allocator → ℕ → Buffer → Outcome (Buffer × ℤ) → Type 0
Resized mem n b (done (b', code)) =
    Grew b b'
    × (((code ≡ pos 0) × (n ≤ b'.len))
        ⊎ ((code ≡ negsuc 0) × ((int64_max < n) ⊎ ((size : ℕ) × (mem.grants resize size ≡ false)))))
Resized mem n b fault = ⊥
Resized mem n b blocked = ⊥
Resized mem n b spent = ⊥

module _ (mem : Allocator) where
  abbrev Round : ℕ → Buffer → Bool → Type 0
  Round size b r =
      (b' : Buffer) × (buffer_realloc mem b size ≡ done (b', r))
      × Grew b b'
      × (r ≡ true → b'.len ≡ size)
      × (r ≡ false → mem.grants resize size ≡ false)

  realloc-Round :
      {b : Buffer} (size : ℕ) → IsValid b → b.len < size → Round size b true ⊎ Round size b false
  realloc-Round {b} size v p = elim (Bool-cases (mem.grants resize size)) [
    | inl g ↦
        let (b', e, v', l, same, _) = buffer_realloc_grow mem size v p g in
        inl (b', e, record { valid = v'; longer = omega arith; kept = same }, (λ _. l), (λ q. cc))
    | inr g ↦ inr (
      record b { used_outside_audiofs = false },
      buffer_realloc_refused mem size v (omega arith) (omega arith) g,
      record { valid = ground arith; longer = omega arith; kept = λ i q. refl },
      (λ q. cc),
      (λ _. g),
    )
  ]

Resized-trans :
    (mem : Allocator) (n : ℕ) {a b : Buffer} (o : Outcome (Buffer × ℤ))
    → Grew a b
    → Resized mem n b o
    → Resized mem n a o
Resized-trans mem n (done (b', code)) g r = (Grew-trans g r.0, r.1)
Resized-trans mem n fault g r = r
Resized-trans mem n blocked g r = r
Resized-trans mem n spent g r = r

-- The loop's branches.
module _ (mem : Allocator) (fuel n : ℕ) (b : Buffer) where
  resize_loop_enough : n ≤ b.len → resize_loop mem (suc fuel) n b ≡ done (b, pos 0)
  unfolding resize_loop
  resize_loop_enough p = ground arith

  resize_loop_over : b.len < n → int64_max < n → resize_loop mem (suc fuel) n b ≡ done (b, negsuc 0)
  unfolding resize_loop
  resize_loop_over p q = ground arith

  resize_loop_grown :
      (b' : Buffer)
      → b.len < n
      → n ≤ int64_max
      → buffer_realloc mem b (next_size b.len) ≡ done (b', true)
      → resize_loop mem (suc fuel) n b ≡ resize_loop mem fuel n b'
  unfolding resize_loop
  resize_loop_grown b' p q e = ground (arith, next_size-gt b.len (omega arith))

  resize_loop_refused :
      (b' : Buffer)
      → b.len < n
      → n ≤ int64_max
      → buffer_realloc mem b (next_size b.len) ≡ done (b', false)
      → resize_loop mem (suc fuel) n b ≡ done (b', negsuc 0)
  unfolding resize_loop
  resize_loop_refused b' p q e = ground (arith, next_size-gt b.len (omega arith))

-- From a valid buffer, and with fuel for the growth steps that are left, the loop ends as it should.
resize_loop-Resized :
    (mem : Allocator) (fuel n : ℕ) {b : Buffer}
    → IsValid b
    → 0 < fuel
    → level n + 2 ≤ level b.len + fuel
    → Resized mem n b (resize_loop mem fuel n b)
resize_loop-Resized mem zero n v p q = absurd (omega arith)
resize_loop-Resized mem (suc fuel) n {b} v p q = elim (dec_lt b.len n) [
  | no fits ↦
      rw (resize_loop_enough mem fuel n b (omega arith)) (Grew-refl v, inl (refl, omega arith))
  | yes short ↦ elim (dec_lt int64_max n) [
    | yes over ↦ rw (resize_loop_over mem fuel n b short over) (Grew-refl v, inr (refl, inl over))
    | no within ↦
        let small : n ≤ int64_max = omega arith in
        let gt : b.len < next_size b.len = next_size-gt b.len (omega arith) in
        elim (realloc-Round mem (next_size b.len) v gt) [
          | inl (b', e, g, l, _) ↦ rw (resize_loop_grown mem fuel n b b' short small e) (
              Resized-trans mem n (resize_loop mem fuel n b') g (
                resize_loop-Resized mem fuel n g.valid (omega (arith, level_mono b.len n))
                  (omega (arith, level_mono b.len n, level-next_size b.len, ap level (l refl)))))
          | inr (b', e, g, _, refused) ↦
              rw (resize_loop_refused mem fuel n b b' short small e)
                (g, inr (refl, inr (next_size b.len, refused refl)))
        ]
  ]
]

Resized-done :
    (mem : Allocator) (n : ℕ) (b : Buffer) (o : Outcome (Buffer × ℤ))
    → Resized mem n b o
    → (b' : Buffer) × (code : ℤ) × (o ≡ done (b', code)) × Resized mem n b (done (b', code))
Resized-done mem n b (done (b', code)) r = (b', code, refl, r)
Resized-done mem n b fault r = absurd r
Resized-done mem n b blocked r = absurd r
Resized-done mem n b spent r = absurd r

-- On a handle with a valid buffer audiofs_avio_resize_to always returns, and changes the buffer
-- only: the buffer stays valid, is not shorter and keeps its bytes. The code is 0 and the buffer has
-- room for `n` bytes, or it is -1, and then `n` is over INT64_MAX or the allocator refused a size.
pub resize_to-Resized :
    (mem : Allocator) (h : Handle) (n : ℕ) {b : Buffer}
    → h.buffer ≡ some b
    → IsValid b
    → (b' : Buffer) × (code : ℤ) × (resize_to mem h n ≡ done (record h { buffer = some b' }, code))
      × Resized mem n b (done (b', code))
unfolding resize_to
resize_to-Resized mem h n {b} e v =
    let (b', code, run, spec) =
      Resized-done mem n b (resize_loop mem (enough n) n b)
        (resize_loop-Resized mem (enough n) n v (omega arith) (omega (arith, level-enough n))) in
    (b', code, rw (e, run), spec)

-- Where the allocator grants every size, it returns 0 with room for `n` bytes, for every `n` up to
-- INT64_MAX.
pub resize_to_granted :
    (mem : Allocator) (h : Handle) (n : ℕ) {b : Buffer}
    → h.buffer ≡ some b
    → IsValid b
    → ((size : ℕ) → mem.grants resize size ≡ true)
    → n ≤ int64_max
    → (b' : Buffer) × (resize_to mem h n ≡ done (record h { buffer = some b' }, pos 0))
      × (n ≤ b'.len)
      × Grew b b'
resize_to_granted mem h n {b} e v all small =
    let (b', code, run, spec) = resize_to-Resized mem h n e v in
    elim spec.1 [
      | inl (zero_code, room) ↦
          (b', run ∙ ap (λ c. done (record h { buffer = some b' }, c)) zero_code, room, spec.0)
      | inr (_, inl over) ↦ absurd (omega arith)
      | inr (_, inr (size, refused)) ↦ absurd (cc (all size))
    ]

-- With room for `n` bytes it does nothing, and returns 0.
pub resize_to_enough :
    (mem : Allocator) (h : Handle) (n : ℕ) {b : Buffer}
    → h.buffer ≡ some b
    → n ≤ b.len
    → resize_to mem h n ≡ done (h, pos 0)
unfolding resize_to resize_loop
resize_to_enough mem h n {b} e p = ground (arith, resize_loop_enough mem (n / mib16 + 4) n b p)
