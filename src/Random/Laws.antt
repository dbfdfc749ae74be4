-- ===== src/Random/Laws.antt =====
-- What generate_random_string returns and leaves behind.
use audio_fs.Base.{
  ℕ, zero, suc, ◌+◌, ◌≡◌, refl, ◌≤◌, ◌<◌, ◌⊎◌, inl, inr, true, false, Bool-cases, Option-cases,
  Option, none, some, List, [], ◌∷◌, length, get_or, arith,
}
use audio_fs.Base.Int.{pos}
use audio_fs.Memory.{done}
use audio_fs.Avio.{int32_max}
use audio_fs.Random.{Urandom, Held, random_char, fill, read_string, generate_random_string}

-- A digit or a letter of ASCII.
abbrev pub Alphanumeric : ℕ → Type 0
Alphanumeric c = ((48 ≤ c) × (c ≤ 57)) ⊎ (((65 ≤ c) × (c ≤ 90)) ⊎ ((97 ≤ c) × (c ≤ 122)))

random_char-Alphanumeric : (byte : ℕ) → Alphanumeric (random_char byte)
unfolding random_char
random_char-Alphanumeric byte = ground arith

-- A string of `n` letters and digits.
abbrev pub Letters : ℕ → List ℕ → Type 0
Letters n s = (length s ≡ n) × ((i : ℕ) → i < n → Alphanumeric (get_or s i 48))

-- One of the reads `i`, ..., `i + n - 1` fails.
abbrev pub Fails : (ℕ → Option ℕ) → ℕ → ℕ → Type 0
Fails read_byte i n = (j : ℕ) × (i ≤ j) × (j < i + n) × (read_byte j ≡ none)

abbrev pub Filled : (ℕ → Option ℕ) → ℕ → ℕ → Type 0
Filled read_byte i n =
    ((s : List ℕ) × (fill read_byte i n ≡ some s) × Letters n s)
    ⊎ ((fill read_byte i n ≡ none) × Fails read_byte i n)

fill_failed :
    (read_byte : ℕ → Option ℕ) (i n : ℕ) → read_byte i ≡ none → fill read_byte i (suc n) ≡ none
unfolding fill
fill_failed read_byte i n e = ground arith

fill_failed_later :
    (read_byte : ℕ → Option ℕ) (i n : ℕ) (byte : ℕ)
    → read_byte i ≡ some byte
    → fill read_byte (suc i) n ≡ none
    → fill read_byte i (suc n) ≡ none
unfolding fill
fill_failed_later read_byte i n byte e f = ground arith

fill_more :
    (read_byte : ℕ → Option ℕ) (i n : ℕ) (byte : ℕ) (s : List ℕ)
    → read_byte i ≡ some byte
    → fill read_byte (suc i) n ≡ some s
    → fill read_byte i (suc n) ≡ some (random_char byte ∷ s)
unfolding fill
fill_more read_byte i n byte s e f = ground arith

Letters-cons : (n byte : ℕ) (s : List ℕ) → Letters n s → Letters (suc n) (random_char byte ∷ s)
Letters-cons n byte s (len, letters) = (
  omega arith,
  λ i. elim i as (λ i. i < suc n → Alphanumeric (get_or (random_char byte ∷ s) i 48)) [
    | zero ↦ λ _. random_char-Alphanumeric byte
    | suc j ↦ λ p. letters j (omega arith)
  ],
)

fill-Filled : (read_byte : ℕ → Option ℕ) (i n : ℕ) → Filled read_byte i n
unfolding fill
fill-Filled read_byte i zero = inl ([], refl, (refl, λ j p. absurd (omega arith)))
fill-Filled read_byte i (suc n) = elim (Option-cases (read_byte i)) [
  | inl e ↦ inr (fill_failed read_byte i n e, (i, omega arith, omega arith, e))
  | inr (byte, e) ↦ elim (fill-Filled read_byte (suc i) n) [
    | inl (s, f, letters) ↦
        inl
          (random_char byte ∷ s, fill_more read_byte i n byte s e f, Letters-cons n byte s letters)
    | inr (f, (j, p, q, g)) ↦
        inr (fill_failed_later read_byte i n byte e f, (j, omega arith, omega arith, g))
  ]
]

string_made :
    (os : Urandom) (held : Held) (n : ℕ) (s : List ℕ)
    → suc n < int32_max
    → os.grants (suc n + 1) ≡ true
    → os.opens ≡ true
    → fill os.read_byte 0 (suc n) ≡ some s
    → generate_random_string os held (pos (suc n))
      ≡ done (record held { strings = held.strings + 1 }, some s)
unfolding generate_random_string read_string
string_made os held n s small g o f = ground arith

string_failed :
    (os : Urandom) (held : Held) (n : ℕ)
    → suc n < int32_max
    → (os.grants (suc n + 1) ≡ false) ⊎ ((os.opens ≡ false) ⊎ (fill os.read_byte 0 (suc n) ≡ none))
    → generate_random_string os held (pos (suc n)) ≡ done (held, none)
unfolding generate_random_string read_string
string_failed os held n small why = ground arith

-- For a length from 1 to INT_MAX - 1, generate_random_string gives a string of that many letters and
-- digits, the only allocation that it leaves; or it gives NULL and leaves nothing, and then malloc,
-- open or one of the reads failed. No descriptor stays open.
pub generate_random_string_lem :
    (os : Urandom) (held : Held) (n : ℕ)
    → suc n < int32_max
    → ((s : List ℕ) × (generate_random_string os held (pos (suc n))
          ≡ done (record held { strings = held.strings + 1 }, some s))
        × Letters (suc n) s)
      ⊎ ((generate_random_string os held (pos (suc n)) ≡ done (held, none))
          × ((os.grants (suc n + 1) ≡ false) ⊎ ((os.opens ≡ false) ⊎ Fails os.read_byte 0 (suc n))))
generate_random_string_lem os held n small = elim (Bool-cases (os.grants (suc n + 1))) [
  | inr g ↦ inr (string_failed os held n small (inl g), inl g)
  | inl g ↦ elim (Bool-cases os.opens) [
    | inr o ↦ inr (string_failed os held n small (inr (inl o)), inr (inl o))
    | inl o ↦ elim (fill-Filled os.read_byte 0 (suc n)) [
      | inl (s, f, letters) ↦ inl (s, string_made os held n s small g o f, letters)
      | inr (f, fails) ↦ inr (string_failed os held n small (inr (inr f)), inr (inr fails))
    ]
  ]
]
