-- ===== src/Random.antt =====
-- generate_random_string of native/util.h.
pub mod Laws
mod Tests
use audio_fs.Base.{
  ℕ, zero, suc, ◌+◌, ◌-◌, ◌%◌, Bool, Option, none, some, List, [], ◌∷◌, ltb, leb, if◌then◌else◌,
}
use audio_fs.Base.Int.{ℤ, pos, negsuc}
use audio_fs.Memory.{Outcome, done, fault}
use audio_fs.Avio.{int32_max}

-- malloc, open of /dev/urandom, and the byte that the i-th read of it gives, if it gives one.
pub record Urandom : Type 0 where
  pub grants : ℕ → Bool
  pub opens : Bool
  pub read_byte : ℕ → Option ℕ

-- The strings that are allocated and the descriptors that are open.
pub record Held : Type 0 where
  pub strings : ℕ
  pub descriptors : ℕ

-- The character for a random byte.
unfoldable pub random_char : ℕ → ℕ
random_char byte =
    let random_byte = byte % 62 in
    if ltb random_byte 10
    then 48 + random_byte
    else if ltb random_byte 36
    then 65 + (random_byte - 10)
    else 97 + (random_byte - 36)

-- The loop from index `i` on: the characters, or nothing where a read fails.
unfoldable pub fill : (ℕ → Option ℕ) → ℕ → ℕ → Option (List ℕ)
fill read_byte i zero = some []
fill read_byte i (suc n) = elim (read_byte i) [
  | none ↦ none
  | some byte ↦ elim (fill read_byte (suc i) n) [
    | none ↦ none
    | some rest ↦ some (random_char byte ∷ rest)
  ]
]

-- free of the string, and close of the descriptor.
abbrev pub freed : Held → Held
freed held = record held { strings = held.strings - 1 }

abbrev pub closed : Held → Held
closed held = record held { descriptors = held.descriptors - 1 }

-- What follows the malloc, which is counted in `held`: the string without its NUL.
unfoldable pub read_string : Urandom → Held → ℕ → Held × Option (List ℕ)
unfolding fill
read_string os held n =
    let opened : Held = record held { descriptors = held.descriptors + 1 } in
    if os.opens
    then elim (fill os.read_byte 0 n) [
      | none ↦ (closed (freed opened), none)
      | some s ↦ (closed opened, some s)
    ]
    else (freed held, none)

-- generate_random_string: `length + 1` is an int, so that the largest length overflows.
unfoldable pub generate_random_string : Urandom → Held → ℤ → Outcome (Held × Option (List ℕ))
unfolding read_string
generate_random_string os held (negsuc n) = done (held, none)
generate_random_string os held (pos zero) = done (held, none)
generate_random_string os held (pos (suc n)) =
    if leb int32_max (suc n)
    then fault
    else if os.grants (suc n + 1)
    then done (read_string os (record held { strings = held.strings + 1 }) (suc n))
    else done (held, none)
