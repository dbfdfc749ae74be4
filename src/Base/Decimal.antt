-- ===== src/Base/Decimal.antt =====
-- `%d` of printf, and the bytes of a literal.
use Prim.Native.Char.{code}
use Prim.Native.String.{String}
use audio_fs.Base.{
  ℕ, zero, suc, ◌+◌, ◌*◌, ◌/◌, ◌-◌, ◌%◌, ◌^◌, ◌≡◌, ◌≤◌, ◌<◌, true, false, Bool-cases, inl, inr,
  List, [], ◌∷◌, ltb, length, arith,
}
use audio_fs.Base.Int.{ℤ, pos, negsuc}

-- The bytes of an ASCII literal.
abbrev pub bytes_of : String → List ℕ
bytes_of String.[] = []
bytes_of (String.◌∷◌ c s) = code c ∷ bytes_of s

-- The digits of `n` in front of `out`, for `n` below 10 ^ fuel.
unfoldable pub digits : ℕ → ℕ → List ℕ → List ℕ
digits zero n out = out
digits (suc fuel) n out = elim (ltb n 10) [
  | true ↦ (48 + n) ∷ out
  | false ↦ digits fuel (n / 10) ((48 + n % 10) ∷ out)
]

-- An int has at most ten digits.
unfoldable pub decimal : ℤ → List ℕ
unfolding digits
decimal (pos n) = digits 10 n []
decimal (negsuc n) = b'-' ∷ digits 10 (n + 1) []

digits-last :
    (fuel n : ℕ) (out : List ℕ) → ltb n 10 ≡ true → digits (suc fuel) n out ≡ (48 + n) ∷ out
unfolding digits
digits-last fuel n out e = ground arith

digits-more :
    (fuel n : ℕ) (out : List ℕ)
    → ltb n 10 ≡ false
    → digits (suc fuel) n out ≡ digits fuel (n / 10) ((48 + n % 10) ∷ out)
unfolding digits
digits-more fuel n out e = ground arith

pub length-digits : (fuel n : ℕ) (out : List ℕ) → length (digits fuel n out) ≤ fuel + length out
unfolding digits
length-digits zero n out = omega arith
length-digits (suc fuel) n out = elim (Bool-cases (ltb n 10)) [
  | inl e ↦ rw (digits-last fuel n out e) (omega arith)
  | inr e ↦
      rw (digits-more fuel n out e)
        (omega (arith, length-digits fuel (n / 10) ((48 + n % 10) ∷ out)))
]

-- The number that digits spell behind `n`.
abbrev pub spelled : ℕ → List ℕ → ℕ
spelled n [] = n
spelled n (c ∷ cs) = spelled (n * 10 + (c - 48)) cs

-- The digits spell the number, where the fuel is enough for it.
pub spelled-digits :
    (fuel n : ℕ) (out : List ℕ) → n < 10 ^ fuel → spelled 0 (digits fuel n out) ≡ spelled n out
unfolding digits
spelled-digits zero n out p = ground arith
spelled-digits (suc fuel) n out p = elim (Bool-cases (ltb n 10)) [
  | inl e ↦ rw (digits-last fuel n out e) (ground arith)
  | inr e ↦
      rw (digits-more fuel n out e)
        (ground (arith, spelled-digits fuel (n / 10) ((48 + n % 10) ∷ out)))
]

pub length-decimal : (z : ℤ) → length (decimal z) ≤ 11
unfolding decimal
length-decimal (pos n) = omega (arith, length-digits 10 n [])
length-decimal (negsuc n) = omega (arith, length-digits 10 (n + 1) [])
