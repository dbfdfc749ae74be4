-- ===== src/Memory.antt =====
-- The C memory that native/util.h and native/custom_avio.c work on: allocated blocks of bytes,
-- the allocator as a parameter, and what a piece of C code can come to.
use audio_fs.Base.{
  ℕ, zero, suc, ◌<◌, ◌≡◌, refl, ap, Bool, ◌&&◌, List, [], ◌∷◌, length, get_or, ltb, leb,
  if◌then◌else◌, arith,
}

-- A call returns, meets undefined behaviour (an access outside a block, a use of NULL), waits on a
-- mutex that is held, or (of a loop that is modelled on fuel) has used up its fuel.
pub data Outcome {ℓ} (A : Type ℓ) : Type ℓ where
  done : A → Outcome A
  fault : Outcome A
  blocked : Outcome A
  spent : Outcome A

infixl 5 ◌>>=◌
abbrev pub ◌>>=◌ {ℓ κ} : {A : Type ℓ} {B : Type κ} → Outcome A → (A → Outcome B) → Outcome B
done a >>= f = f a
fault >>= f = fault
blocked >>= f = blocked
spent >>= f = spent

-- An allocated block: its size, and its byte at each index (an index from `size` on is outside).
pub record Block : Type 0 where
  pub size : ℕ
  pub byte : ℕ → ℕ

-- The places of the code that ask for memory.
pub data Request : Type 0 where
  handle_struct buffer_struct buffer_data resize emergency log_line : Request

-- The allocator: whether a request for so many bytes is granted, and what fresh memory that is not
-- cleared holds.
pub record Allocator : Type 0 where
  pub grants : Request → ℕ → Bool
  pub garbage : ℕ → ℕ

-- calloc(1, size)
abbrev pub zeroed : ℕ → Block
zeroed size = record { size = size; byte = λ _. 0 }

-- realloc(ptr, size) where it succeeds: the old bytes up to the smaller size, then anything.
unfoldable pub reallocated : Allocator → Block → ℕ → Block
reallocated mem b size = record {
  size = size;
  byte = λ i. if ltb i b.size then b.byte i else mem.garbage i;
}

-- memcpy(block, src, n): a fault where either side has fewer bytes.
unfoldable pub copy_in : ℕ → List ℕ → Block → Outcome Block
copy_in n src b =
    if leb n (length src) && leb n b.size
    then done (record b { byte = λ i. if ltb i n then get_or src i 0 else b.byte i })
    else fault

-- The bytes `f 0`, ..., `f (n - 1)`.
abbrev pub tabulate : ℕ → (ℕ → ℕ) → List ℕ
tabulate zero f = []
tabulate (suc n) f = f 0 ∷ tabulate n (λ i. f (suc i))

-- memcpy(dst, block, n) into a destination of `room` bytes: the bytes that arrive.
unfoldable pub copy_out : ℕ → ℕ → Block → Outcome (List ℕ)
copy_out room n b = if leb n room && leb n b.size then done (tabulate n b.byte) else fault

pub length-tabulate : (n : ℕ) (f : ℕ → ℕ) → length (tabulate n f) ≡ n
length-tabulate zero f = refl
length-tabulate (suc n) f = ap suc (length-tabulate n (λ i. f (suc i)))

pub get_or-tabulate : (n : ℕ) (f : ℕ → ℕ) (i d : ℕ) → i < n → get_or (tabulate n f) i d ≡ f i
get_or-tabulate zero f i d p = absurd (omega arith)
get_or-tabulate (suc n) f zero d p = refl
get_or-tabulate (suc n) f (suc i) d p = get_or-tabulate n (λ j. f (suc j)) i d (omega arith)

-- Inversion of a sequence that returns.
pub >>=-eq-done {ℓ κ} :
    {A : Type ℓ} {B : Type κ} (m : Outcome A) (f : A → Outcome B) {b : B}
    → (m >>= f) ≡ done b
    → (a : A) × (m ≡ done a) × (f a ≡ done b)
>>=-eq-done (done a) f h = (a, refl, h)
>>=-eq-done fault f h = cc
>>=-eq-done blocked f h = cc
>>=-eq-done spent f h = cc
