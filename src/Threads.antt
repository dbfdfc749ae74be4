-- ===== src/Threads.antt =====
-- Threads over a shared state: any thread makes a move of its own, in any order. What a move is, is a
-- parameter; Sharing gives its own.
use audio_fs.Base.{ℕ, ◌+◌, ◌≡◌, refl, ap, Bool, true, ◌&&◌, List, [], ◌∷◌, ◌++◌, arith}

-- The shared state, and where each thread stands.
pub record System (Shared Pc : Type 0) : Type 0 where
  pub shared : Shared
  pub threads : List Pc

-- The number of threads, each counted by its weight.
abbrev pub weigh : {Pc : Type 0} → (Pc → ℕ) → List Pc → ℕ
weigh w [] = 0
weigh w (p ∷ ps) = w p + weigh w ps

pub weigh-append :
    {Pc : Type 0} (w : Pc → ℕ) (ps qs : List Pc) → weigh w (ps ++ qs) ≡ weigh w ps + weigh w qs
weigh-append w [] qs = omega arith
weigh-append w (p ∷ ps) qs = omega (arith, weigh-append w ps qs)

-- Whether a test holds of all threads.
abbrev pub all : {Pc : Type 0} → (Pc → Bool) → List Pc → Bool
all test [] = true
all test (p ∷ ps) = test p && all test ps

pub all-append :
    {Pc : Type 0} (test : Pc → Bool) (ps qs : List Pc)
    → all test (ps ++ qs) ≡ (all test ps && all test qs)
all-append test [] qs = refl
all-append test (p ∷ ps) qs = ground (arith, all-append test ps qs)

module _ {Shared Pc : Type 0} (Move : Shared → Pc → Shared → Pc → Type 0) where
  pub data Step (s : System Shared Pc) : System Shared Pc → Type 0 where
    turn :
        (xs : List Pc) (p : Pc) (ys : List Pc) (m : Shared) (q : Pc)
        → s.threads ≡ xs ++ (p ∷ ys)
        → Move s.shared p m q
        → Step s (record { shared = m; threads = xs ++ (q ∷ ys) })

  pub data Reach (s : System Shared Pc) : System Shared Pc → Type 0 where
    here : Reach s s
    later : {t u : System Shared Pc} → Reach s t → Step t u → Reach s u

  -- What every step keeps holds in every state that is reached.
  pub Reach-kept :
      (Inv : System Shared Pc → Type 0)
      → ((s t : System Shared Pc) → Step s t → Inv s → Inv t)
      → (s t : System Shared Pc) → Reach s t
      → Inv s
      → Inv t
  Reach-kept Inv kept s t here inv = inv
  Reach-kept Inv kept s t (later {t = r} before st) inv =
      kept r t st (Reach-kept Inv kept s r before inv)

  -- The weights on both sides of a step.
  pub Step-weights :
      (w : Pc → ℕ) (s : System Shared Pc) (xs : List Pc) (p : Pc) (ys : List Pc) (q : Pc)
      → s.threads ≡ xs ++ (p ∷ ys)
      → (weigh w s.threads ≡ (weigh w xs + weigh w ys) + w p)
        × (weigh w (xs ++ (q ∷ ys)) ≡ (weigh w xs + weigh w ys) + w q)
  Step-weights w s xs p ys q e = (
    omega (arith, ap (weigh w) e, weigh-append w xs (p ∷ ys)),
    omega (arith, weigh-append w xs (q ∷ ys)),
  )
