-- ===== src/Random/Tests.antt =====
-- generate_random_string at a concrete source of bytes.
use audio_fs.Base.{ℕ, ◌*◌, ◌≡◌, refl, ◌⊎◌, true, false, none, some, List, [], ◌∷◌, arith}
use audio_fs.Base.Int.{pos}
use audio_fs.Memory.{done}
use audio_fs.Random.{Urandom, Held, random_char, generate_random_string}
use audio_fs.Random.Laws.{Letters, Fails, generate_random_string_lem}

-- The i-th byte is 35 i.
abbrev steady : Urandom
steady = record { grants = λ n. true; opens = true; read_byte = λ i. some (35 * i) }

abbrev nothing : Held
nothing = record { strings = 0; descriptors = 0 }

steady_run :
    generate_random_string steady nothing (pos 3)
    ≡ done (record nothing { strings = 1 }, some (48 ∷ 90 ∷ 56 ∷ []))
unfolding generate_random_string random_char
steady_run = refl

generate_random_string_lem_example :
    ((s : List ℕ) × (generate_random_string steady nothing (pos 3)
        ≡ done (record nothing { strings = 1 }, some s))
      × Letters 3 s)
    ⊎ ((generate_random_string steady nothing (pos 3) ≡ done (nothing, none))
        × ((true ≡ false) ⊎ ((true ≡ false) ⊎ Fails (λ i. some (35 * i)) 0 3)))
generate_random_string_lem_example = generate_random_string_lem steady nothing 2 (omega arith)
