-- ===== src/Sharing/Tests.antt =====
-- Two threads at a small buffer.
use audio_fs.Base.{◌+◌, ◌≡◌, ◌≤◌, ◌↔◌, refl, true, false, [], ◌∷◌, arith}
use audio_fs.Buffer.Valid.{IsValid}
use audio_fs.Samples.{generous, small_buffer}
use audio_fs.Setup.{slice}
use audio_fs.Threads.{weigh, all, Step, turn, Reach, here, later}
use audio_fs.Sharing.{
  Shared, idle, asking, marked, unlocked, sliced, with_lock, with_mark, take_lock, take_mark,
  take_unlock, take_slice, Sharers, Move,
}
use audio_fs.Sharing.Exclusion.{holds, mutual_exclusion}
use audio_fs.Sharing.Deadlock.{Stuck, second_take-Stuck}
use audio_fs.Sharing.Freed.{slice_within, growth-stales}

abbrev two_idle : Sharers
two_idle = record {
  shared = record { buffer = small_buffer; moves = 0 };
  threads = idle ∷ idle ∷ [];
}

abbrev used : Shared
used = with_lock false (with_mark true (with_lock true two_idle.shared))

-- The first thread has its slice.
abbrev one_sliced : Sharers
one_sliced = record { shared = used; threads = sliced 0 ∷ idle ∷ [] }

-- It took the lock and the mark, let the lock go, and read the slice.
taken : Reach (Move generous) two_idle one_sliced
unfolding slice
taken =
    let s1 : Shared = with_lock true two_idle.shared in
    let s2 : Shared = with_mark true s1 in
    later
      (later
        (later (later here (turn [] idle (idle ∷ []) s1 asking refl (take_lock refl)))
          (turn [] asking (idle ∷ []) s2 marked refl (take_mark refl)))
        (turn [] marked (idle ∷ []) used unlocked refl take_unlock))
      (turn [] unlocked (idle ∷ []) used (sliced 0) refl (take_slice (10 ∷ 11 ∷ 12 ∷ 13 ∷ []) refl))

mutual_exclusion_example :
    (weigh holds one_sliced.threads ≤ 1)
    × (weigh holds one_sliced.threads ≡ 1 ↔ one_sliced.shared.buffer.lock ≡ true)
mutual_exclusion_example = mutual_exclusion generous {s = two_idle} {t = one_sliced} refl refl taken

second_take-Stuck_example :
    (t : Sharers) × Step (Move generous) one_sliced t
    × ((u : Sharers) → Reach (Move generous) t u → Stuck u × (u.shared ≡ t.shared))
second_take-Stuck_example =
    second_take-Stuck generous one_sliced (sliced 0 ∷ []) [] (record { counted = refl }) refl refl
      refl

used-IsValid : IsValid used.buffer
used-IsValid = record { cookie_set = refl; self_set = refl; unlocked = refl; sized = refl }

growth-stales_example :
    (t : Sharers) × Reach (Move generous) one_sliced t
    × (t.threads ≡ one_sliced.threads)
    × (t.shared.moves ≡ one_sliced.shared.moves + 1)
    × (all (slice_within one_sliced.shared.moves) t.threads ≡ true)
    × IsValid t.shared.buffer
growth-stales_example =
    growth-stales generous {o = two_idle} {s = one_sliced} (sliced 0 ∷ []) [] 9 refl taken refl
      used-IsValid (omega arith) refl
