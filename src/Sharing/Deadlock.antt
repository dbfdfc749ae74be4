-- ===== src/Sharing/Deadlock.antt =====
-- A second thread of Go that takes a buffer in use stops all threads for ever.
use audio_fs.Base.{ℕ, ◌+◌, ◌≡◌, ◌≤◌, refl, ap, ◌∙◌, true, false, List, [], ◌∷◌, ◌++◌, arith}
use audio_fs.Memory.{Allocator}
use audio_fs.Threads.{weigh, weigh-append, Step, turn, Reach, here, later}
use audio_fs.Sharing.{
  Shared, Pc, idle, asking, marked, unlocked, sliced, locked, unmarked, with_lock, Move, take_lock,
  take_mark, take_unlock, take_slice, forget, realloc_no_buffer, realloc_lock, realloc_unmark,
  realloc_body, Sharers,
}
use audio_fs.Sharing.Exclusion.{holds, Exclusive}

-- The threads that hold the lock and wait for `used_outside_audiofs`.
abbrev pub asks : Pc → ℕ
asks idle = 0
asks asking = 1
asks marked = 0
asks unlocked = 0
asks (sliced g) = 0
asks (locked size) = 0
asks (unmarked size) = 0

-- One thread is inside, and waits for a mark that is set.
pub record Stuck (s : Sharers) : Type 0 where
  pub held : s.shared.buffer.lock ≡ true
  pub in_use : s.shared.buffer.used_outside_audiofs ≡ true
  pub inside : weigh holds s.threads ≡ 1
  pub waiting : weigh asks s.threads ≡ 1

-- A move beside threads `holding` of which hold the lock and `asked` wait for the mark.
Move-Stuck :
    (mem : Allocator) {s m : Shared} {p q : Pc} (holding asked : ℕ)
    → Move mem s p m q
    → s.buffer.lock ≡ true
    → s.buffer.used_outside_audiofs ≡ true
    → holding + holds p ≡ 1
    → asked + asks p ≡ 1
    → asked ≤ holding
    → (m ≡ s) × (holding + holds q ≡ 1) × (asked + asks q ≡ 1)
Move-Stuck mem holding asked (take_lock e) l u h a le = absurd (ground arith)
Move-Stuck mem holding asked (take_mark e) l u h a le = absurd (ground arith)
Move-Stuck mem holding asked take_unlock l u h a le = absurd (omega arith)
Move-Stuck mem holding asked (take_slice bytes e) l u h a le = (refl, omega arith, omega arith)
Move-Stuck mem holding asked (forget g) l u h a le = (refl, omega arith, omega arith)
Move-Stuck mem holding asked (realloc_no_buffer e) l u h a le = (refl, omega arith, omega arith)
Move-Stuck mem holding asked (realloc_lock size e f) l u h a le = absurd (ground arith)
Move-Stuck mem holding asked (realloc_unmark size) l u h a le = absurd (omega arith)
Move-Stuck mem holding asked (realloc_body size b r e) l u h a le = absurd (omega arith)

asks-le-holds : (ps : List Pc) → weigh asks ps ≤ weigh holds ps
asks-le-holds [] = omega arith
asks-le-holds (p ∷ ps) = ground (arith, asks-le-holds ps)

Step-Stuck :
    (mem : Allocator) {s t : Sharers}
    → Step (Move mem) s t
    → Stuck s
    → Stuck t × (t.shared ≡ s.shared)
Step-Stuck mem {s} (turn xs p ys m q e mv) st =
    let (same, inside, waiting) =
      Move-Stuck mem (weigh holds xs + weigh holds ys) (weigh asks xs + weigh asks ys) mv st.held
        st.in_use (omega (arith, st.inside, ap (weigh holds) e, weigh-append holds xs (p ∷ ys)))
        (omega (arith, st.waiting, ap (weigh asks) e, weigh-append asks xs (p ∷ ys)))
        (omega (arith, asks-le-holds xs, asks-le-holds ys)) in
    (
      record {
        held = ap (λ (k : Shared). k.buffer.lock) same ∙ st.held;
        in_use = ap (λ (k : Shared). k.buffer.used_outside_audiofs) same ∙ st.in_use;
        inside = omega (arith, weigh-append holds xs (q ∷ ys), inside);
        waiting = omega (arith, weigh-append asks xs (q ∷ ys), waiting);
      },
      same,
    )

pub Reach-Stuck :
    (mem : Allocator) {s t : Sharers}
    → Reach (Move mem) s t
    → Stuck s
    → Stuck t × (t.shared ≡ s.shared)
Reach-Stuck mem here st = (st, refl)
Reach-Stuck mem (later r step) st =
    let (before, same) = Reach-Stuck mem r st in
    let (after, kept) = Step-Stuck mem step before in (after, kept ∙ same)

-- Where the lock is free and the buffer is in use, an idle thread that takes the buffer has a move,
-- behind which no sequence of moves of any threads changes the buffer, frees the lock or the mark, or
-- lets that thread go on.
pub second_take-Stuck :
    (mem : Allocator) (s : Sharers) (xs ys : List Pc)
    → Exclusive s
    → s.shared.buffer.lock ≡ false
    → s.shared.buffer.used_outside_audiofs ≡ true
    → s.threads ≡ xs ++ (idle ∷ ys)
    → (t : Sharers) × Step (Move mem) s t
      × ((u : Sharers) → Reach (Move mem) t u → Stuck u × (u.shared ≡ t.shared))
second_take-Stuck mem s xs ys inv free used e =
    let t : Sharers = record { shared = with_lock true s.shared; threads = xs ++ (asking ∷ ys) } in
    let none_in : weigh holds xs + weigh holds ys ≡ 0 =
      ground (arith, inv.counted, ap (weigh holds) e, weigh-append holds xs (idle ∷ ys)) in
    let st : Stuck t = record {
      held = refl;
      in_use = used;
      inside = omega (arith, weigh-append holds xs (asking ∷ ys));
      waiting =
          omega (arith, weigh-append asks xs (asking ∷ ys), asks-le-holds xs, asks-le-holds ys);
    } in
    (
      t,
      turn xs idle ys (with_lock true s.shared) asking e (take_lock free),
      λ u r. Reach-Stuck mem r st,
    )
