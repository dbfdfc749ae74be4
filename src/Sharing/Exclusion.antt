-- ===== src/Sharing/Exclusion.antt =====
-- The lock keeps the threads apart.
use audio_fs.Base.{ℕ, ◌+◌, ◌≡◌, ◌≤◌, ◌↔◌, ◌∙◌, Bool, true, false, arith, if◌then◌else◌}
use audio_fs.Memory.{done, Allocator}
use audio_fs.Buffer.{Buffer, realloc_locked}
use audio_fs.Threads.{weigh, Step, turn, Step-weights, Reach, Reach-kept}
use audio_fs.Sharing.{
  Shared, Pc, idle, asking, marked, unlocked, sliced, locked, unmarked, Move, take_lock, take_mark,
  take_unlock, take_slice, forget, realloc_no_buffer, realloc_lock, realloc_unmark, realloc_body,
  Sharers,
}

-- Between the lock and the unlock of `lock`.
abbrev pub holds : Pc → ℕ
holds idle = 0
holds asking = 1
holds marked = 1
holds unlocked = 0
holds (sliced g) = 0
holds (locked size) = 1
holds (unmarked size) = 1

abbrev pub bit : Bool → ℕ
bit b = if b then 1 else 0

-- As many threads hold the lock as it says.
pub record Exclusive (s : Sharers) : Type 0 where
  pub counted : weigh holds s.threads ≡ bit s.shared.buffer.lock

realloc_locked-unlocks :
    (mem : Allocator) (b : Buffer) (size : ℕ) (b' : Buffer) (r : Bool)
    → realloc_locked mem b size ≡ done (b', r)
    → b'.lock ≡ false
unfolding realloc_locked
realloc_locked-unlocks mem b size b' r e = ground arith

-- A move of one thread beside `others` that hold the lock.
Move-counted :
    (mem : Allocator) {s m : Shared} {p q : Pc} (others : ℕ)
    → Move mem s p m q
    → others + holds p ≡ bit s.buffer.lock
    → others + holds q ≡ bit m.buffer.lock
Move-counted mem others (take_lock e) h = ground arith
Move-counted mem others (take_mark e) h = ground arith
Move-counted mem others take_unlock h = ground arith
Move-counted mem others (take_slice bytes e) h = ground arith
Move-counted mem others (forget g) h = ground arith
Move-counted mem others (realloc_no_buffer e) h = ground arith
Move-counted mem others (realloc_lock size e f) h = ground arith
Move-counted mem others (realloc_unmark size) h = ground arith
Move-counted mem {s} others (realloc_body size b r e) h =
    ground (arith, realloc_locked-unlocks mem s.buffer size b r e)

pub Step-Exclusive :
    (mem : Allocator) {s t : Sharers} → Step (Move mem) s t → Exclusive s → Exclusive t
Step-Exclusive mem {s} (turn xs p ys m q e mv) inv = record {
  counted =
      let (before, after) = Step-weights (Move mem) holds s xs p ys q e in
      after
      ∙ Move-counted mem (weigh holds xs + weigh holds ys) mv (omega (arith, before, inv.counted));
}

pub Reach-Exclusive :
    (mem : Allocator) {s t : Sharers} → Reach (Move mem) s t → Exclusive s → Exclusive t
Reach-Exclusive mem {s} {t} r inv =
    Reach-kept (Move mem) Exclusive (λ s t st. Step-Exclusive mem {s = s} {t = t} st) s t r inv

-- From threads that have not begun, at a buffer whose lock is free, no state is reached where two
-- threads are between the lock and the unlock of `lock`, and one is there exactly while it is held.
pub mutual_exclusion :
    (mem : Allocator) {s t : Sharers}
    → weigh holds s.threads ≡ 0
    → s.shared.buffer.lock ≡ false
    → Reach (Move mem) s t
    → (weigh holds t.threads ≤ 1) × (weigh holds t.threads ≡ 1 ↔ t.shared.buffer.lock ≡ true)
mutual_exclusion mem {s} {t} none_in free r =
    let inv : Exclusive s = record { counted = ground arith } in
    let end = Reach-Exclusive mem r inv in
    (ground (arith, end.counted), ground (arith, end.counted))
