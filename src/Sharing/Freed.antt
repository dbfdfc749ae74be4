-- ===== src/Sharing/Freed.antt =====
-- The slices that Go holds while audiofs_buffer_realloc moves the data.
use audio_fs.Base.{
  ℕ, ◌+◌, ◌≡◌, ◌≤◌, ◌<◌, refl, sym, ap, ◌∙◌, Bool, true, false, ◌&&◌, leb, List, [], ◌∷◌, ◌++◌,
  arith,
}
use audio_fs.Memory.{done, Allocator, resize}
use audio_fs.Buffer.{Buffer, buffer_ok, buffer_realloc, realloc_locked}
use audio_fs.Buffer.Valid.{IsValid, IsValid-buffer_ok}
use audio_fs.Buffer.Realloc.{buffer_realloc_grow}
use audio_fs.Threads.{all, all-append, Step, turn, Reach, Reach-kept, here, later}
use audio_fs.Sharing.{
  Shared, Pc, idle, asking, marked, unlocked, sliced, locked, unmarked, with_lock, with_mark,
  resized, Move, take_lock, take_mark, take_unlock, take_slice, forget, realloc_no_buffer,
  realloc_lock, realloc_unmark, realloc_body, Sharers,
}

-- Each slice was taken after at most `k` moves of the data.
abbrev pub slice_within : ℕ → Pc → Bool
slice_within k idle = true
slice_within k asking = true
slice_within k marked = true
slice_within k unlocked = true
slice_within k (sliced g) = leb g k
slice_within k (locked size) = true
slice_within k (unmarked size) = true

slice_within_later : (k l : ℕ) (p : Pc) → k ≤ l → slice_within k p ≡ true → slice_within l p ≡ true
slice_within_later k l p le h = ground arith

slices_within_later :
    (k l : ℕ) (ps : List Pc)
    → k ≤ l
    → all (slice_within k) ps ≡ true
    → all (slice_within l) ps ≡ true
slices_within_later k l [] le h = refl
slices_within_later k l (p ∷ ps) le h =
    ground (arith, slice_within_later k l p le, slices_within_later k l ps le)

Move-slices :
    (mem : Allocator) {s m : Shared} {p q : Pc}
    → Move mem s p m q
    → (s.moves ≤ m.moves) × (slice_within m.moves q ≡ true)
Move-slices mem (take_lock e) = (omega arith, refl)
Move-slices mem (take_mark e) = (omega arith, refl)
Move-slices mem take_unlock = (omega arith, refl)
Move-slices mem (take_slice bytes e) = (omega arith, ground arith)
Move-slices mem (forget g) = (omega arith, refl)
Move-slices mem (realloc_no_buffer e) = (omega arith, refl)
Move-slices mem (realloc_lock size e f) = (omega arith, refl)
Move-slices mem (realloc_unmark size) = (omega arith, refl)
Move-slices mem (realloc_body size b r e) = (ground arith, refl)

-- No slice is of data that is still to come.
pub record Known (s : Sharers) : Type 0 where
  pub known : all (slice_within s.shared.moves) s.threads ≡ true

Step-Known : (mem : Allocator) {s t : Sharers} → Step (Move mem) s t → Known s → Known t
Step-Known mem {s} (turn xs p ys m q e mv) inv = record {
  known =
      let (on, new) = Move-slices mem mv in
      let k = s.shared.moves in
      let before : (all (slice_within k) xs && (slice_within k p && all (slice_within k) ys))
          ≡ true =
        cc (all-append (slice_within k) xs (p ∷ ys), ap (all (slice_within k)) e, inv.known) in
      ground (
        arith,
        all-append (slice_within m.moves) xs (q ∷ ys),
        slices_within_later k m.moves xs on,
        slices_within_later k m.moves ys on,
      );
}

pub Reach-Known : (mem : Allocator) {s t : Sharers} → Reach (Move mem) s t → Known s → Known t
Reach-Known mem {s} {t} r inv =
    Reach-kept (Move mem) Known (λ s t st. Step-Known mem {s = s} {t = t} st) s t r inv

-- audiofs_buffer_realloc with its lock free is its body with the lock held and the mark taken away.
buffer_realloc-body :
    (mem : Allocator) (b : Buffer) (size : ℕ)
    → buffer_ok b ≡ true
    → b.lock ≡ false
    → buffer_realloc mem b size
      ≡ realloc_locked mem (record b { lock = true; used_outside_audiofs = false }) size
unfolding buffer_realloc
buffer_realloc-body mem b size ok free = ground arith

-- The three moves of one call of audiofs_buffer_realloc by an idle thread.
realloc_run :
    (mem : Allocator) (s : Sharers) (xs ys : List Pc) (size : ℕ) (b : Buffer) (r : Bool)
    → s.threads ≡ xs ++ (idle ∷ ys)
    → buffer_ok s.shared.buffer ≡ true
    → s.shared.buffer.lock ≡ false
    → buffer_realloc mem s.shared.buffer size ≡ done (b, r)
    → Reach (Move mem) s (record {
      shared = resized size (with_mark false (with_lock true s.shared)) b r;
      threads = xs ++ (idle ∷ ys);
    })
realloc_run mem s xs ys size b r e ok free run =
    let held : Shared = with_lock true s.shared in
    let clear : Shared = with_mark false held in
    later
      (later (later here (turn xs idle ys held (locked size) e (realloc_lock size ok free)))
        (turn xs (locked size) ys clear (unmarked size) refl (realloc_unmark size)))
      (turn xs (unmarked size) ys (resized size clear b r) idle refl
        (realloc_body size b r (sym (buffer_realloc-body mem s.shared.buffer size ok free) ∙ run)))

-- From a start where no slice is held, in any state that is reached with a valid buffer, an idle
-- thread can grow the buffer, with memory granted: the other threads stay where they are, no mark keeps
-- the call off, and every slice that Go holds then is of data that was given to realloc.
pub growth-stales :
    (mem : Allocator) {o s : Sharers} (xs ys : List Pc) (size : ℕ)
    → all (slice_within o.shared.moves) o.threads ≡ true
    → Reach (Move mem) o s
    → s.threads ≡ xs ++ (idle ∷ ys)
    → IsValid s.shared.buffer
    → s.shared.buffer.len < size
    → mem.grants resize size ≡ true
    → (t : Sharers) × Reach (Move mem) s t
      × (t.threads ≡ s.threads)
      × (t.shared.moves ≡ s.shared.moves + 1)
      × (all (slice_within s.shared.moves) t.threads ≡ true)
      × IsValid t.shared.buffer
growth-stales mem {o} {s} xs ys size none_held r e valid p g =
    let (b, run, sound, long, same, fresh) = buffer_realloc_grow mem size valid p g in
    let inv = Reach-Known mem r (record { known = none_held }) in
    (
      _,
      realloc_run mem s xs ys size b true e (IsValid-buffer_ok valid) valid.unlocked run,
      sym e,
      ground arith,
      cc (inv.known, ap (all (slice_within s.shared.moves)) e),
      sound,
    )
