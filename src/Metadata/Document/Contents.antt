-- ===== src/Metadata/Document/Contents.antt =====
-- The document of a run of get_metadate_from_file that returns one.
use audio_fs.Base.{
  ℕ, zero, suc, ◌≡◌, refl, Bool, true, Bool-cases, Option-cases, inl, inr, List, [], ◌∷◌, ◌++◌,
  Option, none, some, length, arith,
}
use mathlib.Core.List.{append-nil}
use audio_fs.Memory.{Outcome, done, >>=-eq-done}
use audio_fs.Avio.{Handle, Posix}
use audio_fs.Transcode.Session.{Session}
use audio_fs.Metadata.{
  JsonCall, CodecPar, Stream, MediaFile, json_file, json_file_format, json_file_metadata,
}
use audio_fs.Metadata.Leaves.{format_leaves, file_leaves, tag_leaves, file_calls}
use audio_fs.Metadata.File.{
  last_calls, enter_streams, release_streams, Walked, Left, dumped, noted, printed, after_print,
  walk_streams, get_metadate_from_file,
}
use audio_fs.Metadata.File.Laws.{done_inj, enter_streams_more}
use audio_fs.Metadata.File.Walk.{walk_skipped, walk_plain, walk_audio, walk, print}
use audio_fs.Metadata.File.Results.{before, released, read_file-Finished, get_metadate-dumped}
use audio_fs.Metadata.Document.{set_on, set_on-append, set_on-three, pick}
use audio_fs.Metadata.Document.Streams.{
  Described, no_stream, Described-same, Set, skipped-Set, noted-Set, printed-Set,
}

set_on-release_streams : (o i n : ℕ) → set_on o (release_streams i n) ≡ []
unfolding release_streams
set_on-release_streams o i zero = refl
set_on-release_streams o i (suc n) = set_on-release_streams o (suc i) n

set_on-enter_streams :
    (room i n o : ℕ) {cs : List JsonCall} → enter_streams room i n ≡ done cs → set_on o cs ≡ []
unfolding enter_streams
set_on-enter_streams room i zero o {cs} e =
    let none_made : [] ≡ cs = cc (e) in rw (← none_made) refl
set_on-enter_streams room i (suc n) o {cs} e =
    let (rest, run, eq) = enter_streams_more room i n e in
    let later = set_on-enter_streams room (suc i) n o run in rw eq later

set_on-file_calls :
    (o : ℕ) (f : MediaFile)
    → set_on o (file_calls f)
      ≡ pick o json_file_format (format_leaves f)
        ++ (pick o json_file (file_leaves f) ++ pick o json_file_metadata (tag_leaves f.tags))
unfolding file_calls
set_on-file_calls o f =
    set_on-three o json_file_format json_file json_file_metadata (format_leaves f) (file_leaves f)
      (tag_leaves f.tags)

module _ (os : Posix) (grants : ℕ → Bool)
    (transcode : Session → ℕ → Outcome (Session × Option Handle)) where
  -- What the fingerprint of stream `i` is, for some call: what the code took out of the handle.
  abbrev pub Fingerprint : ℕ → List ℕ → Type 0
  Fingerprint i bytes = (s s' : Session) × (print os grants transcode s i ≡ done (s', some bytes))

  after_print-Set :
      (i : ℕ) (st : Stream) (sts : List Stream) (p : CodecPar) (next : Session → Outcome Walked)
      (s0 : Session) (r : Session × Option (List ℕ)) {w : Walked}
      → st.codecpar ≡ some p
      → p.is_audio ≡ true
      → print os grants transcode s0 i ≡ done r
      → ((s : Session) (w : Walked) → next s ≡ done w → Set Fingerprint (suc i) sts w)
      → after_print i p st next r ≡ done w
      → Set Fingerprint i (st ∷ sts) w
  after_print-Set i st sts p next s0 (s, none) e loud made later run =
      let same = done_inj run in rw (← same) (λ goes_on. cc)
  after_print-Set i st sts p next s0 (s, some bytes) e loud made later run =
      let (w0, first, last) = >>=-eq-done (next s) (λ w. done (printed i p st bytes w)) run in
      rw (← done_inj last)
        (printed-Set Fingerprint i st sts p bytes w0 e loud (s0, s, made) (later s w0 first))

  walk-Set :
      (sts : List Stream) (i : ℕ) (s : Session) {w : Walked}
      → walk os grants transcode i sts s ≡ done w
      → Set Fingerprint i sts w
  unfolding walk_streams
  walk-Set [] i s run = rw (← done_inj run) (λ goes_on. (λ o p. refl, no_stream))
  walk-Set (st ∷ sts) i s {w} run =
      let next : Session → Outcome Walked = walk os grants transcode (suc i) sts in
      elim (Option-cases st.codecpar) [
        | inl e ↦ skipped-Set Fingerprint i st sts w e (
            walk-Set sts (suc i) s {w = w}
              (cc (walk_skipped os grants transcode i st next s e, run)))
        | inr (p, e) ↦ elim (Bool-cases p.is_audio) [
          | inr plain ↦
              let (w0, first, last) =
                >>=-eq-done (next s) (λ w. done (noted i p st w)) {b = w}
                  (cc (walk_plain os grants transcode i st next s p e plain, run)) in
              rw (← done_inj last) (
                noted-Set Fingerprint i st sts p w0 e plain (walk-Set sts (suc i) s {w = w0} first))
          | inl loud ↦
              let (r, first, last) =
                >>=-eq-done (print os grants transcode s i) (after_print i p st next) {b = w}
                  (cc (walk_audio os grants transcode i st next s p e loud, run)) in
              after_print-Set i st sts p next s r e loud first
                (λ s1 w1 run1. walk-Set sts (suc i) s1 {w = w1} run1) last
        ]
      ]

  -- All that is set on an object is set for the file or in the second loop.
  set_on-all :
      (o : ℕ) (f : MediaFile) (entered : List JsonCall) (w : Walked)
      → set_on o entered ≡ []
      → set_on o (before os grants transcode f entered w ++ released os grants transcode f)
        ≡ set_on o (file_calls f) ++ set_on o w.calls
  set_on-all o f entered w empty =
      let rest = file_calls f ++ w.calls in
      cc (
        set_on-append o (before os grants transcode f entered w) (released os grants transcode f),
        set_on-append o entered rest,
        set_on-append o (file_calls f) w.calls,
        set_on-append o (release_streams 0 (length f.streams)) last_calls,
        set_on-release_streams o 0 (length f.streams),
        append-nil (set_on o (file_calls f) ++ set_on o w.calls),
        empty,
      )

  -- Where get_metadate_from_file returns a document, the leaves set on the objects for the file, its
  -- format and its tags are those that FFmpeg gives, and each stream is described by its own: its
  -- properties, with what the code took out of the handle of a transcode for it in front exactly if it
  -- is audio, its parameters and its tags, or by nothing where it has no parameters.
  pub get_metadate-Described :
      (f : MediaFile) (s : Session) {o : Left}
      → get_metadate_from_file os grants transcode f s ≡ done (o, dumped)
      → (set_on json_file_format o.calls ≡ format_leaves f)
        × (set_on json_file o.calls ≡ file_leaves f)
        × (set_on json_file_metadata o.calls ≡ tag_leaves f.tags)
        × Described Fingerprint 0 f.streams o.calls
  get_metadate-Described f s {o} run =
      let (entered, w, run1, run2, on, calls, prints) =
        read_file-Finished os grants transcode f s
          (get_metadate-dumped os grants transcode f s run) in
      let (above, described) = walk-Set f.streams 0 s {w = w} run2 on in
      let all : (r : ℕ) → set_on r o.calls ≡ set_on r (file_calls f) ++ set_on r w.calls = λ r.
        rw calls
          (set_on-all r f entered w (set_on-enter_streams f.room 0 (length f.streams) r run1)) in
      (
        ground (
          arith,
          all json_file_format,
          set_on-file_calls json_file_format f,
          above json_file_format (omega arith),
          append-nil (format_leaves f),
        ),
        ground (
          arith,
          all json_file,
          set_on-file_calls json_file f,
          above json_file (omega arith),
          append-nil (file_leaves f),
        ),
        ground (
          arith,
          all json_file_metadata,
          set_on-file_calls json_file_metadata f,
          above json_file_metadata (omega arith),
          append-nil (tag_leaves f.tags),
        ),
        Described-same Fingerprint 0 f.streams w.calls o.calls
            (λ r p. ground (arith, all r, set_on-file_calls r f)) described,
      )
