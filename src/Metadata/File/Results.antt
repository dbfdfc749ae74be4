-- ===== src/Metadata/File/Results.antt =====
-- The references in a run of get_metadate_from_file that returns a document.
use audio_fs.Base.{
  ℕ, ◌≡◌, refl, ◌∙◌, ◌≤◌, Bool, true, false, Bool-cases, Option-cases, inl, inr, List, ◌∷◌, ◌++◌,
  Option, none, length, arith, if◌then◌else◌,
}
use audio_fs.Base.Int.{is_neg}
use audio_fs.Memory.{Outcome, done, ◌>>=◌, >>=-eq-done}
use audio_fs.Avio.{Handle, Posix}
use audio_fs.Transcode.Session.{Session}
use audio_fs.Metadata.{JsonCall, dumps, MediaFile, json, json_file_metadata}
use audio_fs.Metadata.Leaves.{file_calls}
use audio_fs.Metadata.File.{
  first_calls, link_calls, last_calls, enter_streams, Walked, release_streams, Returned,
  literal_empty, dumped, Left, read_file, get_metadate_from_file,
}
use audio_fs.Metadata.File.Laws.{
  gives-file_calls, gives-enter_streams, gives-release_streams, audio_streams,
}
use audio_fs.Metadata.File.Walk.{walk-Noted, walk}
use audio_fs.Metadata.Owned.{owned, gives, takes, total, total-append, owned-total}

module _ (os : Posix) (grants : ℕ → Bool)
    (transcode : Session → ℕ → Outcome (Session × Option Handle)) where
  -- The calls before json_dumps, and those from it on.
  abbrev pub before : MediaFile → List JsonCall → Walked → List JsonCall
  before f entered w = first_calls ++ (link_calls ++ (entered ++ (file_calls f ++ w.calls)))

  abbrev pub released : MediaFile → List JsonCall
  released f = dumps json ∷ (release_streams 0 (length f.streams) ++ last_calls)

  abbrev pub Finished : MediaFile → Session → Left → Type 0
  Finished f s o =
      (entered : List JsonCall) × (w : Walked) × (enter_streams f.room 0 (length f.streams)
        ≡ done entered)
      × (walk os grants transcode 0 f.streams s ≡ done w)
      × (w.ended ≡ false)
      × (o.calls ≡ before f entered w ++ released f)
      × (o.prints ≡ w.prints)

  abbrev pub last_part : MediaFile → List JsonCall → Walked → Outcome (Left × Returned)
  last_part f entered w =
      let left : Left = record {
        calls = before f entered w;
        arrays = 0;
        prints = w.prints;
        session = w.session;
      } in
      if w.ended
      then done (left, literal_empty)
      else done (record left { calls = before f entered w ++ released f }, dumped)

  pub read_file_lem :
      (f : MediaFile) (s : Session)
      → read_file os grants transcode f s ≡ (
          enter_streams f.room 0 (length f.streams) >>= λ entered.
          walk os grants transcode 0 f.streams s >>= λ w. last_part f entered w)
  unfolding read_file
  read_file_lem f s = refl

  last_part-dumped :
      (f : MediaFile) (entered : List JsonCall) (w : Walked) {o : Left}
      → last_part f entered w ≡ done (o, dumped)
      → (w.ended ≡ false) × (o.calls ≡ before f entered w ++ released f) × (o.prints ≡ w.prints)
  last_part-dumped f entered w e = elim (Bool-cases w.ended) [
    | inl over ↦ absurd (ground arith)
    | inr on ↦ (on, ground arith, ground arith)
  ]

  pub read_file-Finished :
      (f : MediaFile) (s : Session) {o : Left}
      → read_file os grants transcode f s ≡ done (o, dumped)
      → Finished f s o
  read_file-Finished f s {o} run =
      let (entered, run1, rest) =
        >>=-eq-done (enter_streams f.room 0 (length f.streams))
          (λ entered. walk os grants transcode 0 f.streams s >>= λ w. last_part f entered w)
          {b = (o, dumped)} (cc (read_file_lem f s, run)) in
      let (w, run2, last) =
        >>=-eq-done (walk os grants transcode 0 f.streams s) (λ w. last_part f entered w) rest in
      let (on, calls, prints) = last_part-dumped f entered w last in
      (entered, w, run1, run2, on, calls, prints)

  pub get_metadate_read :
      (f : MediaFile) (s : Session)
      → f.context ≡ true
      → is_neg f.open_code ≡ false
      → is_neg f.info_code ≡ false
      → get_metadate_from_file os grants transcode f s ≡ read_file os grants transcode f s
  unfolding get_metadate_from_file
  get_metadate_read f s c o i = ground arith

  pub get_metadate-dumped :
      (f : MediaFile) (s : Session) {o : Left}
      → get_metadate_from_file os grants transcode f s ≡ done (o, dumped)
      → read_file os grants transcode f s ≡ done (o, dumped)
  unfolding get_metadate_from_file
  get_metadate-dumped f s run = ground arith

  -- On a run that reaches json_dumps, the reference to the file's metadata is taken twice: by
  -- json_object_set_new and by json_decref.
  Finished-takes :
      (f : MediaFile) (s : Session) (o : Left)
      → Finished f s o
      → 2 ≤ total (takes json_file_metadata) o.calls
  Finished-takes f s o (entered, w, run1, run2, on, calls, prints) =
      let t = takes json_file_metadata in
      let rest = file_calls f ++ w.calls in
      rw calls (
        omega (
          arith,
          total-append t (before f entered w) (released f),
          total-append t first_calls (link_calls ++ (entered ++ rest)),
          total-append t link_calls (entered ++ rest),
          total-append t (release_streams 0 (length f.streams)) last_calls,
        ))

  Finished-gives :
      (f : MediaFile) (s : Session) (o : Left)
      → Finished f s o
      → total (gives json_file_metadata) o.calls ≡ 1
  Finished-gives f s o (entered, w, run1, run2, on, calls, prints) =
      let g = gives json_file_metadata in
      let rest = file_calls f ++ w.calls in
      let (none_given, counted) = walk-Noted os grants transcode f.streams 0 s {w = w} run2 in
      rw calls (
        omega (
          arith,
          total-append g (before f entered w) (released f),
          total-append g first_calls (link_calls ++ (entered ++ rest)),
          total-append g link_calls (entered ++ rest),
          total-append g entered rest,
          total-append g (file_calls f) w.calls,
          total-append g (release_streams 0 (length f.streams)) last_calls,
          gives-enter_streams f.room 0 (length f.streams) json_file_metadata {cs = entered} run1
              (omega arith),
          gives-file_calls json_file_metadata f,
          gives-release_streams json_file_metadata 0 (length f.streams),
          none_given json_file_metadata,
        ))

  -- A run that returns a document.
  pub get_metadate-owned :
      (f : MediaFile) (s : Session) {o : Left}
      → get_metadate_from_file os grants transcode f s ≡ done (o, dumped)
      → (owned (λ r. 0) o.calls ≡ none) × (o.prints ≡ audio_streams f.streams)
  get_metadate-owned f s {o} run =
      let fin = read_file-Finished f s (get_metadate-dumped f s run) in
      let (entered, w, run1, run2, on, calls, prints) = fin in
      let (none_given, counted) = walk-Noted os grants transcode f.streams 0 s {w = w} run2 in
      (
        elim (Option-cases (owned (λ r. 0) o.calls)) [
          | inl broken ↦ broken
          | inr (own, e) ↦
              let twice = Finished-takes f s o fin in
              let once = Finished-gives f s o fin in
              absurd (omega (arith, owned-total json_file_metadata o.calls (λ r. 0) own e))
        ],
        prints ∙ counted on,
      )
