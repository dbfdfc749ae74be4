-- ===== src/Metadata/File/Returns.antt =====
-- Where get_metadate_from_file returns a document.
use audio_fs.Base.{
  ℕ, zero, suc, ◌+◌, ◌≡◌, refl, ap, ◌∙◌, ◌≤◌, Bool, true, false, Bool-cases, Option-cases, inl, inr,
  List, [], ◌∷◌, ◌++◌, Option, none, some, length, arith, lt→ltb,
}
use audio_fs.Base.Int.{is_neg}
use audio_fs.Memory.{Outcome, done, ◌>>=◌}
use audio_fs.Avio.{Handle, Posix}
use audio_fs.Transcode.Session.{Session}
use audio_fs.Metadata.{JsonCall, Stream, MediaFile}
use audio_fs.Metadata.File.{
  entry_calls, noted, printed, after_print, enter_streams, Walked, walk_streams, dumped, Left,
  get_metadate_from_file,
}
use audio_fs.Metadata.File.Laws.{audio_streams, enter_streams_next}
use audio_fs.Metadata.File.Walk.{walk_skipped, walk_plain, walk_audio, walk, print}
use audio_fs.Metadata.Owned.{owned}
use audio_fs.Metadata.File.Results.{
  before, released, last_part, read_file_lem, get_metadate_read, get_metadate-owned,
}

module _ (os : Posix) (grants : ℕ → Bool)
    (transcode : Session → ℕ → Outcome (Session × Option Handle)) where
  pub enter_streams-done :
      (room n i : ℕ) → i + n ≤ room → (cs : List JsonCall) × (enter_streams room i n ≡ done cs)
  unfolding enter_streams
  enter_streams-done room zero i p = ([], refl)
  enter_streams-done room (suc n) i p =
      let (cs, e) = enter_streams-done room n (suc i) (omega arith) in
      (
        entry_calls i ++ cs,
        enter_streams_next room i n (lt→ltb i room (omega arith))
            ∙ ap (λ o. o >>= λ rest. done (entry_calls i ++ rest)) e,
      )

  -- Each audio stream gets its fingerprint.
  abbrev pub Prints : Type 0
  Prints =
      (s : Session) (i : ℕ)
      → (s' : Session) × (bytes : List ℕ) × (print os grants transcode s i ≡ done (s', some bytes))

  walk-done :
      (sts : List Stream) (i : ℕ) (s : Session)
      → Prints
      → (w : Walked) × (walk os grants transcode i sts s ≡ done w) × (w.ended ≡ false)
  unfolding walk_streams
  walk-done [] i s ok = (_, refl, refl)
  walk-done (st ∷ sts) i s ok =
      let next : Session → Outcome Walked = walk os grants transcode (suc i) sts in
      elim (Option-cases st.codecpar) [
        | inl e ↦
            let (w, run, on) = walk-done sts (suc i) s ok in
            (w, walk_skipped os grants transcode i st next s e ∙ run, on)
        | inr (p, e) ↦ elim (Bool-cases p.is_audio) [
          | inr plain ↦
              let (w, run, on) = walk-done sts (suc i) s ok in
              (
                noted i p st w,
                walk_plain os grants transcode i st next s p e plain
                    ∙ ap (λ o. o >>= λ w. done (noted i p st w)) run,
                on,
              )
          | inl loud ↦
              let (s', bytes, printing) = ok s i in
              let (w, run, on) = walk-done sts (suc i) s' ok in
              (
                printed i p st bytes w,
                walk_audio os grants transcode i st next s p e loud
                    ∙ ap (λ o. o >>= after_print i p st next) printing
                    ∙ ap (λ o. o >>= λ w. done (printed i p st bytes w)) run,
                on,
              )
        ]
      ]

  last_part_on :
      (f : MediaFile) (entered : List JsonCall) (w : Walked)
      → w.ended ≡ false
      → last_part os grants transcode f entered w
        ≡ done (
          record {
            calls = before os grants transcode f entered w ++ released os grants transcode f;
            arrays = 0;
            prints = w.prints;
            session = w.session;
          },
          dumped,
        )
  last_part_on f entered w on = ground arith

  -- Where FFmpeg opens the file, the arrays have room for its streams and each audio stream gets its
  -- fingerprint, the document is returned. By then the code has taken a reference from Jansson that it
  -- did not own, and a copy of a fingerprint is left behind for each audio stream with parameters.
  pub get_metadate_from_file_lem :
      (f : MediaFile) (s : Session)
      → f.context ≡ true
      → is_neg f.open_code ≡ false
      → is_neg f.info_code ≡ false
      → length f.streams ≤ f.room
      → Prints
      → (o : Left) × (get_metadate_from_file os grants transcode f s ≡ done (o, dumped))
        × (owned (λ r. 0) o.calls ≡ none)
        × (o.arrays ≡ 0)
        × (o.prints ≡ audio_streams f.streams)
  get_metadate_from_file_lem f s c good fine room ok =
      let (entered, entering) = enter_streams-done f.room (length f.streams) 0 (omega arith) in
      let (w, walking, on) = walk-done f.streams 0 s ok in
      let o : Left = record {
        calls = before os grants transcode f entered w ++ released os grants transcode f;
        arrays = 0;
        prints = w.prints;
        session = w.session;
      } in
      let run : get_metadate_from_file os grants transcode f s ≡ done (o, dumped) =
        get_metadate_read os grants transcode f s c good fine
        ∙ read_file_lem os grants transcode f s
        ∙ ap
            (λ e. e >>= λ entered. walk os grants transcode 0 f.streams s >>= λ w.
              last_part os grants transcode f entered w)
            entering
        ∙ ap (λ e. e >>= λ w. last_part os grants transcode f entered w) walking
        ∙ last_part_on f entered w on in
      let (unowned, prints) = get_metadate-owned os grants transcode f s {o = o} run in
      (o, run, unowned, refl, prints)
