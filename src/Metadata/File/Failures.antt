-- ===== src/Metadata/File/Failures.antt =====
-- Where get_metadate_from_file gives up, and where it is undefined behaviour.
use audio_fs.Base.{
  ℕ, zero, suc, ◌+◌, ◌≡◌, refl, ap, ◌∙◌, ◌⊎◌, ◌≤◌, ◌<◌, Bool, true, false, Bool-cases, ltb→lt, inl,
  inr, List, [], ◌∷◌, ◌++◌, Option, none, some, length, arith, ltb,
}
use audio_fs.Base.Int.{is_neg}
use audio_fs.Memory.{Outcome, done, fault, ◌>>=◌}
use audio_fs.Avio.{Handle, Posix}
use audio_fs.Transcode.Session.{Session}
use audio_fs.Metadata.{JsonCall, Stream, CodecPar, MediaFile}
use audio_fs.Metadata.Fingerprint.{fingerprint, read_print}
use audio_fs.Metadata.File.{
  first_calls, entry_calls, enter_streams, walk_streams, after_print, Returned, null_string, Left,
  get_metadate_from_file,
}
use audio_fs.Metadata.File.Laws.{enter_streams_next, enter_streams_full}
use audio_fs.Metadata.File.Walk.{walk_audio, walk}
use audio_fs.Metadata.File.Results.{last_part, read_file_lem, get_metadate_read}
use audio_fs.Metadata.Owned.{owned}

-- More streams than the arrays have room for are written behind them.
enter_streams_overflow : (room n i : ℕ) → i ≤ room → room < i + n → enter_streams room i n ≡ fault
enter_streams_overflow room zero i p q = absurd (omega arith)
enter_streams_overflow room (suc n) i p q = elim (Bool-cases (ltb i room)) [
  | inl inside ↦
      let below = ltb→lt i room inside in
      enter_streams_next room i n inside
      ∙ ap (λ o. o >>= λ rest. done (entry_calls i ++ rest))
          (enter_streams_overflow room n (suc i) (omega arith) (omega arith))
  | inr full ↦ enter_streams_full room i n full
]

enter_streams-cases :
    (room n i : ℕ)
    → (enter_streams room i n ≡ fault) ⊎ ((cs : List JsonCall) × (enter_streams room i n ≡ done cs))
unfolding enter_streams
enter_streams-cases room zero i = inr ([], refl)
enter_streams-cases room (suc n) i = elim (Bool-cases (ltb i room)) [
  | inr full ↦ inl (enter_streams_full room i n full)
  | inl inside ↦ elim (enter_streams-cases room n (suc i)) [
    | inl e ↦ inl (
        enter_streams_next room i n inside ∙ ap (λ o. o >>= λ rest. done (entry_calls i ++ rest)) e)
    | inr (cs, e) ↦ inr (
      entry_calls i ++ cs,
      enter_streams_next room i n inside ∙ ap (λ o. o >>= λ rest. done (entry_calls i ++ rest)) e,
    )
  ]
]

module _ (os : Posix) (grants : ℕ → Bool)
    (transcode : Session → ℕ → Outcome (Session × Option Handle)) where
  -- A file that opens and has more streams than the arrays have room for, which calloc made for the
  -- streams of a context that was not yet open, is undefined behaviour.
  get_metadate_overflow :
      (f : MediaFile) (s : Session)
      → f.context ≡ true
      → is_neg f.open_code ≡ false
      → is_neg f.info_code ≡ false
      → f.room < length f.streams
      → get_metadate_from_file os grants transcode f s ≡ fault
  get_metadate_overflow f s c o i p =
      get_metadate_read os grants transcode f s c o i
      ∙ read_file_lem os grants transcode f s
      ∙ ap
          (λ e. e >>= λ entered. walk os grants transcode 0 f.streams s >>= λ w.
            last_part os grants transcode f entered w)
          (enter_streams_overflow f.room (length f.streams) 0 (omega arith) (omega arith))

  -- A file that FFmpeg cannot open, or whose streams it cannot find, gives NULL, with the three arrays
  -- and the references to the five values that were made left behind.
  pub get_metadate_unopened :
      (f : MediaFile) (s : Session)
      → f.context ≡ true
      → (is_neg f.open_code ≡ true) ⊎ (is_neg f.info_code ≡ true)
      → (get_metadate_from_file os grants transcode f s
          ≡ done (record { calls = first_calls; arrays = 3; prints = 0; session = s }, null_string))
        × ((own : ℕ → ℕ) × (owned (λ r. 0) first_calls ≡ some own) × ((r : ℕ) → r < 5 → own r ≡ 1))
  unfolding get_metadate_from_file owned
  get_metadate_unopened f s c bad = (ground arith, (_, refl, λ r p. ground arith))

  fingerprint_null :
      (s s' : Session) (i : ℕ)
      → transcode s i ≡ done (s', none)
      → fingerprint os grants transcode s i ≡ fault
  unfolding fingerprint read_print
  fingerprint_null s s' i e = ground arith

  walk_null :
      (st : Stream) (sts : List Stream) (s s' : Session) (p : CodecPar)
      → st.codecpar ≡ some p
      → p.is_audio ≡ true
      → transcode s 0 ≡ done (s', none)
      → walk os grants transcode 0 (st ∷ sts) s ≡ fault
  unfolding walk_streams
  walk_null st sts s s' p e loud null =
      walk_audio os grants transcode 0 st (walk os grants transcode 1 sts) s p e loud
      ∙ ap (λ o. o >>= after_print 0 p st (walk os grants transcode 1 sts))
          (fingerprint_null s s' 0 null)

  -- Where the transcode of the first stream, an audio stream, gives NULL, its handle is used all the
  -- same.
  pub get_metadate_null :
      (f : MediaFile) (s s' : Session) (st : Stream) (sts : List Stream) (p : CodecPar)
      → f.context ≡ true
      → is_neg f.open_code ≡ false
      → is_neg f.info_code ≡ false
      → f.streams ≡ st ∷ sts
      → st.codecpar ≡ some p
      → p.is_audio ≡ true
      → transcode s 0 ≡ done (s', none)
      → get_metadate_from_file os grants transcode f s ≡ fault
  get_metadate_null f s s' st sts p c o i here e loud null =
      let walked : walk os grants transcode 0 f.streams s ≡ fault =
        rw here (walk_null st sts s s' p e loud null) in
      let next : List JsonCall → Outcome (Left × Returned) = λ entered.
        walk os grants transcode 0 f.streams s >>= λ w. last_part os grants transcode f entered w in
      get_metadate_read os grants transcode f s c o i
      ∙ read_file_lem os grants transcode f s
      ∙ elim (enter_streams-cases f.room (length f.streams) 0) [
        | inl full ↦ ap (λ e. e >>= next) full
        | inr (cs, entered) ↦
            ap (λ e. e >>= next) entered
            ∙ ap (λ o. o >>= λ w. last_part os grants transcode f cs w) walked
      ]
