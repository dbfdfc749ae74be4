-- ===== src/Metadata/File/Walk.antt =====
-- The second loop of get_metadate_from_file.
use audio_fs.Base.{
  ℕ, suc, ◌≡◌, refl, Bool, true, false, Bool-cases, Option-cases, inl, inr, List, [], ◌∷◌, Option,
  none, some, arith,
}
use audio_fs.Memory.{Outcome, done, ◌>>=◌, >>=-eq-done}
use audio_fs.Avio.{Handle, Posix}
use audio_fs.Transcode.Session.{Session}
use audio_fs.Metadata.{Stream, CodecPar}
use audio_fs.Metadata.Leaves.{stream_calls}
use audio_fs.Metadata.Fingerprint.{fingerprint}
use audio_fs.Metadata.File.{Walked, noted, printed, after_print, walk_stream, walk_streams}
use audio_fs.Metadata.Owned.{gives, total, total-append}
use audio_fs.Metadata.File.Laws.{done_inj, gives-stream_calls, audio_streams}

module _ (os : Posix) (grants : ℕ → Bool)
    (transcode : Session → ℕ → Outcome (Session × Option Handle)) where
  abbrev pub walk : ℕ → List Stream → Session → Outcome Walked
  walk = walk_streams os grants transcode

  abbrev pub print : Session → ℕ → Outcome (Session × Option (List ℕ))
  print = fingerprint os grants transcode

  pub walk_skipped :
      (i : ℕ) (st : Stream) (next : Session → Outcome Walked) (s : Session)
      → st.codecpar ≡ none
      → walk_stream os grants transcode i st next s ≡ next s
  unfolding walk_stream
  walk_skipped i st next s e = ground arith

  pub walk_plain :
      (i : ℕ) (st : Stream) (next : Session → Outcome Walked) (s : Session) (p : CodecPar)
      → st.codecpar ≡ some p
      → p.is_audio ≡ false
      → walk_stream os grants transcode i st next s ≡ (next s >>= λ w. done (noted i p st w))
  unfolding walk_stream
  walk_plain i st next s p e plain = ground arith

  pub walk_audio :
      (i : ℕ) (st : Stream) (next : Session → Outcome Walked) (s : Session) (p : CodecPar)
      → st.codecpar ≡ some p
      → p.is_audio ≡ true
      → walk_stream os grants transcode i st next s ≡ (print s i >>= after_print i p st next)
  unfolding walk_stream
  walk_audio i st next s p e loud = ground arith

  -- What a loop that ends has noted: no reference for the caller, and unless it jumped to `end` a copy
  -- of a fingerprint for each audio stream.
  abbrev pub Noted : List Stream → Walked → Type 0
  Noted sts w =
      ((r : ℕ) → total (gives r) w.calls ≡ 0) × (w.ended ≡ false → w.prints ≡ audio_streams sts)

  Noted-noted :
      (i : ℕ) (st : Stream) (sts : List Stream) (p : CodecPar) (w : Walked)
      → st.codecpar ≡ some p
      → p.is_audio ≡ false
      → Noted sts w
      → Noted (st ∷ sts) (noted i p st w)
  unfolding audio_streams
  Noted-noted i st sts p w e plain (none_given, counted) = (
    λ r. omega (
      arith,
      total-append (gives r) (stream_calls i p st) w.calls,
      gives-stream_calls r i p st,
      none_given r,
    ),
    λ goes_on. ground (arith, counted goes_on),
  )

  Noted-printed :
      (i : ℕ) (st : Stream) (sts : List Stream) (p : CodecPar) (bytes : List ℕ) (w : Walked)
      → st.codecpar ≡ some p
      → p.is_audio ≡ true
      → Noted sts w
      → Noted (st ∷ sts) (printed i p st bytes w)
  unfolding audio_streams
  Noted-printed i st sts p bytes w e loud (none_given, counted) = (
    λ r. omega (
      arith,
      total-append (gives r) (stream_calls i p st) w.calls,
      gives-stream_calls r i p st,
      none_given r,
    ),
    λ goes_on. ground (arith, counted goes_on),
  )

  audio_streams_skipped :
      (st : Stream) (sts : List Stream)
      → st.codecpar ≡ none
      → audio_streams (st ∷ sts) ≡ audio_streams sts
  unfolding audio_streams
  audio_streams_skipped st sts e = ground arith

  after_print-Noted :
      (i : ℕ) (st : Stream) (sts : List Stream) (p : CodecPar) (next : Session → Outcome Walked)
      (r : Session × Option (List ℕ)) {w : Walked}
      → st.codecpar ≡ some p
      → p.is_audio ≡ true
      → ((s : Session) (w : Walked) → next s ≡ done w → Noted sts w)
      → after_print i p st next r ≡ done w
      → Noted (st ∷ sts) w
  after_print-Noted i st sts p next (s, none) e loud later run =
      let same = done_inj run in rw (← same) (λ r. refl, λ goes_on. cc)
  after_print-Noted i st sts p next (s, some bytes) e loud later run =
      let (w0, first, last) = >>=-eq-done (next s) (λ w. done (printed i p st bytes w)) run in
      rw (← done_inj last) (Noted-printed i st sts p bytes w0 e loud (later s w0 first))

  pub walk-Noted :
      (sts : List Stream) (i : ℕ) (s : Session) {w : Walked} → walk i sts s ≡ done w → Noted sts w
  unfolding walk_streams audio_streams
  walk-Noted [] i s run = rw (← done_inj run) (λ r. refl, λ goes_on. refl)
  walk-Noted (st ∷ sts) i s {w} run =
      let next : Session → Outcome Walked = walk (suc i) sts in
      elim (Option-cases st.codecpar) [
        | inl e ↦
            let later = walk-Noted sts (suc i) s {w = w} (cc (walk_skipped i st next s e, run)) in
            (later.0, rw (audio_streams_skipped st sts e) later.1)
        | inr (p, e) ↦ elim (Bool-cases p.is_audio) [
          | inr plain ↦
              let (w0, first, last) =
                >>=-eq-done (next s) (λ w. done (noted i p st w)) {b = w}
                  (cc (walk_plain i st next s p e plain, run)) in
              rw (← done_inj last)
                (Noted-noted i st sts p w0 e plain (walk-Noted sts (suc i) s {w = w0} first))
          | inl loud ↦
              let (r, first, last) =
                >>=-eq-done (print s i) (after_print i p st next) {b = w}
                  (cc (walk_audio i st next s p e loud, run)) in
              after_print-Noted i st sts p next r e loud
                (λ s1 w1 run1. walk-Noted sts (suc i) s1 {w = w1} run1) last
        ]
      ]
