-- ===== src/Transcode/Output/Laws.antt =====
-- What open_output_file leaves, where everything is granted and where it fails.
use audio_fs.Base.{
  ℕ, suc, ◌+◌, ◌≡◌, ◌∙◌, ◌⊎◌, true, false, Bool-cases, inl, inr, List, [], ◌∷◌, none, some, arith,
}
use audio_fs.Base.Int.{ℤ, pos, negsuc, is_neg}
use audio_fs.Memory.{done}
use audio_fs.Avio.{Handle}
use audio_fs.Avio.Open.{Ledger, avio_open}
use audio_fs.Transcode.Session.{
  garbage, object, null_ref, live, StreamContext, Session, Media, audio, other_media,
  output_context, avio_context, output_stream, encoder, encoder_context, layout_copied,
  encoder_opened, encoder_parameters, header_written, Answers, Willing, Target, audios, first_audio,
}
use audio_fs.Transcode.Input.{Opening}
use audio_fs.Transcode.Output.{open_encoder, open_encoders, open_pb, start_output, open_output_file}

-- A stream context with an encoder.
abbrev pub encoding : StreamContext → StreamContext
encoding st = record st { enc_ctx = object }

module _ (a : Answers) (w : Willing a) where
  open_encoder-Willing :
      (i : ℕ) (o : Opening)
      → open_encoder a i o
        ≡ (record { stream = encoding o.stream; codecs = o.codecs + 1; frames = o.frames }, pos 0)
  unfolding open_encoder
  open_encoder-Willing i o = ground (
    arith,
    w.given (output_stream i),
    w.given (encoder i),
    w.given (encoder_context i),
    w.fine (layout_copied i),
    w.fine (encoder_opened i),
    w.fine (encoder_parameters i),
  )

  open_encoders_more :
      (ms : List Media) (i : ℕ) (o : Opening)
      → open_encoders a (audio ∷ ms) i o
        ≡ open_encoders a ms
            (suc i)
            (record { stream = encoding o.stream; codecs = o.codecs + 1; frames = o.frames })
  unfolding open_encoders
  open_encoders_more ms i o = ground (arith, open_encoder-Willing i o)

  open_encoders_rest :
      (ms : List Media) (i : ℕ) (st : StreamContext) (n m : ℕ)
      → open_encoders a ms i (record { stream = encoding st; codecs = n; frames = m })
        ≡ (record { stream = encoding st; codecs = n + audios ms; frames = m }, pos 0)
  unfolding open_encoders audios
  open_encoders_rest [] i st n m = ground arith
  open_encoders_rest (other_media ∷ ms) i st n m = open_encoders_rest ms (suc i) st n m
  open_encoders_rest (audio ∷ ms) i st n m =
      open_encoders_more ms i (record { stream = encoding st; codecs = n; frames = m })
      ∙ ground (arith, open_encoders_rest ms (suc i) st (n + 1) m)

  open_encoders-Willing :
      (ms : List Media) (i : ℕ) (st : StreamContext) (n m : ℕ) {k : ℕ}
      → first_audio ms i ≡ some k
      → open_encoders a ms i (record { stream = st; codecs = n; frames = m })
        ≡ (record { stream = encoding st; codecs = n + audios ms; frames = m }, pos 0)
  unfolding open_encoders first_audio audios
  open_encoders-Willing [] i st n m e = cc
  open_encoders-Willing (other_media ∷ ms) i st n m e = open_encoders-Willing ms (suc i) st n m e
  open_encoders-Willing (audio ∷ ms) i st n m e =
      open_encoders_more ms i (record { stream = st; codecs = n; frames = m })
      ∙ ground (arith, open_encoders_rest ms (suc i) st (n + 1) m)

  -- The part behind the loop, where the handle can be opened.
  start_output-Willing :
      (t : Target) (s : Session) {h : Handle} {l : Ledger}
      → a.nofile ≡ false
      → avio_open t.mem t.os t.address t.name s.ledger ≡ (some h, l)
      → start_output a t s ≡ (
        record s { ofmt_ctx = live (record { pb = some h }); avios = s.avios + 1; ledger = l },
        pos 0,
      )
  unfolding start_output open_pb
  start_output-Willing t s file opened = ground (arith, w.given avio_context, w.fine header_written)

  pub open_output_file-Willing :
      (ms : List Media) (t : Target) (s : Session) (st : StreamContext) {k : ℕ} {h : Handle}
      {l : Ledger}
      → first_audio ms 0 ≡ some k
      → s.stream_ctx ≡ live st
      → a.nofile ≡ false
      → avio_open t.mem t.os t.address t.name s.ledger ≡ (some h, l)
      → open_output_file a ms t s
        ≡ done (
          record s {
            ofmt_ctx = live (record { pb = some h });
            stream_ctx = live (encoding st);
            codecs = s.codecs + audios ms;
            avios = s.avios + 1;
            ledger = l;
          },
          pos 0,
        )
  unfolding open_output_file
  open_output_file-Willing ms t s st e here file opened = ground (
    arith,
    w.given output_context,
    open_encoders-Willing ms 0 st s.codecs s.frames e,
    start_output-Willing t
        (record s {
          ofmt_ctx = live (record { pb = none });
          stream_ctx = live (encoding st);
          codecs = s.codecs + audios ms;
        })
        file opened,
  )

-- What a failure leaves: an encoder that was never set, or an output without `pb`.
abbrev pub Crippled : Session → Type 0
Crippled s =
    (st : StreamContext) × (s.stream_ctx ≡ live st)
    × ((st.enc_ctx ≡ garbage) ⊎ (s.ofmt_ctx ≡ live (record { pb = none })))

module _ (a : Answers) (t : Target) where
  start_output_failed :
      (s : Session)
      → a.nofile ≡ false
      → is_neg (a.code header_written) ≡ false
      → is_neg (start_output a t s).1 ≡ true
      → ((start_output a t s).0.stream_ctx ≡ s.stream_ctx)
        × ((start_output a t s).0.ofmt_ctx ≡ s.ofmt_ctx)
  unfolding start_output open_pb
  start_output_failed s file header bad = ground arith

  open_output_file_refused :
      (ms : List Media) (s : Session)
      → a.gives output_context ≡ false
      → open_output_file a ms t s ≡ done (record s { ofmt_ctx = null_ref }, negsuc 1313558100)
  unfolding open_output_file
  open_output_file_refused ms s e = ground arith

  abbrev opened : List Media → Session → StreamContext → Session
  opened ms s st = record s {
    ofmt_ctx = live (record { pb = none });
    stream_ctx = live (
        (open_encoders a ms 0
          (record { stream = st; codecs = s.codecs; frames = s.frames })).0.stream);
    codecs =
        (open_encoders a ms 0
          (record { stream = st; codecs = s.codecs; frames = s.frames })).0.codecs;
  }

  open_output_file_loop_failed :
      (ms : List Media) (s : Session) (st : StreamContext)
      → a.gives output_context ≡ true
      → s.stream_ctx ≡ live st
      → is_neg
          (open_encoders a ms 0 (record { stream = st; codecs = s.codecs; frames = s.frames })).1
        ≡ true
      → open_output_file a ms t s
        ≡ done (
          opened ms s st,
          (open_encoders a ms 0 (record { stream = st; codecs = s.codecs; frames = s.frames })).1,
        )
  unfolding open_output_file
  open_output_file_loop_failed ms s st e here bad = ground arith

  open_output_file_looped :
      (ms : List Media) (s : Session) (st : StreamContext)
      → a.gives output_context ≡ true
      → s.stream_ctx ≡ live st
      → is_neg
          (open_encoders a ms 0 (record { stream = st; codecs = s.codecs; frames = s.frames })).1
        ≡ false
      → open_output_file a ms t s ≡ done (start_output a t (opened ms s st))
  unfolding open_output_file
  open_output_file_looped ms s st e here good = ground arith

  -- Where the format needs a file, every failure but that of the header leaves a session that cannot
  -- be cleaned up.
  pub open_output_file-Crippled :
      (ms : List Media) (s : Session) (st : StreamContext) {s' : Session} {ret : ℤ}
      → s.stream_ctx ≡ live st
      → st.enc_ctx ≡ garbage
      → a.nofile ≡ false
      → is_neg (a.code header_written) ≡ false
      → open_output_file a ms t s ≡ done (s', ret)
      → is_neg ret ≡ true
      → Crippled s'
  open_output_file-Crippled ms s st {s'} {ret} here unset file header run bad =
      let looped =
        open_encoders a ms 0 (record { stream = st; codecs = s.codecs; frames = s.frames }) in
      elim (Bool-cases (a.gives output_context)) [
        | inr refused ↦ (st, ground (arith, open_output_file_refused ms s refused), inl unset)
        | inl given ↦ elim (Bool-cases (is_neg looped.1)) [
          | inl failed ↦
              let e = open_output_file_loop_failed ms s st given here failed in
              (looped.0.stream, ground (arith, e), inr (ground (arith, e)))
          | inr good ↦
              let e = open_output_file_looped ms s st given here good in
              let last : start_output a t (opened ms s st) ≡ (s', ret) = cc (e, run) in
              let kept = start_output_failed (opened ms s st) file header (cc (last, bad)) in
              (looped.0.stream, cc (kept.0, last), inr (cc (kept.1, last)))
        ]
      ]
