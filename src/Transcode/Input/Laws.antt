-- ===== src/Transcode/Input/Laws.antt =====
-- What the opening of the input leaves in `*stream_ctx`.
use audio_fs.Base.{ℕ, suc, ◌+◌, ◌≡◌, refl, ◌∙◌, List, [], ◌∷◌, some, arith}
use audio_fs.Base.Int.{pos}
use audio_fs.Transcode.Session.{
  object, live, StreamContext, Session, Media, audio, other_media, stream_context, decoder,
  decoder_context, decoder_frame, decoder_parameters, decoder_opened, Answers, Willing, audios,
  first_audio,
}
use audio_fs.Transcode.Input.{
  Opening, open_decoder, open_decoders, open_input_file_with_format_context, fresh_stream_context,
}

-- A stream context with a decoder and its frame.
abbrev pub decoding : StreamContext → StreamContext
decoding st = record st { dec_ctx = object; dec_frame = object }

module _ (a : Answers) where
  open_decoder-enc_ctx :
      (i : ℕ) (o : Opening) → (open_decoder a i o).0.stream.enc_ctx ≡ o.stream.enc_ctx
  unfolding open_decoder
  open_decoder-enc_ctx i o = ground arith

  -- On every path the loop leaves `enc_ctx` as it was.
  pub open_decoders-enc_ctx :
      (ms : List Media) (i : ℕ) (o : Opening)
      → (open_decoders a ms i o).0.stream.enc_ctx ≡ o.stream.enc_ctx
  unfolding open_decoders
  open_decoders-enc_ctx [] i o = refl
  open_decoders-enc_ctx (other_media ∷ ms) i o = open_decoders-enc_ctx ms (suc i) o
  open_decoders-enc_ctx (audio ∷ ms) i o =
      ground
        (arith, open_decoder-enc_ctx i o, open_decoders-enc_ctx ms (suc i) (open_decoder a i o).0)

  module _ (w : Willing a) where
    open_decoder-Willing :
        (i : ℕ) (o : Opening)
        → open_decoder a i o ≡ (
          record { stream = decoding o.stream; codecs = o.codecs + 1; frames = o.frames + 1 },
          pos 0,
        )
    unfolding open_decoder
    open_decoder-Willing i o = ground (
      arith,
      w.given (decoder i),
      w.given (decoder_context i),
      w.given (decoder_frame i),
      w.fine (decoder_parameters i),
      w.fine (decoder_opened i),
    )

    open_decoders_more :
        (ms : List Media) (i : ℕ) (o : Opening)
        → open_decoders a (audio ∷ ms) i o
          ≡ open_decoders a ms
              (suc i)
              (record { stream = decoding o.stream; codecs = o.codecs + 1; frames = o.frames + 1 })
    unfolding open_decoders
    open_decoders_more ms i o = ground (arith, open_decoder-Willing i o)

    -- Behind the first audio stream only the number of contexts changes.
    open_decoders_rest :
        (ms : List Media) (i : ℕ) (st : StreamContext) (n m : ℕ)
        → open_decoders a ms i (record { stream = decoding st; codecs = n; frames = m })
          ≡ (record { stream = decoding st; codecs = n + audios ms; frames = m + audios ms }, pos 0)
    unfolding open_decoders audios
    open_decoders_rest [] i st n m = ground arith
    open_decoders_rest (other_media ∷ ms) i st n m = open_decoders_rest ms (suc i) st n m
    open_decoders_rest (audio ∷ ms) i st n m =
        open_decoders_more ms i (record { stream = decoding st; codecs = n; frames = m })
        ∙ ground (arith, open_decoders_rest ms (suc i) st (n + 1) (m + 1))

    -- With an audio stream there is a decoder and a frame, and a context and a frame for each audio stream.
    pub open_decoders-Willing :
        (ms : List Media) (i : ℕ) (st : StreamContext) (n m : ℕ) {k : ℕ}
        → first_audio ms i ≡ some k
        → open_decoders a ms i (record { stream = st; codecs = n; frames = m })
          ≡ (record { stream = decoding st; codecs = n + audios ms; frames = m + audios ms }, pos 0)
    unfolding open_decoders first_audio audios
    open_decoders-Willing [] i st n m e = cc
    open_decoders-Willing (other_media ∷ ms) i st n m e = open_decoders-Willing ms (suc i) st n m e
    open_decoders-Willing (audio ∷ ms) i st n m e =
        open_decoders_more ms i (record { stream = st; codecs = n; frames = m })
        ∙ ground (arith, open_decoders_rest ms (suc i) st (n + 1) (m + 1))

    pub open_input-Willing :
        (ms : List Media) (s : Session) {k : ℕ}
        → first_audio ms 0 ≡ some k
        → open_input_file_with_format_context a (some ms) s ≡ (
          record s {
            ifmt_ctx = object;
            stream_ctx = live (decoding fresh_stream_context);
            codecs = s.codecs + audios ms;
            frames = s.frames + audios ms;
          },
          pos 0,
        )
    unfolding open_input_file_with_format_context
    open_input-Willing ms s e = ground (
      arith,
      w.given stream_context,
      open_decoders-Willing ms 0 fresh_stream_context s.codecs s.frames e,
    )
