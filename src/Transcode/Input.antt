-- ===== src/Transcode/Input.antt =====
-- open_input_file and open_input_file_with_format_context of native/transcode.c.
pub mod Laws
use audio_fs.Base.{ℕ, suc, ◌+◌, Bool, true, false, List, [], ◌∷◌, Option, none, some, if◌then◌else◌}
use audio_fs.Base.Int.{ℤ, pos, negsuc, is_neg}
use audio_fs.Transcode.Session.{
  Pointer, null, garbage, object, null_ref, live, StreamContext, Session, Media, audio, other_media,
  stream_context, decoder, decoder_context, decoder_frame, input_opened, stream_info,
  decoder_parameters, decoder_opened, Answers, averror_enomem, averror_decoder_not_found,
  pointer_of,
}

-- What the loops over streams change: `*stream_ctx`, and the numbers of codec contexts and of frames.
pub record Opening : Type 0 where
  pub stream : StreamContext
  pub codecs : ℕ
  pub frames : ℕ

-- The body of the loop, for an audio stream. avcodec_parameters_to_context makes the context's type
-- that of the stream, so that the decoder is always opened.
unfoldable pub open_decoder : Answers → ℕ → Opening → Opening × ℤ
open_decoder a i o =
    let o1 = record o { codecs = o.codecs + 1 } in
    let frame = pointer_of (a.gives (decoder_frame i)) in
    let o2 = record o1 {
      stream = record (o.stream) { dec_ctx = object; dec_frame = frame };
      frames = if a.gives (decoder_frame i) then o.frames + 1 else o.frames;
    } in
    if a.gives (decoder i)
    then (if a.gives (decoder_context i)
        then (if is_neg (a.code (decoder_parameters i))
            then (o1, a.code (decoder_parameters i))
            else if is_neg (a.code (decoder_opened i))
            then (o1, a.code (decoder_opened i))
            else if a.gives (decoder_frame i)
            then (o2, pos 0)
            else (o2, averror_enomem))
        else (o, averror_enomem))
    else (o, averror_decoder_not_found)

-- The loop over the streams from index `i` on.
unfoldable pub open_decoders : Answers → List Media → ℕ → Opening → Opening × ℤ
unfolding open_decoder
open_decoders a [] i o = (o, pos 0)
open_decoders a (other_media ∷ ms) i o = open_decoders a ms (suc i) o
open_decoders a (audio ∷ ms) i o = elim (is_neg (open_decoder a i o).1) [
  | true ↦ open_decoder a i o
  | false ↦ open_decoders a ms (suc i) (open_decoder a i o).0
]

-- av_malloc leaves the structure as it is.
abbrev pub fresh_stream_context : StreamContext
fresh_stream_context = record { dec_ctx = garbage; enc_ctx = garbage; dec_frame = garbage }

-- open_input_file_with_format_context of a context that is NULL, or has these streams.
unfoldable pub open_input_file_with_format_context :
    Answers → Option (List Media) → Session → Session × ℤ
unfolding open_decoders
open_input_file_with_format_context a none s = (s, negsuc 0)
open_input_file_with_format_context a (some ms) s =
    let s1 = record s { ifmt_ctx = object } in
    if a.gives stream_context
    then (let (o, ret) =
          open_decoders a ms 0
            (record { stream = fresh_stream_context; codecs = s.codecs; frames = s.frames }) in
        (record s1 { stream_ctx = live (o.stream); codecs = o.codecs; frames = o.frames }, ret))
    else (record s1 { stream_ctx = null_ref }, averror_enomem)

-- open_input_file of a file with these streams.
unfoldable pub open_input_file : Answers → List Media → Session → Session × ℤ
unfolding open_input_file_with_format_context
open_input_file a ms s =
    let s1 = record s { ifmt_ctx = object; inputs = s.inputs + 1 } in
    if is_neg (a.code input_opened)
    then (record s { ifmt_ctx = null }, a.code input_opened)
    else if is_neg (a.code stream_info)
    then (s1, a.code stream_info)
    else open_input_file_with_format_context a (some ms) s1
