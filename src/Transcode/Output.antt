-- ===== src/Transcode/Output.antt =====
-- open_output_file of native/transcode.c.
pub mod Laws
use audio_fs.Base.{ℕ, suc, ◌+◌, Bool, true, false, List, [], ◌∷◌, Option, none, some, if◌then◌else◌}
use audio_fs.Base.Int.{ℤ, pos, negsuc, is_neg}
use audio_fs.Avio.{Handle}
use audio_fs.Avio.Open.{Ledger, avio_open}
use audio_fs.Transcode.Session.{
  object, Ref, null_ref, dangling_ref, live, StreamContext, OutputContext, Session, Media, audio,
  other_media, output_context, avio_context, output_stream, encoder, encoder_context, layout_copied,
  encoder_opened, encoder_parameters, header_written, Answers, Target, averror_enomem,
  averror_unknown, averror_invaliddata,
}
use audio_fs.Transcode.Input.{Opening}
use audio_fs.Memory.{Outcome, done, fault, ◌>>=◌}

-- The body of the loop, for an audio stream; `dec_ctx` is the decoder of an audio stream.
unfoldable pub open_encoder : Answers → ℕ → Opening → Opening × ℤ
open_encoder a i o =
    let o1 = record o { codecs = o.codecs + 1 } in
    if a.gives (output_stream i)
    then (if a.gives (encoder i)
        then (if a.gives (encoder_context i)
            then (if is_neg (a.code (layout_copied i))
                then (o1, a.code (layout_copied i))
                else if is_neg (a.code (encoder_opened i))
                then (o1, a.code (encoder_opened i))
                else if is_neg (a.code (encoder_parameters i))
                then (o1, a.code (encoder_parameters i))
                else (record o1 { stream = record (o.stream) { enc_ctx = object } }, pos 0))
            else (o, averror_enomem))
        else (o, averror_invaliddata))
    else (o, averror_unknown)

-- The loop over the streams of the input from index `i` on.
unfoldable pub open_encoders : Answers → List Media → ℕ → Opening → Opening × ℤ
unfolding open_encoder
open_encoders a [] i o = (o, pos 0)
open_encoders a (other_media ∷ ms) i o = open_encoders a ms (suc i) o
open_encoders a (audio ∷ ms) i o = elim (is_neg (open_encoder a i o).1) [
  | true ↦ open_encoder a i o
  | false ↦ open_encoders a ms (suc i) (open_encoder a i o).0
]

-- The opening of the handle and of the AVIO context with its buffer around it, with the code -1 where there is no
-- handle. The test of `ret` behind it never holds.
unfoldable pub open_pb : Answers → Target → Session → Session × ℤ
open_pb a t s =
    let (opened, ledger') = avio_open t.mem t.os t.address t.name s.ledger in
    elim opened [
      | none ↦ (record s { ledger = ledger' }, negsuc 0)
      | some h ↦
          if a.gives avio_context
          then (
            record s {
              ofmt_ctx = live (record { pb = some h });
              avios = s.avios + 1;
              ledger = ledger';
            },
            pos 0,
          )
          else (record s { ledger = ledger' }, pos 0)
    ]

-- The part behind the loop: the handle, unless the format needs none, and the header.
unfoldable pub start_output : Answers → Target → Session → Session × ℤ
unfolding open_pb
start_output a t s =
    let (s', ret) = if a.nofile then (s, pos 0) else open_pb a t s in
    if is_neg ret
    then (s', ret)
    else if is_neg (a.code header_written)
    then (s', a.code header_written)
    else (s', pos 0)

-- open_output_file. `*stream_ctx` is used by the loop, so that it has to be there.
unfoldable pub open_output_file : Answers → List Media → Target → Session → Outcome (Session × ℤ)
unfolding open_encoders start_output
open_output_file a ms t s =
    if a.gives output_context
    then elim s.stream_ctx [
      | null_ref ↦ fault
      | dangling_ref ↦ fault
      | live st ↦
          let (o, ret) =
            open_encoders a ms 0 (record { stream = st; codecs = s.codecs; frames = s.frames }) in
          let s1 = record s {
            ofmt_ctx = live (record { pb = none });
            stream_ctx = live (o.stream);
            codecs = o.codecs;
          } in
          done (if is_neg ret then (s1, ret) else start_output a t s1)
    ]
    else done (record s { ofmt_ctx = null_ref }, averror_unknown)
