-- ===== src/Transcode/Encode.antt =====
-- encode_write_frame and flush_encoder of native/transcode.c.
pub mod Rounds
pub mod Laws
use audio_fs.Base.{ℕ, zero, suc, true, false, Option, none, ltb, if◌then◌else◌}
use audio_fs.Base.Int.{ℤ, pos, is_neg}
use audio_fs.Memory.{Outcome, done, fault, spent}
use audio_fs.Transcode.{Ffmpeg, World, is_end}

module _ (lib : Ffmpeg) where
  open lib use {Frame, nb_out, delay, send_frame, receive_packet, rescale_out, write_frame}

  -- The loop `while (ret >= 0)`: `ofmt_ctx->streams[stream_index]` is used for each packet.
  unfoldable pub encode_loop : ℕ → ℕ → World lib → Outcome (World lib × ℤ)
  encode_loop zero stream_index w = spent
  encode_loop (suc fuel) stream_index w =
      let (encoder', ret, packet) = receive_packet w.encoder in
      elim (is_end lib ret) [
        | true ↦ done (record w { encoder = encoder' }, pos 0)
        | false ↦ elim (ltb stream_index nb_out) [
          | false ↦ fault
          | true ↦
              let (muxer', ret') =
                write_frame w.muxer stream_index (rescale_out stream_index packet) in
              elim (is_neg ret') [
                | true ↦ done (record w { encoder = encoder'; muxer = muxer' }, ret')
                | false ↦
                    encode_loop fuel stream_index (record w { encoder = encoder'; muxer = muxer' })
              ]
        ]
      ]

  -- encode_write_frame of the filtered frame, or of NULL to flush.
  unfoldable pub encode_write_frame : ℕ → ℕ → Option Frame → World lib → Outcome (World lib × ℤ)
  unfolding encode_loop
  encode_write_frame fuel stream_index frame w =
      let (encoder', ret) = send_frame w.encoder frame in
      elim (is_neg ret) [
        | true ↦ done (record w { encoder = encoder' }, ret)
        | false ↦ encode_loop fuel stream_index (record w { encoder = encoder' })
      ]

  unfoldable pub flush_encoder : ℕ → ℕ → World lib → Outcome (World lib × ℤ)
  unfolding encode_write_frame
  flush_encoder fuel stream_index w =
      if delay then encode_write_frame fuel stream_index none w else done (w, pos 0)
