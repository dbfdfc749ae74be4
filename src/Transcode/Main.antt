-- ===== src/Transcode/Main.antt =====
-- The middle of do_transcode of native/transcode.c: the loop over packets, the flushes and the
-- trailer, up to the label `end`.
pub mod Rounds
pub mod Laws
pub mod Finish
pub mod Errors
use audio_fs.Base.{ℕ, zero, suc, true, false, Option, none, some, ltb, ◌==◌, if◌then◌else◌}
use audio_fs.Base.Int.{ℤ, pos, is_neg}
use audio_fs.Memory.{Outcome, done, fault, spent, ◌>>=◌}
use audio_fs.Transcode.{Ffmpeg, World, is_end}
use audio_fs.Transcode.Encode.{flush_encoder}
use audio_fs.Transcode.Filter.{filter_encode_write_frame}

module _ (lib : Ffmpeg) where
  open lib use {
    Packet, packet_stream, nb_out, has_graph, read_frame, rescale_in, rescale_remux, send_packet,
    receive_frame, best_effort_pts, write_frame, write_trailer,
  }

  -- How a loop ends: `none` where it breaks, `some ret` where the code jumps to `end` with `ret`.
  abbrev pub Exit : Type 0
  Exit = World lib × Option ℤ

  -- The loop over the frames of one packet.
  unfoldable pub decode_loop : ℕ → ℕ → ℕ → World lib → Outcome Exit
  decode_loop rounds zero stream_index w = spent
  decode_loop rounds (suc fuel) stream_index w =
      let (decoder', ret, frame) = receive_frame w.decoder in
      elim (is_end lib ret) [
        | true ↦ done (record w { decoder = decoder' }, none)
        | false ↦ elim (is_neg ret) [
          | true ↦ done (record w { decoder = decoder' }, some ret)
          | false ↦
              filter_encode_write_frame lib rounds (some (best_effort_pts frame)) stream_index
                (record w { decoder = decoder' })
              >>= λ r. elim (is_neg r.1) [
                | true ↦ done (r.0, some r.1)
                | false ↦ decode_loop rounds fuel stream_index r.0
              ]
        ]
      ]

  -- The branch without a filter graph: the packet goes to the muxer as it is.
  unfoldable pub remux : ℕ → Packet → World lib → Outcome Exit
  remux stream_index packet w =
      if ltb stream_index nb_out
      then (let (muxer', ret) =
            write_frame w.muxer stream_index (rescale_remux stream_index packet) in
          done (record w { muxer = muxer' }, if is_neg ret then some ret else none))
      else fault

  -- The loop over the packets of the input.
  unfoldable pub read_loop : ℕ → ℕ → ℕ → World lib → Outcome Exit
  unfolding decode_loop remux
  read_loop rounds zero selected w = spent
  read_loop rounds (suc fuel) selected w =
      let (demuxer', ret, packet) = read_frame w.demuxer in
      let w' : World lib = record w { demuxer = demuxer' } in
      let (decoder', ret') = send_packet w.decoder (rescale_in packet) in
      let go_on : Exit → Outcome Exit = λ r. elim r.1 [
        | none ↦ read_loop rounds fuel selected r.0
        | some code ↦ done (r.0, some code)
      ] in
      elim (is_neg ret) [
        | true ↦ done (w', none)
        | false ↦ elim (packet_stream packet == selected) [
          | false ↦ read_loop rounds fuel selected w'
          | true ↦ elim has_graph [
            | false ↦ remux selected packet w' >>= go_on
            | true ↦ elim (is_neg ret') [
              | true ↦ done (record w' { decoder = decoder' }, none)
              | false ↦
                  decode_loop rounds rounds selected (record w' { decoder = decoder' }) >>= go_on
            ]
          ]
        ]
      ]

  -- The flush of the encoder and the trailer, whose own result is not looked at.
  unfoldable pub close_output : ℕ → ℕ → World lib → Outcome (World lib × ℤ)
  unfolding flush_encoder
  close_output rounds selected w = flush_encoder lib rounds selected w >>= λ s. elim (is_neg s.1) [
    | true ↦ done (s.0, s.1)
    | false ↦ done (record (s.0) { muxer = (write_trailer s.0.muxer).0 }, s.1)
  ]

  -- The flush of the filter, and what follows it.
  unfoldable pub finish : ℕ → ℕ → World lib → Outcome (World lib × ℤ)
  unfolding close_output filter_encode_write_frame
  finish rounds selected w =
      if has_graph
      then (filter_encode_write_frame lib rounds none selected w >>= λ r. elim (is_neg r.1) [
        | true ↦ done (r.0, r.1)
        | false ↦ close_output rounds selected r.0
      ])
      else close_output rounds selected w

  -- do_transcode from its loop to the label `end`, with the value of `ret` there.
  unfoldable pub transcode_packets : ℕ → ℕ → World lib → Outcome (World lib × ℤ)
  unfolding read_loop finish
  transcode_packets rounds selected w = read_loop rounds rounds selected w >>= λ r. elim r.1 [
    | none ↦ finish rounds selected r.0
    | some ret ↦ done (r.0, ret)
  ]
