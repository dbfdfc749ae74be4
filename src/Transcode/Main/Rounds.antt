-- ===== src/Transcode/Main/Rounds.antt =====
-- One round of each loop in the middle of do_transcode.
use audio_fs.Base.{ℕ, suc, ◌≡◌, ◌≢◌, ◌<◌, true, false, none, some, arith}
use audio_fs.Base.Int.{ℤ, is_neg}
use audio_fs.Memory.{done}
use audio_fs.Transcode.{Ffmpeg, World, is_end}
use audio_fs.Transcode.Encode.Rounds.{is_end-is_neg}
use audio_fs.Transcode.Filter.{filter_encode_write_frame}
use audio_fs.Transcode.Main.{decode_loop, read_loop, remux}

module _ (lib : Ffmpeg) where
  open lib use {
    Packet, packet_stream, nb_out, has_graph, read_frame, rescale_in, rescale_remux, send_packet,
    receive_frame, best_effort_pts, write_frame,
  }

  pub decode_loop_end :
      (rounds fuel i : ℕ) (w : World lib)
      → is_end lib (receive_frame w.decoder).1 ≡ true
      → decode_loop lib rounds (suc fuel) i w
        ≡ done (record w { decoder = (receive_frame w.decoder).0 }, none)
  unfolding decode_loop
  decode_loop_end rounds fuel i w e = ground arith

  pub decode_loop_error :
      (rounds fuel i : ℕ) (w : World lib)
      → is_end lib (receive_frame w.decoder).1 ≡ false
      → is_neg (receive_frame w.decoder).1 ≡ true
      → decode_loop lib rounds (suc fuel) i w
        ≡ done
            (record w { decoder = (receive_frame w.decoder).0 }, some (receive_frame w.decoder).1)
  unfolding decode_loop
  decode_loop_error rounds fuel i w e n = ground arith

  pub decode_loop_refused :
      (rounds fuel i : ℕ) (w : World lib) {w1 : World lib} {ret : ℤ}
      → is_neg (receive_frame w.decoder).1 ≡ false
      → filter_encode_write_frame lib rounds
          (some (best_effort_pts (receive_frame w.decoder).2))
          i
          (record w { decoder = (receive_frame w.decoder).0 })
        ≡ done (w1, ret)
      → is_neg ret ≡ true
      → decode_loop lib rounds (suc fuel) i w ≡ done (w1, some ret)
  unfolding decode_loop
  decode_loop_refused rounds fuel i w n run bad =
      ground (arith, is_end-is_neg lib (receive_frame w.decoder).1 n)

  pub decode_loop_more :
      (rounds fuel i : ℕ) (w : World lib) {w1 : World lib} {ret : ℤ}
      → is_neg (receive_frame w.decoder).1 ≡ false
      → filter_encode_write_frame lib rounds
          (some (best_effort_pts (receive_frame w.decoder).2))
          i
          (record w { decoder = (receive_frame w.decoder).0 })
        ≡ done (w1, ret)
      → is_neg ret ≡ false
      → decode_loop lib rounds (suc fuel) i w ≡ decode_loop lib rounds fuel i w1
  unfolding decode_loop
  decode_loop_more rounds fuel i w n run good =
      ground (arith, is_end-is_neg lib (receive_frame w.decoder).1 n)

  pub read_loop_over :
      (rounds fuel i : ℕ) (w : World lib)
      → is_neg (read_frame w.demuxer).1 ≡ true
      → read_loop lib rounds (suc fuel) i w
        ≡ done (record w { demuxer = (read_frame w.demuxer).0 }, none)
  unfolding read_loop
  read_loop_over rounds fuel i w e = ground arith

  pub read_loop_other :
      (rounds fuel i : ℕ) (w : World lib)
      → is_neg (read_frame w.demuxer).1 ≡ false
      → packet_stream (read_frame w.demuxer).2 ≢ i
      → read_loop lib rounds (suc fuel) i w
        ≡ read_loop lib rounds fuel i (record w { demuxer = (read_frame w.demuxer).0 })
  unfolding read_loop
  read_loop_other rounds fuel i w e n = ground arith

  -- A packet of the selected stream that the decoder refuses.
  pub read_loop_bad :
      (rounds fuel i : ℕ) (w : World lib)
      → is_neg (read_frame w.demuxer).1 ≡ false
      → packet_stream (read_frame w.demuxer).2 ≡ i
      → has_graph ≡ true
      → is_neg (send_packet w.decoder (rescale_in (read_frame w.demuxer).2)).1 ≡ true
      → read_loop lib rounds (suc fuel) i w
        ≡ done (
          record w {
            demuxer = (read_frame w.demuxer).0;
            decoder = (send_packet w.decoder (rescale_in (read_frame w.demuxer).2)).0;
          },
          none,
        )
  unfolding read_loop
  read_loop_bad rounds fuel i w e p g n = ground arith

  -- A packet of the selected stream that is decoded: the code jumps to `end`, or goes on.
  module _ (rounds fuel i : ℕ) (w : World lib) {w1 : World lib} where
    pub read_loop_jump :
        {ret : ℤ}
        → is_neg (read_frame w.demuxer).1 ≡ false
        → packet_stream (read_frame w.demuxer).2 ≡ i
        → has_graph ≡ true
        → is_neg (send_packet w.decoder (rescale_in (read_frame w.demuxer).2)).1 ≡ false
        → decode_loop lib rounds rounds i (record w {
          demuxer = (read_frame w.demuxer).0;
          decoder = (send_packet w.decoder (rescale_in (read_frame w.demuxer).2)).0;
        })
          ≡ done (w1, some ret)
        → read_loop lib rounds (suc fuel) i w ≡ done (w1, some ret)
    unfolding read_loop
    read_loop_jump e p g n run = ground arith

    pub read_loop_more :
        is_neg (read_frame w.demuxer).1 ≡ false
        → packet_stream (read_frame w.demuxer).2 ≡ i
        → has_graph ≡ true
        → is_neg (send_packet w.decoder (rescale_in (read_frame w.demuxer).2)).1 ≡ false
        → decode_loop lib rounds rounds i (record w {
          demuxer = (read_frame w.demuxer).0;
          decoder = (send_packet w.decoder (rescale_in (read_frame w.demuxer).2)).0;
        })
          ≡ done (w1, none)
        → read_loop lib rounds (suc fuel) i w ≡ read_loop lib rounds fuel i w1
    unfolding read_loop
    read_loop_more e p g n run = ground arith

  -- The same without a filter graph.
  module _ (rounds fuel i : ℕ) (w : World lib) where
    pub remux_jump :
        is_neg (read_frame w.demuxer).1 ≡ false
        → packet_stream (read_frame w.demuxer).2 ≡ i
        → has_graph ≡ false
        → i < nb_out
        → is_neg (write_frame w.muxer i (rescale_remux i (read_frame w.demuxer).2)).1 ≡ true
        → read_loop lib rounds (suc fuel) i w
          ≡ done (
            record w {
              demuxer = (read_frame w.demuxer).0;
              muxer = (write_frame w.muxer i (rescale_remux i (read_frame w.demuxer).2)).0;
            },
            some (write_frame w.muxer i (rescale_remux i (read_frame w.demuxer).2)).1,
          )
    unfolding read_loop remux
    remux_jump e p g q n = ground arith

    pub remux_more :
        is_neg (read_frame w.demuxer).1 ≡ false
        → packet_stream (read_frame w.demuxer).2 ≡ i
        → has_graph ≡ false
        → i < nb_out
        → is_neg (write_frame w.muxer i (rescale_remux i (read_frame w.demuxer).2)).1 ≡ false
        → read_loop lib rounds (suc fuel) i w
          ≡ read_loop lib rounds fuel i (record w {
            demuxer = (read_frame w.demuxer).0;
            muxer = (write_frame w.muxer i (rescale_remux i (read_frame w.demuxer).2)).0;
          })
    unfolding read_loop remux
    remux_more e p g q n = ground arith
