-- ===== src/Transcode/Main/Errors.antt =====
-- What the middle of do_transcode makes of packets of other streams, and of a demuxer or a decoder
-- that fails.
use audio_fs.Base.{ℕ, zero, suc, ◌+◌, ◌≡◌, refl, ◌∙◌, ap, ◌≢◌, true, false, none, arith}
use audio_fs.Base.Int.{pos, is_neg}
use audio_fs.Memory.{done}
use audio_fs.Transcode.{Ffmpeg, World, is_end}
use audio_fs.Transcode.Filter.{filter_loop, filter_encode_write_frame}
use audio_fs.Transcode.Main.{finish, read_loop, transcode_packets}
use audio_fs.Transcode.Main.Finish.{close_plain, finish_filtered, transcode_break}
use audio_fs.Transcode.Main.Rounds

zero_add : (n : ℕ) → 0 + n ≡ n
zero_add n = omega arith

suc_add : (k n : ℕ) → suc k + n ≡ suc (k + n)
suc_add k n = omega arith

module _ (lib : Ffmpeg) where
  open lib use {
    Demuxer, Graph, Muxer, delay, has_graph, packet_stream, read_frame, rescale_in, send_packet,
    add_frame, get_frame, write_trailer,
  }

  -- The demuxer after `k` packets.
  unfoldable pub skip : ℕ → Demuxer → Demuxer
  skip zero d = d
  skip (suc k) d = skip k (read_frame d).0

  -- The next `k` packets are there, and none is of stream `i`.
  unfoldable pub Foreign : ℕ → ℕ → Demuxer → Type 0
  Foreign i zero d = Unit
  Foreign i (suc k) d =
      (is_neg (read_frame d).1 ≡ false)
      × (packet_stream (read_frame d).2 ≢ i)
      × Foreign i k (read_frame d).0

  -- Packets of other streams are passed over: the loop does what it would do behind them, at one
  -- round of fuel for each, and no other part sees them.
  read_loop_skips :
      (rounds k fuel i : ℕ) (w : World lib)
      → Foreign i k w.demuxer
      → read_loop lib rounds (k + fuel) i w
        ≡ read_loop lib rounds fuel i (record w { demuxer = skip k w.demuxer })
  unfolding skip Foreign
  read_loop_skips rounds zero fuel i w f = ap (λ n. read_loop lib rounds n i w) (zero_add fuel)
  read_loop_skips rounds (suc k) fuel i w (given, other, rest) =
      ap (λ n. read_loop lib rounds n i w) (suc_add k fuel)
      ∙ Rounds.read_loop_other lib rounds (k + fuel) i w given other
      ∙ read_loop_skips rounds k fuel i (record w { demuxer = (read_frame w.demuxer).0 }) rest

  -- The graph takes the NULL frame and has no frame left.
  abbrev pub Dry : Graph → Type 0
  Dry g =
      (is_neg (add_frame g none).1 ≡ false)
      × (is_neg (get_frame (add_frame g none).0).1 ≡ true)
      × (is_end lib (get_frame (add_frame g none).0).1 ≡ true)

  filter-Dry :
      (rounds i : ℕ) (w : World lib)
      → Dry w.graph
      → filter_encode_write_frame lib (suc rounds) none i w
        ≡ done (record w { graph = (get_frame (add_frame w.graph none).0).0 }, pos 0)
  unfolding filter_encode_write_frame filter_loop
  filter-Dry rounds i w (added, over, at_end) = ground arith

  finish-Dry :
      (rounds i : ℕ) (w : World lib)
      → has_graph ≡ true
      → delay ≡ false
      → Dry w.graph
      → finish lib (suc rounds) i w
        ≡ done (
          record w {
            graph = (get_frame (add_frame w.graph none).0).0;
            muxer = (write_trailer w.muxer).0;
          },
          pos 0,
        )
  finish-Dry rounds i w g d dry =
      finish_filtered lib (suc rounds) i w g (filter-Dry rounds i w dry) refl
      ∙ close_plain lib (suc rounds) i
          (record w { graph = (get_frame (add_frame w.graph none).0).0 }) d

  -- A decoder that refuses the first packet of the selected stream, with an encoder without delay and
  -- a graph that is empty: the middle of do_transcode ends with 0, which is a success, and an output
  -- that got no packet and its trailer.
  pub transcode_packets_decode_error :
      (rounds i : ℕ) (w : World lib)
      → is_neg (read_frame w.demuxer).1 ≡ false
      → packet_stream (read_frame w.demuxer).2 ≡ i
      → is_neg (send_packet w.decoder (rescale_in (read_frame w.demuxer).2)).1 ≡ true
      → has_graph ≡ true
      → delay ≡ false
      → Dry w.graph
      → transcode_packets lib (suc rounds) i w
        ≡ done (
          record w {
            demuxer = (read_frame w.demuxer).0;
            decoder = (send_packet w.decoder (rescale_in (read_frame w.demuxer).2)).0;
            graph = (get_frame (add_frame w.graph none).0).0;
            muxer = (write_trailer w.muxer).0;
          },
          pos 0,
        )
  transcode_packets_decode_error rounds i w given same bad g d dry =
      transcode_break lib (suc rounds) i w
        (Rounds.read_loop_bad lib (suc rounds) rounds i w given same g bad)
      ∙ finish-Dry rounds i
          (record w {
            demuxer = (read_frame w.demuxer).0;
            decoder = (send_packet w.decoder (rescale_in (read_frame w.demuxer).2)).0;
          })
          g d dry

  -- A demuxer that fails with any code, of which AVERROR_EOF is only one, with an encoder without
  -- delay and a graph that is empty: the middle of do_transcode ends with 0 and writes the trailer, as
  -- at the end of the input.
  transcode_packets_read_error :
      (rounds i : ℕ) (w : World lib)
      → is_neg (read_frame w.demuxer).1 ≡ true
      → has_graph ≡ true
      → delay ≡ false
      → Dry w.graph
      → transcode_packets lib (suc rounds) i w
        ≡ done (
          record w {
            demuxer = (read_frame w.demuxer).0;
            graph = (get_frame (add_frame w.graph none).0).0;
            muxer = (write_trailer w.muxer).0;
          },
          pos 0,
        )
  transcode_packets_read_error rounds i w over g d dry =
      transcode_break lib (suc rounds) i w (Rounds.read_loop_over lib (suc rounds) rounds i w over)
      ∙ finish-Dry rounds i (record w { demuxer = (read_frame w.demuxer).0 }) g d dry
