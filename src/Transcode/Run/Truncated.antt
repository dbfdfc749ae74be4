-- ===== src/Transcode/Run/Truncated.antt =====
-- do_transcode over a decoder that refuses its input.
use audio_fs.Base.{ℕ, suc, ◌≡◌, true, false, List, some}
use audio_fs.Base.Int.{is_neg}
use audio_fs.Memory.{done}
use audio_fs.Avio.{Handle}
use audio_fs.Avio.Open.{Ledger, avio_open}
use audio_fs.Transcode.{Ffmpeg, World}
use audio_fs.Transcode.Session.{Session, Media, Answers, Target, Willing, first_audio}
use audio_fs.Transcode.Main.Errors.{Dry, transcode_packets_decode_error}
use audio_fs.Transcode.Cleanup.Laws.{Idle}
use audio_fs.Transcode.Run.{from_context, do_transcode}
use audio_fs.Transcode.Run.Laws.{do_transcode_lem}

module _ (lib : Ffmpeg) (written : lib.Muxer → Handle → Handle) (a : Answers) (t : Target)
    (will : Willing a) (file : a.nofile ≡ false) where
  open lib use {packet_stream, read_frame, rescale_in, send_packet, write_trailer, has_graph, delay}

  -- Over a context with an audio stream, where the set-up succeeds and the format needs a file, the
  -- decoder refuses the first packet, which is of that stream, the encoder is without delay and the
  -- graph is empty: do_transcode returns the handle, as after a success, and the muxer behind it got
  -- its trailer and no packet.
  pub do_transcode_decode_error :
      (rounds : ℕ) (ms : List Media) (w : World lib) (s : Session) {k : ℕ} {h : Handle} {l : Ledger}
      → first_audio ms 0 ≡ some k
      → avio_open t.mem t.os t.address t.name s.ledger ≡ (some h, l)
      → is_neg (read_frame w.demuxer).1 ≡ false
      → packet_stream (read_frame w.demuxer).2 ≡ k
      → is_neg (send_packet w.decoder (rescale_in (read_frame w.demuxer).2)).1 ≡ true
      → has_graph ≡ true
      → delay ≡ false
      → Dry lib w.graph
      → (s' : Session) × (do_transcode lib written a t (suc rounds) (from_context (some ms)) w s
          ≡ done (s', some (written (write_trailer w.muxer).0 h)))
        × Idle s'
  do_transcode_decode_error rounds ms w s {k} selected opened given same bad g d dry =
      let run = transcode_packets_decode_error lib rounds k w given same bad g d dry in
      let (s', returned, idle, _, _, _, _, _, _, _) =
        do_transcode_lem lib written a t will file (suc rounds) ms w s selected opened run in
      (s', returned, idle)
