-- ===== src/Transcode/Main/Finish.antt =====
-- What the middle of do_transcode returns: the flushes, the trailer, and the whole.
use audio_fs.Base.{
  ℕ, ◌≡◌, ◌∙◌, ◌<◌, true, false, Bool-cases, inl, inr, Option, none, some, [], arith,
}
use audio_fs.Base.Int.{ℤ, pos, is_neg}
use audio_fs.Memory.{Outcome, done}
use audio_fs.Transcode.{Ffmpeg, World, Encoding, Finite}
use audio_fs.Transcode.Encode.{encode_write_frame, flush_encoder}
use audio_fs.Transcode.Filter.{filter_encode_write_frame}
use audio_fs.Transcode.Filter.Laws.{encode_write_frame-Encodes, filter_encode_write_frame-Settles}
use audio_fs.Transcode.Main.{close_output, finish, read_loop, transcode_packets}
use audio_fs.Transcode.Main.Laws.{Left, read_loop-Reads}

module _ (lib : Ffmpeg) where
  open lib use {
    Demuxer, delay, has_graph, nb_out, packet_stream, read_frame, rescale_in, send_packet,
    add_frame, get_frame, write_trailer,
  }

  pub close_plain :
      (rounds i : ℕ) (w : World lib)
      → delay ≡ false
      → close_output lib rounds i w ≡ done (record w { muxer = (write_trailer w.muxer).0 }, pos 0)
  unfolding close_output flush_encoder
  close_plain rounds i w e = ground arith

  close_error :
      (rounds i : ℕ) (w : World lib) {w1 : World lib} {ret : ℤ}
      → delay ≡ true
      → encode_write_frame lib rounds i none w ≡ done (w1, ret)
      → is_neg ret ≡ true
      → close_output lib rounds i w ≡ done (w1, ret)
  unfolding close_output flush_encoder
  close_error rounds i w e run bad = ground arith

  pub close_flushed :
      (rounds i : ℕ) (w : World lib) {w1 : World lib} {ret : ℤ}
      → delay ≡ true
      → encode_write_frame lib rounds i none w ≡ done (w1, ret)
      → is_neg ret ≡ false
      → close_output lib rounds i w ≡ done (record w1 { muxer = (write_trailer w1.muxer).0 }, ret)
  unfolding close_output flush_encoder
  close_flushed rounds i w e run good = ground arith

  finish_error :
      (rounds i : ℕ) (w : World lib) {w1 : World lib} {ret : ℤ}
      → has_graph ≡ true
      → filter_encode_write_frame lib rounds none i w ≡ done (w1, ret)
      → is_neg ret ≡ true
      → finish lib rounds i w ≡ done (w1, ret)
  unfolding finish
  finish_error rounds i w g run bad = ground arith

  pub finish_filtered :
      (rounds i : ℕ) (w : World lib) {w1 : World lib} {ret : ℤ}
      → has_graph ≡ true
      → filter_encode_write_frame lib rounds none i w ≡ done (w1, ret)
      → is_neg ret ≡ false
      → finish lib rounds i w ≡ close_output lib rounds i w1
  unfolding finish
  finish_filtered rounds i w g run good = ground arith

  finish_plain :
      (rounds i : ℕ) (w : World lib)
      → has_graph ≡ false
      → finish lib rounds i w ≡ close_output lib rounds i w
  unfolding finish
  finish_plain rounds i w g = ground arith

  transcode_jump :
      (rounds i : ℕ) (w : World lib) {w1 : World lib} {ret : ℤ}
      → read_loop lib rounds rounds i w ≡ done (w1, some ret)
      → transcode_packets lib rounds i w ≡ done (w1, ret)
  unfolding transcode_packets
  transcode_jump rounds i w run = ground arith

  pub transcode_break :
      (rounds i : ℕ) (w : World lib) {w1 : World lib}
      → read_loop lib rounds rounds i w ≡ done (w1, none)
      → transcode_packets lib rounds i w ≡ finish lib rounds i w1
  unfolding transcode_packets
  transcode_break rounds i w run = ground arith

  module _ (enc : Encoding lib) (fin : Finite lib) where
    -- A run that returns, and leaves the encoder empty where it returns no error.
    abbrev pub Returns : Outcome (World lib × ℤ) → Type 0
    Returns run =
        (w' : World lib) × (ret : ℤ) × (run ≡ done (w', ret))
        × (is_neg ret ≡ false → enc.ready w'.encoder ≡ [])

    close_output-Returns :
        (rounds i : ℕ) (w : World lib)
        → enc.ready w.encoder ≡ []
        → enc.most < rounds
        → i < nb_out
        → Returns (close_output lib rounds i w)
    close_output-Returns rounds i w empty p q = elim (Bool-cases delay) [
      | inr none_kept ↦ (
        record w { muxer = (write_trailer w.muxer).0 },
        pos 0,
        close_plain rounds i w none_kept,
        λ _. empty,
      )
      | inl kept ↦
          let (e1, m1, ret, run, empty1) =
            encode_write_frame-Encodes lib enc fin rounds i none w p q in
          let w1 : World lib = record w { encoder = e1; muxer = m1 } in
          elim (Bool-cases (is_neg ret)) [
            | inl bad ↦ (w1, ret, close_error rounds i w kept run bad, empty1)
            | inr good ↦ (
              record w1 { muxer = (write_trailer m1).0 },
              ret,
              close_flushed rounds i w kept run good,
              empty1,
            )
          ]
    ]

    finish-Returns :
        (rounds i : ℕ) (w : World lib)
        → enc.ready w.encoder ≡ []
        → enc.most < rounds
        → fin.most < rounds
        → i < nb_out
        → Returns (finish lib rounds i w)
    finish-Returns rounds i w empty p r q = elim (Bool-cases has_graph) [
      | inr no_graph ↦
          let (w', ret, run, end) = close_output-Returns rounds i w empty p q in
          (w', ret, finish_plain rounds i w no_graph ∙ run, end)
      | inl graph ↦
          let (g1, e1, m1, ret, run, empty1) =
            filter_encode_write_frame-Settles lib enc fin rounds i none w empty p r q in
          let w1 : World lib = record w { graph = g1; encoder = e1; muxer = m1 } in
          elim (Bool-cases (is_neg ret)) [
            | inl bad ↦ (w1, ret, finish_error rounds i w graph run bad, empty1)
            | inr good ↦
                let (w', ret', run', end) = close_output-Returns rounds i w1 (empty1 good) p q in
                (w', ret', finish_filtered rounds i w graph run good ∙ run', end)
          ]
    ]

    transcode-Left :
        (rounds i : ℕ) (w : World lib) {w1 : World lib} (out : Option ℤ)
        → enc.most < rounds
        → fin.most < rounds
        → i < nb_out
        → read_loop lib rounds rounds i w ≡ done (w1, out)
        → Left lib enc fin w1.encoder out
        → Returns (transcode_packets lib rounds i w)
    transcode-Left rounds i w {w1} none p r q run empty =
        let (w', ret, run', end) = finish-Returns rounds i w1 empty p r q in
        (w', ret, transcode_break rounds i w run ∙ run', end)
    transcode-Left rounds i w {w1} (some ret) p r q run bad =
        (w1, ret, transcode_jump rounds i w run, λ good. absurd (cc (bad, good)))

    -- With fuel over what each part can hold, an output stream of the selected index and an empty
    -- encoder to begin with, the middle of do_transcode returns; where it returns 0 or more, no packet
    -- is left in the encoder.
    pub transcode_packets-Returns :
        (rounds i : ℕ) (w : World lib)
        → enc.ready w.encoder ≡ []
        → enc.most < rounds
        → fin.most < rounds
        → i < nb_out
        → Returns (transcode_packets lib rounds i w)
    transcode_packets-Returns rounds i w empty p r q =
        let bound = fin.packets_left-most w.demuxer in
        let (w1, out, run, end) =
          read_loop-Reads lib enc fin rounds rounds i w empty p r (omega arith) q in
        transcode-Left rounds i w out p r q run end
