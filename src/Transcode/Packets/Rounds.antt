-- ===== src/Transcode/Packets/Rounds.antt =====
-- One round of the loop over packets, with what `packet` holds.
use audio_fs.Base.{
  ℕ, suc, ◌≡◌, ◌≢◌, ◌<◌, refl, true, false, Bool, Bool-cases, inl, inr, not, ◌==◌, Option, none,
  some, arith,
}
use audio_fs.Base.Int.{ℤ, is_neg}
use audio_fs.Memory.{done}
use audio_fs.Transcode.{Ffmpeg, World}
use audio_fs.Transcode.Main.{decode_loop, remux, read_loop}
use audio_fs.Transcode.Main.Rounds
use audio_fs.Transcode.Packets.{Holding, overwritten, read_loop_held}

module _ (lib : Ffmpeg) where
  open lib use {
    packet_stream, nb_out, has_graph, read_frame, rescale_in, rescale_remux, send_packet,
    write_frame,
  }

  abbrev pub given_back : World lib → World lib
  given_back w = record w { demuxer = (read_frame w.demuxer).0 }

  abbrev pub decoding : World lib → World lib
  decoding w = record (given_back w) {
    decoder = (send_packet w.decoder (rescale_in (read_frame w.demuxer).2)).0;
  }

  abbrev pub remuxed : ℕ → World lib → World lib
  remuxed i w = record (given_back w) {
    muxer = (write_frame w.muxer i (rescale_remux i (read_frame w.demuxer).2)).0;
  }

  -- A round of both loops from `w`: the input is over, the loop ends at a packet of the selected stream,
  -- or both go on from `w1`, where `packet` holds something behind a packet of another stream.
  pub data Round (rounds fuel i : ℕ) (w : World lib) (Good : World lib → Type 0) : Type 0 where
    over :
        is_neg (read_frame w.demuxer).1 ≡ true
        → (w1 : World lib) → w1.demuxer ≡ (read_frame w.demuxer).0
        → read_loop lib rounds (suc fuel) i w ≡ done (w1, none)
        → ((h : Holding)
            → read_loop_held lib rounds (suc fuel) i w h ≡ done ((w1, none), overwritten false h))
        → Round rounds fuel i w Good
    stop :
        (w1 : World lib) (out : Option ℤ) (held : Bool)
        → is_neg (read_frame w.demuxer).1 ≡ false
        → packet_stream (read_frame w.demuxer).2 ≡ i
        → w1.demuxer ≡ (read_frame w.demuxer).0
        → read_loop lib rounds (suc fuel) i w ≡ done (w1, out)
        → ((h : Holding)
            → read_loop_held lib rounds (suc fuel) i w h ≡ done ((w1, out), overwritten held h))
        → Round rounds fuel i w Good
    again :
        (w1 : World lib)
        → is_neg (read_frame w.demuxer).1 ≡ false
        → w1.demuxer ≡ (read_frame w.demuxer).0
        → Good w1
        → read_loop lib rounds (suc fuel) i w ≡ read_loop lib rounds fuel i w1
        → ((h : Holding)
            → read_loop_held lib rounds (suc fuel) i w h
              ≡ read_loop_held lib rounds fuel i w1
                  (overwritten (not (packet_stream (read_frame w.demuxer).2 == i)) h))
        → Round rounds fuel i w Good

  module _ (rounds fuel i : ℕ) (w : World lib) {Good : World lib → Type 0} where
    pub over_round : is_neg (read_frame w.demuxer).1 ≡ true → Round rounds fuel i w Good
    unfolding read_loop_held
    over_round e =
        over e (given_back w) refl (Rounds.read_loop_over lib rounds fuel i w e) (λ h. ground arith)

    pub other_round :
        is_neg (read_frame w.demuxer).1 ≡ false
        → packet_stream (read_frame w.demuxer).2 ≢ i
        → Good (given_back w)
        → Round rounds fuel i w Good
    unfolding read_loop_held
    other_round e n good =
        again (given_back w) e refl good (Rounds.read_loop_other lib rounds fuel i w e n)
          (λ h. ground arith)

    pub bad_round :
        is_neg (read_frame w.demuxer).1 ≡ false
        → packet_stream (read_frame w.demuxer).2 ≡ i
        → has_graph ≡ true
        → is_neg (send_packet w.decoder (rescale_in (read_frame w.demuxer).2)).1 ≡ true
        → Round rounds fuel i w Good
    unfolding read_loop_held
    bad_round e p g n =
        stop (decoding w) none true e p refl (Rounds.read_loop_bad lib rounds fuel i w e p g n)
          (λ h. ground arith)

    pub decoded_round :
        {w1 : World lib} (out : Option ℤ)
        → is_neg (read_frame w.demuxer).1 ≡ false
        → packet_stream (read_frame w.demuxer).2 ≡ i
        → has_graph ≡ true
        → is_neg (send_packet w.decoder (rescale_in (read_frame w.demuxer).2)).1 ≡ false
        → decode_loop lib rounds rounds i (decoding w) ≡ done (w1, out)
        → w1.demuxer ≡ (read_frame w.demuxer).0
        → (out ≡ none → Good w1)
        → Round rounds fuel i w Good
    unfolding read_loop_held
    decoded_round {w1} none e p g n run d good =
        again w1 e d (good refl) (Rounds.read_loop_more lib rounds fuel i w e p g n run)
          (λ h. ground arith)
    decoded_round {w1} (some ret) e p g n run d good =
        stop w1 (some ret) true e p d (Rounds.read_loop_jump lib rounds fuel i w e p g n run)
          (λ h. ground arith)

    pub remux_round :
        is_neg (read_frame w.demuxer).1 ≡ false
        → packet_stream (read_frame w.demuxer).2 ≡ i
        → has_graph ≡ false
        → i < nb_out
        → Good (remuxed i w)
        → Round rounds fuel i w Good
    unfolding read_loop_held remux
    remux_round e p g q good =
        elim (Bool-cases
          (is_neg (write_frame w.muxer i (rescale_remux i (read_frame w.demuxer).2)).1)) [
            | inl bad ↦
                stop (remuxed i w)
                  (some (write_frame w.muxer i (rescale_remux i (read_frame w.demuxer).2)).1) false
                  e p refl (Rounds.remux_jump lib rounds fuel i w e p g q bad) (λ h. ground arith)
            | inr fine ↦
                again (remuxed i w) e refl good (Rounds.remux_more lib rounds fuel i w e p g q fine)
                  (λ h. ground arith)
          ]
