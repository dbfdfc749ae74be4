-- ===== src/Transcode/Encode/Rounds.antt =====
-- The list of packets that a run writes, and one round of the loop of encode_write_frame.
use audio_fs.Base.{ℕ, suc, ◌≡◌, refl, ◌≤◌, ◌<◌, true, false, List, [], ◌∷◌, arith, if◌then◌else◌}
use audio_fs.Base.Int.{ℤ, pos, is_neg}
use audio_fs.Memory.{done, fault}
use audio_fs.Transcode.{Ffmpeg, World, is_end}
use audio_fs.Transcode.Encode.{encode_loop}

module _ (lib : Ffmpeg) where
  open lib use {
    Encoder, Muxer, Packet, Frame, nb_out, send_frame, receive_packet, rescale_out, write_frame,
  }

  -- The packets written one after the other, up to the first that the muxer refuses.
  unfoldable pub write_packets : ℕ → Muxer → List Packet → Muxer × ℤ
  write_packets i m [] = (m, pos 0)
  write_packets i m (p ∷ ps) =
      let (m', ret) = write_frame m i (rescale_out i p) in
      let rest = write_packets i m' ps in if is_neg ret then (m', ret) else rest

  pub write_packets_nil : (i : ℕ) (m : Muxer) → write_packets i m [] ≡ (m, pos 0)
  unfolding write_packets
  write_packets_nil i m = refl

  pub write_packets_refused :
      (i : ℕ) (m : Muxer) (x : Packet) (xs : List Packet)
      → is_neg (write_frame m i (rescale_out i x)).1 ≡ true
      → write_packets i m (x ∷ xs) ≡ write_frame m i (rescale_out i x)
  unfolding write_packets
  write_packets_refused i m x xs e = ground arith

  pub write_packets_more :
      (i : ℕ) (m : Muxer) (x : Packet) (xs : List Packet)
      → is_neg (write_frame m i (rescale_out i x)).1 ≡ false
      → write_packets i m (x ∷ xs) ≡ write_packets i (write_frame m i (rescale_out i x)).0 xs
  unfolding write_packets
  write_packets_more i m x xs e = ground arith

  pub is_end-is_neg : (ret : ℤ) → is_neg ret ≡ false → is_end lib ret ≡ false
  unfolding is_end
  is_end-is_neg ret e = ground (arith, lib.eagain-is_neg, lib.eof-is_neg)

  pub encode_loop_end :
      (fuel i : ℕ) (w : World lib)
      → is_end lib (receive_packet w.encoder).1 ≡ true
      → encode_loop lib (suc fuel) i w
        ≡ done (record w { encoder = (receive_packet w.encoder).0 }, pos 0)
  unfolding encode_loop
  encode_loop_end fuel i w e = ground arith

  -- One round with the packet `x`, which the muxer refuses or takes.
  pub encode_loop_refused :
      (fuel i : ℕ) (w : World lib) (x : Packet)
      → is_end lib (receive_packet w.encoder).1 ≡ false
      → (receive_packet w.encoder).2 ≡ x
      → i < nb_out
      → is_neg (write_frame w.muxer i (rescale_out i x)).1 ≡ true
      → encode_loop lib (suc fuel) i w
        ≡ done (
          record w {
            encoder = (receive_packet w.encoder).0;
            muxer = (write_frame w.muxer i (rescale_out i x)).0;
          },
          (write_frame w.muxer i (rescale_out i x)).1,
        )
  unfolding encode_loop
  encode_loop_refused fuel i w x e same p n = ground arith

  pub encode_loop_more :
      (fuel i : ℕ) (w : World lib) (x : Packet)
      → is_end lib (receive_packet w.encoder).1 ≡ false
      → (receive_packet w.encoder).2 ≡ x
      → i < nb_out
      → is_neg (write_frame w.muxer i (rescale_out i x)).1 ≡ false
      → encode_loop lib (suc fuel) i w
        ≡ encode_loop lib fuel i (record w {
          encoder = (receive_packet w.encoder).0;
          muxer = (write_frame w.muxer i (rescale_out i x)).0;
        })
  unfolding encode_loop
  encode_loop_more fuel i w x e same p n = ground arith

  pub encode_loop_fault :
      (fuel i : ℕ) (w : World lib)
      → is_end lib (receive_packet w.encoder).1 ≡ false
      → nb_out ≤ i
      → encode_loop lib (suc fuel) i w ≡ fault
  unfolding encode_loop
  encode_loop_fault fuel i w e p = ground arith
