-- ===== src/Transcode/Encode/Laws.antt =====
-- The loop of encode_write_frame against the list of packets that the encoder has ready.
use audio_fs.Base.{
  ℕ, zero, suc, ◌≡◌, refl, ◌∙◌, ◌<◌, false, Bool-cases, inl, inr, Option, List, [], ◌∷◌, length,
  arith,
}
use audio_fs.Base.Int.{ℤ, is_neg}
use audio_fs.Memory.{done, spent}
use audio_fs.Transcode.{Ffmpeg, World, is_end, Encoding}
use audio_fs.Transcode.Encode.{encode_loop, encode_write_frame}
use audio_fs.Transcode.Encode.Rounds.{
  write_packets, write_packets_nil, write_packets_refused, write_packets_more, is_end-is_neg,
  encode_loop_end, encode_loop_refused, encode_loop_more,
}

module _ (lib : Ffmpeg) where
  open lib use {
    Encoder, Muxer, Packet, Frame, nb_out, send_frame, receive_packet, rescale_out, write_frame,
  }

  module _ (enc : Encoding lib) where
    open enc use {ready, most}

    -- What a loop comes to that leaves `out` of the muxer.
    abbrev pub Written : ℕ → ℕ → World lib → Muxer × ℤ → Type 0
    Written fuel i w out =
        (e' : Encoder) × (encode_loop lib fuel i w
          ≡ done (record w { encoder = e'; muxer = out.0 }, out.1))
        × (is_neg out.1 ≡ false → ready e' ≡ [])

    -- With fuel for each packet, the loop writes what is ready.
    pub encode_loop-Written :
        (ps : List Packet) (fuel i : ℕ) (w : World lib)
        → ready w.encoder ≡ ps
        → length ps < fuel
        → i < nb_out
        → Written fuel i w (write_packets lib i w.muxer ps)
    encode_loop-Written ps zero i w e p q = absurd (omega arith)
    encode_loop-Written [] (suc fuel) i w e p q =
        let (ended, empty) = enc.receive_none w.encoder e in
        rw (write_packets_nil lib i w.muxer)
          ((receive_packet w.encoder).0, encode_loop_end lib fuel i w ended, λ _. empty)
    encode_loop-Written (x ∷ ps) (suc fuel) i w e p q =
        let (given, same, rest) = enc.receive_some w.encoder x ps e in
        let goes_on = is_end-is_neg lib (receive_packet w.encoder).1 given in
        let next : World lib = record w {
          encoder = (receive_packet w.encoder).0;
          muxer = (write_frame w.muxer i (rescale_out i x)).0;
        } in
        elim (Bool-cases (is_neg (write_frame w.muxer i (rescale_out i x)).1)) [
          | inl bad ↦ rw (write_packets_refused lib i w.muxer x ps bad) (
            next.encoder,
            encode_loop_refused lib fuel i w x goes_on same q bad,
            λ good. absurd (cc (bad, good)),
          )
          | inr good ↦
              let (e', run, empty) = encode_loop-Written ps fuel i next rest (omega arith) q in
              rw (write_packets_more lib i w.muxer x ps good)
                (e', encode_loop_more lib fuel i w x goes_on same q good ∙ run, empty)
        ]

  pub encode_write_frame_sent :
      (fuel i : ℕ) (frame : Option Frame) (w : World lib)
      → is_neg (send_frame w.encoder frame).1 ≡ false
      → encode_write_frame lib fuel i frame w
        ≡ encode_loop lib fuel i (record w { encoder = (send_frame w.encoder frame).0 })
  unfolding encode_write_frame
  encode_write_frame_sent fuel i frame w e = ground arith

  encode_loop_spins :
      (i : ℕ)
      → ((e : Encoder) → is_end lib (receive_packet e).1 ≡ false)
      → ((m : Muxer) (p : Packet) → is_neg (write_frame m i p).1 ≡ false)
      → i < nb_out
      → (fuel : ℕ) (w : World lib) → encode_loop lib fuel i w ≡ spent
  unfolding encode_loop
  encode_loop_spins i never taken p zero w = refl
  encode_loop_spins i never taken p (suc fuel) w =
      let x = (receive_packet w.encoder).2 in
      encode_loop_more lib fuel i w x (never w.encoder) refl p (taken w.muxer (rescale_out i x))
      ∙ encode_loop_spins i never taken p fuel (record w {
        encoder = (receive_packet w.encoder).0;
        muxer = (write_frame w.muxer i (rescale_out i x)).0;
      })

  -- Once the frame is sent, with fuel over what the encoder can hold and an output stream of that
  -- index, encode_write_frame returns; it has given the muxer the packets that were ready, in order, up
  -- to the first one refused, and returns 0 or the code of that refusal. At 0 or more no packet is left
  -- in the encoder. Nothing else changes.
  pub encode_write_frame_lem :
      (enc : Encoding lib) (fuel i : ℕ) (frame : Option Frame) (w : World lib)
      → is_neg (send_frame w.encoder frame).1 ≡ false
      → enc.most < fuel
      → i < nb_out
      → (e' : Encoder) × (encode_write_frame lib fuel i frame w
          ≡ done (
            record w {
              encoder = e';
              muxer = (write_packets lib i w.muxer (enc.ready (send_frame w.encoder frame).0)).0;
            },
            (write_packets lib i w.muxer (enc.ready (send_frame w.encoder frame).0)).1,
          ))
        × (is_neg (write_packets lib i w.muxer (enc.ready (send_frame w.encoder frame).0)).1 ≡ false
            → enc.ready e' ≡ [])
  encode_write_frame_lem enc fuel i frame w sent p q =
      let e = (send_frame w.encoder frame).0 in
      let bound = enc.ready-most e in
      let (e', run, empty) =
        encode_loop-Written enc (enc.ready e) fuel i (record w { encoder = e }) refl (omega arith)
          q in
      (e', encode_write_frame_sent fuel i frame w sent ∙ run, empty)

  -- Against an encoder that never says EAGAIN or EOF, as one whose every answer is another error, and a
  -- muxer that takes what it is given, the loop of encode_write_frame never ends: every fuel is used up.
  pub encode_write_frame_spins :
      (fuel i : ℕ) (frame : Option Frame) (w : World lib)
      → ((e : Encoder) → is_end lib (receive_packet e).1 ≡ false)
      → ((m : Muxer) (p : Packet) → is_neg (write_frame m i p).1 ≡ false)
      → is_neg (send_frame w.encoder frame).1 ≡ false
      → i < nb_out
      → encode_write_frame lib fuel i frame w ≡ spent
  encode_write_frame_spins fuel i frame w never taken sent p =
      encode_write_frame_sent fuel i frame w sent
      ∙ encode_loop_spins i never taken p fuel
          (record w { encoder = (send_frame w.encoder frame).0 })
