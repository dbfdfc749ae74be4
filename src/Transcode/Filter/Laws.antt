-- ===== src/Transcode/Filter/Laws.antt =====
-- filter_encode_write_frame over a filter graph of finite contents and an encoder that works.
use audio_fs.Base.{
  ℕ, zero, suc, ◌≡◌, ◌∙◌, ◌<◌, true, false, Bool-cases, inl, inr, Option, some, [], arith,
  if◌then◌else◌,
}
use audio_fs.Base.Int.{ℤ, pos, is_neg}
use audio_fs.Memory.{Outcome, done}
use audio_fs.Transcode.{Ffmpeg, World, is_end, Encoding, Finite}
use audio_fs.Transcode.Encode.{encode_write_frame}
use audio_fs.Transcode.Encode.Rounds.{write_packets}
use audio_fs.Transcode.Encode.Laws.{encode_write_frame_lem}
use audio_fs.Transcode.Filter.{filter_loop, filter_encode_write_frame}

module _ (lib : Ffmpeg) where
  open lib use {Graph, Encoder, Muxer, Frame, nb_out, add_frame, get_frame, no_picture, send_frame}

  encode_refused :
      (fuel i : ℕ) (frame : Option Frame) (w : World lib)
      → is_neg (send_frame w.encoder frame).1 ≡ true
      → encode_write_frame lib fuel i frame w
        ≡ done
            (record w { encoder = (send_frame w.encoder frame).0 }, (send_frame w.encoder frame).1)
  unfolding encode_write_frame
  encode_refused fuel i frame w e = ground arith

  pub filter_loop_end :
      (rounds fuel i : ℕ) (w : World lib)
      → is_neg (get_frame w.graph).1 ≡ true
      → filter_loop lib rounds (suc fuel) i w
        ≡ done (
          record w { graph = (get_frame w.graph).0 },
          if is_end lib (get_frame w.graph).1 then pos 0 else (get_frame w.graph).1,
        )
  unfolding filter_loop
  filter_loop_end rounds fuel i w e = ground arith

  -- One round, whose frame the encoder or the muxer refuses or takes.
  filter_loop_refused :
      (rounds fuel i : ℕ) (w : World lib) {w1 : World lib} {ret : ℤ}
      → is_neg (get_frame w.graph).1 ≡ false
      → encode_write_frame lib rounds i
          (some (no_picture (get_frame w.graph).2))
          (record w { graph = (get_frame w.graph).0 })
        ≡ done (w1, ret)
      → is_neg ret ≡ true
      → filter_loop lib rounds (suc fuel) i w ≡ done (w1, ret)
  unfolding filter_loop
  filter_loop_refused rounds fuel i w e run bad = ground arith

  pub filter_loop_more :
      (rounds fuel i : ℕ) (w : World lib) {w1 : World lib} {ret : ℤ}
      → is_neg (get_frame w.graph).1 ≡ false
      → encode_write_frame lib rounds i
          (some (no_picture (get_frame w.graph).2))
          (record w { graph = (get_frame w.graph).0 })
        ≡ done (w1, ret)
      → is_neg ret ≡ false
      → filter_loop lib rounds (suc fuel) i w ≡ filter_loop lib rounds fuel i w1
  unfolding filter_loop
  filter_loop_more rounds fuel i w e run good = ground arith

  filter_refused :
      (rounds i : ℕ) (frame : Option Frame) (w : World lib)
      → is_neg (add_frame w.graph frame).1 ≡ true
      → filter_encode_write_frame lib rounds frame i w
        ≡ done (record w { graph = (add_frame w.graph frame).0 }, (add_frame w.graph frame).1)
  unfolding filter_encode_write_frame
  filter_refused rounds i frame w e = ground arith

  pub filter_added :
      (rounds i : ℕ) (frame : Option Frame) (w : World lib)
      → is_neg (add_frame w.graph frame).1 ≡ false
      → filter_encode_write_frame lib rounds frame i w
        ≡ filter_loop lib rounds rounds i (record w { graph = (add_frame w.graph frame).0 })
  unfolding filter_encode_write_frame
  filter_added rounds i frame w e = ground arith

  module _ (enc : Encoding lib) (fin : Finite lib) where
    -- A run from `w` that returns, has changed graph, encoder and muxer only, and leaves the encoder
    -- empty where it returns no error.
    abbrev pub Settles : World lib → Outcome (World lib × ℤ) → Type 0
    Settles w run =
        (g' : Graph) × (e' : Encoder) × (m' : Muxer) × (ret : ℤ) × (run
          ≡ done (record w { graph = g'; encoder = e'; muxer = m' }, ret))
        × (is_neg ret ≡ false → enc.ready e' ≡ [])

    -- The same of a run that leaves the graph alone.
    abbrev pub Encodes : World lib → Outcome (World lib × ℤ) → Type 0
    Encodes w run =
        (e' : Encoder) × (m' : Muxer) × (ret : ℤ) × (run
          ≡ done (record w { encoder = e'; muxer = m' }, ret))
        × (is_neg ret ≡ false → enc.ready e' ≡ [])

    pub encode_write_frame-Encodes :
        (rounds i : ℕ) (frame : Option Frame) (w : World lib)
        → enc.most < rounds
        → i < nb_out
        → Encodes w (encode_write_frame lib rounds i frame w)
    encode_write_frame-Encodes rounds i frame w p q =
        elim (Bool-cases (is_neg (send_frame w.encoder frame).1)) [
          | inl bad ↦ (
            (send_frame w.encoder frame).0,
            w.muxer,
            (send_frame w.encoder frame).1,
            encode_refused rounds i frame w bad,
            λ good. absurd (cc (bad, good)),
          )
          | inr sent ↦
              let out = write_packets lib i w.muxer (enc.ready (send_frame w.encoder frame).0) in
              let (e', run, empty) = encode_write_frame_lem lib enc rounds i frame w sent p q in
              (e', out.0, out.1, run, empty)
        ]

    filter_loop-Settles :
        (rounds fuel i : ℕ) (w : World lib)
        → enc.ready w.encoder ≡ []
        → enc.most < rounds
        → fin.frames_filtered w.graph < fuel
        → i < nb_out
        → Settles w (filter_loop lib rounds fuel i w)
    filter_loop-Settles rounds zero i w empty p left q = absurd (omega arith)
    filter_loop-Settles rounds (suc fuel) i w empty p left q =
        elim (Bool-cases (is_neg (get_frame w.graph).1)) [
          | inl over ↦ (
            (get_frame w.graph).0,
            w.encoder,
            w.muxer,
            if is_end lib (get_frame w.graph).1 then pos 0 else (get_frame w.graph).1,
            filter_loop_end rounds fuel i w over,
            λ _. empty,
          )
          | inr given ↦
              let w0 : World lib = record w { graph = (get_frame w.graph).0 } in
              let (e1, m1, ret, run, empty1) =
                encode_write_frame-Encodes rounds i (some (no_picture (get_frame w.graph).2)) w0 p
                  q in
              let w1 : World lib = record w0 { encoder = e1; muxer = m1 } in
              elim (Bool-cases (is_neg ret)) [
                | inl bad ↦ (
                  w0.graph,
                  e1,
                  m1,
                  ret,
                  filter_loop_refused rounds fuel i w given run bad,
                  empty1,
                )
                | inr good ↦
                    let less = fin.get_fewer w.graph given in
                    let (g2, e2, m2, ret2, run2, empty2) =
                      filter_loop-Settles rounds fuel i w1 (empty1 good) p (omega arith) q in
                    (
                      g2,
                      e2,
                      m2,
                      ret2,
                      filter_loop_more rounds fuel i w given run good ∙ run2,
                      empty2,
                    )
              ]
        ]

    -- With fuel over what the encoder and the graph can hold, an output stream of that index and an
    -- empty encoder, filter_encode_write_frame returns, whatever frame it is given; it changes graph,
    -- encoder and muxer only, and where it returns 0 or more no packet is left in the encoder.
    pub filter_encode_write_frame-Settles :
        (rounds i : ℕ) (frame : Option Frame) (w : World lib)
        → enc.ready w.encoder ≡ []
        → enc.most < rounds
        → fin.most < rounds
        → i < nb_out
        → Settles w (filter_encode_write_frame lib rounds frame i w)
    filter_encode_write_frame-Settles rounds i frame w empty p left q =
        elim (Bool-cases (is_neg (add_frame w.graph frame).1)) [
          | inl bad ↦ (
            (add_frame w.graph frame).0,
            w.encoder,
            w.muxer,
            (add_frame w.graph frame).1,
            filter_refused rounds i frame w bad,
            λ _. empty,
          )
          | inr added ↦
              let bound = fin.frames_filtered-most (add_frame w.graph frame).0 in
              let (g1, e1, m1, ret, run, empty1) =
                filter_loop-Settles rounds rounds i
                  (record w { graph = (add_frame w.graph frame).0 }) empty p (omega arith) q in
              (g1, e1, m1, ret, filter_added rounds i frame w added ∙ run, empty1)
        ]
