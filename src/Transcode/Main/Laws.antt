-- ===== src/Transcode/Main/Laws.antt =====
-- The middle of do_transcode over parts of finite contents and an encoder that works.
use audio_fs.Base.{
  ℕ, zero, suc, ◌≡◌, ◌∙◌, ◌<◌, true, false, Bool-cases, inl, inr, Option, none, some, [], arith,
  ==-cases,
}
use audio_fs.Base.Int.{ℤ, is_neg}
use audio_fs.Memory.{Outcome, done}
use audio_fs.Transcode.{Ffmpeg, World, is_end, Encoding, Finite}
use audio_fs.Transcode.Filter.Laws.{filter_encode_write_frame-Settles}
use audio_fs.Transcode.Main.{Exit, decode_loop, read_loop}
use audio_fs.Transcode.Main.Rounds

module _ (lib : Ffmpeg) (enc : Encoding lib) (fin : Finite lib) where
  open lib use {
    Decoder, Graph, Encoder, Muxer, nb_out, has_graph, packet_stream, read_frame, rescale_in,
    rescale_remux, send_packet, receive_frame, best_effort_pts, write_frame,
  }

  -- At a jump to `end` the code is an error; at a break the encoder is empty.
  abbrev pub Left : Encoder → Option ℤ → Type 0
  Left e none = enc.ready e ≡ []
  Left e (some ret) = is_neg ret ≡ true

  -- A run from `w` that ends and has left the demuxer alone.
  abbrev pub Decodes : World lib → Outcome (Exit lib) → Type 0
  Decodes w run =
      (c' : Decoder) × (g' : Graph) × (e' : Encoder) × (m' : Muxer) × (out : Option ℤ) × (run
        ≡ done (record w { decoder = c'; graph = g'; encoder = e'; muxer = m' }, out))
      × Left e' out

  pub decode_loop-Decodes :
      (rounds fuel i : ℕ) (w : World lib)
      → enc.ready w.encoder ≡ []
      → enc.most < rounds
      → fin.most < rounds
      → fin.frames_decoded w.decoder < fuel
      → i < nb_out
      → Decodes w (decode_loop lib rounds fuel i w)
  decode_loop-Decodes rounds zero i w empty p r left q = absurd (omega arith)
  decode_loop-Decodes rounds (suc fuel) i w empty p r left q =
      let (c0, code, frame) = receive_frame w.decoder in
      elim (Bool-cases (is_neg code)) [
        | inl over ↦ elim (Bool-cases (is_end lib code)) [
          | inl at_end ↦ (
            c0,
            w.graph,
            w.encoder,
            w.muxer,
            none,
            Rounds.decode_loop_end lib rounds fuel i w at_end,
            empty,
          )
          | inr error ↦ (
            c0,
            w.graph,
            w.encoder,
            w.muxer,
            some code,
            Rounds.decode_loop_error lib rounds fuel i w error over,
            over,
          )
        ]
        | inr given ↦
            let w0 : World lib = record w { decoder = c0 } in
            let (g1, e1, m1, ret, run, empty1) =
              filter_encode_write_frame-Settles lib enc fin rounds i (some (best_effort_pts frame))
                w0 empty p r q in
            let w1 : World lib = record w0 { graph = g1; encoder = e1; muxer = m1 } in
            elim (Bool-cases (is_neg ret)) [
              | inl bad ↦ (
                c0,
                g1,
                e1,
                m1,
                some ret,
                Rounds.decode_loop_refused lib rounds fuel i w given run bad,
                bad,
              )
              | inr good ↦
                  let less = fin.receive_fewer w.decoder given in
                  let (c2, g2, e2, m2, out, run2, end2) =
                    decode_loop-Decodes rounds fuel i w1 (empty1 good) p r (omega arith) q in
                  (
                    c2,
                    g2,
                    e2,
                    m2,
                    out,
                    Rounds.decode_loop_more lib rounds fuel i w given run good ∙ run2,
                    end2,
                  )
            ]
      ]

  -- What the loop over packets comes to.
  abbrev pub Reads : Outcome (Exit lib) → Type 0
  Reads run = (w' : World lib) × (out : Option ℤ) × (run ≡ done (w', out)) × Left w'.encoder out

  -- A packet that the decoder takes: its frames are run, then the code jumps or the loop goes on.
  read_loop_decoded :
      (rounds fuel i : ℕ) (w : World lib) {w1 : World lib} (out : Option ℤ)
      → is_neg (read_frame w.demuxer).1 ≡ false
      → packet_stream (read_frame w.demuxer).2 ≡ i
      → has_graph ≡ true
      → is_neg (send_packet w.decoder (rescale_in (read_frame w.demuxer).2)).1 ≡ false
      → decode_loop lib rounds rounds i (record w {
        demuxer = (read_frame w.demuxer).0;
        decoder = (send_packet w.decoder (rescale_in (read_frame w.demuxer).2)).0;
      })
        ≡ done (w1, out)
      → Left w1.encoder out
      → (enc.ready w1.encoder ≡ [] → Reads (read_loop lib rounds fuel i w1))
      → Reads (read_loop lib rounds (suc fuel) i w)
  read_loop_decoded rounds fuel i w {w1} none given same graph good run end next =
      let (w', out, run', end') = next end in
      (w', out, Rounds.read_loop_more lib rounds fuel i w given same graph good run ∙ run', end')
  read_loop_decoded rounds fuel i w {w1} (some ret) given same graph good run end next =
      (w1, some ret, Rounds.read_loop_jump lib rounds fuel i w given same graph good run, end)

  pub read_loop-Reads :
      (rounds fuel i : ℕ) (w : World lib)
      → enc.ready w.encoder ≡ []
      → enc.most < rounds
      → fin.most < rounds
      → fin.packets_left w.demuxer < fuel
      → i < nb_out
      → Reads (read_loop lib rounds fuel i w)
  read_loop-Reads rounds zero i w empty p r left q = absurd (omega arith)
  read_loop-Reads rounds (suc fuel) i w empty p r left q =
      let (d0, code, packet) = read_frame w.demuxer in
      let w0 : World lib = record w { demuxer = d0 } in
      let sent = send_packet w.decoder (rescale_in packet) in
      let w1 : World lib = record w0 { decoder = sent.0 } in
      let written = write_frame w.muxer i (rescale_remux i packet) in
      let w2 : World lib = record w0 { muxer = written.0 } in
      elim (Bool-cases (is_neg code)) [
        | inl over ↦ (w0, none, Rounds.read_loop_over lib rounds fuel i w over, empty)
        | inr given ↦
            let less = fin.read_fewer w.demuxer given in
            elim (==-cases (packet_stream packet) i) [
              | inr other ↦
                  let (w', out, run, end) =
                    read_loop-Reads rounds fuel i w0 empty p r (omega arith) q in
                  (w', out, Rounds.read_loop_other lib rounds fuel i w given other ∙ run, end)
              | inl same ↦ elim (Bool-cases has_graph) [
                | inr none_there ↦ elim (Bool-cases (is_neg written.1)) [
                  | inl bad ↦ (
                    w2,
                    some written.1,
                    Rounds.remux_jump lib rounds fuel i w given same none_there q bad,
                    bad,
                  )
                  | inr good ↦
                      let (w', out, run, end) =
                        read_loop-Reads rounds fuel i w2 empty p r (omega arith) q in
                      (
                        w',
                        out,
                        Rounds.remux_more lib rounds fuel i w given same none_there q good ∙ run,
                        end,
                      )
                ]
                | inl graph ↦ elim (Bool-cases (is_neg sent.1)) [
                  | inl bad ↦ (
                    w1,
                    none,
                    Rounds.read_loop_bad lib rounds fuel i w given same graph bad,
                    empty,
                  )
                  | inr good ↦
                      let bound = fin.frames_decoded-most sent.0 in
                      let (c3, g3, e3, m3, out, run, end) =
                        decode_loop-Decodes rounds rounds i w1 empty p r (omega arith) q in
                      let w3 : World lib = record w1 {
                        decoder = c3;
                        graph = g3;
                        encoder = e3;
                        muxer = m3;
                      } in
                      read_loop_decoded rounds fuel i w out given same graph good run end
                        (λ empty3. read_loop-Reads rounds fuel i w3 empty3 p r (omega arith) q)
                ]
              ]
            ]
      ]
