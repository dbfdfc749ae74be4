-- ===== src/Transcode/Reference/Whole.antt =====
-- The loops of do_transcode against the folds, and the whole.
use audio_fs.Base.{
  ℕ, zero, suc, ◌≡◌, refl, ◌∙◌, ◌≢◌, ◌<◌, true, Bool-cases, ==-cases, ==-same, ==-ne, inl, inr,
  List, [], ◌∷◌, none, some, length, arith, if◌then◌else◌,
}
use audio_fs.Base.Int.{pos}
use audio_fs.Memory.{done}
use audio_fs.Transcode.{Ffmpeg, World}
use audio_fs.Transcode.Main.{decode_loop, read_loop, close_output, finish, transcode_packets}
use audio_fs.Transcode.Main.Rounds
use audio_fs.Transcode.Main.Finish.{close_plain, close_flushed, finish_filtered, transcode_break}
use audio_fs.Transcode.Reference.{
  Streaming, emptied, Sink, Tail, filter_one, filter_all, decode_one, decode_all, encode_one,
  flushed, reference,
}
use audio_fs.Transcode.Reference.Stages.{
  with_sink, sink_of, encode_write_frame_one, filter_encode_write_frame_one,
}

module _ (lib : Ffmpeg) (str : Streaming lib) where
  open lib use {
    Graph, Packet, Frame, nb_out, has_graph, delay, packet_stream, read_frame, rescale_in,
    send_packet, receive_frame, best_effort_pts, write_trailer,
  }
  open str use {enc, packets, decoded}

  abbrev chain_of : World lib → Graph × Sink lib str
  chain_of w = (w.graph, (w.encoder, w.muxer))

  abbrev with_chain : World lib → Graph × Sink lib str → World lib
  with_chain w k = record w { graph = k.0; encoder = k.1.0; muxer = k.1.1 }

  decode_loop_all :
      (fs : List Frame) (rounds fuel i : ℕ) (w : World lib)
      → decoded w.decoder ≡ fs
      → length fs < fuel
      → enc.most < rounds
      → str.most < rounds
      → i < nb_out
      → decode_loop lib rounds fuel i w
        ≡ done (
          record (with_chain w (filter_all lib str i fs (chain_of w))) {
            decoder = emptied (λ c. (receive_frame c).0) fs w.decoder;
          },
          none,
        )
  decode_loop_all fs rounds zero i w e p r m q = absurd (omega arith)
  decode_loop_all [] rounds (suc fuel) i w e p r m q =
      Rounds.decode_loop_end lib rounds fuel i w (str.receive_none w.decoder e)
  decode_loop_all (f ∷ fs) rounds (suc fuel) i w e p r m q =
      let (given, same, rest) = str.receive_some w.decoder f fs e in
      let w0 : World lib = record w { decoder = (receive_frame w.decoder).0 } in
      let w1 : World lib =
        with_chain w0 (filter_one lib str i (some (best_effort_pts f)) (chain_of w0)) in
      let run =
        filter_encode_write_frame_one lib str rounds i (some (best_effort_pts f)) w0 r m q in
      Rounds.decode_loop_more lib rounds fuel i w {w1 = w1} {ret = pos 0} given (rw same run) refl
      ∙ decode_loop_all fs rounds fuel i w1 rest (omega arith) r m q

  abbrev tail_of : World lib → Tail lib str
  tail_of w = (w.decoder, chain_of w)

  abbrev with_tail : World lib → Tail lib str → World lib
  with_tail w k = record (with_chain w k.1) { decoder = k.0 }

  decode_all_other :
      (i : ℕ) (p : Packet) (ps : List Packet) (k : Tail lib str)
      → packet_stream p ≢ i
      → decode_all lib str i (p ∷ ps) k ≡ decode_all lib str i ps k
  decode_all_other i p ps k n = rw (==-ne (packet_stream p) i n)

  decode_all_same :
      (i : ℕ) (p : Packet) (ps : List Packet) (k : Tail lib str)
      → packet_stream p ≡ i
      → decode_all lib str i (p ∷ ps) k ≡ decode_all lib str i ps (decode_one lib str i p k)
  decode_all_same i p ps k e = rw (==-same (packet_stream p) i e)

  read_loop_all :
      (ps : List Packet) (rounds fuel i : ℕ) (w : World lib)
      → packets w.demuxer ≡ ps
      → length ps < fuel
      → enc.most < rounds
      → str.most < rounds
      → i < nb_out
      → has_graph ≡ true
      → read_loop lib rounds fuel i w
        ≡ done (
          record (with_tail w (decode_all lib str i ps (tail_of w))) {
            demuxer = emptied (λ d. (read_frame d).0) ps w.demuxer;
          },
          none,
        )
  read_loop_all ps rounds zero i w e l r m q g = absurd (omega arith)
  read_loop_all [] rounds (suc fuel) i w e l r m q g =
      Rounds.read_loop_over lib rounds fuel i w (str.read_none w.demuxer e)
  read_loop_all (p ∷ ps) rounds (suc fuel) i w e l r m q g =
      let (given, same, rest) = str.read_some w.demuxer p ps e in
      let w0 : World lib = record w { demuxer = (read_frame w.demuxer).0 } in
      let sent = (send_packet w.decoder (rescale_in p)).0 in
      let w1 : World lib = with_tail w0 (decode_one lib str i p (tail_of w)) in
      elim (==-cases (packet_stream p) i) [
        | inr other ↦ rw (decode_all_other i p ps (tail_of w) other) (
            Rounds.read_loop_other lib rounds fuel i w given (rw same other)
            ∙ read_loop_all ps rounds fuel i w0 rest (omega arith) r m q g)
        | inl equal ↦
            let bound = str.decoded-most sent in
            let run =
              decode_loop_all (decoded sent) rounds rounds i (record w0 { decoder = sent }) refl
                (omega arith) r m q in
            rw (decode_all_same i p ps (tail_of w) equal) (
              Rounds.read_loop_more lib rounds fuel i w {w1 = w1} given (rw same equal) g
                (rw same (str.sends w.decoder (rescale_in p))) (rw same run)
              ∙ read_loop_all ps rounds fuel i w1 rest (omega arith) r m q g)
      ]

  abbrev closed : ℕ → World lib → World lib
  closed i w =
      let k = if delay then encode_one lib str i none (sink_of lib str w) else sink_of lib str w in
      record w { encoder = k.0; muxer = (write_trailer k.1).0 }

  close_output_all :
      (rounds i : ℕ) (w : World lib)
      → enc.most < rounds
      → i < nb_out
      → close_output lib rounds i w ≡ done (closed i w, pos 0)
  close_output_all rounds i w r q = elim (Bool-cases delay) [
    | inr none_kept ↦ close_plain lib rounds i w none_kept ∙ ground (arith, none_kept)
    | inl kept ↦
        let w1 : World lib = with_sink lib str w (encode_one lib str i none (sink_of lib str w)) in
        close_flushed lib rounds i w {w1 = w1} {ret = pos 0} kept
          (encode_write_frame_one lib str rounds i none w r q) refl
        ∙ ground (arith, kept)
  ]

  finish_all :
      (rounds i : ℕ) (w : World lib)
      → enc.most < rounds
      → str.most < rounds
      → i < nb_out
      → has_graph ≡ true
      → finish lib rounds i w ≡ done (with_chain w (flushed lib str i (chain_of w)), pos 0)
  finish_all rounds i w r m q g =
      let w1 : World lib = with_chain w (filter_one lib str i none (chain_of w)) in
      finish_filtered lib rounds i w {w1 = w1} {ret = pos 0} g
        (filter_encode_write_frame_one lib str rounds i none w r m q) refl
      ∙ close_output_all rounds i w1 r q

  -- Over parts that all work, with fuel over what each of them can hold, a filter graph and an output
  -- stream of the selected index, the middle of do_transcode returns 0 and leaves every part as the
  -- fold over the input's packets of that stream leaves it, flushes and trailer included.
  pub transcode_packets-reference :
      (rounds i : ℕ) (w : World lib)
      → enc.most < rounds
      → str.most < rounds
      → i < nb_out
      → has_graph ≡ true
      → transcode_packets lib rounds i w ≡ done (reference lib str i w, pos 0)
  unfolding reference
  transcode_packets-reference rounds i w r m q g =
      let bound = str.packets-most w.demuxer in
      transcode_break lib rounds i w
        (read_loop_all (packets w.demuxer) rounds rounds i w refl (omega arith) r m q g)
      ∙ finish_all rounds i _ r m q g
