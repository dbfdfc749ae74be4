-- ===== src/Transcode/Reference/Stages.antt =====
-- The loops of encode_write_frame and filter_encode_write_frame against the folds.
use audio_fs.Base.{
  ℕ, zero, suc, ◌≡◌, refl, ◌∙◌, ◌<◌, true, List, [], ◌∷◌, Option, some, length, arith,
}
use audio_fs.Base.Int.{ℤ, pos, is_neg}
use audio_fs.Memory.{done}
use audio_fs.Transcode.{Ffmpeg, World, is_end}
use audio_fs.Transcode.Encode.{encode_loop, encode_write_frame}
use audio_fs.Transcode.Encode.Rounds.{is_end-is_neg, encode_loop_end, encode_loop_more}
use audio_fs.Transcode.Encode.Laws.{encode_write_frame_sent}
use audio_fs.Transcode.Filter.{filter_loop, filter_encode_write_frame}
use audio_fs.Transcode.Filter.Laws.{filter_loop_end, filter_loop_more, filter_added}
use audio_fs.Transcode.Reference.{
  Streaming, emptied, muxed, Sink, encode_one, encode_all, filter_one,
}

module _ (lib : Ffmpeg) (str : Streaming lib) where
  open lib use {
    Encoder, Graph, Packet, Frame, nb_out, send_frame, receive_packet, rescale_out, write_frame,
    add_frame, get_frame, no_picture,
  }
  open str use {enc, filtered}

  encode_loop_all :
      (ps : List Packet) (fuel i : ℕ) (w : World lib)
      → enc.ready w.encoder ≡ ps
      → length ps < fuel
      → i < nb_out
      → encode_loop lib fuel i w
        ≡ done (
          record w {
            encoder = emptied (λ e. (receive_packet e).0) ps w.encoder;
            muxer = muxed lib str i w.muxer ps;
          },
          pos 0,
        )
  encode_loop_all ps zero i w e p q = absurd (omega arith)
  encode_loop_all [] (suc fuel) i w e p q =
      encode_loop_end lib fuel i w (enc.receive_none w.encoder e).0
  encode_loop_all (x ∷ ps) (suc fuel) i w e p q =
      let (given, same, rest) = enc.receive_some w.encoder x ps e in
      encode_loop_more lib fuel i w x (is_end-is_neg lib (receive_packet w.encoder).1 given) same q
        (str.writes w.muxer i (rescale_out i x))
      ∙ encode_loop_all ps fuel i
          (record w {
            encoder = (receive_packet w.encoder).0;
            muxer = (write_frame w.muxer i (rescale_out i x)).0;
          })
          rest (omega arith) q

  abbrev pub sink_of : World lib → Sink lib str
  sink_of w = (w.encoder, w.muxer)

  abbrev pub with_sink : World lib → Sink lib str → World lib
  with_sink w k = record w { encoder = k.0; muxer = k.1 }

  pub encode_write_frame_one :
      (fuel i : ℕ) (f : Option Frame) (w : World lib)
      → enc.most < fuel
      → i < nb_out
      → encode_write_frame lib fuel i f w
        ≡ done (with_sink w (encode_one lib str i f (sink_of w)), pos 0)
  encode_write_frame_one fuel i f w p q =
      let e1 = (send_frame w.encoder f).0 in
      let bound = enc.ready-most e1 in
      encode_write_frame_sent lib fuel i f w (str.encodes w.encoder f)
      ∙ encode_loop_all (enc.ready e1) fuel i (record w { encoder = e1 }) refl (omega arith) q

  end-is_neg : (ret : ℤ) → is_end lib ret ≡ true → is_neg ret ≡ true
  unfolding is_end
  end-is_neg ret e = ground (arith, lib.eagain-is_neg, lib.eof-is_neg)

  filter_loop_over :
      (rounds fuel i : ℕ) (w : World lib)
      → is_end lib (get_frame w.graph).1 ≡ true
      → filter_loop lib rounds (suc fuel) i w
        ≡ done (record w { graph = (get_frame w.graph).0 }, pos 0)
  filter_loop_over rounds fuel i w e =
      filter_loop_end lib rounds fuel i w (end-is_neg (get_frame w.graph).1 e) ∙ ground arith

  filter_loop_all :
      (fs : List Frame) (rounds fuel i : ℕ) (w : World lib)
      → filtered w.graph ≡ fs
      → length fs < fuel
      → enc.most < rounds
      → i < nb_out
      → filter_loop lib rounds fuel i w
        ≡ done (
          record (with_sink w (encode_all lib str i fs (sink_of w))) {
            graph = emptied (λ g. (get_frame g).0) fs w.graph;
          },
          pos 0,
        )
  filter_loop_all fs rounds zero i w e p r q = absurd (omega arith)
  filter_loop_all [] rounds (suc fuel) i w e p r q =
      filter_loop_over rounds fuel i w (str.get_none w.graph e)
  filter_loop_all (f ∷ fs) rounds (suc fuel) i w e p r q =
      let (given, same, rest) = str.get_some w.graph f fs e in
      let w0 : World lib = record w { graph = (get_frame w.graph).0 } in
      let w1 : World lib = with_sink w0 (encode_one lib str i (some (no_picture f)) (sink_of w0)) in
      let encoded = encode_write_frame_one rounds i (some (no_picture f)) w0 r q in
      filter_loop_more lib rounds fuel i w {w1 = w1} {ret = pos 0} given (rw same encoded) refl
      ∙ filter_loop_all fs rounds fuel i w1 rest (omega arith) r q

  pub filter_encode_write_frame_one :
      (rounds i : ℕ) (f : Option Frame) (w : World lib)
      → enc.most < rounds
      → str.most < rounds
      → i < nb_out
      → filter_encode_write_frame lib rounds f i w
        ≡ done (
          record (with_sink w (filter_one lib str i f (w.graph, sink_of w)).1) {
            graph = (filter_one lib str i f (w.graph, sink_of w)).0;
          },
          pos 0,
        )
  filter_encode_write_frame_one rounds i f w p r q =
      let g1 = (add_frame w.graph f).0 in
      let bound = str.filtered-most g1 in
      filter_added lib rounds i f w (str.adds w.graph f)
      ∙ filter_loop_all (filtered g1) rounds rounds i (record w { graph = g1 }) refl (omega arith) p
          q
