-- ===== src/Transcode/Reference.antt =====
-- What the loops of native/transcode.c are for: each packet, frame by frame, through decoder, filter,
-- encoder and muxer, as folds over lists, with no code and no fuel, over parts that all work.
pub mod Stages
pub mod Whole
mod Tests
use audio_fs.Base.{
  ℕ, zero, suc, ◌≡◌, ◌≤◌, true, false, List, [], ◌∷◌, Option, none, some, length, ◌==◌,
  if◌then◌else◌,
}
use audio_fs.Base.Int.{is_neg}
use audio_fs.Transcode.{Ffmpeg, World, is_end, Encoding}

-- Parts that take what they are given, and hand out what they hold one by one, in order, up to an end.
-- `most` bounds what the demuxer, the decoder and the graph hold.
pub record Streaming (lib : Ffmpeg) : Type 0 where
  pub enc : Encoding lib
  pub packets : lib.Demuxer → List lib.Packet
  pub decoded : lib.Decoder → List lib.Frame
  pub filtered : lib.Graph → List lib.Frame
  pub most : ℕ
  pub packets-most : (d : lib.Demuxer) → length (packets d) ≤ most
  pub decoded-most : (c : lib.Decoder) → length (decoded c) ≤ most
  pub filtered-most : (g : lib.Graph) → length (filtered g) ≤ most
  pub read_none : (d : lib.Demuxer) → packets d ≡ [] → is_neg (lib.read_frame d).1 ≡ true
  pub read_some :
      (d : lib.Demuxer) (p : lib.Packet) (ps : List lib.Packet)
      → packets d ≡ p ∷ ps
      → (is_neg (lib.read_frame d).1 ≡ false)
        × ((lib.read_frame d).2 ≡ p)
        × (packets (lib.read_frame d).0 ≡ ps)
  pub receive_none : (c : lib.Decoder) → decoded c ≡ [] → is_end lib (lib.receive_frame c).1 ≡ true
  pub receive_some :
      (c : lib.Decoder) (f : lib.Frame) (fs : List lib.Frame)
      → decoded c ≡ f ∷ fs
      → (is_neg (lib.receive_frame c).1 ≡ false)
        × ((lib.receive_frame c).2 ≡ f)
        × (decoded (lib.receive_frame c).0 ≡ fs)
  pub get_none : (g : lib.Graph) → filtered g ≡ [] → is_end lib (lib.get_frame g).1 ≡ true
  pub get_some :
      (g : lib.Graph) (f : lib.Frame) (fs : List lib.Frame)
      → filtered g ≡ f ∷ fs
      → (is_neg (lib.get_frame g).1 ≡ false)
        × ((lib.get_frame g).2 ≡ f)
        × (filtered (lib.get_frame g).0 ≡ fs)
  pub sends : (c : lib.Decoder) (p : lib.Packet) → is_neg (lib.send_packet c p).1 ≡ false
  pub adds : (g : lib.Graph) (f : Option lib.Frame) → is_neg (lib.add_frame g f).1 ≡ false
  pub encodes : (e : lib.Encoder) (f : Option lib.Frame) → is_neg (lib.send_frame e f).1 ≡ false
  pub writes : (m : lib.Muxer) (i : ℕ) (p : lib.Packet) → is_neg (lib.write_frame m i p).1 ≡ false

-- A part after what it holds was taken, and it was asked once more.
abbrev pub emptied : {A B : Type 0} → (A → A) → List B → A → A
emptied next [] x = next x
emptied next (_ ∷ rest) x = emptied next rest (next x)

module _ (lib : Ffmpeg) (str : Streaming lib) where
  open lib use {
    Demuxer, Decoder, Graph, Encoder, Muxer, Packet, Frame, delay, packet_stream, read_frame,
    rescale_in, send_packet, receive_frame, best_effort_pts, add_frame, get_frame, no_picture,
    send_frame, receive_packet, rescale_out, write_frame, write_trailer,
  }
  open str use {enc, packets, decoded, filtered}

  -- The muxer after the packets.
  abbrev pub muxed : ℕ → Muxer → List Packet → Muxer
  muxed i m [] = m
  muxed i m (p ∷ ps) = muxed i (write_frame m i (rescale_out i p)).0 ps

  -- The encoder with the muxer behind it.
  abbrev pub Sink : Type 0
  Sink = Encoder × Muxer

  abbrev pub encode_one : ℕ → Option Frame → Sink → Sink
  encode_one i f (e, m) =
      let e1 = (send_frame e f).0 in
      (emptied (λ e. (receive_packet e).0) (enc.ready e1) e1, muxed i m (enc.ready e1))

  abbrev pub encode_all : ℕ → List Frame → Sink → Sink
  encode_all i [] k = k
  encode_all i (f ∷ fs) k = encode_all i fs (encode_one i (some (no_picture f)) k)

  -- The graph in front of the sink.
  abbrev pub filter_one : ℕ → Option Frame → Graph × Sink → Graph × Sink
  filter_one i f (g, k) =
      let g1 = (add_frame g f).0 in
      (emptied (λ g. (get_frame g).0) (filtered g1) g1, encode_all i (filtered g1) k)

  abbrev pub filter_all : ℕ → List Frame → Graph × Sink → Graph × Sink
  filter_all i [] k = k
  filter_all i (f ∷ fs) k = filter_all i fs (filter_one i (some (best_effort_pts f)) k)

  -- The decoder in front of the graph.
  abbrev pub Tail : Type 0
  Tail = Decoder × (Graph × Sink)

  abbrev pub decode_one : ℕ → Packet → Tail → Tail
  decode_one i p (c, k) =
      let c1 = (send_packet c (rescale_in p)).0 in
      (emptied (λ c. (receive_frame c).0) (decoded c1) c1, filter_all i (decoded c1) k)

  -- The packets of stream `i`.
  abbrev pub decode_all : ℕ → List Packet → Tail → Tail
  decode_all i [] k = k
  decode_all i (p ∷ ps) k = decode_all i ps (if packet_stream p == i then decode_one i p k else k)

  -- The flush of the filter, of an encoder with a delay, and the trailer.
  abbrev pub flushed : ℕ → Graph × Sink → Graph × Sink
  flushed i k =
      let (g, k1) = filter_one i none k in
      let (e, m) = if delay then encode_one i none k1 else k1 in (g, (e, (write_trailer m).0))

  -- The parts after a whole transcode of stream `i`.
  unfoldable pub reference : ℕ → World lib → World lib
  reference i w =
      let (c, k) = decode_all i (packets w.demuxer) (w.decoder, (w.graph, (w.encoder, w.muxer))) in
      let (g, (e, m)) = flushed i k in
      record {
        demuxer = emptied (λ d. (read_frame d).0) (packets w.demuxer) w.demuxer;
        decoder = c;
        graph = g;
        encoder = e;
        muxer = m;
      }
