-- ===== src/Transcode.antt =====
-- native/transcode.c: the flow of packets and frames through the demuxer, the decoder, the filter
-- graph, the encoder and the muxer. FFmpeg is the parameter `Ffmpeg`: each part has a state of its own,
-- and a call gives the part's next state, the returned value and what it handed over.
pub mod Encode
pub mod Filter
pub mod Main
pub mod Reference
pub mod Session
pub mod Input
pub mod Output
pub mod Filters
pub mod Cleanup
pub mod Run
pub mod Slots
pub mod Settings
pub mod Packets
mod Tests
use audio_fs.Base.{ℕ, ◌≡◌, ◌≤◌, ◌<◌, true, false, Bool, ◌||◌, Option, List, [], ◌∷◌, length}
use audio_fs.Base.Int.{ℤ, is_neg, eq_ℤ}

-- The calls of FFmpeg behind the pipeline, in the order of the data. `nb_out` is the number of streams
-- of the output, `has_graph` whether there is a filter graph, `delay` whether the encoder has
-- AV_CODEC_CAP_DELAY; `eagain` and `eof` are AVERROR(EAGAIN) and AVERROR_EOF. A NULL frame is `none`.
pub record Ffmpeg : Type 1 where
  pub Demuxer : Type 0
  pub Decoder : Type 0
  pub Graph : Type 0
  pub Encoder : Type 0
  pub Muxer : Type 0
  pub Packet : Type 0
  pub Frame : Type 0
  pub eagain : ℤ
  pub eof : ℤ
  pub nb_out : ℕ
  pub has_graph : Bool
  pub delay : Bool
  pub packet_stream : Packet → ℕ
  pub read_frame : Demuxer → Demuxer × ℤ × Packet
  pub rescale_in : Packet → Packet
  pub rescale_remux : ℕ → Packet → Packet
  pub send_packet : Decoder → Packet → Decoder × ℤ
  pub receive_frame : Decoder → Decoder × ℤ × Frame
  pub best_effort_pts : Frame → Frame
  pub add_frame : Graph → Option Frame → Graph × ℤ
  pub get_frame : Graph → Graph × ℤ × Frame
  pub no_picture : Frame → Frame
  pub send_frame : Encoder → Option Frame → Encoder × ℤ
  pub receive_packet : Encoder → Encoder × ℤ × Packet
  pub rescale_out : ℕ → Packet → Packet
  pub write_frame : Muxer → ℕ → Packet → Muxer × ℤ
  pub write_trailer : Muxer → Muxer × ℤ
  pub eagain-is_neg : is_neg eagain ≡ true
  pub eof-is_neg : is_neg eof ≡ true

-- What the static pointers of the file lead to.
pub record World (lib : Ffmpeg) : Type 0 where
  pub demuxer : lib.Demuxer
  pub decoder : lib.Decoder
  pub graph : lib.Graph
  pub encoder : lib.Encoder
  pub muxer : lib.Muxer

-- `ret == AVERROR(EAGAIN) || ret == AVERROR_EOF`
unfoldable pub is_end : Ffmpeg → ℤ → Bool
is_end lib ret = eq_ℤ ret lib.eagain || eq_ℤ ret lib.eof

-- An encoder that works: the packets that it has ready come out one by one, in order, and where there
-- is none it says EAGAIN or EOF. `most` bounds what it holds.
pub record Encoding (lib : Ffmpeg) : Type 0 where
  pub ready : lib.Encoder → List lib.Packet
  pub most : ℕ
  pub ready-most : (e : lib.Encoder) → length (ready e) ≤ most
  pub receive_none :
      (e : lib.Encoder)
      → ready e ≡ []
      → (is_end lib (lib.receive_packet e).1 ≡ true) × (ready (lib.receive_packet e).0 ≡ [])
  pub receive_some :
      (e : lib.Encoder) (p : lib.Packet) (ps : List lib.Packet)
      → ready e ≡ p ∷ ps
      → (is_neg (lib.receive_packet e).1 ≡ false)
        × ((lib.receive_packet e).2 ≡ p)
        × (ready (lib.receive_packet e).0 ≡ ps)

-- A demuxer, a decoder and a filter graph of finite contents: each item that comes out leaves fewer.
-- `most` bounds what each of them holds.
pub record Finite (lib : Ffmpeg) : Type 0 where
  pub packets_left : lib.Demuxer → ℕ
  pub frames_decoded : lib.Decoder → ℕ
  pub frames_filtered : lib.Graph → ℕ
  pub most : ℕ
  pub packets_left-most : (d : lib.Demuxer) → packets_left d ≤ most
  pub frames_decoded-most : (c : lib.Decoder) → frames_decoded c ≤ most
  pub frames_filtered-most : (g : lib.Graph) → frames_filtered g ≤ most
  pub read_fewer :
      (d : lib.Demuxer)
      → is_neg (lib.read_frame d).1 ≡ false
      → packets_left (lib.read_frame d).0 < packets_left d
  pub receive_fewer :
      (c : lib.Decoder)
      → is_neg (lib.receive_frame c).1 ≡ false
      → frames_decoded (lib.receive_frame c).0 < frames_decoded c
  pub get_fewer :
      (g : lib.Graph)
      → is_neg (lib.get_frame g).1 ≡ false
      → frames_filtered (lib.get_frame g).0 < frames_filtered g
