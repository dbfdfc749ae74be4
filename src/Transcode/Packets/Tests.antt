-- ===== src/Transcode/Packets/Tests.antt =====
-- Two packets, of which the first is of another stream than the one that is transcoded.
use audio_fs.Base.{ℕ, ◌+◌, ◌≡◌, ◌≤◌, ◌<◌, refl, true, false, Option, none, some, List, [], arith}
use audio_fs.Base.Int.{ℤ, pos, negsuc, is_neg}
use audio_fs.Memory.{done}
use audio_fs.Transcode.{Ffmpeg, World, is_end, Encoding, Finite}
use audio_fs.Transcode.Slots.{
  take, slots, contents, contents-most, take-none, take-some, held, held-most, take_fewer,
}
use audio_fs.Transcode.Filter.{filter_encode_write_frame}
use audio_fs.Transcode.Encode.{encode_write_frame}
use audio_fs.Transcode.Main.{read_loop}
use audio_fs.Transcode.Packets.{Holding, packet_lifetime}
use audio_fs.Transcode.Packets.Laws.{Gives, Behind, others, packet_lifetime_lem}

abbrev Two : Type 0
Two = Option ℕ × Option ℕ

abbrev next : Two → Two × ℤ × ℕ
next (none, q) = ((none, q), negsuc 541478724, 0)
next (some p, q) = ((q, none), pos 0, p)

abbrev left : Two → ℕ
left (none, q) = 0
left (some p, q) = 1 + held q

left-most : (t : Two) → left t ≤ 2
left-most (none, q) = omega arith
left-most (some p, none) = omega arith
left-most (some p, some q) = omega arith

next_fewer : (t : Two) → is_neg (next t).1 ≡ false → left (next t).0 < left t
next_fewer (none, q) e = ground arith
next_fewer (some p, none) e = omega arith
next_fewer (some p, some q) e = omega arith

abbrev two_packets : Ffmpeg
two_packets = record slots { Demuxer = Two; read_frame = next }

two-none :
    (s : Option ℕ)
    → contents s ≡ []
    → (is_end two_packets (take s).1 ≡ true) × (contents (take s).0 ≡ [])
unfolding is_end
two-none s e = take-none s e

abbrev two_encoding : Encoding two_packets
two_encoding = record {
  ready = contents;
  most = 1;
  ready-most = contents-most;
  receive_none = two-none;
  receive_some = take-some;
}

abbrev two_finite : Finite two_packets
two_finite = record {
  packets_left = left;
  frames_decoded = held;
  frames_filtered = held;
  most = 2;
  packets_left-most = left-most;
  frames_decoded-most = λ s. omega (arith, held-most s);
  frames_filtered-most = λ s. omega (arith, held-most s);
  read_fewer = next_fewer;
  receive_fewer = take_fewer;
  get_fewer = take_fewer;
}

abbrev filled : World two_packets
filled = record {
  demuxer = (some 30, some 31);
  decoder = none;
  graph = none;
  encoder = none;
  muxer = [];
}

packet_lifetime_lem_example :
    (w' : World two_packets) × (out : Option ℤ) × (h : Holding) × (ps : List ℕ) × (d : Two)
    × (read_loop two_packets 4 4 1 filled ≡ done (w', out))
    × (packet_lifetime two_packets 4 1 filled ≡ done ((w', out), h))
    × Gives two_packets (some 30, some 31) ps d
    × Behind two_packets d w'.demuxer
    × (h.lost ≡ others two_packets 1 ps)
    × (h.held ≡ false)
packet_lifetime_lem_example =
    packet_lifetime_lem two_packets two_encoding two_finite 4 1 filled refl (omega arith)
      (omega arith) (omega arith)

-- The first of the two is lost.
one_lost :
    (w' : World two_packets) × (packet_lifetime two_packets 4 1 filled
      ≡ done ((w', none), record { held = false; lost = 1 }))
unfolding packet_lifetime is_end filter_encode_write_frame encode_write_frame
one_lost = (_, refl)
