-- ===== src/Transcode/Slots.antt =====
-- A concrete pipeline for the tests, whose parts hold one item each.
use audio_fs.Base.{
  ℕ, ◌%◌, ◌≡◌, refl, ◌<◌, ◌≤◌, true, false, Option, none, some, List, [], ◌∷◌, length, arith,
}
use audio_fs.Base.Int.{ℤ, pos, negsuc, is_neg}
use audio_fs.Transcode.{Ffmpeg, World, is_end, Encoding, Finite}

-- Taking what is in a slot, or EAGAIN.
abbrev pub take : Option ℕ → Option ℕ × ℤ × ℕ
take none = (none, negsuc 10, 0)
take (some x) = (none, pos 0, x)

-- Filling a slot; NULL leaves it.
abbrev pub put : Option ℕ → Option ℕ → Option ℕ × ℤ
put slot none = (slot, pos 0)
put slot (some x) = (some x, pos 0)

-- A packet is a number, whose last digit is its stream.
abbrev pub slots : Ffmpeg
slots = record {
  Demuxer = Option ℕ;
  Decoder = Option ℕ;
  Graph = Option ℕ;
  Encoder = Option ℕ;
  Muxer = List ℕ;
  Packet = ℕ;
  Frame = ℕ;
  eagain = negsuc 10;
  eof = negsuc 541478724;
  nb_out = 2;
  has_graph = true;
  delay = false;
  packet_stream = λ p. p % 10;
  read_frame = take;
  rescale_in = λ p. p;
  rescale_remux = λ i p. p;
  send_packet = λ c p. put c (some p);
  receive_frame = take;
  best_effort_pts = λ f. f;
  add_frame = put;
  get_frame = take;
  no_picture = λ f. f;
  send_frame = put;
  receive_packet = take;
  rescale_out = λ i p. p;
  write_frame = λ m i p. (p ∷ m, pos 0);
  write_trailer = λ m. (0 ∷ m, pos 0);
  eagain-is_neg = refl;
  eof-is_neg = refl;
}

abbrev pub contents : Option ℕ → List ℕ
contents none = []
contents (some x) = x ∷ []

pub contents-most : (s : Option ℕ) → length (contents s) ≤ 1
contents-most none = omega arith
contents-most (some x) = omega arith

pub take-none :
    (s : Option ℕ) → contents s ≡ [] → (is_end slots (take s).1 ≡ true) × (contents (take s).0 ≡ [])
unfolding is_end
take-none none e = (refl, refl)
take-none (some x) e = ground arith

pub take-some :
    (s : Option ℕ) (p : ℕ) (ps : List ℕ)
    → contents s ≡ p ∷ ps
    → (is_neg (take s).1 ≡ false) × ((take s).2 ≡ p) × (contents (take s).0 ≡ ps)
take-some none p ps e = ground arith
take-some (some x) p ps e = ground arith

abbrev pub slots_encoding : Encoding slots
slots_encoding = record {
  ready = contents;
  most = 1;
  ready-most = contents-most;
  receive_none = take-none;
  receive_some = take-some;
}

abbrev pub held : Option ℕ → ℕ
held none = 0
held (some x) = 1

pub held-most : (s : Option ℕ) → held s ≤ 1
held-most none = omega arith
held-most (some x) = omega arith

pub take_fewer : (s : Option ℕ) → is_neg (take s).1 ≡ false → held (take s).0 < held s
take_fewer none e = ground arith
take_fewer (some x) e = omega arith

abbrev pub slots_finite : Finite slots
slots_finite = record {
  packets_left = held;
  frames_decoded = held;
  frames_filtered = held;
  most = 1;
  packets_left-most = held-most;
  frames_decoded-most = held-most;
  frames_filtered-most = held-most;
  read_fewer = take_fewer;
  receive_fewer = take_fewer;
  get_fewer = take_fewer;
}

-- A packet of stream 1 waits in the demuxer.
abbrev pub loaded : World slots
loaded = record { demuxer = some 31; decoder = none; graph = none; encoder = none; muxer = [] }
