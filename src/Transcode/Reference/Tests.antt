-- ===== src/Transcode/Reference/Tests.antt =====
-- The equivalence at the pipeline of one item to a part.
use audio_fs.Base.{ℕ, ◌≡◌, refl, true, false, [], ◌∷◌, Option, none, some, arith}
use audio_fs.Base.Int.{pos, is_neg}
use audio_fs.Memory.{done}
use audio_fs.Transcode.Main.{transcode_packets}
use audio_fs.Transcode.Slots.{
  take, put, contents, contents-most, take-none, take-some, slots, slots_encoding, loaded,
}
use audio_fs.Transcode.Reference.{Streaming, reference}
use audio_fs.Transcode.Reference.Whole.{transcode_packets-reference}

take_over : (s : Option ℕ) → contents s ≡ [] → is_neg (take s).1 ≡ true
take_over none e = refl
take_over (some x) e = ground arith

put-is_neg : (s f : Option ℕ) → is_neg (put s f).1 ≡ false
put-is_neg s none = refl
put-is_neg s (some x) = refl

abbrev slots_streaming : Streaming slots
slots_streaming = record {
  enc = slots_encoding;
  packets = contents;
  decoded = contents;
  filtered = contents;
  most = 1;
  packets-most = contents-most;
  decoded-most = contents-most;
  filtered-most = contents-most;
  read_none = take_over;
  read_some = take-some;
  receive_none = λ s e. (take-none s e).0;
  receive_some = take-some;
  get_none = λ s e. (take-none s e).0;
  get_some = take-some;
  sends = λ c p. refl;
  adds = put-is_neg;
  encodes = put-is_neg;
  writes = λ m i p. refl;
}

transcode_packets-reference_example :
    transcode_packets slots 3 1 loaded ≡ done (reference slots slots_streaming 1 loaded, pos 0)
transcode_packets-reference_example =
    transcode_packets-reference slots slots_streaming 3 1 loaded (omega arith) (omega arith)
      (omega arith) refl

-- The fold writes the packet and the trailer.
reference_run :
    reference slots slots_streaming 1 loaded ≡ record loaded { demuxer = none; muxer = 0 ∷ 31 ∷ [] }
unfolding reference
reference_run = refl
