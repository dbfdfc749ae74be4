-- ===== src/Transcode/Tests.antt =====
-- The theorems about the transcoding pipeline at a concrete one, whose parts hold one item each.
use audio_fs.Base.{ℕ, ◌≡◌, refl, true, false, Option, none, some, [], ◌∷◌, arith}
use audio_fs.Base.Int.{pos, negsuc, is_neg}
use audio_fs.Memory.{done, spent}
use audio_fs.Transcode.{Ffmpeg, World, is_end}
use audio_fs.Transcode.Slots.{contents, slots, slots_encoding, slots_finite, loaded}
use audio_fs.Transcode.Encode.{encode_write_frame}
use audio_fs.Transcode.Encode.Rounds.{write_packets}
use audio_fs.Transcode.Encode.Laws.{encode_write_frame_lem, encode_write_frame_spins}
use audio_fs.Transcode.Main.{transcode_packets}
use audio_fs.Transcode.Main.Finish.{transcode_packets-Returns, Returns}

encode_write_frame_lem_example :
    (e' : Option ℕ) × (encode_write_frame slots 5 1 (some 41) loaded
      ≡ done (
        record loaded { encoder = e'; muxer = (write_packets slots 1 [] (41 ∷ [])).0 },
        (write_packets slots 1 [] (41 ∷ [])).1,
      ))
    × (is_neg (write_packets slots 1 [] (41 ∷ [])).1 ≡ false → contents e' ≡ [])
encode_write_frame_lem_example =
    encode_write_frame_lem slots slots_encoding 5 1 (some 41) loaded refl (omega arith)
      (omega arith)

-- An encoder whose every answer is EINVAL.
abbrev failing : Ffmpeg
failing = record slots { receive_packet = λ e. (e, negsuc 21, 0) }

abbrev failing_loaded : World failing
failing_loaded = record {
  demuxer = some 31;
  decoder = none;
  graph = none;
  encoder = none;
  muxer = [];
}

failing-is_end : is_end failing (negsuc 21) ≡ false
unfolding is_end
failing-is_end = refl

encode_write_frame_spins_example :
    encode_write_frame failing 1000 1 (some 41) failing_loaded ≡ spent
encode_write_frame_spins_example =
    encode_write_frame_spins failing 1000 1 (some 41) failing_loaded (λ e. failing-is_end)
      (λ m p. refl) refl (omega arith)

transcode_packets-Returns_example :
    Returns slots slots_encoding slots_finite (transcode_packets slots 3 1 loaded)
transcode_packets-Returns_example =
    transcode_packets-Returns slots slots_encoding slots_finite 3 1 loaded refl (omega arith)
      (omega arith) (omega arith)

-- The packet goes through all parts, and the trailer is written.
transcode_packets_run :
    transcode_packets slots 3 1 loaded
    ≡ done (record loaded { demuxer = none; muxer = 0 ∷ 31 ∷ [] }, pos 0)
unfolding transcode_packets is_end
transcode_packets_run = refl

-- A decoder that refuses every packet.
abbrev refusing : Ffmpeg
refusing = record slots { send_packet = λ c p. (c, negsuc 21) }

abbrev refusing_loaded : World refusing
refusing_loaded = record {
  demuxer = some 31;
  decoder = none;
  graph = none;
  encoder = none;
  muxer = [];
}

eagain-is_end : is_end refusing (negsuc 10) ≡ true
unfolding is_end
eagain-is_end = refl
