-- ===== src/Transcode/Run/Tests.antt =====
-- do_transcode at the pipeline of one item to a part.
use audio_fs.Base.{ℕ, ◌+◌, ◌*◌, ◌≡◌, refl, Bool, true, false, List, [], ◌∷◌, none, some, arith}
use audio_fs.Base.Int.{ℤ, pos, negsuc, is_neg}
use audio_fs.Memory.{done, fault, zeroed}
use audio_fs.Buffer.{magic_a, buffer_alloc}
use audio_fs.Avio.{Handle}
use audio_fs.Avio.Open.{Ledger, memory_name, avio_open}
use audio_fs.Samples.{generous, calm}
use audio_fs.Transcode.{Ffmpeg, World, is_end}
use audio_fs.Transcode.Slots.{slots, loaded}
use audio_fs.Transcode.Session.{
  null, garbage, object, null_ref, dangling_ref, live, Session, Media, audio, other_media, Answers,
  Target, Need, encoder, Call, decoder_opened, Willing, audios, first_audio,
}
use audio_fs.Transcode.Main.{transcode_packets}
use audio_fs.Transcode.Output.{open_output_file}
use audio_fs.Transcode.Cleanup.{cleanup}
use audio_fs.Transcode.Cleanup.Laws.{Idle}
use audio_fs.Transcode.Run.{from_context, from_file, open_source, do_transcode}
use audio_fs.Transcode.Run.Laws.{do_transcode_lem}
use audio_fs.Transcode.Run.Errors.{do_transcode_input_fault, do_transcode_output_fault}
use audio_fs.Transcode.Run.Truncated.{do_transcode_decode_error}
use audio_fs.Transcode.Run.Invariant.{do_transcode-Idle}

abbrev empty_ledger : Ledger
empty_ledger = record { handles = 0; buffers = 0; blocks = 0; files = 0 }

-- The session before the first call.
abbrev first : Session
first = record {
  ifmt_ctx = null;
  ofmt_ctx = null_ref;
  filter_ctx = null_ref;
  stream_ctx = null_ref;
  codecs = 0;
  frames = 0;
  graphs = 0;
  inputs = 0;
  avios = 0;
  ledger = empty_ledger;
}

first-Idle : Idle first
first-Idle = record {
  no_stream = λ st e. ground arith;
  no_filter = λ f e. ground arith;
  no_output = λ o e. ground arith;
}

abbrev to_memory : Target
to_memory = record { mem = generous; os = calm; address = 64; name = memory_name }

abbrev agreeing : Answers
agreeing = record { gives = λ n. true; code = λ c. pos 0; nofile = false }

agreeing-Willing : Willing agreeing
agreeing-Willing = record { given = λ n. refl; fine = λ c. refl; configured = refl }

abbrev memory_handle : Handle
memory_handle = record {
  file = pos 0;
  in_memory = true;
  buffer = some (record {
    address = 64;
    cookie = magic_a;
    block = some (zeroed 1024);
    len = 1024;
    lock = false;
    self = 64;
    used_outside_audiofs = false;
  });
  apparent_size = 0;
  position = 0;
}

abbrev memory_ledger : Ledger
memory_ledger = record { handles = 1; buffers = 1; blocks = 1; files = 0 }

memory_opened :
    avio_open generous calm 64 memory_name empty_ledger ≡ (some memory_handle, memory_ledger)
unfolding avio_open buffer_alloc
memory_opened = refl

-- The muxer's writes, counted in the size.
abbrev sized : List ℕ → Handle → Handle
sized [] h = h
sized (x ∷ xs) h = sized xs (record h { apparent_size = h.apparent_size + 1 })

-- A picture, then two audio streams.
abbrev cover : List Media
cover = other_media ∷ audio ∷ audio ∷ []

second_stream : first_audio cover 0 ≡ some 1
unfolding first_audio
second_stream = refl

loaded_run :
    transcode_packets slots 3 1 loaded
    ≡ done (record loaded { demuxer = none; muxer = 0 ∷ 31 ∷ [] }, pos 0)
unfolding transcode_packets is_end
loaded_run = refl

do_transcode_lem_example :
    (s' : Session) × (do_transcode slots sized agreeing to_memory 3
        (from_context (some cover))
        loaded
        first
      ≡ done (s', some (record memory_handle { apparent_size = 2 })))
    × Idle s'
    × (s'.ifmt_ctx ≡ object)
    × (s'.codecs + 2 ≡ 0 + 2 * audios cover)
    × (s'.frames + 1 ≡ 0 + audios cover)
    × (s'.graphs ≡ 0)
    × (s'.inputs ≡ 0)
    × (s'.avios ≡ 0 + 1)
    × (s'.ledger ≡ memory_ledger)
do_transcode_lem_example =
    do_transcode_lem slots sized agreeing to_memory agreeing-Willing refl 3 cover loaded first
      second_stream memory_opened loaded_run

-- The decoder cannot be opened.
abbrev no_decoder : Call → ℤ
no_decoder (decoder_opened i) = negsuc 0
no_decoder _ = pos 0

abbrev undecodable : Answers
undecodable = record agreeing { code = no_decoder }

cover_unopened : is_neg (open_source undecodable (from_file cover) first).1 ≡ true
unfolding open_source
cover_unopened = refl

do_transcode_input_fault_example :
    do_transcode slots sized undecodable to_memory 3 (from_file cover) loaded first ≡ fault
do_transcode_input_fault_example =
    do_transcode_input_fault slots sized undecodable to_memory 3 (from_file cover) loaded first
      first-Idle cover_unopened

-- The encoder is not there.
abbrev no_encoder : Need → Bool
no_encoder (encoder i) = false
no_encoder _ = true

abbrev unencodable : Answers
unencodable = record agreeing { gives = no_encoder }

cover_opened : is_neg (open_source unencodable (from_file cover) first).1 ≡ false
unfolding open_source
cover_opened = refl

cover_unencoded :
    open_output_file unencodable cover to_memory (open_source unencodable (from_file cover) first).0
    ≡ done (
      record first {
        ifmt_ctx = object;
        ofmt_ctx = live (record { pb = none });
        stream_ctx = live (record { dec_ctx = object; enc_ctx = garbage; dec_frame = object });
        codecs = 2;
        frames = 2;
        inputs = 1;
      },
      negsuc 1094995528,
    )
unfolding open_source open_output_file
cover_unencoded = refl

do_transcode_output_fault_example :
    do_transcode slots sized unencodable to_memory 3 (from_file cover) loaded first ≡ fault
do_transcode_output_fault_example =
    do_transcode_output_fault slots sized unencodable to_memory 3 (from_file cover) loaded first
      cover_opened cover_unencoded refl refl refl

-- The session after a call over one audio stream.
abbrev second : Session
second = record first {
  ifmt_ctx = object;
  ofmt_ctx = dangling_ref;
  filter_ctx = dangling_ref;
  stream_ctx = dangling_ref;
  avios = 1;
  ledger = memory_ledger;
}

second_run :
    do_transcode slots sized agreeing to_memory 3 (from_context (some (audio ∷ []))) loaded first
    ≡ done (second, some (record memory_handle { apparent_size = 1 }))
unfolding do_transcode cleanup transcode_packets is_end avio_open buffer_alloc
second_run = refl

do_transcode-Idle_example : Idle second × (second.ifmt_ctx ≡ object)
do_transcode-Idle_example =
    do_transcode-Idle slots sized agreeing to_memory 3 (from_context (some (audio ∷ []))) loaded
      first second_run

-- A decoder that refuses every packet.
abbrev refusing : Ffmpeg
refusing = record slots { send_packet = λ c p. (c, negsuc 21) }

abbrev refusing_loaded : World refusing
refusing_loaded = record {
  demuxer = some 31;
  decoder = none;
  graph = none;
  encoder = none;
  muxer = [];
}

eagain-is_end : is_end refusing (negsuc 10) ≡ true
unfolding is_end
eagain-is_end = refl

do_transcode_decode_error_example :
    (s' : Session) × (do_transcode refusing sized agreeing to_memory 3
        (from_context (some cover))
        refusing_loaded
        first
      ≡ done (s', some (record memory_handle { apparent_size = 1 })))
    × Idle s'
do_transcode_decode_error_example =
    do_transcode_decode_error refusing sized agreeing to_memory agreeing-Willing refl 2 cover
      refusing_loaded first second_stream memory_opened refl refl refl refl refl
      (refl, refl, eagain-is_end)
