-- ===== src/Metadata/Samples.antt =====
-- Concrete files for the tests of get_metadate_from_file.
use audio_fs.Base.{ℕ, ◌+◌, ◌%◌, ◌≡◌, refl, true, false, [], ◌∷◌, Option, none, some, arith}
use audio_fs.Base.Int.{pos, negsuc}
use audio_fs.Memory.{Outcome, done}
use audio_fs.Buffer.{magic_a}
use audio_fs.Avio.{Handle}
use audio_fs.Samples.{calm}
use audio_fs.Transcode.Session.{null, null_ref, Session}
use audio_fs.Metadata.{CodecPar, Stream, MediaFile}
use audio_fs.Metadata.Fingerprint.{fingerprint}
use audio_fs.Metadata.File.{dumped, Left, get_metadate_from_file}
use audio_fs.Metadata.File.Returns.{Prints, get_metadate_from_file_lem}

abbrev pub no_session : Session
no_session = record {
  ifmt_ctx = null;
  ofmt_ctx = null_ref;
  filter_ctx = null_ref;
  stream_ctx = null_ref;
  codecs = 0;
  frames = 0;
  graphs = 0;
  inputs = 0;
  avios = 0;
  ledger = record { handles = 0; buffers = 0; blocks = 0; files = 0 };
}

abbrev pub flac : CodecPar
flac = record {
  is_audio = true;
  ch_layout = b's' ∷ [];
  media_type = some (b'a' ∷ []);
  codec_name = some (b'f' ∷ []);
  codec_tag = pos 0;
  bit_rate = pos 0;
  bits_per_coded_sample = pos 0;
  bits_per_raw_sample = pos 24;
  profile = negsuc 98;
  level = negsuc 98;
  width = pos 0;
  height = pos 0;
  bits_per_sample = pos 0;
  profile_name = none;
  sample_rate = pos 96000;
  frame_size = pos 4608;
  block_align = pos 0;
  nb_channels = pos 2;
}

abbrev pub flac_stream : Stream
flac_stream = record {
  codecpar = some flac;
  index = pos 0;
  nb_frames = pos 0;
  duration = pos 1000;
  time_base_num = pos 1;
  time_base_den = pos 96000;
  tags = [];
}

abbrev pub cover_stream : Stream
cover_stream = record flac_stream {
  codecpar = some (record flac { is_audio = false });
  index = pos 1;
}

-- An audio stream and a picture; the arrays happen to have room for three.
abbrev pub song : MediaFile
song = record {
  context = true;
  room = 3;
  open_code = pos 0;
  info_code = pos 0;
  format_name = some (b'f' ∷ []);
  format_long_name = none;
  mime_type = none;
  flags = pos 0;
  start_time = pos 0;
  duration = pos 1000;
  bit_rate = pos 900000;
  tags = (b't' ∷ [], b'x' ∷ []) ∷ [];
  streams = flac_stream ∷ cover_stream ∷ [];
}

abbrev pub letters : ℕ → ℕ
letters i = 65 + i % 26

-- Two bytes in memory.
abbrev pub two_letters : Handle
two_letters = record {
  file = pos 0;
  in_memory = true;
  buffer = some (record {
    address = 64;
    cookie = magic_a;
    block = some (record { size = 1024; byte = letters });
    len = 1024;
    lock = false;
    self = 64;
    used_outside_audiofs = false;
  });
  apparent_size = 2;
  position = 2;
}

abbrev pub transcoded : Session → ℕ → Outcome (Session × Option Handle)
transcoded s i = done (s, some two_letters)

pub prints : Prints calm (λ n. true) transcoded
unfolding fingerprint
prints s i = (_, 65 ∷ 66 ∷ [], refl)

-- The song is described.
pub song_run :
    (o : Left) × (get_metadate_from_file calm (λ n. true) transcoded song no_session
      ≡ done (o, dumped))
song_run =
    let (o, run, _, _, _) =
      get_metadate_from_file_lem calm (λ n. true) transcoded song no_session refl refl refl
        (omega arith) prints in
    (o, run)
