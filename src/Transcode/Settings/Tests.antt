-- ===== src/Transcode/Settings/Tests.antt =====
-- A decoder of stereo audio at 96 kHz.
use audio_fs.Base.{◌≡◌, refl, some, false}
use audio_fs.Base.Int.{pos}
use audio_fs.Base.Decimal.{bytes_of, decimal, digits}
use audio_fs.Transcode.Settings.{DecodedAudio, EncoderSettings, wanted_args, source_args}

abbrev stereo : DecodedAudio
stereo = record {
  time_base_num = pos 1;
  time_base_den = pos 96000;
  sample_rate = pos 96000;
  sample_fmt_name = some (bytes_of "s32");
  ch_layout = bytes_of "stereo";
}

abbrev sixteen_bit : EncoderSettings
sixteen_bit = record {
  sample_rate = pos 44100;
  ch_layout = bytes_of "stereo";
  sample_fmt = pos 1;
  time_base_num = pos 1;
  time_base_den = pos 44100;
  global_header = false;
}

stereo_args :
    source_args stereo sixteen_bit
    ≡ bytes_of "time_base=1/96000:sample_rate=96000:sample_fmt=s32:channel_layout=stereo"
unfolding source_args wanted_args decimal digits
stereo_args = refl
