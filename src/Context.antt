-- ===== src/Context.antt =====
-- `decoder_context` of native/types.h with context_ok and sample_bits_by_format of native/util.h, and
-- what native/libav.c and native/resampler.c take from FFmpeg.
pub mod Depth
pub mod Dsd
pub mod Target
mod Tests
use audio_fs.Base.{ℕ, ◌≡◌, Bool, true, false, ◌&&◌, List, Option, ◌==◌, if◌then◌else◌, ◌+◌}
use audio_fs.Base.Int.{ℤ, pos, negsuc}
use Prim.Native.String.{String}

-- enum AVSampleFormat: the values that the code names, and all others.
pub data SampleFormat : Type 0 where
  fmt_none fmt_u8 fmt_s16 fmt_s32 fmt_flt fmt_dbl : SampleFormat
  fmt_u8p fmt_s16p fmt_s32p fmt_fltp fmt_dblp : SampleFormat
  other_format : ℕ → SampleFormat

-- A number for each format, to compare them by `==`.
abbrev pub format_code : SampleFormat → ℕ
format_code fmt_none = 0
format_code fmt_u8 = 1
format_code fmt_s16 = 2
format_code fmt_s32 = 3
format_code fmt_flt = 4
format_code fmt_dbl = 5
format_code fmt_u8p = 6
format_code fmt_s16p = 7
format_code fmt_s32p = 8
format_code fmt_fltp = 9
format_code fmt_dblp = 10
format_code (other_format n) = n + 11

abbrev pub eq_format : SampleFormat → SampleFormat → Bool
eq_format f g = format_code f == format_code g

-- enum AVCodecID: the codecs that the code names, and all others.
pub data CodecId : Type 0 where
  dsd_lsbf dsd_msbf dsd_lsbf_planar dsd_msbf_planar : CodecId
  pcm_s24le pcm_s24be pcm_s24le_planar : CodecId
  other_codec : ℕ → CodecId

-- FFmpeg's channel layouts, sample formats and allocation of a resampler, with what its
-- documentation says of them: a layout compares as 0 with itself, the alternative format for "not
-- planar" is not planar, and it is the format itself where that is not planar already.
pub record Libav : Type 1 where
  pub Layout : Type 0
  pub nb_channels : Layout → ℕ
  pub stereo_downmix : Layout
  pub layout_compare : Layout → Layout → ℤ
  pub is_planar : SampleFormat → Bool
  pub alt_packed : SampleFormat → SampleFormat
  pub swr_alloc_succeeds : Bool
  pub layout_compare_self : (l : Layout) → layout_compare l l ≡ pos 0
  pub alt_packed-is_planar : (f : SampleFormat) → is_planar (alt_packed f) ≡ false
  pub alt_packed_same : (f : SampleFormat) → is_planar f ≡ false → alt_packed f ≡ f
  pub packed_u8 : is_planar fmt_u8 ≡ false
  pub packed_s16 : is_planar fmt_s16 ≡ false
  pub packed_s32 : is_planar fmt_s32 ≡ false
  pub packed_flt : is_planar fmt_flt ≡ false
  pub packed_dbl : is_planar fmt_dbl ≡ false

-- An option that has been set on a resampler, under its name.
pub data Setting (Layout : Type 0) : Type 0 where
  set_int : String → ℤ → Setting Layout
  set_layout : String → Layout → Setting Layout

-- A SwrContext: the options set on it, in order, and whether it is initialised.
pub record Swr (Layout : Type 0) : Type 0 where
  pub settings : List (Setting Layout)
  pub initialised : Bool

-- struct decoder_context; the cookies are read as unsigned, and of the two codec pointers only the
-- codec's id is used. The fields that no code uses are left out.
pub record DecoderContext (Layout : Type 0) : Type 0 where
  pub cookie_a : ℕ
  pub codec_context : Option CodecId
  pub codec : Option CodecId
  pub swr_context : Option (Swr Layout)
  pub dsd : ℕ
  pub sample_fmt : SampleFormat
  pub sample_rate : ℤ
  pub depth : ℕ
  pub channel_layout : Layout
  pub override_sample_fmt : SampleFormat
  pub override_sample_rate : ℤ
  pub override_depth : ℕ
  pub override_channels : ℕ
  pub override_channel_layout : Layout
  pub cookie_b : ℕ

-- _AUDIOFS_CONTEXT_MAGIC_A and _AUDIOFS_CONTEXT_MAGIC_B
abbrev pub context_magic_a : ℕ
context_magic_a = 0xd0d0cafe

abbrev pub context_magic_b : ℕ
context_magic_b = 0xdeadbeef

-- context_ok, at a pointer that is not NULL.
unfoldable pub context_ok : {Layout : Type 0} → DecoderContext Layout → Bool
context_ok ctx = ctx.cookie_a == context_magic_a && ctx.cookie_b == context_magic_b

-- sample_bits_by_format
unfoldable pub sample_bits_by_format : SampleFormat → ℕ → ℕ
sample_bits_by_format fmt_u8 depth = 8
sample_bits_by_format fmt_u8p depth = 8
sample_bits_by_format fmt_dbl depth = 64
sample_bits_by_format fmt_dblp depth = 64
sample_bits_by_format fmt_flt depth = 32
sample_bits_by_format fmt_fltp depth = 32
sample_bits_by_format fmt_s16 depth = 16
sample_bits_by_format fmt_s16p depth = 16
sample_bits_by_format fmt_s32 depth = if depth == 24 then 24 else 32
sample_bits_by_format fmt_s32p depth = if depth == 24 then 24 else 32
sample_bits_by_format fmt_none depth = 0
sample_bits_by_format (other_format n) depth = 0
