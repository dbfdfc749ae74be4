-- ===== src/Context/Tests.antt =====
-- The theorems about decoder contexts at concrete ones.
use audio_fs.Base.{inr, ℕ, ◌≡◌, refl, true, false, Bool, some, none, arith, ◌==◌, if◌then◌else◌}
use audio_fs.Base.Int.{ℤ, pos}
use audio_fs.Context.{
  Libav, DecoderContext, SampleFormat, fmt_none, fmt_u8, fmt_s16, fmt_s32, fmt_flt, fmt_dbl,
  fmt_u8p, fmt_s16p, fmt_s32p, fmt_fltp, fmt_dblp, pcm_s24le, dsd_lsbf_planar, context_ok,
  context_magic_a, context_magic_b,
}
use audio_fs.Context.Dsd.{detect_dsd, detect_dsd-Base}
use audio_fs.Context.Target.{change_target_format}
use audio_fs.Context.Target.Laws.{change_target_format_always_resamples}
use audio_fs.Context.Target.Formats.{change_target_format_rate}

abbrev planar : SampleFormat → Bool
planar fmt_u8p = true
planar fmt_s16p = true
planar fmt_s32p = true
planar fmt_fltp = true
planar fmt_dblp = true
planar _ = false

abbrev packed_form : SampleFormat → SampleFormat
packed_form fmt_u8p = fmt_u8
packed_form fmt_s16p = fmt_s16
packed_form fmt_s32p = fmt_s32
packed_form fmt_fltp = fmt_flt
packed_form fmt_dblp = fmt_dbl
packed_form f = f

packed_form-planar : (f : SampleFormat) → planar (packed_form f) ≡ false
packed_form-planar fmt_u8p = refl
packed_form-planar _ = refl

packed_form_same : (f : SampleFormat) → planar f ≡ false → packed_form f ≡ f
packed_form_same fmt_u8p e = cc
packed_form_same fmt_s16p e = cc
packed_form_same fmt_s32p e = cc
packed_form_same fmt_fltp e = cc
packed_form_same fmt_dblp e = cc
packed_form_same _ e = refl

compare_channels : ℕ → ℕ → ℤ
compare_channels a b = if a == b then pos 0 else pos 1

compare_channels_self : (n : ℕ) → compare_channels n n ≡ pos 0
unfolding compare_channels
compare_channels_self n = ground arith

-- A layout is its number of channels.
abbrev plain : Libav
plain = record {
  Layout = ℕ;
  nb_channels = λ n. n;
  stereo_downmix = 2;
  layout_compare = compare_channels;
  is_planar = planar;
  alt_packed = packed_form;
  swr_alloc_succeeds = true;
  layout_compare_self = compare_channels_self;
  alt_packed-is_planar = packed_form-planar;
  alt_packed_same = packed_form_same;
  packed_u8 = refl;
  packed_s16 = refl;
  packed_s32 = refl;
  packed_flt = refl;
  packed_dbl = refl;
}

-- 44.1 kHz stereo in planar 32-bit samples, from a 24-bit PCM codec.
abbrev stereo : DecoderContext ℕ
stereo = record {
  cookie_a = context_magic_a;
  codec_context = none;
  codec = some pcm_s24le;
  swr_context = none;
  dsd = 0;
  sample_fmt = fmt_s32p;
  sample_rate = pos 44100;
  depth = 32;
  channel_layout = 2;
  override_sample_fmt = fmt_none;
  override_sample_rate = pos 0;
  override_depth = 0;
  override_channels = 0;
  override_channel_layout = 2;
  cookie_b = context_magic_b;
}

stereo-context_ok : context_ok stereo ≡ true
unfolding context_ok
stereo-context_ok = refl

-- The same with a DSD codec that is open.
abbrev dsd_stereo : DecoderContext ℕ
dsd_stereo = record stereo { codec_context = some dsd_lsbf_planar; sample_rate = pos 352800 }

detect_dsd-Base_example : (detect_dsd plain dsd_stereo).dsd ≡ 64
unfolding context_ok
detect_dsd-Base_example =
    detect_dsd-Base plain dsd_stereo {id = dsd_lsbf_planar} 352800 44100 1 refl refl refl refl
      (omega arith) refl (omega arith) (omega arith) (inr (refl, λ e. omega arith)) (omega arith)
      (omega arith)

change_target_format_always_resamples_example :
    (change_target_format plain stereo fmt_none 0 (pos 0) false).1 ≡ pos 0
change_target_format_always_resamples_example =
    (change_target_format_always_resamples plain stereo fmt_none 0 (pos 0) false stereo-context_ok
      refl).0

change_target_format_rate_example :
    (change_target_format plain stereo fmt_none 24 (pos 48000) true).0.override_sample_rate
    ≡ pos 48000
change_target_format_rate_example =
    (change_target_format_rate plain stereo fmt_none 24 (pos 48000) true stereo-context_ok).0
