-- ===== src/Context/Target.antt =====
-- change_target_format of native/libav.c.
pub mod Laws
pub mod Formats
use audio_fs.Base.{
  ℕ, ◌+◌, Bool, true, false, ◌&&◌, ◌||◌, not, Option, none, some, ltb, ◌==◌, if◌then◌else◌, [],
}
use audio_fs.Base.Int.{ℤ, pos, negsuc, is_neg, is_nonzero, eq_ℤ}
use audio_fs.Context.{
  Libav, DecoderContext, Swr, SampleFormat, fmt_none, fmt_u8, fmt_s16, fmt_s32, fmt_flt, fmt_dbl,
  eq_format, context_ok, sample_bits_by_format,
}

-- `x > 0`
abbrev pub is_pos : ℤ → Bool
is_pos x = not (is_neg x) && is_nonzero x

abbrev pub is_float : SampleFormat → Bool
is_float f = eq_format f fmt_dbl || eq_format f fmt_flt

-- The switch over `ctx->override_depth`: the target format for a depth that is not 0.
unfoldable pub format_of_depth : ℕ → SampleFormat → SampleFormat → SampleFormat
format_of_depth depth target_fmt override_fmt =
    if depth == 64
    then fmt_dbl
    else if depth == 32
    then (if is_float target_fmt || is_float override_fmt then fmt_flt else fmt_s32)
    else if depth == 24
    then fmt_s32
    else if depth == 8
    then fmt_u8
    else fmt_s16

module _ (lib : Libav) where
  open lib use {
    Layout, nb_channels, stereo_downmix, layout_compare, is_planar, alt_packed, swr_alloc_succeeds,
  }

  -- `if (av_sample_fmt_is_planar(f)) { f = av_get_alt_sample_fmt(f, false); }`
  unfoldable pub packed : SampleFormat → SampleFormat
  packed f = if is_planar f then alt_packed f else f

  -- `target_fmt` once the requested depth has had its say.
  unfoldable pub wanted_format : DecoderContext Layout → SampleFormat → ℕ → SampleFormat
  unfolding packed format_of_depth
  wanted_format ctx target_fmt target_depth =
      let fmt = if eq_format target_fmt fmt_none then target_fmt else packed target_fmt in
      if ltb 0 target_depth then format_of_depth target_depth fmt (packed ctx.sample_fmt) else fmt

  -- The final `override_sample_fmt`.
  unfoldable pub override_format : DecoderContext Layout → SampleFormat → ℕ → SampleFormat
  unfolding wanted_format
  override_format ctx target_fmt target_depth =
      let fmt = wanted_format ctx target_fmt target_depth in
      if eq_format fmt fmt_none then packed ctx.sample_fmt else alt_packed fmt

  -- The context with its override fields set.
  unfoldable pub with_overrides :
      DecoderContext Layout → SampleFormat → ℕ → ℤ → Bool → DecoderContext Layout
  with_overrides ctx target_fmt target_depth target_rate force_stereo =
      let downmix = force_stereo && not (nb_channels ctx.channel_layout == 2) in
      let fmt = override_format ctx target_fmt target_depth in
      let depth = if ltb 0 target_depth then target_depth else ctx.depth in
      record ctx {
        override_channel_layout = if downmix then stereo_downmix else ctx.channel_layout;
        override_channels = if downmix then 2 else nb_channels ctx.channel_layout;
        override_sample_fmt = fmt;
        override_sample_rate = if is_pos target_rate then target_rate else ctx.sample_rate;
        override_depth = sample_bits_by_format fmt depth;
      }

  -- The test that decides on a resampler, as it is written: the layouts count as a reason to resample
  -- where they compare as 0.
  unfoldable pub needs_swr : DecoderContext Layout → Bool
  needs_swr ctx =
      eq_ℤ (layout_compare ctx.override_channel_layout ctx.channel_layout) (pos 0)
      || not (ctx.override_channels == nb_channels ctx.channel_layout)
      || not (ctx.override_depth == ctx.depth)
      || not (eq_format ctx.override_sample_fmt ctx.sample_fmt)
      || not (eq_ℤ ctx.override_sample_rate ctx.sample_rate)

  -- The allocation of a resampler, or its release.
  unfoldable pub choose_swr : DecoderContext Layout → DecoderContext Layout × ℤ
  choose_swr ctx =
      if needs_swr ctx
      then elim ctx.swr_context [
        | some swr ↦ (ctx, pos 0)
        | none ↦
            if swr_alloc_succeeds
            then (
              record ctx { swr_context = some (record { settings = []; initialised = false }) },
              pos 0,
            )
            else (ctx, negsuc 0)
      ]
      else (record ctx { swr_context = none }, pos 0)

  unfoldable pub change_target_format :
      DecoderContext Layout → SampleFormat → ℕ → ℤ → Bool → DecoderContext Layout × ℤ
  unfolding context_ok with_overrides choose_swr
  change_target_format ctx target_fmt target_depth target_rate force_stereo =
      if context_ok ctx
      then choose_swr (with_overrides ctx target_fmt target_depth target_rate force_stereo)
      else (ctx, negsuc 0)
