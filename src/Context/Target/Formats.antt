-- ===== src/Context/Target/Formats.antt =====
-- Depth, rate and channels that change_target_format settles on.
use audio_fs.Base.{
  ℕ, ◌≡◌, refl, ◌∙◌, ap, sym, ◌<◌, Bool, true, false, if◌then◌else◌, arith, ◌==◌, lt→ltb,
}
use mathlib.Core.Path.{subst}
use audio_fs.Base.Int.{ℤ}
use audio_fs.Context.{
  Libav, DecoderContext, SampleFormat, fmt_none, fmt_u8, fmt_s16, fmt_s32, fmt_flt, fmt_dbl,
  sample_bits_by_format, eq_format, context_ok,
}
use audio_fs.Context.Target.{
  is_pos, format_of_depth, packed, wanted_format, override_format, with_overrides, choose_swr,
  change_target_format,
}
use audio_fs.Context.Target.Laws.{override_format-is_planar, change_target_format-set_up}

-- The depth that a request is answered with: the ones that the code knows, and 16 for any other.
abbrev pub served_depth : ℕ → ℕ
served_depth d =
    if d == 64 then 64 else if d == 32 then 32 else if d == 24 then 24 else if d == 8 then 8 else 16

-- Formats that a depth can ask for are not planar, so they are their own packed form.
data IsServed : SampleFormat → Type 0 where
  served_u8 : IsServed fmt_u8
  served_s16 : IsServed fmt_s16
  served_s32 : IsServed fmt_s32
  served_flt : IsServed fmt_flt
  served_dbl : IsServed fmt_dbl

format_of_depth-IsServed : (d : ℕ) (f g : SampleFormat) → IsServed (format_of_depth d f g)
unfolding format_of_depth
format_of_depth-IsServed d f g =
    grind (arith, served_u8, served_s16, served_s32, served_flt, served_dbl)

sample_bits-served :
    (d : ℕ) (f g : SampleFormat) → sample_bits_by_format (format_of_depth d f g) d ≡ served_depth d
unfolding format_of_depth sample_bits_by_format
sample_bits-served d f g = ground arith

module _ (lib : Libav) where
  open lib use {
    Layout, nb_channels, is_planar, alt_packed, alt_packed_same, packed_u8, packed_s16, packed_s32,
    packed_flt, packed_dbl,
  }

  alt_packed-served : {f : SampleFormat} → IsServed f → alt_packed f ≡ f
  alt_packed-served served_u8 = alt_packed_same fmt_u8 packed_u8
  alt_packed-served served_s16 = alt_packed_same fmt_s16 packed_s16
  alt_packed-served served_s32 = alt_packed_same fmt_s32 packed_s32
  alt_packed-served served_flt = alt_packed_same fmt_flt packed_flt
  alt_packed-served served_dbl = alt_packed_same fmt_dbl packed_dbl

  not_none-served : {f : SampleFormat} → IsServed f → eq_format f fmt_none ≡ false
  not_none-served served_u8 = refl
  not_none-served served_s16 = refl
  not_none-served served_s32 = refl
  not_none-served served_flt = refl
  not_none-served served_dbl = refl

  module _ (ctx : DecoderContext Layout) (fmt : SampleFormat) (depth : ℕ) (asked : 0 < depth) where
    -- What `target_fmt` is when the switch over the depth is reached.
    abbrev given : SampleFormat
    given = if eq_format fmt fmt_none then fmt else packed lib fmt

    wanted_format-asked :
        wanted_format lib ctx fmt depth ≡ format_of_depth depth given (packed lib ctx.sample_fmt)
    unfolding wanted_format
    wanted_format-asked = rw (lt→ltb 0 depth asked)

    override_format-asked :
        override_format lib ctx fmt depth ≡ format_of_depth depth given (packed lib ctx.sample_fmt)
    unfolding override_format
    override_format-asked =
        let served = format_of_depth-IsServed depth given (packed lib ctx.sample_fmt) in
        rw (wanted_format-asked, not_none-served served) (alt_packed-served served)

    override_depth-served :
        (rate : ℤ) (stereo : Bool)
        → (with_overrides lib ctx fmt depth rate stereo).override_depth ≡ served_depth depth
    unfolding with_overrides
    override_depth-served rate stereo =
        rw (lt→ltb 0 depth asked, override_format-asked)
          (sample_bits-served depth given (packed lib ctx.sample_fmt))

  -- The choice of a resampler touches nothing but the resampler.
  record SameOverrides (c c' : DecoderContext Layout) : Type 0 where
    depth : c'.override_depth ≡ c.override_depth
    rate : c'.override_sample_rate ≡ c.override_sample_rate
    format : c'.override_sample_fmt ≡ c.override_sample_fmt
    channels : c'.override_channels ≡ c.override_channels

  choose_swr-SameOverrides : (c : DecoderContext Layout) → SameOverrides c (choose_swr lib c).0
  unfolding choose_swr
  choose_swr-SameOverrides c = ground arith

  module _ (ctx : DecoderContext Layout) (fmt : SampleFormat) (depth : ℕ) (rate : ℤ) (stereo : Bool)
      (good : context_ok ctx ≡ true) where
    abbrev changed : DecoderContext Layout
    changed = (change_target_format lib ctx fmt depth rate stereo).0

    changed-SameOverrides : SameOverrides (with_overrides lib ctx fmt depth rate stereo) changed
    changed-SameOverrides =
        subst (λ r. SameOverrides (with_overrides lib ctx fmt depth rate stereo) (r.0))
          (sym (change_target_format-set_up lib ctx fmt depth rate stereo good))
          (choose_swr-SameOverrides (with_overrides lib ctx fmt depth rate stereo))

    -- A request for a depth that the code knows (8, 16, 24, 32 or 64) is answered with that depth, any
    -- other request but 0 with 16, whatever the input format and the format asked for are.
    change_target_format_depth : 0 < depth → changed.override_depth ≡ served_depth depth
    change_target_format_depth asked =
        changed-SameOverrides.depth ∙ override_depth-served ctx fmt depth asked rate stereo

    -- The output format is never planar.
    change_target_format_packed : is_planar changed.override_sample_fmt ≡ false
    unfolding with_overrides
    change_target_format_packed =
        ap is_planar changed-SameOverrides.format ∙ override_format-is_planar lib ctx fmt depth

    -- A rate over 0 is taken as asked for, any other request keeps the input's; with forced stereo
    -- there are two channels, without it as many as the input has.
    pub change_target_format_rate :
        (changed.override_sample_rate ≡ (if is_pos rate then rate else ctx.sample_rate))
        × (changed.override_channels ≡ (if stereo then 2 else nb_channels ctx.channel_layout))
    unfolding with_overrides
    change_target_format_rate =
        (changed-SameOverrides.rate, changed-SameOverrides.channels ∙ ground arith)
