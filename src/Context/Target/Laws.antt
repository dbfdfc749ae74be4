-- ===== src/Context/Target/Laws.antt =====
-- What change_target_format sets, and when it resamples.
use audio_fs.Base.{
  ℕ, ◌≡◌, refl, ◌≢◌, ◌⊎◌, ◌∙◌, inl, inr, Bool, true, false, none, some, if◌then◌else◌, arith,
  Bool-cases, Option-cases, [], ◌==◌, ◌&&◌, not,
}
use audio_fs.Base.Int.{ℤ, pos, negsuc}
use audio_fs.Context.{Libav, DecoderContext, Swr, SampleFormat, context_ok}
use audio_fs.Context.Target.{
  packed, wanted_format, override_format, with_overrides, needs_swr, choose_swr,
  change_target_format,
}

module _ (lib : Libav) where
  open lib use {
    Layout, nb_channels, layout_compare, layout_compare_self, is_planar, alt_packed,
    alt_packed-is_planar, alt_packed_same, packed_u8, packed_s16, packed_s32, packed_flt,
    packed_dbl, swr_alloc_succeeds,
  }

  -- packed gives a format that is not planar.
  packed-is_planar : (f : SampleFormat) → is_planar (packed lib f) ≡ false
  unfolding packed
  packed-is_planar f = ground (arith, alt_packed-is_planar f)

  pub override_format-is_planar :
      (ctx : DecoderContext Layout) (fmt : SampleFormat) (depth : ℕ)
      → is_planar (override_format lib ctx fmt depth) ≡ false
  unfolding override_format
  override_format-is_planar ctx fmt depth = ground (
    arith,
    packed-is_planar ctx.sample_fmt,
    alt_packed-is_planar (wanted_format lib ctx fmt depth),
  )

  needs_swr_layout :
      (c : DecoderContext Layout)
      → layout_compare c.override_channel_layout c.channel_layout ≡ pos 0
      → needs_swr lib c ≡ true
  unfolding needs_swr
  needs_swr_layout c e = rw e

  needs_swr_channels :
      (c : DecoderContext Layout)
      → (c.override_channels == nb_channels c.channel_layout) ≡ false
      → needs_swr lib c ≡ true
  unfolding needs_swr
  needs_swr_channels c e = ground (arith, e)

  module _ (ctx : DecoderContext Layout) (fmt : SampleFormat) (depth : ℕ) (rate : ℤ)
      (stereo : Bool) where
    abbrev pub set_up : DecoderContext Layout
    set_up = with_overrides lib ctx fmt depth rate stereo

    -- Either the layout is kept, or the number of channels changes.
    with_overrides-layout :
        (layout_compare set_up.override_channel_layout set_up.channel_layout ≡ pos 0)
        ⊎ ((set_up.override_channels == nb_channels set_up.channel_layout) ≡ false)
    unfolding with_overrides
    with_overrides-layout =
        elim (Bool-cases (stereo && not (nb_channels ctx.channel_layout == 2))) [
          | inl down ↦ inr (ground arith)
          | inr keep ↦ inl (rw keep (layout_compare_self ctx.channel_layout))
        ]

    -- The test for a resampler passes whatever is asked for.
    needs_swr_always : needs_swr lib set_up ≡ true
    needs_swr_always = elim with_overrides-layout [
      | inl same ↦ needs_swr_layout set_up same
      | inr other ↦ needs_swr_channels set_up other
    ]

    choose_swr-some :
        (c : DecoderContext Layout) {swr : Swr Layout}
        → needs_swr lib c ≡ true
        → c.swr_context ≡ some swr
        → choose_swr lib c ≡ (c, pos 0)
    unfolding choose_swr
    choose_swr-some c {swr} n e = simp (n, e)

    choose_swr-none :
        (c : DecoderContext Layout)
        → needs_swr lib c ≡ true
        → c.swr_context ≡ none
        → choose_swr lib c ≡ (
            if swr_alloc_succeeds
            then (
              record c { swr_context = some (record { settings = []; initialised = false }) },
              pos 0,
            )
            else (c, negsuc 0))
    unfolding choose_swr
    choose_swr-none c n e = simp (n, e)

    pub change_target_format-set_up :
        context_ok ctx ≡ true
        → change_target_format lib ctx fmt depth rate stereo ≡ choose_swr lib set_up
    unfolding change_target_format
    change_target_format-set_up good = rw good

    swr_context-set_up : set_up.swr_context ≡ ctx.swr_context
    unfolding with_overrides
    swr_context-set_up = refl

    -- A good context always gets a resampler, also where no conversion was asked for: with memory
    -- granted the call returns 0 and the context holds one, new or the one that it held.
    pub change_target_format_always_resamples :
        context_ok ctx ≡ true
        → swr_alloc_succeeds ≡ true
        → ((change_target_format lib ctx fmt depth rate stereo).1 ≡ pos 0)
          × ((change_target_format lib ctx fmt depth rate stereo).0.swr_context ≢ none)
    change_target_format_always_resamples good granted = elim (Option-cases ctx.swr_context) [
      | inl missing ↦
          rw
            (
              change_target_format-set_up good,
              choose_swr-none set_up needs_swr_always (swr_context-set_up ∙ missing),
              granted,
            )
            (refl, λ e. cc)
      | inr (swr, held) ↦
          rw
            (
              change_target_format-set_up good,
              choose_swr-some set_up needs_swr_always (swr_context-set_up ∙ held),
            )
            (refl, λ e. cc (swr_context-set_up, held))
    ]
