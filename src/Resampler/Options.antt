-- ===== src/Resampler/Options.antt =====
-- set_dither_settings and setup_swr of native/resampler.c, in the release build, where
-- AUDIOFS_BREAKPOINT is empty and assert is on.
pub mod Laws
pub mod Dithering
use Prim.Native.String.{String}
use audio_fs.Base.{
  ℕ, Bool, true, false, List, [], ◌∷◌, ◌++◌, Option, none, some, ◌==◌, if◌then◌else◌,
}
use audio_fs.Base.Int.{ℤ, pos, negsuc, is_neg, is_nonzero}
use audio_fs.Memory.{Outcome, done, fault}
use audio_fs.Context.{
  Libav, DecoderContext, Swr, Setting, set_int, set_layout, SampleFormat, context_ok,
}
use audio_fs.Resampler.Dither.{DitherType}

-- enum SwrEngine
pub data Engine : Type 0 where
  engine_swr engine_soxr : Engine
  other_engine : ℕ → Engine

-- FFmpeg's functions that set one option and that initialise the resampler: the code that each
-- returns on a resampler as it stands; and the numbers of the enumerations.
pub record SwrApi (Layout : Type 0) : Type 0 where
  pub opt_set : Swr Layout → Setting Layout → ℤ
  pub swr_init : Swr Layout → ℤ
  pub engine_number : Engine → ℤ
  pub dither_number : DitherType → ℤ
  pub format_number : SampleFormat → ℤ

module _ {Layout : Type 0} where
  -- The option joins those that are set.
  abbrev pub with_setting : Swr Layout → Setting Layout → Swr Layout
  with_setting swr s = record swr { settings = swr.settings ++ s ∷ [] }

  -- `code = av_opt_set_int(...); if (code < 0) { return code; }` and what follows.
  unfoldable pub try_set :
      SwrApi Layout → Swr Layout → Setting Layout → (Swr Layout → Swr Layout × ℤ) → Swr Layout × ℤ
  try_set api swr s next =
      if is_neg (api.opt_set swr s) then (swr, api.opt_set swr s) else next (with_setting swr s)

  -- `if (0 != av_opt_set(...)) { return -1; }` and what follows.
  unfoldable pub must_set :
      SwrApi Layout → Swr Layout → Setting Layout → (Swr Layout → Swr Layout × ℤ) → Swr Layout × ℤ
  must_set api swr s next =
      if is_nonzero (api.opt_set swr s) then (swr, negsuc 0) else next (with_setting swr s)

  -- The last options of set_dither_settings, which depend on the engine.
  unfoldable pub engine_settings :
      SwrApi Layout → DecoderContext Layout → Engine → Swr Layout → Swr Layout × ℤ
  unfolding try_set
  engine_settings api ctx engine_swr swr =
      try_set api swr (set_int "output_sample_bits" (pos ctx.override_depth)) (λ swr. (swr, pos 0))
  engine_settings api ctx engine_soxr swr =
      try_set api swr (set_int "precision" (pos 28)) (λ swr. (swr, pos 0))
  engine_settings api ctx (other_engine n) swr = (swr, pos 0)

  -- What set_dither_settings sets.
  unfoldable pub dither_settings :
      SwrApi Layout → DecoderContext Layout → DitherType → Engine → Swr Layout → Swr Layout × ℤ
  unfolding engine_settings
  dither_settings api ctx dither engine swr =
      try_set api swr (set_int "resampler" (api.engine_number engine)) λ swr.
        try_set api swr (set_int "dither_method" (api.dither_number dither))
          (engine_settings api ctx engine)

  -- What setup_swr sets, and the initialisation.
  unfoldable pub swr_settings : SwrApi Layout → DecoderContext Layout → Swr Layout → Swr Layout × ℤ
  unfolding must_set
  swr_settings api ctx swr =
      must_set api swr (set_layout "in_channel_layout" ctx.channel_layout) λ swr.
        must_set api swr (set_layout "out_channel_layout" ctx.override_channel_layout) λ swr.
          must_set api swr (set_int "in_sample_rate" ctx.sample_rate) λ swr.
            must_set api swr (set_int "out_sample_rate" ctx.override_sample_rate) λ swr.
              must_set api swr (set_int "in_sample_fmt" (api.format_number ctx.sample_fmt)) λ swr.
                must_set api swr
                  (set_int "out_sample_fmt" (api.format_number ctx.override_sample_fmt))
                  λ swr.
                    if is_neg (api.swr_init swr)
                    then (swr, negsuc 0)
                    else (record swr { initialised = true }, pos 0)

  -- The frame of both functions: the assertion, the missing resampler, and the work on it.
  unfoldable pub on_swr :
      DecoderContext Layout → (Swr Layout → Swr Layout × ℤ) → Outcome (DecoderContext Layout × ℤ)
  unfolding context_ok
  on_swr ctx work =
      if context_ok ctx
      then elim ctx.swr_context [
        | none ↦ done (ctx, negsuc 0)
        | some swr ↦ done (record ctx { swr_context = some ((work swr).0) }, (work swr).1)
      ]
      else fault

  unfoldable pub set_dither_settings :
      SwrApi Layout
      → DecoderContext Layout
      → DitherType
      → Engine
      → Outcome (DecoderContext Layout × ℤ)
  unfolding dither_settings on_swr
  set_dither_settings api ctx dither engine = on_swr ctx (dither_settings api ctx dither engine)

  unfoldable pub setup_swr :
      SwrApi Layout → DecoderContext Layout → Outcome (DecoderContext Layout × ℤ)
  unfolding swr_settings on_swr
  setup_swr api ctx = on_swr ctx (swr_settings api ctx)
