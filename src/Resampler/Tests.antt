-- ===== src/Resampler/Tests.antt =====
-- The theorems about the resampler at concrete settings.
use Prim.Native.String.{String}
use text.Mathlib.TextEquality.{eq_iff}
use audio_fs.Base.{ℕ, ◌≡◌, refl, ◌≢◌, ◌⊎◌, true, false, List, [], ◌++◌, some, none, arith}
use audio_fs.Base.Int.{ℤ, pos, negsuc}
use audio_fs.Memory.{done}
use audio_fs.Context.{
  DecoderContext, Swr, Setting, fmt_s16, fmt_s32, context_ok, context_magic_a, context_magic_b,
}
use audio_fs.Resampler.Dither.{
  DitherType, dither_none, rectangular, triangular, triangular_highpass, ns_shibata, ns_low_shibata,
  ns_high_shibata, ns_lipshitz, ns_f_weighted, ns_modified_e_weighted, ns_improved_e_weighted,
  dither_name,
}
use audio_fs.Resampler.Options.{SwrApi, setup_swr, engine_soxr, set_dither_settings}
use audio_fs.Resampler.Options.Laws.{setup_options, setup_swr_lem}
use audio_fs.Resampler.Support.{
  Probe, Environment, get_supported_resampler, get_supported_resampler_lem,
}
use audio_fs.Resampler.Options.Dithering.{Tried, dither_options, set_dither_settings_lem}

loud_is_no_name : (d : DitherType) → ◌≢◌ {A = String} "loud" (dither_name d)
loud_is_no_name dither_none = ground (arith, eq_iff "loud" "none")
loud_is_no_name rectangular = ground (arith, eq_iff "loud" "rectangular")
loud_is_no_name triangular = ground (arith, eq_iff "loud" "triangular")
loud_is_no_name triangular_highpass = ground (arith, eq_iff "loud" "triangular_hp")
loud_is_no_name ns_shibata = ground (arith, eq_iff "loud" "shibata")
loud_is_no_name ns_low_shibata = ground (arith, eq_iff "loud" "low_shibata")
loud_is_no_name ns_high_shibata = ground (arith, eq_iff "loud" "high_shibata")
loud_is_no_name ns_lipshitz = ground (arith, eq_iff "loud" "lipshitz")
loud_is_no_name ns_f_weighted = ground (arith, eq_iff "loud" "f_weighted")
loud_is_no_name ns_modified_e_weighted = ground (arith, eq_iff "loud" "modified_e_weighted")
loud_is_no_name ns_improved_e_weighted = ground (arith, eq_iff "loud" "improved_e_weighted")

-- Every option is accepted.
abbrev willing : SwrApi ℕ
willing = record {
  opt_set = λ swr s. pos 0;
  swr_init = λ swr. pos 0;
  engine_number = λ e. pos 0;
  dither_number = λ d. pos 0;
  format_number = λ f. pos 1;
}

abbrev idle : Swr ℕ
idle = record { settings = []; initialised = false }

abbrev mono : DecoderContext ℕ
mono = record {
  cookie_a = context_magic_a;
  codec_context = none;
  codec = none;
  swr_context = some idle;
  dsd = 0;
  sample_fmt = fmt_s16;
  sample_rate = pos 44100;
  depth = 16;
  channel_layout = 1;
  override_sample_fmt = fmt_s32;
  override_sample_rate = pos 48000;
  override_depth = 24;
  override_channels = 1;
  override_channel_layout = 1;
  cookie_b = context_magic_b;
}

mono-context_ok : context_ok mono ≡ true
unfolding context_ok
mono-context_ok = refl

setup_swr_lem_example :
    (swr : Swr ℕ) × (code : ℤ) × (setup_swr willing mono
      ≡ done (record mono { swr_context = some swr }, code))
    × ((code ≡ pos 0) ⊎ (code ≡ negsuc 0))
    × (code ≡ pos 0 → (swr.settings ≡ [] ++ setup_options willing mono) × (swr.initialised ≡ true))
    × ((made : List (Setting ℕ)) × (rest : List (Setting ℕ)) × (swr.settings ≡ [] ++ made)
        × (made ++ rest ≡ setup_options willing mono))
setup_swr_lem_example = setup_swr_lem willing mono {swr = idle} mono-context_ok refl

abbrev present : Probe
present = record {
  alloc_succeeds = true;
  set_opts = pos 0;
  set_resampler = λ name. pos 0;
  init = pos 0;
}

abbrev before : Environment
before = record { log_level = pos 32; contexts = 0 }

get_supported_resampler_lem_example :
    (get_supported_resampler present before (some "soxr")).1 ≡ pos 1
get_supported_resampler_lem_example =
    (get_supported_resampler_lem present before "soxr").0.1 ((refl, refl, refl, refl), refl)

set_dither_settings_lem_example :
    (swr : Swr ℕ) × (code : ℤ) × (set_dither_settings willing mono ns_lipshitz engine_soxr
      ≡ done (record mono { swr_context = some swr }, code))
    × Tried willing (dither_options willing mono ns_lipshitz engine_soxr) idle swr code
set_dither_settings_lem_example =
    set_dither_settings_lem willing mono ns_lipshitz engine_soxr {swr = idle} mono-context_ok refl
