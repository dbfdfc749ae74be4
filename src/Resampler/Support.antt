-- ===== src/Resampler/Support.antt =====
-- get_supported_resampler of native/resampler.c.
use Prim.Native.String.{String}
use text.Mathlib.Text.{◌==◌ as str_eq}
use text.Mathlib.TextEquality.{eq_iff}
use audio_fs.Base.{
  ℕ, ◌+◌, ◌-◌, ◌≡◌, refl, ◌↔◌, ◌≢◌, Bool, true, false, Option, none, some, if◌then◌else◌, arith,
}
use audio_fs.Base.Int.{ℤ, pos, negsuc, is_nonzero}

-- What FFmpeg answers when a resampler is tried out: whether swr_alloc has room, and the codes of
-- swr_alloc_set_opts2, of setting the option "resampler", and of swr_init.
pub record Probe : Type 0 where
  pub alloc_succeeds : Bool
  pub set_opts : ℤ
  pub set_resampler : String → ℤ
  pub init : ℤ

-- The log level of FFmpeg, and the number of resamplers that are allocated.
pub record Environment : Type 0 where
  pub log_level : ℤ
  pub contexts : ℕ

-- AV_LOG_QUIET
abbrev pub log_quiet : ℤ
log_quiet = negsuc 7

-- `end:` swr_free, which does nothing on NULL.
unfoldable pub free_swr : Environment → Environment
free_swr env = record env { contexts = env.contexts - 1 }

-- The attempt to initialise, with the log quiet, and what follows it. The three states of the
-- environment are: quiet, with the level back, and with the resampler freed.
unfoldable pub try_init : Probe → Environment → String → Environment × ℤ
unfolding free_swr
try_init probe env resampler =
    let tmp_level = env.log_level in
    let quiet = record env { log_level = log_quiet } in
    let restored = record quiet { log_level = tmp_level } in
    if is_nonzero probe.init
    then (free_swr restored, negsuc 0)
    else (free_swr restored, if str_eq resampler "soxr" then pos 1 else pos 0)

-- get_supported_resampler; SWR_ENGINE_SWR is 0 and SWR_ENGINE_SOXR is 1. Where swr_alloc_set_opts2
-- fails it has freed the resampler itself, and the pointer is NULL.
unfoldable pub get_supported_resampler : Probe → Environment → Option String → Environment × ℤ
unfolding try_init
get_supported_resampler probe env none = (env, pos 0)
get_supported_resampler probe env (some resampler) =
    if probe.alloc_succeeds
    then (let env' = record env { contexts = env.contexts + 1 } in
        if is_nonzero probe.set_opts
        then (free_swr env', negsuc 0)
        else if is_nonzero (probe.set_resampler resampler)
        then (free_swr env', negsuc 0)
        else try_init probe env' resampler)
    else (env, negsuc 0)

-- Whether FFmpeg accepts a resampler at every step.
abbrev pub Accepts : Probe → String → Type 0
Accepts probe resampler =
    (probe.alloc_succeeds ≡ true)
    × (is_nonzero probe.set_opts ≡ false)
    × (is_nonzero (probe.set_resampler resampler) ≡ false)
    × (is_nonzero probe.init ≡ false)

-- On every path the log level is what it was, and no resampler stays allocated.
get_supported_resampler_restores :
    (probe : Probe) (env : Environment) (resampler : Option String)
    → (get_supported_resampler probe env resampler).0 ≡ env
unfolding get_supported_resampler
get_supported_resampler_restores probe env none = refl
get_supported_resampler_restores probe env (some r) = ground arith

-- A name is answered with 1 exactly if it is accepted and is "soxr", with 0 exactly if it is accepted
-- and is not, and with -1 exactly if some step refuses it.
pub get_supported_resampler_lem :
    (probe : Probe) (env : Environment) (r : String)
    → let code = (get_supported_resampler probe env (some r)).1 in
      ((code ≡ pos 1) ↔ (Accepts probe r × (r ≡ "soxr")))
      × ((code ≡ pos 0) ↔ (Accepts probe r × (r ≢ "soxr")))
      × ((code ≡ negsuc 0) ↔ (¬ Accepts probe r))
unfolding get_supported_resampler
get_supported_resampler_lem probe env r = ground (arith, eq_iff r "soxr")
