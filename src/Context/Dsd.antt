-- ===== src/Context/Dsd.antt =====
-- detect_dsd of native/libav.c.
use audio_fs.Base.{
  ℕ, ◌^◌, ap, ◌∙◌, inr, ◌*◌, ◌/◌, ◌%◌, ◌≡◌, ◌≢◌, ◌<◌, ◌⊎◌, inl, none, some, true, false, Bool, ◌||◌,
  ltb, ◌==◌, not, if◌then◌else◌, arith,
}
use native.Mathlib.Nat.{mul-div_cancel_left, mod-eq_of_lt}
use audio_fs.Base.Int.{pos}
use audio_fs.Word.{u16, u32, to_u64, c_max}
use audio_fs.Context.{
  Libav, DecoderContext, CodecId, dsd_lsbf, dsd_msbf, dsd_lsbf_planar, dsd_msbf_planar, pcm_s24le,
  pcm_s24be, pcm_s24le_planar, other_codec, context_ok,
}

-- What `ctx->dsd` becomes at a bit rate for each channel.
unfoldable pub dsd_of_rate : ℕ → ℕ
dsd_of_rate bitrate =
    let dsd = if bitrate % 48000 == 0 then u16 (bitrate / 48000) else u16 (bitrate / 44100) in
    if not (dsd % 64 == 0) || ltb dsd 64 then 0 else dsd

-- The switch over the codec's id.
unfoldable pub dsd_of_codec : CodecId → ℕ → ℕ
unfolding dsd_of_rate
dsd_of_codec dsd_lsbf_planar bitrate = dsd_of_rate (bitrate / 2)
dsd_of_codec dsd_msbf_planar bitrate = dsd_of_rate (bitrate / 2)
dsd_of_codec dsd_lsbf bitrate = dsd_of_rate bitrate
dsd_of_codec dsd_msbf bitrate = dsd_of_rate bitrate
dsd_of_codec pcm_s24le bitrate = 0
dsd_of_codec pcm_s24be bitrate = 0
dsd_of_codec pcm_s24le_planar bitrate = 0
dsd_of_codec (other_codec n) bitrate = 0

module _ (lib : Libav) where
  open lib use {Layout, nb_channels}

  -- `bitrate_per_channel`, in uint32_t.
  unfoldable pub bitrate_per_channel : DecoderContext Layout → ℕ
  bitrate_per_channel ctx =
      u32 (u32 (to_u64 ctx.sample_rate) * ctx.depth) / c_max (nb_channels ctx.channel_layout) 1

  unfoldable pub detect_dsd : DecoderContext Layout → DecoderContext Layout
  unfolding context_ok dsd_of_codec bitrate_per_channel
  detect_dsd ctx =
      if context_ok ctx
      then elim ctx.codec_context [
        | none ↦ ctx
        | some id ↦ record ctx { dsd = dsd_of_codec id (bitrate_per_channel ctx) }
      ]
      else ctx

-- The four DSD codecs.
abbrev pub is_dsd : CodecId → Bool
is_dsd dsd_lsbf_planar = true
is_dsd dsd_msbf_planar = true
is_dsd dsd_lsbf = true
is_dsd dsd_msbf = true
is_dsd _ = false

detect_dsd-some :
    (lib : Libav) (ctx : DecoderContext (lib.Layout)) {id : CodecId}
    → context_ok ctx ≡ true
    → ctx.codec_context ≡ some id
    → (detect_dsd lib ctx).dsd ≡ dsd_of_codec id (bitrate_per_channel lib ctx)
unfolding detect_dsd
detect_dsd-some lib ctx good open_codec = ground arith

dsd_of_rate_48000 : (m : ℕ) → 0 < m → 64 * m < 65536 → dsd_of_rate (48000 * (64 * m)) ≡ 64 * m
unfolding dsd_of_rate
dsd_of_rate_48000 m p q = ground arith

dsd_of_rate_44100 : (m : ℕ) → m % 5 ≢ 0 → 64 * m < 65536 → dsd_of_rate (44100 * (64 * m)) ≡ 64 * m
unfolding dsd_of_rate
dsd_of_rate_44100 m p q = ground arith

-- The base rate of a family: 48000, or 44100 where `m` is no multiple of 5, for which 44100 * 64 m would
-- be a multiple of 48000 as well.
abbrev pub Base : ℕ → ℕ → Type 0
Base base m = (base ≡ 48000) ⊎ ((base ≡ 44100) × (m % 5 ≢ 0))

dsd_of_rate-Base :
    (base m : ℕ) → Base base m → 0 < m → 64 * m < 65536 → dsd_of_rate (base * (64 * m)) ≡ 64 * m
dsd_of_rate-Base base m (inl e) p q = rw e (dsd_of_rate_48000 m p q)
dsd_of_rate-Base base m (inr (e, r)) p q = rw e (dsd_of_rate_44100 m r q)

-- The rate of a planar codec counts each bit twice.
abbrev pub planes : CodecId → ℕ
planes dsd_lsbf_planar = 2
planes dsd_msbf_planar = 2
planes _ = 1

dsd_of_codec-planes :
    (id : CodecId) (n : ℕ) → is_dsd id ≡ true → dsd_of_codec id (planes id * n) ≡ dsd_of_rate n
unfolding dsd_of_codec
dsd_of_codec-planes dsd_lsbf_planar n e =
    let same : 2 * n / 2 ≡ n = omega arith in ap dsd_of_rate same
dsd_of_codec-planes dsd_msbf_planar n e =
    let same : 2 * n / 2 ≡ n = omega arith in ap dsd_of_rate same
dsd_of_codec-planes dsd_lsbf n e = let same : 1 * n ≡ n = omega arith in ap dsd_of_rate same
dsd_of_codec-planes dsd_msbf n e = let same : 1 * n ≡ n = omega arith in ap dsd_of_rate same
dsd_of_codec-planes pcm_s24le n e = cc
dsd_of_codec-planes pcm_s24be n e = cc
dsd_of_codec-planes pcm_s24le_planar n e = cc
dsd_of_codec-planes (other_codec k) n e = cc

module _ (lib : Libav) where
  open lib use {Layout, nb_channels}

  -- The bit rate of each channel, where nothing wraps round.
  bitrate_per_channel_exact :
      (ctx : DecoderContext Layout) (rate n : ℕ)
      → ctx.sample_rate ≡ pos rate
      → rate < 2 ^ 32
      → rate * ctx.depth ≡ nb_channels ctx.channel_layout * n
      → rate * ctx.depth < 2 ^ 32
      → 0 < nb_channels ctx.channel_layout
      → bitrate_per_channel lib ctx ≡ n
  unfolding bitrate_per_channel
  bitrate_per_channel_exact ctx rate n e small whole fits some_channel =
      let c = nb_channels ctx.channel_layout in
      let given : to_u64 ctx.sample_rate ≡ rate = ground arith in
      let word : u32 (to_u64 ctx.sample_rate) ≡ rate = rw given (omega arith) in
      let top : c_max c 1 ≡ c = ground arith in
      rw word (rw (mod-eq_of_lt fits) (rw (whole, top) (mul-div_cancel_left n some_channel)))

  -- In a good context with an open DSD codec, a sample rate and a depth of which nothing wraps round, and
  -- a rate of 64 m times 48000, or 44100 unless m is a multiple of 5, bits for each channel, planar
  -- codecs counting twice: detect_dsd leaves 64 m, for every m over 0 at which that fits a uint16_t.
  pub detect_dsd-Base :
      (ctx : DecoderContext Layout) {id : CodecId} (rate base m : ℕ)
      → context_ok ctx ≡ true
      → ctx.codec_context ≡ some id
      → is_dsd id ≡ true
      → ctx.sample_rate ≡ pos rate
      → rate < 2 ^ 32
      → rate * ctx.depth ≡ nb_channels ctx.channel_layout * (planes id * (base * (64 * m)))
      → rate * ctx.depth < 2 ^ 32
      → 0 < nb_channels ctx.channel_layout
      → Base base m
      → 0 < m
      → 64 * m < 65536
      → (detect_dsd lib ctx).dsd ≡ 64 * m
  detect_dsd-Base ctx {id} rate base m good open_codec dsd e small whole fits some_channel family p
        q =
      detect_dsd-some lib ctx good open_codec
      ∙ ap (dsd_of_codec id) (
          bitrate_per_channel_exact ctx rate (planes id * (base * (64 * m))) e small whole fits
            some_channel)
      ∙ dsd_of_codec-planes id (base * (64 * m)) dsd
      ∙ dsd_of_rate-Base base m family p q
