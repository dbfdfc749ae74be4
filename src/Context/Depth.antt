-- ===== src/Context/Depth.antt =====
-- fix_depth of native/libav.c.
use audio_fs.Base.{
  ◌≡◌, refl, sym, ap, ◌∙◌, ◌≢◌, ◌⊎◌, inl, inr, false, Bool-cases, Option-cases, none, some, true,
  ◌==◌, if◌then◌else◌, arith,
}
use audio_fs.Context.{
  DecoderContext, CodecId, dsd_lsbf, dsd_msbf, dsd_lsbf_planar, dsd_msbf_planar, pcm_s24le,
  pcm_s24be, pcm_s24le_planar, other_codec, fmt_s32, context_ok, sample_bits_by_format,
}

module _ {Layout : Type 0} where
  -- The branch for 24-bit PCM.
  unfoldable pub depth_of_24 : DecoderContext Layout → DecoderContext Layout
  depth_of_24 ctx = record ctx { depth = 24; override_sample_fmt = fmt_s32 }

  -- The default branch.
  unfoldable pub depth_by_format : DecoderContext Layout → DecoderContext Layout
  unfolding sample_bits_by_format
  depth_by_format ctx =
      if ctx.depth == 0 then record ctx { depth = sample_bits_by_format ctx.sample_fmt 0 } else ctx

  -- The switch over the codec's id.
  unfoldable pub depth_by_codec : CodecId → DecoderContext Layout → DecoderContext Layout
  unfolding depth_of_24 depth_by_format
  depth_by_codec pcm_s24le ctx = depth_of_24 ctx
  depth_by_codec pcm_s24be ctx = depth_of_24 ctx
  depth_by_codec pcm_s24le_planar ctx = depth_of_24 ctx
  depth_by_codec dsd_lsbf ctx = depth_by_format ctx
  depth_by_codec dsd_msbf ctx = depth_by_format ctx
  depth_by_codec dsd_lsbf_planar ctx = depth_by_format ctx
  depth_by_codec dsd_msbf_planar ctx = depth_by_format ctx
  depth_by_codec (other_codec n) ctx = depth_by_format ctx

  unfoldable pub fix_depth : DecoderContext Layout → DecoderContext Layout
  unfolding context_ok depth_by_codec
  fix_depth ctx =
      if context_ok ctx
      then elim ctx.codec [ none ↦ ctx | some id ↦ depth_by_codec id ctx ]
      else ctx

  depth_by_codec_idem :
      (id : CodecId) (ctx : DecoderContext Layout)
      → depth_by_codec id (depth_by_codec id ctx) ≡ depth_by_codec id ctx
  unfolding depth_by_codec
  depth_by_codec_idem pcm_s24le ctx = refl
  depth_by_codec_idem pcm_s24be ctx = refl
  depth_by_codec_idem pcm_s24le_planar ctx = refl
  depth_by_codec_idem _ ctx = ground arith

  record SameCodec (ctx ctx' : DecoderContext Layout) : Type 0 where
    ok : context_ok ctx' ≡ context_ok ctx
    codec : ctx'.codec ≡ ctx.codec

  depth_by_codec-SameCodec :
      (id : CodecId) (ctx : DecoderContext Layout) → SameCodec ctx (depth_by_codec id ctx)
  unfolding depth_by_codec context_ok
  depth_by_codec-SameCodec pcm_s24le ctx = record { ok = refl; codec = refl }
  depth_by_codec-SameCodec pcm_s24be ctx = record { ok = refl; codec = refl }
  depth_by_codec-SameCodec pcm_s24le_planar ctx = record { ok = refl; codec = refl }
  depth_by_codec-SameCodec _ ctx = ground arith

  fix_depth-some :
      (ctx : DecoderContext Layout) {id : CodecId}
      → context_ok ctx ≡ true
      → ctx.codec ≡ some id
      → fix_depth ctx ≡ depth_by_codec id ctx
  unfolding fix_depth
  fix_depth-some ctx o c = ground arith

  fix_depth_skip :
      (ctx : DecoderContext Layout)
      → (context_ok ctx ≡ false) ⊎ (ctx.codec ≡ none)
      → fix_depth ctx ≡ ctx
  unfolding fix_depth
  fix_depth_skip ctx h = ground arith

  -- To fix a depth twice is to fix it once.
  fix_depth_idem : (ctx : DecoderContext Layout) → fix_depth (fix_depth ctx) ≡ fix_depth ctx
  fix_depth_idem ctx = elim (Bool-cases (context_ok ctx)) [
    | inr bad ↦ ap fix_depth (fix_depth_skip ctx (inl bad))
    | inl good ↦ elim (Option-cases ctx.codec) [
      | inl missing ↦ ap fix_depth (fix_depth_skip ctx (inr missing))
      | inr (id, found) ↦
          let once = fix_depth-some ctx good found in
          let same = depth_by_codec-SameCodec id ctx in
          ap fix_depth once
          ∙ fix_depth-some (depth_by_codec id ctx) (same.ok ∙ good) (same.codec ∙ found)
          ∙ depth_by_codec_idem id ctx
          ∙ sym once
    ]
  ]

  depth_by_codec_positive :
      (id : CodecId) (ctx : DecoderContext Layout)
      → sample_bits_by_format ctx.sample_fmt 0 ≢ 0
      → (depth_by_codec id ctx).depth ≢ 0
  unfolding depth_by_codec
  depth_by_codec_positive pcm_s24le ctx k = omega arith
  depth_by_codec_positive pcm_s24be ctx k = omega arith
  depth_by_codec_positive pcm_s24le_planar ctx k = omega arith
  depth_by_codec_positive _ ctx k = ground arith

  depth_by_codec_kept :
      (id : CodecId) (ctx : DecoderContext Layout)
      → ctx.depth ≢ 0
      → ((depth_by_codec id ctx).depth ≡ ctx.depth)
        ⊎ (((depth_by_codec id ctx).depth ≡ 24)
            × ((depth_by_codec id ctx).override_sample_fmt ≡ fmt_s32))
  unfolding depth_by_codec
  depth_by_codec_kept pcm_s24le ctx p = inr (refl, refl)
  depth_by_codec_kept pcm_s24be ctx p = inr (refl, refl)
  depth_by_codec_kept pcm_s24le_planar ctx p = inr (refl, refl)
  depth_by_codec_kept _ ctx p = ground arith

  -- A good context with a codec and a sample format of known size has a depth afterwards; a depth
  -- that was there is kept unless the codec is 24-bit PCM, and then it is 24.
  fix_depth_lem :
      (ctx : DecoderContext Layout) {id : CodecId}
      → context_ok ctx ≡ true
      → ctx.codec ≡ some id
      → sample_bits_by_format ctx.sample_fmt 0 ≢ 0
      → ((fix_depth ctx).depth ≢ 0)
        × (ctx.depth ≢ 0
            → ((fix_depth ctx).depth ≡ ctx.depth)
              ⊎ (((fix_depth ctx).depth ≡ 24) × ((fix_depth ctx).override_sample_fmt ≡ fmt_s32)))
  fix_depth_lem ctx {id} o c k =
      rw (fix_depth-some ctx o c) (depth_by_codec_positive id ctx k, depth_by_codec_kept id ctx)
