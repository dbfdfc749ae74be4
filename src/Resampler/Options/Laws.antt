-- ===== src/Resampler/Options/Laws.antt =====
-- Which options setup_swr leaves on the resampler, and its codes.
use audio_fs.Base.{
  ◌≡◌, refl, sym, ap, ◌∙◌, ◌⊎◌, inl, inr, true, List, [], ◌∷◌, ◌++◌, some, arith, Bool-cases,
  if◌then◌else◌,
}
use mathlib.Core.List.{append-nil, append_assoc}
use audio_fs.Base.Int.{ℤ, pos, negsuc, is_neg, is_nonzero}
use audio_fs.Context.{context_ok, DecoderContext, Swr, Setting, set_int, set_layout}
use audio_fs.Resampler.Options.{SwrApi, with_setting, must_set, swr_settings, on_swr, setup_swr}
use audio_fs.Memory.{done}

module _ {Layout : Type 0} (api : SwrApi Layout) where
  -- A chain of options, each of which must succeed, before a last step: it sets them in order, and
  -- stops at the first that fails.
  abbrev pub chain :
      List (Setting Layout) → (Swr Layout → Swr Layout × ℤ) → Swr Layout → Swr Layout × ℤ
  chain [] last swr = last swr
  chain (s ∷ ss) last swr = must_set api swr s (chain ss last)

  -- The options of setup_swr, from the fields of the context.
  abbrev pub setup_options : DecoderContext Layout → List (Setting Layout)
  setup_options ctx =
      set_layout "in_channel_layout" ctx.channel_layout
      ∷ set_layout "out_channel_layout" ctx.override_channel_layout
      ∷ set_int "in_sample_rate" ctx.sample_rate
      ∷ set_int "out_sample_rate" ctx.override_sample_rate
      ∷ set_int "in_sample_fmt" (api.format_number ctx.sample_fmt)
      ∷ set_int "out_sample_fmt" (api.format_number ctx.override_sample_fmt)
      ∷ []

  -- A prefix of a list, as what stands behind it.
  abbrev Prefix : List (Setting Layout) → List (Setting Layout) → Type 0
  Prefix xs ys = (rest : List (Setting Layout)) × (xs ++ rest ≡ ys)

  record Ended (ss : List (Setting Layout)) (swr : Swr Layout) (out : Swr Layout × ℤ) : Type 0 where
    code : (out.1 ≡ pos 0) ⊎ (out.1 ≡ negsuc 0)
    whole : out.1 ≡ pos 0 → (out.0.settings ≡ swr.settings ++ ss) × (out.0.initialised ≡ true)
    part : (made : List (Setting Layout)) × (out.0.settings ≡ swr.settings ++ made) × Prefix made ss

  -- The last step of setup_swr.
  abbrev initialise : Swr Layout → Swr Layout × ℤ
  initialise swr =
      if is_neg (api.swr_init swr)
      then (swr, negsuc 0)
      else (record swr { initialised = true }, pos 0)

  initialise-Ended : (swr : Swr Layout) → Ended [] swr (initialise swr)
  initialise-Ended swr = elim (Bool-cases (is_neg (api.swr_init swr))) [
    | inl bad ↦
        rw bad
          (record { code = inr refl; whole = λ e. cc; part = ([], sym (append-nil _), ([], refl)) })
    | inr good ↦ rw good (record {
      code = inl refl;
      whole = λ e. (sym (append-nil _), refl);
      part = ([], sym (append-nil _), ([], refl));
    })
  ]

  Ended-cons :
      (s : Setting Layout) (ss : List (Setting Layout)) (swr : Swr Layout) (out : Swr Layout × ℤ)
      → Ended ss (with_setting swr s) out
      → Ended (s ∷ ss) swr out
  Ended-cons s ss swr out e = record {
    code = e.code;
    whole = λ z. ((e.whole z).0 ∙ append_assoc swr.settings (s ∷ []) ss, (e.whole z).1);
    part =
        let (made, same, prefix) = e.part in
        (
          s ∷ made,
          same ∙ append_assoc swr.settings (s ∷ []) made,
          (prefix.0, ap (λ l. s ∷ l) prefix.1),
        );
  }

  chain-Ended :
      (ss : List (Setting Layout)) (swr : Swr Layout) → Ended ss swr (chain ss initialise swr)
  unfolding must_set
  chain-Ended [] swr = initialise-Ended swr
  chain-Ended (s ∷ ss) swr = elim (Bool-cases (is_nonzero (api.opt_set swr s))) [
    | inl bad ↦ rw bad (record {
      code = inr refl;
      whole = λ e. cc;
      part = ([], sym (append-nil swr.settings), (s ∷ ss, refl));
    })
    | inr good ↦ rw good (
        Ended-cons s ss swr (chain ss initialise (with_setting swr s))
          (chain-Ended ss (with_setting swr s)))
  ]

  swr_settings-chain :
      (ctx : DecoderContext Layout) (swr : Swr Layout)
      → swr_settings api ctx swr ≡ chain (setup_options ctx) initialise swr
  unfolding swr_settings
  swr_settings-chain ctx swr = refl

  pub on_swr-some :
      (ctx : DecoderContext Layout) {swr : Swr Layout} (work : Swr Layout → Swr Layout × ℤ)
      → context_ok ctx ≡ true
      → ctx.swr_context ≡ some swr
      → on_swr ctx work ≡ done (record ctx { swr_context = some ((work swr).0) }, (work swr).1)
  unfolding on_swr
  on_swr-some ctx work good held = ground arith

  -- On a good context that holds a resampler, setup_swr returns, with 0 or -1, and changes the
  -- resampler only. Where it returns 0, the six options have been set, in order, after those that
  -- were set before, and the resampler is initialised; in every case the options that it has set
  -- are the first ones of the six.
  pub setup_swr_lem :
      (ctx : DecoderContext Layout) {swr : Swr Layout}
      → context_ok ctx ≡ true
      → ctx.swr_context ≡ some swr
      → (swr' : Swr Layout) × (code : ℤ) × (setup_swr api ctx
          ≡ done (record ctx { swr_context = some swr' }, code))
        × ((code ≡ pos 0) ⊎ (code ≡ negsuc 0))
        × (code ≡ pos 0
            → (swr'.settings ≡ swr.settings ++ setup_options ctx) × (swr'.initialised ≡ true))
        × ((made : List (Setting Layout)) × (rest : List (Setting Layout)) × (swr'.settings
              ≡ swr.settings ++ made)
            × (made ++ rest ≡ setup_options ctx))
  unfolding setup_swr
  setup_swr_lem ctx {swr} good held =
      let e = chain-Ended (setup_options ctx) swr in
      (
        (chain (setup_options ctx) initialise swr).0,
        (chain (setup_options ctx) initialise swr).1,
        on_swr-some ctx (swr_settings api ctx) good held,
        e.code,
        e.whole,
        (e.part.0, e.part.2.0, e.part.1, e.part.2.1),
      )
