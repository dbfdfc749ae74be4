-- ===== src/Resampler/Options/Dithering.antt =====
-- Which options set_dither_settings leaves on the resampler, and its codes.
use audio_fs.Base.{◌≡◌, refl, ap, ◌∙◌, ◌⊎◌, inl, inr, true, List, [], ◌∷◌, ◌++◌, some, Bool-cases}
use audio_fs.Base.Int.{ℤ, pos, is_neg}
use audio_fs.Memory.{done}
use audio_fs.Context.{context_ok, DecoderContext, Swr, Setting, set_int}
use audio_fs.Resampler.Dither.{DitherType}
use audio_fs.Resampler.Options.{
  Engine, engine_swr, engine_soxr, other_engine, SwrApi, with_setting, try_set, dither_settings,
  set_dither_settings,
}
use audio_fs.Resampler.Options.Laws.{on_swr-some}

module _ {Layout : Type 0} (api : SwrApi Layout) where
  -- The last option, which depends on the engine.
  abbrev pub engine_options : DecoderContext Layout → Engine → List (Setting Layout)
  engine_options ctx engine_swr = set_int "output_sample_bits" (pos ctx.override_depth) ∷ []
  engine_options ctx engine_soxr = set_int "precision" (pos 28) ∷ []
  engine_options ctx (other_engine n) = []

  -- The options of set_dither_settings.
  abbrev pub dither_options : DecoderContext Layout → DitherType → Engine → List (Setting Layout)
  dither_options ctx dither engine =
      set_int "resampler" (api.engine_number engine)
      ∷ set_int "dither_method" (api.dither_number dither)
      ∷ engine_options ctx engine

  -- Options set one after the other.
  abbrev pub all_set : Swr Layout → List (Setting Layout) → Swr Layout
  all_set swr [] = swr
  all_set swr (s ∷ ss) = all_set (with_setting swr s) ss

  abbrev try_chain : List (Setting Layout) → Swr Layout → Swr Layout × ℤ
  try_chain [] swr = (swr, pos 0)
  try_chain (s ∷ ss) swr = try_set api swr s (try_chain ss)

  -- Either all options are set and the code is 0, or those before the first that fails, and the code
  -- is that option's.
  abbrev pub Tried : List (Setting Layout) → Swr Layout → Swr Layout → ℤ → Type 0
  Tried ss swr swr' code =
      ((code ≡ pos 0) × (swr' ≡ all_set swr ss))
      ⊎ ((made : List (Setting Layout)) × (s : Setting Layout) × (rest : List (Setting Layout))
          × (made ++ s ∷ rest ≡ ss)
          × (swr' ≡ all_set swr made)
          × (code ≡ api.opt_set swr' s)
          × (is_neg code ≡ true))

  try_chain-Tried :
      (ss : List (Setting Layout)) (swr : Swr Layout)
      → Tried ss swr (try_chain ss swr).0 (try_chain ss swr).1
  unfolding try_set
  try_chain-Tried [] swr = inl (refl, refl)
  try_chain-Tried (s ∷ ss) swr = elim (Bool-cases (is_neg (api.opt_set swr s))) [
    | inl bad ↦ rw bad (inr ([], s, ss, refl, refl, refl, bad))
    | inr good ↦ rw good (elim (try_chain-Tried ss (with_setting swr s)) [
      | inl all ↦ inl all
      | inr (made, t, rest, e, same, code, neg) ↦
          inr (s ∷ made, t, rest, ap (λ l. s ∷ l) e, same, code, neg)
    ])
  ]

  dither_settings-try_chain :
      (ctx : DecoderContext Layout) (dither : DitherType) (engine : Engine) (swr : Swr Layout)
      → dither_settings api ctx dither engine swr ≡ try_chain (dither_options ctx dither engine) swr
  unfolding dither_settings
  dither_settings-try_chain ctx dither engine_swr swr = refl
  dither_settings-try_chain ctx dither engine_soxr swr = refl
  dither_settings-try_chain ctx dither (other_engine n) swr = refl

  -- On a good context that holds a resampler, set_dither_settings returns and changes the resampler
  -- only. Either the code is 0 and the engine, the dither and the engine's own option are set; or it
  -- is the negative code of the first option that fails, and the options before it are set.
  pub set_dither_settings_lem :
      (ctx : DecoderContext Layout) (dither : DitherType) (engine : Engine) {swr : Swr Layout}
      → context_ok ctx ≡ true
      → ctx.swr_context ≡ some swr
      → (swr' : Swr Layout) × (code : ℤ) × (set_dither_settings api ctx dither engine
          ≡ done (record ctx { swr_context = some swr' }, code))
        × Tried (dither_options ctx dither engine) swr swr' code
  unfolding set_dither_settings
  set_dither_settings_lem ctx dither engine {swr} good held =
      let out = try_chain (dither_options ctx dither engine) swr in
      (
        out.0,
        out.1,
        on_swr-some api ctx (dither_settings api ctx dither engine) good held
            ∙ ap (λ (o : Swr Layout × ℤ). done (record ctx { swr_context = some (o.0) }, o.1))
                (dither_settings-try_chain ctx dither engine swr),
        try_chain-Tried (dither_options ctx dither engine) swr,
      )
