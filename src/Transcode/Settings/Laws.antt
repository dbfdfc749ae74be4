-- ===== src/Transcode/Settings/Laws.antt =====
-- The arguments of the filter graph's source are not cut off.
use audio_fs.Base.{
  ℕ, zero, suc, ◌+◌, ◌≡◌, ◌≤◌, refl, ap, Bool, List, [], ◌∷◌, some, length, length-append, arith,
}
use audio_fs.Base.Int.{ℤ, pos}
use audio_fs.Base.Decimal.{bytes_of, decimal, length-decimal}
use audio_fs.Memory.{done}
use audio_fs.Transcode.Settings.{
  DecodedAudio, EncoderSettings, encoder_settings, cut, layout_text, name_text, joined, wanted_args,
  source_args, sample_fmts, ch_layouts, sample_rates, sink_options,
}

length-cut : (n : ℕ) (xs : List ℕ) → length (cut n xs) ≤ n
length-cut zero xs = omega arith
length-cut (suc n) [] = omega arith
length-cut (suc n) (x ∷ xs) = omega (arith, length-cut n xs)

cut-whole : (n : ℕ) (xs : List ℕ) → length xs ≤ n → cut n xs ≡ xs
cut-whole zero [] p = refl
cut-whole zero (x ∷ xs) p = absurd (omega arith)
cut-whole (suc n) [] p = refl
cut-whole (suc n) (x ∷ xs) p = ap (λ t. x ∷ t) (cut-whole n xs (omega arith))

abbrev lengths : List (List ℕ) → ℕ
lengths [] = 0
lengths (p ∷ ps) = length p + lengths ps

length-joined : (ps : List (List ℕ)) → length (joined ps) ≡ lengths ps
length-joined [] = refl
length-joined (p ∷ ps) = omega (arith, length-append p (joined ps), length-joined ps)

length-wanted_args :
    (d : DecodedAudio) (e : EncoderSettings)
    → length (wanted_args d e)
      ≤ 52 + (length (name_text d.sample_fmt_name) + (33 + length (layout_text e)))
unfolding wanted_args
length-wanted_args d e =
    let pieces : List (List ℕ) =
      bytes_of "time_base="
      ∷ decimal d.time_base_num
      ∷ bytes_of "/"
      ∷ decimal d.time_base_den
      ∷ bytes_of ":sample_rate="
      ∷ decimal d.sample_rate
      ∷ bytes_of ":sample_fmt="
      ∷ name_text d.sample_fmt_name
      ∷ bytes_of ":channel_layout="
      ∷ layout_text e
      ∷ [] in
    omega (
      arith,
      length-joined pieces,
      length-decimal d.time_base_num,
      length-decimal d.time_base_den,
      length-decimal d.sample_rate,
    )

-- For a decoder whose layout has a description of at most 63 bytes and whose sample format has a name
-- of at most 300, the encoder's settings give the source of the filter graph its whole description,
-- with the layout of the decoder, and the sink takes the encoder's format, that layout and 44100 Hz.
source_args_lem :
    (fmt : ℤ) (global : Bool) (d : DecodedAudio)
    → length d.ch_layout ≤ 63
    → length (name_text d.sample_fmt_name) ≤ 300
    → (e : EncoderSettings) × (encoder_settings (some fmt) global d ≡ done e)
      × (source_args d e ≡ wanted_args d e)
      × (length (source_args d e) ≤ 511)
      × (layout_text e ≡ d.ch_layout)
      × (sink_options e ≡ sample_fmts fmt ∷ ch_layouts d.ch_layout ∷ sample_rates (pos 44100) ∷ [])
unfolding encoder_settings source_args sink_options
source_args_lem fmt global d short named =
    let e : EncoderSettings = record {
      sample_rate = pos 44100;
      ch_layout = d.ch_layout;
      sample_fmt = fmt;
      time_base_num = pos 1;
      time_base_den = pos 44100;
      global_header = global;
    } in
    let layout : layout_text e ≡ d.ch_layout = cut-whole 63 d.ch_layout short in
    let fits : length (wanted_args d e) ≤ 511 =
      omega (arith, length-wanted_args d e, length-cut 63 d.ch_layout) in
    (
      e,
      refl,
      cut-whole 511 (wanted_args d e) fits,
      length-cut 511 (wanted_args d e),
      layout,
      ap (λ l. sample_fmts fmt ∷ ch_layouts l ∷ sample_rates (pos 44100) ∷ []) layout,
    )
