-- ===== src/Transcode/Settings.antt =====
-- What native/transcode.c asks of the encoder and of the ends of the filter graph: the fields that
-- open_output_file sets, and the arguments and options of init_filter.
pub mod Laws
mod Tests
use audio_fs.Base.{ℕ, zero, suc, Bool, List, [], ◌∷◌, ◌++◌, Option, none, some}
use audio_fs.Base.Int.{ℤ, pos}
use audio_fs.Base.Decimal.{bytes_of, decimal}
use audio_fs.Memory.{Outcome, done, fault}

-- What is read of the decoder's context. The layout is given by its whole description, and the format
-- with its name, which is NULL for a format that FFmpeg does not know.
pub record DecodedAudio : Type 0 where
  pub time_base_num : ℤ
  pub time_base_den : ℤ
  pub sample_rate : ℤ
  pub sample_fmt_name : Option (List ℕ)
  pub ch_layout : List ℕ

-- What is set on the encoder's context before it is opened.
pub record EncoderSettings : Type 0 where
  pub sample_rate : ℤ
  pub ch_layout : List ℕ
  pub sample_fmt : ℤ
  pub time_base_num : ℤ
  pub time_base_den : ℤ
  pub global_header : Bool

-- The encoder's list of formats is given by its first one, or is NULL; `global` is the flag
-- AVFMT_GLOBALHEADER of the output format.
unfoldable pub encoder_settings : Option ℤ → Bool → DecodedAudio → Outcome EncoderSettings
encoder_settings none global d = fault
encoder_settings (some fmt) global d = done (record {
  sample_rate = pos 44100;
  ch_layout = d.ch_layout;
  sample_fmt = fmt;
  time_base_num = pos 1;
  time_base_den = pos 44100;
  global_header = global;
})

-- What fits of a text into an array of `n` bytes and a NUL.
abbrev pub cut : ℕ → List ℕ → List ℕ
cut zero xs = []
cut (suc n) [] = []
cut (suc n) (x ∷ xs) = x ∷ cut n xs

-- `buf`, an array of 64 bytes
abbrev pub layout_text : EncoderSettings → List ℕ
layout_text e = cut 63 e.ch_layout

-- glibc prints NULL as "(null)".
abbrev pub name_text : Option (List ℕ) → List ℕ
name_text none = bytes_of "(null)"
name_text (some n) = n

abbrev pub joined : List (List ℕ) → List ℕ
joined [] = []
joined (p ∷ ps) = p ++ joined ps

-- The text that snprintf is asked for.
unfoldable pub wanted_args : DecodedAudio → EncoderSettings → List ℕ
wanted_args d e = joined (
    bytes_of "time_base="
    ∷ decimal d.time_base_num
    ∷ bytes_of "/"
    ∷ decimal d.time_base_den
    ∷ bytes_of ":sample_rate="
    ∷ decimal d.sample_rate
    ∷ bytes_of ":sample_fmt="
    ∷ name_text d.sample_fmt_name
    ∷ bytes_of ":channel_layout="
    ∷ layout_text e
    ∷ [])

-- `args`, an array of 512 bytes
unfoldable pub source_args : DecodedAudio → EncoderSettings → List ℕ
unfolding wanted_args
source_args d e = cut 511 (wanted_args d e)

pub data SinkOption : Type 0 where
  sample_fmts : ℤ → SinkOption
  ch_layouts : List ℕ → SinkOption
  sample_rates : ℤ → SinkOption

-- The options set on the sink, in order.
unfoldable pub sink_options : EncoderSettings → List SinkOption
sink_options e =
    sample_fmts e.sample_fmt ∷ ch_layouts (layout_text e) ∷ sample_rates e.sample_rate ∷ []
