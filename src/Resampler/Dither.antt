-- ===== src/Resampler/Dither.antt =====
-- dither_by_name of native/resampler.c.
use Prim.Native.String.{String}
use text.Mathlib.Text.{◌==◌ as str_eq}
use text.Mathlib.TextEquality.{eq_iff}
use audio_fs.Base.{◌≡◌, refl, ◌≢◌, false, Option, none, some, if◌then◌else◌, inl, inr, Bool-cases}

-- enum SwrDitherType, as far as the code names it.
pub data DitherType : Type 0 where
  dither_none rectangular triangular triangular_highpass : DitherType
  ns_shibata ns_low_shibata ns_high_shibata ns_lipshitz : DitherType
  ns_f_weighted ns_modified_e_weighted ns_improved_e_weighted : DitherType

-- DITHER_DEFAULT of native/resampler.h
abbrev pub dither_default : DitherType
dither_default = ns_high_shibata

-- The chain of strcmp.
unfoldable pub dither_of : String → DitherType
dither_of s =
    if str_eq s "none"
    then dither_none
    else if str_eq s "rectangular"
    then rectangular
    else if str_eq s "triangular"
    then triangular
    else if str_eq s "triangular_hp"
    then triangular_highpass
    else if str_eq s "shibata"
    then ns_shibata
    else if str_eq s "low_shibata"
    then ns_low_shibata
    else if str_eq s "high_shibata"
    then ns_high_shibata
    else if str_eq s "lipshitz"
    then ns_lipshitz
    else if str_eq s "f_weighted"
    then ns_f_weighted
    else if str_eq s "modified_e_weighted"
    then ns_modified_e_weighted
    else if str_eq s "improved_e_weighted"
    then ns_improved_e_weighted
    else dither_default

-- dither_by_name; NULL is `none`.
unfoldable pub dither_by_name : Option String → DitherType
unfolding dither_of
dither_by_name none = dither_default
dither_by_name (some s) = dither_of s

-- The name of each method.
abbrev pub dither_name : DitherType → String
dither_name dither_none = "none"
dither_name rectangular = "rectangular"
dither_name triangular = "triangular"
dither_name triangular_highpass = "triangular_hp"
dither_name ns_shibata = "shibata"
dither_name ns_low_shibata = "low_shibata"
dither_name ns_high_shibata = "high_shibata"
dither_name ns_lipshitz = "lipshitz"
dither_name ns_f_weighted = "f_weighted"
dither_name ns_modified_e_weighted = "modified_e_weighted"
dither_name ns_improved_e_weighted = "improved_e_weighted"

-- The name of every method is understood as that method.
dither_by_name-dither_name : (d : DitherType) → dither_by_name (some (dither_name d)) ≡ d
unfolding dither_by_name
dither_by_name-dither_name dither_none = refl
dither_by_name-dither_name _ = refl

str_ne : (s t : String) → s ≢ t → str_eq s t ≡ false
str_ne s t ne = elim (Bool-cases (str_eq s t)) [
  | inl e ↦ absurd (ne ((eq_iff s t).0 e))
  | inr e ↦ e
]

-- Any other name, and NULL, gives the default.
dither_by_name_unknown :
    (s : String)
    → ((d : DitherType) → s ≢ dither_name d)
    → (dither_by_name (some s) ≡ dither_default) × (dither_by_name none ≡ dither_default)
unfolding dither_by_name
dither_by_name_unknown s ne = (
  rw (
    str_ne s "none" (ne dither_none),
    str_ne s "rectangular" (ne rectangular),
    str_ne s "triangular" (ne triangular),
    str_ne s "triangular_hp" (ne triangular_highpass),
    str_ne s "shibata" (ne ns_shibata),
    str_ne s "low_shibata" (ne ns_low_shibata),
    str_ne s "high_shibata" (ne ns_high_shibata),
    str_ne s "lipshitz" (ne ns_lipshitz),
    str_ne s "f_weighted" (ne ns_f_weighted),
    str_ne s "modified_e_weighted" (ne ns_modified_e_weighted),
    str_ne s "improved_e_weighted" (ne ns_improved_e_weighted),
  ),
  refl,
)
