-- ===== src/Metadata/Document/Values.antt =====
-- The values that a reader finds under the keys of the document, each by the field of FFmpeg that it
-- is to show.
use audio_fs.Base.{
  ℕ, suc, ◌≡◌, refl, ap, ◌∙◌, Bool, true, false, ◌&&◌, Bool-cases, Option-cases, inl, inr, List, [],
  ◌∷◌, Option, none, some, ◌==◌, if◌then◌else◌, arith,
}
use audio_fs.Base.Decimal.{bytes_of}
use audio_fs.Metadata.{
  Key, name, tag, Leaf, integer, text, JsonCall, CodecPar, Tags, Stream, MediaFile, json_file,
  json_file_format, json_file_metadata, json_streams, json_streams_metadata, json_streams_codec,
}
use audio_fs.Metadata.Leaves.{
  Leaves, format_leaves, file_leaves, tag_leaves, stream_leaves, codec_leaves,
}
use audio_fs.Metadata.Document.{set_on}
use audio_fs.Metadata.Document.Streams.{DescribedBy, Described, no_stream, stream}

abbrev pub same_bytes : List ℕ → List ℕ → Bool
same_bytes [] [] = true
same_bytes [] (y ∷ ys) = false
same_bytes (x ∷ xs) [] = false
same_bytes (x ∷ xs) (y ∷ ys) = x == y && same_bytes xs ys

abbrev pub key_bytes : Key → List ℕ
key_bytes (name s) = bytes_of s
key_bytes (tag bytes) = bytes

abbrev pub or_else {ℓ} : {A : Type ℓ} → Option A → Option A → Option A
or_else none o = o
or_else (some a) o = some a

-- json_string gives NULL for NULL and for a text that is not UTF-8.
module _ (utf8 : List ℕ → Bool) where
  abbrev pub given : Leaf → Option Leaf
  given (integer z) = some (integer z)
  given (text none) = none
  given (text (some t)) = if utf8 t then some (text (some t)) else none

  -- What Jansson has under a key behind the calls for an object: the value that was set last, where a
  -- call with NULL sets nothing.
  abbrev pub value : Key → Leaves → Option Leaf
  value k [] = none
  value k ((k', l) ∷ ls) =
      let later = value k ls in
      if same_bytes (key_bytes k) (key_bytes k') then or_else later (given l) else later

  -- The last text of a tag that is UTF-8.
  abbrev pub tag_text : List ℕ → Tags → Option Leaf
  tag_text k [] = none
  tag_text k ((k', t) ∷ ts) =
      let later = tag_text k ts in
      if same_bytes k k'
      then or_else later (if utf8 t then some (text (some t)) else none)
      else later

  value-tag_leaves : (k : List ℕ) (tags : Tags) → value (tag k) (tag_leaves tags) ≡ tag_text k tags
  unfolding tag_leaves
  value-tag_leaves k [] = refl
  value-tag_leaves k (t ∷ ts) =
      ap (λ o. if same_bytes k t.0 then or_else o (given (text (some t.1))) else o)
        (value-tag_leaves k ts)

  -- The file, its format and its tags.
  pub record FileValues (f : MediaFile) (cs : List JsonCall) : Type 0 where
    pub format_name : value (name "name") (set_on json_file_format cs) ≡ given (text f.format_name)
    pub format_long_name :
        value (name "long_name") (set_on json_file_format cs) ≡ given (text f.format_long_name)
    pub mime_type : value (name "mime_type") (set_on json_file_format cs) ≡ given (text f.mime_type)
    pub flags : value (name "flags") (set_on json_file_format cs) ≡ some (integer f.flags)
    pub start_time : value (name "start_time") (set_on json_file cs) ≡ some (integer f.start_time)
    pub duration : value (name "duration") (set_on json_file cs) ≡ some (integer f.duration)
    pub bit_rate : value (name "bit_rate") (set_on json_file cs) ≡ some (integer f.bit_rate)
    pub tags : (k : List ℕ) → value (tag k) (set_on json_file_metadata cs) ≡ tag_text k f.tags

  pub Described-FileValues :
      (f : MediaFile) (cs : List JsonCall)
      → set_on json_file_format cs ≡ format_leaves f
      → set_on json_file cs ≡ file_leaves f
      → set_on json_file_metadata cs ≡ tag_leaves f.tags
      → FileValues f cs
  unfolding format_leaves file_leaves
  Described-FileValues f cs format file tags = record {
    format_name = ap (value (name "name")) format;
    format_long_name = ap (value (name "long_name")) format;
    mime_type = ap (value (name "mime_type")) format;
    flags = ap (value (name "flags")) format;
    start_time = ap (value (name "start_time")) file;
    duration = ap (value (name "duration")) file;
    bit_rate = ap (value (name "bit_rate")) file;
    tags = λ k. ap (value (tag k)) tags ∙ value-tag_leaves k f.tags;
  }

  -- A stream's parameters.
  pub record CodecValues (p : CodecPar) (ls : Leaves) : Type 0 where
    pub ch_layout : value (name "ch_layout") ls ≡ given (text (some p.ch_layout))
    pub media_type : value (name "type") ls ≡ given (text p.media_type)
    pub codec_name : value (name "name") ls ≡ given (text p.codec_name)
    pub codec_tag : value (name "codec_tag") ls ≡ some (integer p.codec_tag)
    pub bit_rate : value (name "bit_rate") ls ≡ some (integer p.bit_rate)
    pub bits_per_coded_sample :
        value (name "bits_per_coded_sample") ls ≡ some (integer p.bits_per_coded_sample)
    pub bits_per_raw_sample :
        value (name "bits_per_raw_sample") ls ≡ some (integer p.bits_per_raw_sample)
    pub profile : value (name "profile") ls ≡ some (integer p.profile)
    pub level : value (name "level") ls ≡ some (integer p.level)
    pub width : value (name "width") ls ≡ some (integer p.width)
    pub height : value (name "height") ls ≡ some (integer p.height)
    pub bits_per_sample : value (name "bits_per_sample") ls ≡ some (integer p.bits_per_sample)
    pub profile_name : value (name "profile_name") ls ≡ given (text p.profile_name)
    pub sample_rate : value (name "sample_rate") ls ≡ some (integer p.sample_rate)
    pub frame_size : value (name "frame_size") ls ≡ some (integer p.frame_size)
    pub block_align : value (name "block_align") ls ≡ some (integer p.block_align)
    pub nb_channels : value (name "nb_channels") ls ≡ some (integer p.nb_channels)

  codec_leaves-CodecValues : (p : CodecPar) → CodecValues p (codec_leaves p)
  unfolding codec_leaves
  codec_leaves-CodecValues p = record {
    ch_layout = refl;
    media_type = refl;
    codec_name = refl;
    codec_tag = refl;
    bit_rate = refl;
    bits_per_coded_sample = refl;
    bits_per_raw_sample = refl;
    profile = refl;
    level = refl;
    width = refl;
    height = refl;
    bits_per_sample = refl;
    profile_name = refl;
    sample_rate = refl;
    frame_size = refl;
    block_align = refl;
    nb_channels = refl;
  }

  -- The stream's own object; `print` is what stands under the fingerprint's key.
  pub record OwnValues (st : Stream) (print : Option Leaf) (ls : Leaves) : Type 0 where
    pub chromaprint : value (name "chromaprint") ls ≡ print
    pub index : value (name "index") ls ≡ some (integer st.index)
    pub nb_frames : value (name "nb_frames") ls ≡ some (integer st.nb_frames)
    pub duration : value (name "duration") ls ≡ some (integer st.duration)
    pub time_base_num : value (name "time_base_num") ls ≡ some (integer st.time_base_num)
    pub time_base_den : value (name "time_base_den") ls ≡ some (integer st.time_base_den)

  silent-OwnValues : (st : Stream) → OwnValues st none (stream_leaves st)
  unfolding stream_leaves
  silent-OwnValues st = record {
    chromaprint = refl;
    index = refl;
    nb_frames = refl;
    duration = refl;
    time_base_num = refl;
    time_base_den = refl;
  }

  printed-OwnValues :
      (st : Stream) (l : Leaf) → OwnValues st (given l) ((name "chromaprint", l) ∷ stream_leaves st)
  unfolding stream_leaves
  printed-OwnValues st l = record {
    chromaprint = refl;
    index = refl;
    nb_frames = refl;
    duration = refl;
    time_base_num = refl;
    time_base_den = refl;
  }

  -- What stands under the fingerprint's key: for an audio stream a text of which `P` holds.
  abbrev pub Printed : (ℕ → List ℕ → Type 0) → ℕ → CodecPar → Option Leaf → Type 0
  Printed P i p print = elim p.is_audio [
    | true ↦ (bytes : List ℕ) × P i bytes × (print ≡ given (text (some bytes)))
    | false ↦ print ≡ none
  ]

  module _ (P : ℕ → List ℕ → Type 0) where
    -- Each of the streams, from index `i` on; nothing is set for one without parameters.
    pub data StreamValues : ℕ → List Stream → List JsonCall → Type 0 where
      no_values : {i : ℕ} {cs : List JsonCall} → StreamValues i [] cs
      without_par :
          {i : ℕ} {st : Stream} {sts : List Stream} {cs : List JsonCall}
          → st.codecpar ≡ none
          → set_on (json_streams i) cs ≡ []
          → set_on (json_streams_codec i) cs ≡ []
          → set_on (json_streams_metadata i) cs ≡ []
          → StreamValues (suc i) sts cs
          → StreamValues i (st ∷ sts) cs
      with_par :
          {i : ℕ} {st : Stream} {sts : List Stream} {cs : List JsonCall} (p : CodecPar)
          (printed : Option Leaf)
          → st.codecpar ≡ some p
          → Printed P i p printed
          → OwnValues st printed (set_on (json_streams i) cs)
          → CodecValues p (set_on (json_streams_codec i) cs)
          → ((k : List ℕ)
              → value (tag k) (set_on (json_streams_metadata i) cs) ≡ tag_text k st.tags)
          → StreamValues (suc i) sts cs
          → StreamValues i (st ∷ sts) cs

    DescribedBy-without_par :
        (i : ℕ) (st : Stream) (sts : List Stream) (cs : List JsonCall)
        → st.codecpar ≡ none
        → DescribedBy P i st cs
        → StreamValues (suc i) sts cs
        → StreamValues i (st ∷ sts) cs
    DescribedBy-without_par i st sts cs e d rest =
        without_par e (ground (arith, d.own, d.without_print)) (ground (arith, d.codec))
          (ground (arith, d.metadata)) rest

    DescribedBy-with_par :
        (i : ℕ) (st : Stream) (sts : List Stream) (cs : List JsonCall) (p : CodecPar)
        → st.codecpar ≡ some p
        → DescribedBy P i st cs
        → StreamValues (suc i) sts cs
        → StreamValues i (st ∷ sts) cs
    DescribedBy-with_par i st sts cs p e d rest =
        let codec : set_on (json_streams_codec i) cs ≡ codec_leaves p = ground (arith, d.codec) in
        let tags : set_on (json_streams_metadata i) cs ≡ tag_leaves st.tags =
          ground (arith, d.metadata) in
        let par : CodecValues p (set_on (json_streams_codec i) cs) =
          rw codec (codec_leaves-CodecValues p) in
        let tagged : (k : List ℕ)
            → value (tag k) (set_on (json_streams_metadata i) cs) ≡ tag_text k st.tags =
          λ k. ap (value (tag k)) tags ∙ value-tag_leaves k st.tags in
        elim (Bool-cases p.is_audio) [
          | inl loud ↦
              let (bytes, holds, front) = d.with_print (ground arith) in
              let own : set_on (json_streams i) cs
                  ≡ (name "chromaprint", text (some bytes)) ∷ stream_leaves st =
                ground (arith, d.own, front) in
              with_par p (given (text (some bytes))) e (rw loud (bytes, holds, refl))
                (rw own (printed-OwnValues st (text (some bytes)))) par tagged rest
          | inr silent ↦
              let front = d.without_print (ground arith) in
              let own : set_on (json_streams i) cs ≡ stream_leaves st =
                ground (arith, d.own, front) in
              with_par p none e (rw silent refl) (rw own (silent-OwnValues st)) par tagged rest
        ]

    pub Described-StreamValues :
        (i : ℕ) (sts : List Stream) (cs : List JsonCall)
        → Described P i sts cs
        → StreamValues i sts cs
    Described-StreamValues i [] cs no_stream = no_values
    Described-StreamValues i (st ∷ sts) cs (stream d ds) =
        let rest = Described-StreamValues (suc i) sts cs ds in
        elim (Option-cases st.codecpar) [
          | inl e ↦ DescribedBy-without_par i st sts cs e d rest
          | inr (p, e) ↦ DescribedBy-with_par i st sts cs p e d rest
        ]
