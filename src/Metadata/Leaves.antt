-- ===== src/Metadata/Leaves.antt =====
-- The leaves that get_metadate_from_file of native/libav.c sets, in the order of the code.
use audio_fs.Base.{ℕ, List, [], ◌∷◌, ◌++◌, some, map}
use audio_fs.Metadata.{
  Key, name, tag, Leaf, integer, text, JsonCall, set_leaf, CodecPar, Tags, Stream, MediaFile,
  json_file, json_file_format, json_file_metadata, json_streams, json_streams_metadata,
  json_streams_codec,
}

abbrev pub Leaves : Type 0
Leaves = List (Key × Leaf)

abbrev pub set_leaves : ℕ → Leaves → List JsonCall
set_leaves o leaves = map (λ l. set_leaf o l.0 l.1) leaves

unfoldable pub format_leaves : MediaFile → Leaves
format_leaves f =
    (name "name", text f.format_name)
    ∷ (name "long_name", text f.format_long_name)
    ∷ (name "mime_type", text f.mime_type)
    ∷ (name "flags", integer f.flags)
    ∷ []

unfoldable pub file_leaves : MediaFile → Leaves
file_leaves f =
    (name "start_time", integer f.start_time)
    ∷ (name "duration", integer f.duration)
    ∷ (name "bit_rate", integer f.bit_rate)
    ∷ []

-- The loop over av_dict_get.
unfoldable pub tag_leaves : Tags → Leaves
tag_leaves tags = map (λ t. (tag t.0, text (some t.1))) tags

unfoldable pub stream_leaves : Stream → Leaves
stream_leaves st =
    (name "index", integer st.index)
    ∷ (name "nb_frames", integer st.nb_frames)
    ∷ (name "duration", integer st.duration)
    ∷ (name "time_base_num", integer st.time_base_num)
    ∷ (name "time_base_den", integer st.time_base_den)
    ∷ []

unfoldable pub codec_leaves : CodecPar → Leaves
codec_leaves p =
    (name "ch_layout", text (some p.ch_layout))
    ∷ (name "type", text p.media_type)
    ∷ (name "name", text p.codec_name)
    ∷ (name "codec_tag", integer p.codec_tag)
    ∷ (name "bit_rate", integer p.bit_rate)
    ∷ (name "bits_per_coded_sample", integer p.bits_per_coded_sample)
    ∷ (name "bits_per_raw_sample", integer p.bits_per_raw_sample)
    ∷ (name "profile", integer p.profile)
    ∷ (name "level", integer p.level)
    ∷ (name "width", integer p.width)
    ∷ (name "height", integer p.height)
    ∷ (name "profile", integer p.profile)
    ∷ (name "bits_per_sample", integer p.bits_per_sample)
    ∷ (name "profile_name", text p.profile_name)
    ∷ (name "sample_rate", integer p.sample_rate)
    ∷ (name "frame_size", integer p.frame_size)
    ∷ (name "block_align", integer p.block_align)
    ∷ (name "nb_channels", integer p.nb_channels)
    ∷ []

-- What is set for the file as a whole.
unfoldable pub file_calls : MediaFile → List JsonCall
unfolding format_leaves file_leaves tag_leaves
file_calls f =
    set_leaves json_file_format (format_leaves f)
    ++ (set_leaves json_file (file_leaves f) ++ set_leaves json_file_metadata (tag_leaves f.tags))

-- What is set for stream `i` behind its fingerprint.
unfoldable pub stream_calls : ℕ → CodecPar → Stream → List JsonCall
unfolding stream_leaves codec_leaves tag_leaves
stream_calls i p st =
    set_leaves (json_streams i) (stream_leaves st)
    ++ (set_leaves (json_streams_codec i) (codec_leaves p)
        ++ set_leaves (json_streams_metadata i) (tag_leaves st.tags))
