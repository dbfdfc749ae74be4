-- ===== src/Metadata.antt =====
-- get_metadate_from_file of native/libav.c. Jansson is not modelled: a run gives the list of its calls
-- of Jansson, where a value is named by the order in which the code makes it. `Metadata.Owned` has the
-- rule by which Jansson counts references.
pub mod Leaves
pub mod Fingerprint
pub mod File
pub mod Whole
pub mod Go
pub mod Success
pub mod Document
pub mod Owned
mod Samples
mod Tests
use audio_fs.Base.{ℕ, ◌+◌, ◌*◌, Bool, List, Option}
use audio_fs.Base.Int.{ℤ}
use Prim.Native.String.{String}

-- A key of an object: a literal of the code, or the key of a tag.
pub data Key : Type 0 where
  name : String → Key
  tag : List ℕ → Key

-- json_integer of a number, or json_string of a text that may be NULL.
pub data Leaf : Type 0 where
  integer : ℤ → Leaf
  text : Option (List ℕ) → Leaf

-- The calls of Jansson. json_object_set_new takes over the reference to the value, as `set_leaf` does
-- with the new leaf; json_object_set and json_array_append make one of their own.
pub data JsonCall : Type 0 where
  object array decref dumps : ℕ → JsonCall
  set_new set_shared : ℕ → Key → ℕ → JsonCall
  append : ℕ → ℕ → JsonCall
  set_leaf : ℕ → Key → Leaf → JsonCall

-- What the code reads of a stream's codecpar. A text is `none` where FFmpeg gives NULL.
pub record CodecPar : Type 0 where
  pub is_audio : Bool
  pub ch_layout : List ℕ
  pub media_type : Option (List ℕ)
  pub codec_name : Option (List ℕ)
  pub codec_tag : ℤ
  pub bit_rate : ℤ
  pub bits_per_coded_sample : ℤ
  pub bits_per_raw_sample : ℤ
  pub profile : ℤ
  pub level : ℤ
  pub width : ℤ
  pub height : ℤ
  pub bits_per_sample : ℤ
  pub profile_name : Option (List ℕ)
  pub sample_rate : ℤ
  pub frame_size : ℤ
  pub block_align : ℤ
  pub nb_channels : ℤ

abbrev pub Tags : Type 0
Tags = List (List ℕ × List ℕ)

pub record Stream : Type 0 where
  pub codecpar : Option CodecPar
  pub index : ℤ
  pub nb_frames : ℤ
  pub duration : ℤ
  pub time_base_num : ℤ
  pub time_base_den : ℤ
  pub tags : Tags

-- The file as FFmpeg sees it: whether a context is given, the codes of opening it and of finding its
-- streams, and what is in it. `room` is how many pointers fit into each array that calloc gave for the
-- `nb_streams` of the context that avformat_alloc_context gave, which is FFmpeg's to say and counts no
-- stream before the file is opened.
pub record MediaFile : Type 0 where
  pub context : Bool
  pub room : ℕ
  pub open_code : ℤ
  pub info_code : ℤ
  pub format_name : Option (List ℕ)
  pub format_long_name : Option (List ℕ)
  pub mime_type : Option (List ℕ)
  pub flags : ℤ
  pub start_time : ℤ
  pub duration : ℤ
  pub bit_rate : ℤ
  pub tags : Tags
  pub streams : List Stream

-- The names of the values: five for the file, then three for each stream.
abbrev pub json : ℕ
json = 0

abbrev pub json_file : ℕ
json_file = 1

abbrev pub json_file_format : ℕ
json_file_format = 2

abbrev pub json_file_metadata : ℕ
json_file_metadata = 3

abbrev pub json_streams_array : ℕ
json_streams_array = 4

abbrev pub json_streams : ℕ → ℕ
json_streams i = 5 + 3 * i

abbrev pub json_streams_metadata : ℕ → ℕ
json_streams_metadata i = 6 + 3 * i

abbrev pub json_streams_codec : ℕ → ℕ
json_streams_codec i = 7 + 3 * i
