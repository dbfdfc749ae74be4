-- ===== src/Transcode/Session.antt =====
-- The static pointers of native/transcode.c, what they point to, and what FFmpeg answers while files
-- and filters are set up.
use audio_fs.Base.{ℕ, suc, ◌+◌, ◌≡◌, Bool, true, false, List, [], ◌∷◌, Option, none, some}
use audio_fs.Base.Int.{ℤ, pos, negsuc, is_neg}
use audio_fs.Memory.{Outcome, done, fault, Allocator}
use audio_fs.Avio.{Handle, Posix}
use audio_fs.Avio.Open.{Ledger}

-- A pointer to an object of FFmpeg: NULL, not initialised, freed, or good.
pub data Pointer : Type 0 where
  null garbage dangling object : Pointer

-- A pointer to a structure whose fields the file uses.
pub data Ref {ℓ} (A : Type ℓ) : Type ℓ where
  null_ref dangling_ref : Ref A
  live : A → Ref A

pub record StreamContext : Type 0 where
  pub dec_ctx : Pointer
  pub enc_ctx : Pointer
  pub dec_frame : Pointer

pub record FilteringContext : Type 0 where
  pub buffersink_ctx : Pointer
  pub buffersrc_ctx : Pointer
  pub filter_graph : Pointer
  pub enc_pkt : Pointer
  pub filtered_frame : Pointer

-- The output's AVFormatContext: `pb` is NULL, or has the handle as its `opaque`.
pub record OutputContext : Type 0 where
  pub pb : Option Handle

-- The four static pointers, and what is alive: codec contexts, the frames of decoders, filter graphs with their packet and frame, inputs that were opened
-- here, AVIO contexts, and what the AVIO handles hold.
pub record Session : Type 0 where
  pub ifmt_ctx : Pointer
  pub ofmt_ctx : Ref OutputContext
  pub filter_ctx : Ref FilteringContext
  pub stream_ctx : Ref StreamContext
  pub codecs : ℕ
  pub frames : ℕ
  pub graphs : ℕ
  pub inputs : ℕ
  pub avios : ℕ
  pub ledger : Ledger

-- The type of a stream of the input.
pub data Media : Type 0 where
  audio other_media : Media

-- The calls that give a pointer or NULL; a number is the index of a stream of the input.
pub data Need : Type 0 where
  stream_context output_context avio_context filter_context packet : Need
  decoder decoder_context decoder_frame output_stream encoder encoder_context : ℕ → Need
  outputs_list inputs_list filter_graph_struct abuffer abuffersink in_name out_name : Need
  encoder_packet filtered_frame_struct : Need

-- The calls that give a code, negative where they fail.
pub data Call : Type 0 where
  input_opened stream_info header_written : Call
  decoder_parameters decoder_opened layout_copied encoder_opened encoder_parameters : ℕ → Call
  source_created sink_created formats_set layouts_set rates_set : Call
  graph_parsed graph_configured : Call

-- What FFmpeg answers; `nofile` is the flag AVFMT_NOFILE of the output format.
pub record Answers : Type 0 where
  pub gives : Need → Bool
  pub code : Call → ℤ
  pub nofile : Bool

-- Where the output goes: the system below audiofs_avio_open, and the name.
pub record Target : Type 0 where
  pub mem : Allocator
  pub os : Posix
  pub address : ℕ
  pub name : List ℕ

-- AVERROR(ENOMEM), AVERROR_DECODER_NOT_FOUND, AVERROR_UNKNOWN and AVERROR_INVALIDDATA
abbrev pub averror_enomem : ℤ
averror_enomem = negsuc 11

abbrev pub averror_decoder_not_found : ℤ
averror_decoder_not_found = negsuc 1128613111

abbrev pub averror_unknown : ℤ
averror_unknown = negsuc 1313558100

abbrev pub averror_invaliddata : ℤ
averror_invaliddata = negsuc 1094995528

-- An allocated pointer: NULL where nothing was given.
abbrev pub pointer_of : Bool → Pointer
pointer_of true = object
pointer_of false = null

-- A free function of FFmpeg: nothing at NULL, undefined behaviour at a pointer that is no object; the
-- result says whether an object was freed.
abbrev pub free_pointer : Pointer → Outcome Bool
free_pointer null = done false
free_pointer garbage = fault
free_pointer dangling = fault
free_pointer object = done true

-- FFmpeg grants everything: each pointer is given, no call fails, and avfilter_graph_config returns 0.
pub record Willing (a : Answers) : Type 0 where
  pub given : (n : Need) → a.gives n ≡ true
  pub fine : (c : Call) → is_neg (a.code c) ≡ false
  pub configured : a.code graph_configured ≡ pos 0

-- The number of audio streams, and the index of the first one, counted from `i`.
unfoldable pub audios : List Media → ℕ
audios [] = 0
audios (other_media ∷ ms) = audios ms
audios (audio ∷ ms) = audios ms + 1

unfoldable pub first_audio : List Media → ℕ → Option ℕ
first_audio [] i = none
first_audio (other_media ∷ ms) i = first_audio ms (suc i)
first_audio (audio ∷ ms) i = some i
