-- ===== src/Lib.antt =====
-- AudioFS: the native C code under native/, which stores decoded audio in buffers, hands them to
-- FFmpeg as AVIO handles, prepares decoder contexts and resamplers, transcodes, and gives the metadata
-- of a file as JSON, with a fingerprint that it transcodes to memory.
--
-- How the parts lie:
-- - Base: names of the libraries, Boolean tests, lists, signed integers (Base.Int), the text that %d
--   gives (Base.Decimal).
-- - Word: wrap-around of fixed-width integers, and INT32, MIN, MAX, WITHIN_BOUNDS of
--   native/macros.h. A uint64_t is a native number; `% 2 ^ w` is written where C wraps.
-- - Memory: blocks of bytes, the allocator as a parameter (which request is granted, what memory that
--   is not cleared holds), and the outcomes of a call: `done`, `fault` (undefined behaviour),
--   `blocked` (a mutex that is held) and `spent` (fuel used up).
-- - Buffer: audiofs_buffer of native/types.h with audiofs_buffer_alloc (buffer_alloc),
--   audiofs_buffer_ok (buffer_ok) and audiofs_buffer_realloc (buffer_realloc) of native/util.h.
-- - Avio: audiofs_avio_handle of native/custom_avio.h; Avio.Resize, Avio.Transfer, Avio.Seek and
--   Avio.Open have the functions of native/custom_avio.c. A handle owns its buffer, so that a call
--   returns the handle with the buffer changed. The system calls on files are the parameter `Posix`.
--   Open and close also keep a ledger of what is allocated. debugf is empty, as in the release build.
-- - Context: decoder_context of native/types.h, with fix_depth (Context.Depth), detect_dsd
--   (Context.Dsd) and change_target_format (Context.Target) of native/libav.c. FFmpeg's layouts and
--   sample formats are the parameter `Libav`, with what FFmpeg documents of them as fields.
-- - Resampler: native/resampler.c; libswresample is the parameter `SwrApi`, or `Probe` where one call
--   tries an engine out. A resampler is the list of the options that were set on it.
-- - Transcode: native/transcode.c. encode_write_frame and flush_encoder are in Transcode.Encode,
--   filter_encode_write_frame in Transcode.Filter, and the part of do_transcode from its loop to
--   the label `end` in Transcode.Main. FFmpeg is the parameter `Ffmpeg`; packets and frames are values.
--   Transcode.Packets adds the references that the variable `packet` holds in that loop; those of frames
--   and of the encoder's packet have no part, as they are released before they are filled again.
--   Transcode.Reference describes the same flow by folds over lists. The set-up is in Transcode.Input,
--   Transcode.Output and Transcode.Filters, over the static pointers of Transcode.Session and what
--   FFmpeg answers (`Answers`), the part behind `end` in Transcode.Cleanup, and do_transcode as a whole
--   in Transcode.Run. Transcode.Settings has the fields that open_output_file sets on the encoder, and
--   the texts and options that init_filter gives to the ends of the filter graph.
-- - Metadata: get_metadate_from_file of native/libav.c. Metadata.Leaves has what is set in the document,
--   Metadata.Fingerprint the text from do_transcode, Metadata.File the whole function; Jansson appears
--   as the list of its calls, and Metadata.Owned has the rule by which it counts references.
--   Metadata.Document has what is set on each object of the document, Metadata.Whole joins the
--   function with do_transcode, and Metadata.Go has GetMetadataFromFile of native/golang_glue.go, which
--   takes the string. Metadata.Document.Values has what a reader finds under the keys of the document,
--   and Metadata.Success a run of it all, over one audio stream, in which nothing fails.
-- - Log: audiofs_log of native/macros.h as cgo builds it, the variables of native/logbuffer.c, and
--   go_print of native/golang_glue.go. Log.Allocation has AUDIOFS_MALLOC, AUDIOFS_CALLOC and
--   AUDIOFS_FREE of native/macros.h as the build with tracing has them, over one heap with the buffer
--   of the log, and the allocator of native/libav.c for Jansson; the other parts have the effect of
--   these macros written out where they are used.
-- - Setup: audiofs_libav_setup of native/libav.c, and COnwedByteSliceFromAudioFSBuffer of
--   native/golang_glue.go, which hands its buffer to Go.
-- - Threads: threads with program counters at a shared state, their steps and what they reach. Sharing
--   uses it for threads that call COnwedByteSliceFromAudioFSBuffer and audiofs_buffer_realloc on one
--   buffer.
-- - Random: generate_random_string of native/util.h, with the parameter `Urandom`.
-- - Samples: concrete values for the tests, which stand in a module Tests beside each part.
--
-- Bounds and fuel: the loop of audiofs_avio_resize_to runs on fuel `buf_size / 16 MiB + 5`. Three
-- rounds reach 16 MiB, and each later one adds 16 MiB, so that this is enough from every valid buffer.
-- The loops of Transcode run on one fuel for all; it is enough where it is over the number of items
-- that a part of the pipeline can hold, which `Encoding` and `Finite` give.
-- sizeof is that of 64-bit Linux. Bytes are only moved, so a byte is any number.
--
-- Not modelled: the text that Jansson makes of the document; the debug and trace lines but for
-- those of Log.Allocation, since the release build leaves them out, and the other lines at the
-- places that log, since Log has the logger by itself; the stub native/chromaprint.c; main of
-- native/libav.c, which the build without Go has; threads that log at the same time; the Go code
-- but for the three functions named above; audiofs_log in the build without cgo, which is
-- fprintf.
pub mod Base
pub mod Word
pub mod Memory
pub mod Buffer
pub mod Avio
pub mod Context
pub mod Resampler
pub mod Transcode
pub mod Random
pub mod Metadata
pub mod Log
pub mod Setup
pub mod Threads
pub mod Sharing
mod Samples
