-- ===== src/Transcode/Run.antt =====
-- do_transcode of native/transcode.c as a whole.
pub mod Laws
pub mod Errors
pub mod Invariant
pub mod Truncated
mod Tests
use audio_fs.Base.{ℕ, Bool, true, false, List, [], Option, none, some, if◌then◌else◌}
use audio_fs.Base.Int.{ℤ, pos, negsuc, is_neg}
use audio_fs.Memory.{Outcome, done, fault, ◌>>=◌}
use audio_fs.Avio.{Handle}
use audio_fs.Transcode.{Ffmpeg, World}
use audio_fs.Transcode.Session.{Session, Media, packet, Answers, Target}
use audio_fs.Transcode.Input.{open_input_file, open_input_file_with_format_context}
use audio_fs.Transcode.Output.{open_output_file}
use audio_fs.Transcode.Filters.{init_filters}
use audio_fs.Transcode.Main.{transcode_packets}
use audio_fs.Transcode.Cleanup.{cleanup}

-- The input: a path to a file with these streams, or a context, which may be NULL.
pub data Source : Type 0 where
  from_file : List Media → Source
  from_context : Option (List Media) → Source

abbrev pub is_path : Source → Bool
is_path (from_file ms) = true
is_path (from_context c) = false

-- The streams that the input has.
abbrev pub streams_of : Source → List Media
streams_of (from_file ms) = ms
streams_of (from_context none) = []
streams_of (from_context (some ms)) = ms

unfoldable pub open_source : Answers → Source → Session → Session × ℤ
unfolding open_input_file
open_source a (from_file ms) s = open_input_file a ms s
open_source a (from_context c) s = open_input_file_with_format_context a c s

module _ (lib : Ffmpeg) (written : lib.Muxer → Handle → Handle) (a : Answers) (t : Target) where
  -- The way to `end` with `ret`, and the muxer `m`.
  abbrev pub leave : Source → lib.Muxer → Session → ℤ → Outcome (Session × Option Handle)
  leave source m s ret = cleanup (is_path source) a.nofile (written m) s ret

  -- From the packet on, with the stream that init_filters selected.
  unfoldable pub run_packets :
      ℕ → Source → ℕ → World lib → Session → Outcome (Session × Option Handle)
  unfolding transcode_packets
  run_packets rounds source selected w s =
      if a.gives packet
      then (transcode_packets lib rounds selected w >>= λ r. leave source r.0.muxer s r.1)
      else leave source w.muxer s (pos selected)

  -- From init_filters on: any value from 0 up counts as the index of the selected stream.
  unfoldable pub run_filters : ℕ → Source → World lib → Session → Outcome (Session × Option Handle)
  unfolding init_filters run_packets
  run_filters rounds source w s = elim (init_filters a (streams_of source) s).1 [
    | negsuc n ↦ leave source w.muxer (init_filters a (streams_of source) s).0 (negsuc n)
    | pos selected ↦ run_packets rounds source selected w (init_filters a (streams_of source) s).0
  ]

  -- do_transcode over a set-up that leaves the parts of the pipeline in the state `w`.
  unfoldable pub do_transcode : ℕ → Source → World lib → Session → Outcome (Session × Option Handle)
  unfolding open_source open_output_file run_filters
  do_transcode rounds source w s =
      let (s1, ret) = open_source a source s in
      if is_neg ret
      then leave source w.muxer s1 ret
      else (open_output_file a (streams_of source) t s1 >>= λ o.
          if is_neg o.1 then leave source w.muxer o.0 o.1 else run_filters rounds source w o.0)
