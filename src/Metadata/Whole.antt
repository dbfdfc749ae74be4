-- ===== src/Metadata/Whole.antt =====
-- get_metadate_from_file of native/libav.c over do_transcode of native/transcode.c.
use audio_fs.Base.{
  ℕ, ◌≡◌, true, false, Bool, List, [], ◌∷◌, Option, none, some, arith, if◌then◌else◌,
}
use audio_fs.Base.Int.{ℤ, is_neg}
use audio_fs.Memory.{Outcome, done, fault, Allocator}
use audio_fs.Avio.{Handle, Posix}
use audio_fs.Avio.Open.{Ledger, memory_name, avio_open}
use audio_fs.Transcode.{Ffmpeg, World}
use audio_fs.Transcode.Session.{
  Session, Media, audio, other_media, Answers, Target, Willing, first_audio,
}
use audio_fs.Transcode.Main.{transcode_packets}
use audio_fs.Transcode.Run.{from_context, do_transcode}
use audio_fs.Transcode.Run.Laws.{do_transcode_lem}
use audio_fs.Metadata.{Stream, CodecPar, MediaFile}
use audio_fs.Metadata.File.{Left, Returned, get_metadate_from_file}
use audio_fs.Metadata.File.Failures.{get_metadate_null}

-- The types of the streams, as do_transcode looks at them.
unfoldable pub media_of : List Stream → List Media
media_of [] = []
media_of (st ∷ sts) = elim st.codecpar [
  | none ↦ other_media ∷ media_of sts
  | some p ↦ if p.is_audio then audio ∷ media_of sts else other_media ∷ media_of sts
]

-- `lib`, `written` and the answers are FFmpeg's, for the call for stream `i`; `starts` are the states of
-- its parts as the set-up for that call leaves them. All calls read the same context, so that the
-- demuxer of a later call stands where the one before has left it.
module _ (lib : Ffmpeg) (written : lib.Muxer → Handle → Handle) (mem : Allocator) (os : Posix)
    (grants : ℕ → Bool) (address : ℕ) (rounds : ℕ) (answers : ℕ → Answers)
    (starts : ℕ → World lib) where
  abbrev pub to_memory : Target
  to_memory = record { mem = mem; os = os; address = address; name = memory_name }

  -- do_transcode(NULL, fmt_ctx, "memory", NULL, "chromaprint")
  unfoldable pub transcode_of : MediaFile → Session → ℕ → Outcome (Session × Option Handle)
  transcode_of f s i =
      do_transcode lib written (answers i) to_memory rounds
        (from_context (some (media_of f.streams))) (starts i) s

  unfoldable pub metadata_of : MediaFile → Session → Outcome (Left × Returned)
  unfolding transcode_of
  metadata_of f s = get_metadate_from_file os grants (transcode_of f) f s

  first_stream :
      (f : MediaFile) (st : Stream) (sts : List Stream) (p : CodecPar)
      → f.streams ≡ st ∷ sts
      → st.codecpar ≡ some p
      → p.is_audio ≡ true
      → first_audio (media_of f.streams) 0 ≡ some 0
  unfolding first_audio media_of
  first_stream f st sts p here e loud = rw here (ground arith)

  -- A file that opens and whose first stream is audio is undefined behaviour, where all of the set-up
  -- for its transcode succeeds, but the transcode itself ends with an error.
  pub metadata_of_error_fault :
      (f : MediaFile) (s : Session) (st : Stream) (sts : List Stream) (p : CodecPar) {h : Handle}
      {l : Ledger} {w' : World lib} {ret : ℤ}
      → f.context ≡ true
      → is_neg f.open_code ≡ false
      → is_neg f.info_code ≡ false
      → f.streams ≡ st ∷ sts
      → st.codecpar ≡ some p
      → p.is_audio ≡ true
      → Willing (answers 0)
      → (answers 0).nofile ≡ false
      → avio_open mem os address memory_name s.ledger ≡ (some h, l)
      → transcode_packets lib rounds 0 (starts 0) ≡ done (w', ret)
      → is_neg ret ≡ true
      → metadata_of f s ≡ fault
  unfolding metadata_of
  metadata_of_error_fault f s st sts p {h} {l} {w'} {ret} c o i here e loud will file opened run
        bad =
      let selected = first_stream f st sts p here e loud in
      let whole =
        do_transcode_lem lib written (answers 0) to_memory will file rounds (media_of f.streams)
          (starts 0) s selected opened run in
      get_metadate_null os grants (transcode_of f) f s whole.0 st sts p c o i here e loud
        (rw bad at (whole.1))
