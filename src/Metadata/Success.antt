-- ===== src/Metadata/Success.antt =====
-- A run of get_metadate_from_file of native/libav.c in which all goes well, over do_transcode and the
-- AVIO handle that the muxer writes to.
use audio_fs.Base.{ℕ, ◌≡◌, ◌≤◌, true, false, Bool, List, [], ◌∷◌, Option, some, length}
use audio_fs.Base.Int.{ℤ, is_neg}
use audio_fs.Memory.{Outcome, done, Allocator, Request}
use audio_fs.Avio.{Handle, Posix, int32_max}
use audio_fs.Avio.Transfer.Sequence.{write_all}
use audio_fs.Transcode.{Ffmpeg, World}
use audio_fs.Transcode.Session.{Session, Answers, Willing, first_audio}
use audio_fs.Transcode.Main.{transcode_packets}
use audio_fs.Metadata.{MediaFile}
use audio_fs.Metadata.Fingerprint.Laws.{textual}
use audio_fs.Metadata.Whole.{media_of, transcode_of}

-- A call of do_transcode goes well: FFmpeg grants all, and the packets of stream `k` are run without
-- an error to a muxer that has written one chunk, a text that holds no 0.
pub record PrintedOnce (lib : Ffmpeg) (chunks : lib.Muxer → List (List ℕ)) (rounds k : ℕ)
    (a : Answers) (start : World lib) : Type 0 where
  pub willing : Willing a
  pub needs_file : a.nofile ≡ false
  pub last : World lib
  pub ret : ℤ
  pub run : transcode_packets lib rounds k start ≡ done (last, ret)
  pub good : is_neg ret ≡ false
  pub head : ℕ
  pub tail : List ℕ
  pub written_once : chunks last.muxer ≡ (head ∷ tail) ∷ []
  pub short : length (head ∷ tail) ≤ int32_max
  pub clean : textual (head ∷ tail) ≡ true

-- FFmpeg's answers in the one call, and the state of its parts behind the set-up of that call. `chunks` are those that the muxer hands to the callback audiofs_avio_write, so that `written` is the
-- handle behind those writes.
module _ (lib : Ffmpeg) (written : lib.Muxer → Handle → Handle) (mem : Allocator) (os : Posix)
    (grants : ℕ → Bool) (address : ℕ) (rounds : ℕ) (answers : Answers) (start : World lib)
    (chunks : lib.Muxer → List (List ℕ))
    (writes : (m : lib.Muxer) (h h' : Handle)
      → write_all mem os h (chunks m) ≡ done (some h')
      → written m h ≡ h')
    (memory : (r : Request) (size : ℕ) → mem.grants r size ≡ true)
    (text_memory : (size : ℕ) → grants size ≡ true) where
  abbrev transcode : MediaFile → Session → ℕ → Outcome (Session × Option Handle)
  transcode = transcode_of lib written mem os grants address rounds (λ i. answers) (λ i. start)

  module _ (f : MediaFile) {k : ℕ} (selected : first_audio (media_of f.streams) 0 ≡ some k)
      (p : PrintedOnce lib chunks rounds k answers start) where
    -- The text that the call writes.
    abbrev pub print_text : List ℕ
    print_text = p.head ∷ p.tail
