-- ===== src/Metadata/Fingerprint.antt =====
-- The fingerprint of an audio stream in get_metadate_from_file of native/libav.c: a transcode to
-- memory, whose bytes are copied out of the handle.
pub mod Laws
pub mod Chunks
use audio_fs.Base.{
  ℕ, zero, suc, ◌+◌, Bool, true, false, List, [], ◌∷◌, Option, none, some, ltb, ◌==◌, if◌then◌else◌,
}
use audio_fs.Base.Int.{pos, negsuc}
use audio_fs.Memory.{Outcome, done, fault, ◌>>=◌, Block}
use audio_fs.Avio.{Handle, Posix}
use audio_fs.Avio.Open.{avio_get_size, avio_close}
use audio_fs.Avio.Transfer.{data_of}
use audio_fs.Transcode.Session.{Session}

-- strncpy from index `i` on, as the C string that it gives in memory that was cleared: up to `n` bytes,
-- up to a byte 0.
unfoldable pub copy_string : ℕ → ℕ → Block → Outcome (List ℕ)
copy_string zero i src = done []
copy_string (suc n) i src = elim (ltb i src.size) [
  | false ↦ fault
  | true ↦ elim (src.byte i == 0) [
    | true ↦ done []
    | false ↦ copy_string n (suc i) src >>= λ rest. done (src.byte i ∷ rest)
  ]
]

-- What was returned for stream `i`: the session, and the text, or nothing where the code jumps to `end`.
abbrev pub Print : Type 0
Print = Session × Option (List ℕ)

-- The handle, if there is one, to the text; `grants` says whether there is room for so many bytes.
unfoldable pub read_print : Posix → (ℕ → Bool) → Session × Option Handle → Outcome Print
unfolding copy_string avio_get_size
read_print os grants (s, none) = fault
read_print os grants (s, some h) =
    let closed : Session = record s { ledger = avio_close h s.ledger } in
    elim (avio_get_size os h) [
      | negsuc n ↦ done (closed, none)
      | pos zero ↦ done (closed, none)
      | pos (suc n) ↦
          if grants (suc n + 1)
          then (do
            src ← data_of h.buffer
            bytes ← copy_string (suc n) 0 src
            done (closed, some bytes))
          else fault
    ]

-- `transcode` is do_transcode of the open file to "memory".
unfoldable pub fingerprint :
    Posix
    → (ℕ → Bool)
    → (Session → ℕ → Outcome (Session × Option Handle))
    → Session
    → ℕ
    → Outcome Print
unfolding read_print
fingerprint os grants transcode s i = transcode s i >>= read_print os grants
