-- ===== src/Metadata/Go.antt =====
-- GetMetadataFromFile of native/golang_glue.go, over get_metadate_from_file.
use audio_fs.Base.{
  ℕ, ◌≡◌, ap, ◌∙◌, ◌≤◌, Bool, true, false, List, [], ◌∷◌, Option, none, some, length, arith,
  if◌then◌else◌,
}
use audio_fs.Base.Int.{pos, is_neg}
use audio_fs.Memory.{Outcome, done, fault, ◌>>=◌}
use audio_fs.Avio.{Handle, Posix}
use audio_fs.Avio.Open.{avio_get_size, avio_close}
use audio_fs.Transcode.Session.{Session}
use audio_fs.Metadata.{Stream, CodecPar, MediaFile}
use audio_fs.Metadata.Fingerprint.{fingerprint, read_print}
use audio_fs.Metadata.File.{
  after_print, Walked, walk_streams, null_string, literal_empty, dumped, Returned, Left,
  get_metadate_from_file,
}
use audio_fs.Metadata.File.Walk.{walk_audio, walk}
use audio_fs.Metadata.File.Returns.{enter_streams-done}
use audio_fs.Metadata.File.Results.{before, last_part, read_file_lem, get_metadate_read}

-- The file's metadata as a value of Go, or an error.
pub data GoResult : Type 0 where
  go_metadata go_error : GoResult

-- C.free and json.Unmarshal of the string; the literal "" is not memory that free may be given.
unfoldable pub take_string : Bool → Left × Returned → Outcome (Left × GoResult)
take_string parses (left, null_string) = done (left, go_error)
take_string parses (left, literal_empty) = fault
take_string parses (left, dumped) = done (left, if parses then go_metadata else go_error)

module _ (os : Posix) (grants : ℕ → Bool)
    (transcode : Session → ℕ → Outcome (Session × Option Handle)) where
  -- `parses` is whether json.Unmarshal takes the document.
  unfoldable pub get_metadata_from_file : Bool → MediaFile → Session → Outcome (Left × GoResult)
  unfolding take_string
  get_metadata_from_file parses f s =
      get_metadate_from_file os grants transcode f s >>= take_string parses

  fingerprint_empty :
      (s s' : Session) (i : ℕ) (h : Handle)
      → transcode s i ≡ done (s', some h)
      → avio_get_size os h ≡ pos 0
      → fingerprint os grants transcode s i
        ≡ done (record s' { ledger = avio_close h s'.ledger }, none)
  unfolding fingerprint read_print
  fingerprint_empty s s' i h e size = ground arith

  -- The loop as it stands after the jump to `end`.
  abbrev jumped : Session → Walked
  jumped s = record { session = s; prints = 0; calls = []; ended = true }

  walk_empty :
      (st : Stream) (sts : List Stream) (s s' : Session) (p : CodecPar) (h : Handle)
      → st.codecpar ≡ some p
      → p.is_audio ≡ true
      → transcode s 0 ≡ done (s', some h)
      → avio_get_size os h ≡ pos 0
      → walk os grants transcode 0 (st ∷ sts) s
        ≡ done (jumped (record s' { ledger = avio_close h s'.ledger }))
  unfolding walk_streams
  walk_empty st sts s s' p h e loud run size =
      walk_audio os grants transcode 0 st (walk os grants transcode 1 sts) s p e loud
      ∙ ap (λ o. o >>= after_print 0 p st (walk os grants transcode 1 sts))
          (fingerprint_empty s s' 0 h run size)

  -- Where the first stream is audio, there is room for all streams, and its transcode gives a handle of
  -- size 0, get_metadate_from_file returns the literal "", and GetMetadataFromFile frees it, which is
  -- undefined behaviour.
  pub get_metadata_from_file_fault :
      (parses : Bool) (f : MediaFile) (s s' : Session) (st : Stream) (sts : List Stream)
      (p : CodecPar) (h : Handle)
      → f.context ≡ true
      → is_neg f.open_code ≡ false
      → is_neg f.info_code ≡ false
      → length f.streams ≤ f.room
      → f.streams ≡ st ∷ sts
      → st.codecpar ≡ some p
      → p.is_audio ≡ true
      → transcode s 0 ≡ done (s', some h)
      → avio_get_size os h ≡ pos 0
      → ((o : Left) × (get_metadate_from_file os grants transcode f s ≡ done (o, literal_empty)))
        × (get_metadata_from_file parses f s ≡ fault)
  unfolding get_metadata_from_file
  get_metadata_from_file_fault parses f s s' st sts p h c good fine room here e loud run size =
      let w : Walked = jumped (record s' { ledger = avio_close h s'.ledger }) in
      let (entered, entering) =
        enter_streams-done os grants transcode f.room (length f.streams) 0 (omega arith) in
      let walked : walk os grants transcode 0 f.streams s ≡ done w =
        rw here (walk_empty st sts s s' p h e loud run size) in
      let o : Left = record {
        calls = before os grants transcode f entered w;
        arrays = 0;
        prints = 0;
        session = w.session;
      } in
      let returned : get_metadate_from_file os grants transcode f s ≡ done (o, literal_empty) =
        get_metadate_read os grants transcode f s c good fine
        ∙ read_file_lem os grants transcode f s
        ∙ ap
            (λ e. e >>= λ entered. walk os grants transcode 0 f.streams s >>= λ w.
              last_part os grants transcode f entered w)
            entering
        ∙ ap (λ e. e >>= λ w. last_part os grants transcode f entered w) walked in
      ((o, returned), ap (λ o. o >>= take_string parses) returned)
