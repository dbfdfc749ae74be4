-- ===== src/Metadata/File.antt =====
-- The frame of get_metadate_from_file of native/libav.c: the values and arrays that it makes, the two
-- loops over streams, and the release.
pub mod Laws
pub mod Walk
pub mod Results
pub mod Returns
pub mod Failures
use audio_fs.Base.{
  ℕ, zero, suc, ◌+◌, Bool, true, false, List, [], ◌∷◌, ◌++◌, Option, none, some, length, ltb,
  if◌then◌else◌,
}
use audio_fs.Base.Int.{ℤ, is_neg}
use audio_fs.Memory.{Outcome, done, fault, ◌>>=◌}
use audio_fs.Avio.{Handle, Posix}
use audio_fs.Transcode.Session.{Session}
use audio_fs.Metadata.{
  name, text, JsonCall, object, array, decref, dumps, set_new, set_shared, append, set_leaf,
  CodecPar, Stream, MediaFile, json, json_file, json_file_format, json_file_metadata,
  json_streams_array, json_streams, json_streams_metadata, json_streams_codec,
}
use audio_fs.Metadata.Leaves.{file_calls, stream_calls}
use audio_fs.Metadata.Fingerprint.{Print, fingerprint}

-- The values made at the start.
abbrev pub first_calls : List JsonCall
first_calls =
    object json
    ∷ object json_file
    ∷ object json_file_format
    ∷ object json_file_metadata
    ∷ array json_streams_array
    ∷ []

-- How they are put together once the file is open.
abbrev pub link_calls : List JsonCall
link_calls =
    set_new json (name "file") json_file
    ∷ set_new json_file (name "metadata") json_file_metadata
    ∷ set_new json_file (name "format") json_file_format
    ∷ set_shared json (name "streams") json_streams_array
    ∷ []

abbrev pub entry_calls : ℕ → List JsonCall
entry_calls i =
    object (json_streams i)
    ∷ object (json_streams_metadata i)
    ∷ object (json_streams_codec i)
    ∷ set_shared (json_streams i) (name "metadata") (json_streams_metadata i)
    ∷ set_shared (json_streams i) (name "codec") (json_streams_codec i)
    ∷ append json_streams_array (json_streams i)
    ∷ []

-- The first loop, over `n` streams from index `i` on: each is written into the arrays.
unfoldable pub enter_streams : ℕ → ℕ → ℕ → Outcome (List JsonCall)
enter_streams room i zero = done []
enter_streams room i (suc n) = elim (ltb i room) [
  | false ↦ fault
  | true ↦ enter_streams room (suc i) n >>= λ rest. done (entry_calls i ++ rest)
]

-- What the second loop has come to; `ended` says that the code has jumped to `end`, `prints` counts the
-- copies of fingerprints, which are never freed.
pub record Walked : Type 0 where
  pub session : Session
  pub prints : ℕ
  pub calls : List JsonCall
  pub ended : Bool

-- The loop of json_decref over `n` streams from index `i` on.
unfoldable pub release_streams : ℕ → ℕ → List JsonCall
release_streams i zero = []
release_streams i (suc n) =
    decref (json_streams i)
    ∷ decref (json_streams_metadata i)
    ∷ decref (json_streams_codec i)
    ∷ release_streams (suc i) n

abbrev pub last_calls : List JsonCall
last_calls =
    decref json_file_metadata ∷ decref json_file_format ∷ decref json_file ∷ decref json ∷ []

-- The string returned: NULL, the literal "", or what json_dumps gave.
pub data Returned : Type 0 where
  null_string literal_empty dumped : Returned

-- What a run leaves: its calls of Jansson, the arrays that are not freed, and the loop's results.
pub record Left : Type 0 where
  pub calls : List JsonCall
  pub arrays : ℕ
  pub prints : ℕ
  pub session : Session

-- The calls for a stream, in front of those for the later ones.
abbrev pub noted : ℕ → CodecPar → Stream → Walked → Walked
noted i p st w = record w { calls = stream_calls i p st ++ w.calls }

abbrev pub printed : ℕ → CodecPar → Stream → List ℕ → Walked → Walked
printed i p st bytes w = record w {
  prints = w.prints + 1;
  calls =
      set_leaf (json_streams i) (name "chromaprint") (text (some bytes))
      ∷ (stream_calls i p st ++ w.calls);
}

-- What follows the fingerprint of stream `i`: the jump to `end`, or the rest of the loop, `next`.
abbrev pub after_print : ℕ → CodecPar → Stream → (Session → Outcome Walked) → Print → Outcome Walked
after_print i p st next (s, none) =
    done (record { session = s; prints = 0; calls = []; ended = true })
after_print i p st next (s, some bytes) = next s >>= λ w. done (printed i p st bytes w)

module _ (os : Posix) (grants : ℕ → Bool)
    (transcode : Session → ℕ → Outcome (Session × Option Handle)) where
  -- The body of the second loop; `next` is the rest of the loop.
  unfoldable pub walk_stream : ℕ → Stream → (Session → Outcome Walked) → Session → Outcome Walked
  unfolding fingerprint stream_calls
  walk_stream i st next s = elim st.codecpar [
    | none ↦ next s
    | some p ↦ elim p.is_audio [
      | false ↦ next s >>= λ w. done (noted i p st w)
      | true ↦ fingerprint os grants transcode s i >>= after_print i p st next
    ]
  ]

  -- The second loop, from index `i` on.
  unfoldable pub walk_streams : ℕ → List Stream → Session → Outcome Walked
  unfolding walk_stream
  walk_streams i [] s = done (record { session = s; prints = 0; calls = []; ended = false })
  walk_streams i (st ∷ sts) s = walk_stream i st (walk_streams (suc i) sts) s

  -- From the JSON set-up on, with the file open.
  unfoldable pub read_file : MediaFile → Session → Outcome (Left × Returned)
  unfolding enter_streams walk_streams release_streams file_calls
  read_file f s = enter_streams f.room 0 (length f.streams) >>= λ entered.
      walk_streams 0 f.streams s >>= λ w.
      let before = first_calls ++ (link_calls ++ (entered ++ (file_calls f ++ w.calls))) in
      let left : Left = record {
        calls = before;
        arrays = 0;
        prints = w.prints;
        session = w.session;
      } in
      if w.ended
      then done (left, literal_empty)
      else done (
        record left {
          calls = before ++ (dumps json ∷ (release_streams 0 (length f.streams) ++ last_calls));
        },
        dumped,
      )

  unfoldable pub get_metadate_from_file : MediaFile → Session → Outcome (Left × Returned)
  get_metadate_from_file f s =
      let given_up : Left = record { calls = first_calls; arrays = 3; prints = 0; session = s } in
      if f.context
      then (if is_neg f.open_code
          then done (given_up, null_string)
          else if is_neg f.info_code
          then done (given_up, null_string)
          else read_file f s)
      else fault
