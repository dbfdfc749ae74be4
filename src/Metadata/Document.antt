-- ===== src/Metadata/Document.antt =====
-- The document that get_metadate_from_file of native/libav.c builds, object by object: the leaves that
-- are set on an object, in order.
pub mod Streams
pub mod Contents
pub mod Values
pub mod Reading
use audio_fs.Base.{
  suc, ◌<◌, ◌≤◌, ℕ, ◌+◌, ◌*◌, ◌≡◌, refl, ◌∙◌, ◌<◌, ◌≤◌, List, [], ◌∷◌, ◌++◌, arith, ◌==◌,
  if◌then◌else◌,
}
use mathlib.Core.List.{append-nil, append_assoc}
use audio_fs.Metadata.{
  JsonCall, object, array, decref, dumps, set_new, set_shared, append, set_leaf, CodecPar, Stream,
  json_streams, json_streams_metadata, json_streams_codec,
}
use audio_fs.Metadata.Leaves.{
  Leaves, set_leaves, stream_leaves, codec_leaves, tag_leaves, stream_calls,
}

abbrev pub set_on : ℕ → List JsonCall → Leaves
set_on o [] = []
set_on o (object r ∷ cs) = set_on o cs
set_on o (array r ∷ cs) = set_on o cs
set_on o (decref r ∷ cs) = set_on o cs
set_on o (dumps r ∷ cs) = set_on o cs
set_on o (set_new p k r ∷ cs) = set_on o cs
set_on o (set_shared p k r ∷ cs) = set_on o cs
set_on o (append a r ∷ cs) = set_on o cs
set_on o (set_leaf p k v ∷ cs) = let rest = set_on o cs in if p == o then (k, v) ∷ rest else rest

pub set_on-append :
    (o : ℕ) (cs ds : List JsonCall) → set_on o (cs ++ ds) ≡ set_on o cs ++ set_on o ds
set_on-append o [] ds = refl
set_on-append o (object r ∷ cs) ds = set_on-append o cs ds
set_on-append o (array r ∷ cs) ds = set_on-append o cs ds
set_on-append o (decref r ∷ cs) ds = set_on-append o cs ds
set_on-append o (dumps r ∷ cs) ds = set_on-append o cs ds
set_on-append o (set_new p k r ∷ cs) ds = set_on-append o cs ds
set_on-append o (set_shared p k r ∷ cs) ds = set_on-append o cs ds
set_on-append o (append a r ∷ cs) ds = set_on-append o cs ds
set_on-append o (set_leaf p k v ∷ cs) ds = ground (arith, set_on-append o cs ds)

-- What leaves set on `a` are for `o`.
abbrev pub pick : ℕ → ℕ → Leaves → Leaves
pick o a ls = if a == o then ls else []

set_on-set_leaves : (o a : ℕ) (ls : Leaves) → set_on o (set_leaves a ls) ≡ pick o a ls
set_on-set_leaves o a [] = ground arith
set_on-set_leaves o a (l ∷ ls) = ground (arith, set_on-set_leaves o a ls)

pub set_on-three :
    (o a b c : ℕ) (ls ms ns : Leaves)
    → set_on o (set_leaves a ls ++ (set_leaves b ms ++ set_leaves c ns))
      ≡ pick o a ls ++ (pick o b ms ++ pick o c ns)
set_on-three o a b c ls ms ns = cc (
  set_on-append o (set_leaves a ls) (set_leaves b ms ++ set_leaves c ns),
  set_on-append o (set_leaves b ms) (set_leaves c ns),
  set_on-set_leaves o a ls,
  set_on-set_leaves o b ms,
  set_on-set_leaves o c ns,
)

-- The calls for stream `i` set leaves on its three objects only.
pub set_on-stream_calls :
    (o i : ℕ) (p : CodecPar) (st : Stream)
    → set_on o (stream_calls i p st)
      ≡ pick o (json_streams i) (stream_leaves st)
        ++ (pick o (json_streams_codec i) (codec_leaves p)
            ++ pick o (json_streams_metadata i) (tag_leaves st.tags))
unfolding stream_calls
set_on-stream_calls o i p st =
    set_on-three o (json_streams i) (json_streams_codec i) (json_streams_metadata i)
      (stream_leaves st) (codec_leaves p) (tag_leaves st.tags)

-- Only objects of streams from index `i` on are written.
abbrev pub Above : ℕ → List JsonCall → Type 0
Above i cs = (o : ℕ) → o < json_streams i → set_on o cs ≡ []

-- The calls for stream `i` in front of calls for later streams.
module _ (i : ℕ) (p : CodecPar) (st : Stream) (cs : List JsonCall) where
  pub own_calls :
      Above (suc i) cs → set_on (json_streams i) (stream_calls i p st ++ cs) ≡ stream_leaves st
  own_calls above = ground (
    arith,
    set_on-append (json_streams i) (stream_calls i p st) cs,
    set_on-stream_calls (json_streams i) i p st,
    above (json_streams i) (omega arith),
    append-nil (stream_leaves st),
  )

  pub codec_calls :
      Above (suc i) cs → set_on (json_streams_codec i) (stream_calls i p st ++ cs) ≡ codec_leaves p
  codec_calls above = ground (
    arith,
    set_on-append (json_streams_codec i) (stream_calls i p st) cs,
    set_on-stream_calls (json_streams_codec i) i p st,
    above (json_streams_codec i) (omega arith),
    append-nil (codec_leaves p),
  )

  pub tag_calls :
      Above (suc i) cs
      → set_on (json_streams_metadata i) (stream_calls i p st ++ cs) ≡ tag_leaves st.tags
  tag_calls above = ground (
    arith,
    set_on-append (json_streams_metadata i) (stream_calls i p st) cs,
    set_on-stream_calls (json_streams_metadata i) i p st,
    above (json_streams_metadata i) (omega arith),
    append-nil (tag_leaves st.tags),
  )

  pub below_calls :
      (o : ℕ) → o < json_streams i → set_on o (stream_calls i p st ++ cs) ≡ set_on o cs
  below_calls o q =
      ground (arith, set_on-append o (stream_calls i p st) cs, set_on-stream_calls o i p st)

  pub above_calls :
      (o : ℕ) → json_streams (suc i) ≤ o → set_on o (stream_calls i p st ++ cs) ≡ set_on o cs
  above_calls o q =
      ground (arith, set_on-append o (stream_calls i p st) cs, set_on-stream_calls o i p st)
