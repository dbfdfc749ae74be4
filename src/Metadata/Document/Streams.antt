-- ===== src/Metadata/Document/Streams.antt =====
-- What the second loop of get_metadate_from_file sets on the objects of each stream.
use audio_fs.Base.{
  ℕ, suc, ◌≡◌, refl, ◌∙◌, ◌≤◌, Bool, true, false, List, [], ◌∷◌, ◌++◌, none, some, arith,
}
use audio_fs.Metadata.{
  name, text, JsonCall, CodecPar, Stream, json_streams, json_streams_metadata, json_streams_codec,
}
use audio_fs.Metadata.Leaves.{Leaves, stream_leaves, codec_leaves, tag_leaves}
use audio_fs.Metadata.File.{Walked, noted, printed}
use audio_fs.Metadata.Document.{
  set_on, Above, own_calls, codec_calls, tag_calls, below_calls, above_calls,
}

-- What a stream is described by: nothing where it has no parameters.
abbrev pub own_part : Stream → Leaves
own_part st = elim st.codecpar [ none ↦ [] | some p ↦ stream_leaves st ]

abbrev pub codec_part : Stream → Leaves
codec_part st = elim st.codecpar [ none ↦ [] | some p ↦ codec_leaves p ]

abbrev pub tag_part : Stream → Leaves
tag_part st = elim st.codecpar [ none ↦ [] | some p ↦ tag_leaves st.tags ]

abbrev pub audible : Stream → Bool
audible st = elim st.codecpar [ none ↦ false | some p ↦ p.is_audio ]

module _ (P : ℕ → List ℕ → Type 0) where
  -- The leaves of stream `i` in the calls: an audio stream has a fingerprint in front, of
  -- which `P` holds.
  pub record DescribedBy (i : ℕ) (st : Stream) (cs : List JsonCall) : Type 0 where
    pub front : Leaves
    pub with_print :
        audible st ≡ true
        → (bytes : List ℕ) × P i bytes × (front ≡ (name "chromaprint", text (some bytes)) ∷ [])
    pub without_print : audible st ≡ false → front ≡ []
    pub own : set_on (json_streams i) cs ≡ front ++ own_part st
    pub codec : set_on (json_streams_codec i) cs ≡ codec_part st
    pub metadata : set_on (json_streams_metadata i) cs ≡ tag_part st

  -- Each of the streams, from index `i` on.
  pub data Described : ℕ → List Stream → List JsonCall → Type 0 where
    no_stream : {i : ℕ} {cs : List JsonCall} → Described i [] cs
    stream :
        {i : ℕ} {st : Stream} {sts : List Stream} {cs : List JsonCall}
        → DescribedBy i st cs
        → Described (suc i) sts cs
        → Described i (st ∷ sts) cs

  -- Calls that set the same on the objects from index `i` on describe the same streams.
  pub Described-same :
      (i : ℕ) (sts : List Stream) (cs ds : List JsonCall)
      → ((o : ℕ) → json_streams i ≤ o → set_on o ds ≡ set_on o cs)
      → Described i sts cs
      → Described i sts ds
  Described-same i [] cs ds same no_stream = no_stream
  Described-same i (st ∷ sts) cs ds same (stream d ds') =
      stream
        (record {
          front = d.front;
          with_print = d.with_print;
          without_print = d.without_print;
          own = same (json_streams i) (omega arith) ∙ d.own;
          codec = same (json_streams_codec i) (omega arith) ∙ d.codec;
          metadata = same (json_streams_metadata i) (omega arith) ∙ d.metadata;
        })
        (Described-same (suc i) sts cs ds (λ o p. same o (omega arith)) ds')

  skipped-DescribedBy :
      (i : ℕ) (st : Stream) (cs : List JsonCall)
      → st.codecpar ≡ none
      → Above (suc i) cs
      → DescribedBy i st cs
  skipped-DescribedBy i st cs e above = record {
    front = [];
    with_print = λ loud. absurd (ground arith);
    without_print = λ silent. refl;
    own = ground (arith, above (json_streams i) (omega arith));
    codec = ground (arith, above (json_streams_codec i) (omega arith));
    metadata = ground (arith, above (json_streams_metadata i) (omega arith));
  }

  noted-DescribedBy :
      (i : ℕ) (st : Stream) (p : CodecPar) (w : Walked)
      → st.codecpar ≡ some p
      → p.is_audio ≡ false
      → Above (suc i) w.calls
      → DescribedBy i st (noted i p st w).calls
  noted-DescribedBy i st p w e plain above = record {
    front = [];
    with_print = λ loud. absurd (ground arith);
    without_print = λ silent. refl;
    own = ground (arith, own_calls i p st w.calls above);
    codec = ground (arith, codec_calls i p st w.calls above);
    metadata = ground (arith, tag_calls i p st w.calls above);
  }

  printed-DescribedBy :
      (i : ℕ) (st : Stream) (p : CodecPar) (bytes : List ℕ) (w : Walked)
      → st.codecpar ≡ some p
      → p.is_audio ≡ true
      → P i bytes
      → Above (suc i) w.calls
      → DescribedBy i st (printed i p st bytes w).calls
  printed-DescribedBy i st p bytes w e loud holds above = record {
    front = (name "chromaprint", text (some bytes)) ∷ [];
    with_print = λ _. (bytes, holds, refl);
    without_print = λ silent. absurd (ground arith);
    own = ground (arith, own_calls i p st w.calls above);
    codec = ground (arith, codec_calls i p st w.calls above);
    metadata = ground (arith, tag_calls i p st w.calls above);
  }

  -- What a loop that ends without the jump has set.
  abbrev pub Set : ℕ → List Stream → Walked → Type 0
  Set i sts w = w.ended ≡ false → Above i w.calls × Described i sts w.calls

  pub skipped-Set :
      (i : ℕ) (st : Stream) (sts : List Stream) (w : Walked)
      → st.codecpar ≡ none
      → Set (suc i) sts w
      → Set i (st ∷ sts) w
  skipped-Set i st sts w e later on =
      let (above, described) = later on in
      (λ o q. above o (omega arith), stream (skipped-DescribedBy i st w.calls e above) described)

  pub noted-Set :
      (i : ℕ) (st : Stream) (sts : List Stream) (p : CodecPar) (w : Walked)
      → st.codecpar ≡ some p
      → p.is_audio ≡ false
      → Set (suc i) sts w
      → Set i (st ∷ sts) (noted i p st w)
  noted-Set i st sts p w e plain later on =
      let (above, described) = later on in
      (
        λ o q. below_calls i p st w.calls o q ∙ above o (omega arith),
        stream (noted-DescribedBy i st p w e plain above) (
            Described-same (suc i) sts w.calls (noted i p st w).calls (above_calls i p st w.calls)
              described),
      )

  pub printed-Set :
      (i : ℕ) (st : Stream) (sts : List Stream) (p : CodecPar) (bytes : List ℕ) (w : Walked)
      → st.codecpar ≡ some p
      → p.is_audio ≡ true
      → P i bytes
      → Set (suc i) sts w
      → Set i (st ∷ sts) (printed i p st bytes w)
  printed-Set i st sts p bytes w e loud holds later on =
      let (above, described) = later on in
      (
        λ o q. ground (arith, below_calls i p st w.calls o q, above o (omega arith)),
        stream (printed-DescribedBy i st p bytes w e loud holds above) (
            Described-same (suc i) sts w.calls (printed i p st bytes w).calls
              (λ o q. ground (arith, above_calls i p st w.calls o q)) described),
      )

-- What holds of each fingerprint may be weakened.
pub Described-imp :
    (P Q : ℕ → List ℕ → Type 0) (i : ℕ) (sts : List Stream) (cs : List JsonCall)
    → ((i : ℕ) (bytes : List ℕ) → P i bytes → Q i bytes)
    → Described P i sts cs
    → Described Q i sts cs
Described-imp P Q i [] cs imp no_stream = no_stream
Described-imp P Q i (st ∷ sts) cs imp (stream d ds) =
    stream
      (record {
        front = d.front;
        with_print =
            λ loud. let (bytes, holds, eq) = d.with_print loud in (bytes, imp i bytes holds, eq);
        without_print = d.without_print;
        own = d.own;
        codec = d.codec;
        metadata = d.metadata;
      })
      (Described-imp P Q (suc i) sts cs imp ds)
