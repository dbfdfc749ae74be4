-- ===== src/Transcode/Cleanup.antt =====
-- The part of do_transcode of native/transcode.c behind the label `end`.
pub mod Laws
use audio_fs.Base.{ℕ, ◌+◌, ◌-◌, Bool, true, false, List, Option, none, some, if◌then◌else◌}
use audio_fs.Base.Int.{ℤ, pos, negsuc, is_neg}
use audio_fs.Memory.{Outcome, done, fault, ◌>>=◌}
use audio_fs.Avio.{Handle}
use audio_fs.Transcode.Session.{
  Pointer, null, garbage, dangling, object, Ref, null_ref, dangling_ref, live, StreamContext,
  FilteringContext, Session, free_pointer,
}

-- avcodec_free_context
abbrev pub free_codec : Pointer → Session → Outcome Session
free_codec p s =
    free_pointer p >>= λ freed. done (if freed then record s { codecs = s.codecs - 1 } else s)

-- The filter graph, with the packet and the frame beside it.
unfoldable pub free_graph : FilteringContext → Session → Outcome Session
free_graph f s = elim f.filter_graph [
  | null ↦ done s
  | garbage ↦ fault
  | dangling ↦ fault
  | object ↦ do
    pkt ← free_pointer f.enc_pkt
    frame ← free_pointer f.filtered_frame
    done (record s { graphs = s.graphs - 1 })
]

-- `if (filter_ctx && filter_ctx->filter_graph) { ... }`
unfoldable pub free_filters : Session → Outcome Session
unfolding free_graph
free_filters s = elim s.filter_ctx [
  | null_ref ↦ done s
  | dangling_ref ↦ fault
  | live f ↦ free_graph f s
]

-- What an av_free that does not clear the pointer leaves.
abbrev pub after_free {ℓ} : {A : Type ℓ} → Ref A → Ref A
after_free null_ref = null_ref
after_free dangling_ref = dangling_ref
after_free (live x) = dangling_ref

-- avformat_close_input, where do_transcode opened the input.
unfoldable pub close_input : Bool → Session → Session
close_input from_path s =
    let closed : ℕ = elim s.ifmt_ctx [ object ↦ s.inputs - 1 | _ ↦ s.inputs ] in
    if from_path then record s { ifmt_ctx = null; inputs = closed } else s

-- The handle behind the output, which `written` gives as the muxer's flushed writes leave it, and
-- avformat_free_context, which does not free `pb`.
unfoldable pub take_handle : Bool → (Handle → Handle) → Session → Outcome (Session × Option Handle)
take_handle nofile written s =
    let s' = record s { ofmt_ctx = after_free s.ofmt_ctx } in
    elim s.ofmt_ctx [
      | null_ref ↦ done (s', none)
      | dangling_ref ↦ fault
      | live o ↦
          if nofile
          then done (s', none)
          else elim o.pb [ none ↦ fault | some h ↦ done (s', some (written h)) ]
    ]

-- The part from `end` on, with the value of `ret` there; the packet is an object or NULL.
unfoldable pub cleanup :
    Bool → Bool → (Handle → Handle) → Session → ℤ → Outcome (Session × Option Handle)
unfolding free_filters close_input take_handle
cleanup from_path nofile written s ret = elim s.stream_ctx [
  | null_ref ↦ fault
  | dangling_ref ↦ fault
  | live st ↦ do
    s1 ← free_codec st.dec_ctx s
    s2 ← free_codec st.enc_ctx s1
    s3 ← free_filters s2
    frame ← free_pointer st.dec_frame
    let s4 = record s3 {
      stream_ctx = dangling_ref;
      filter_ctx = after_free s3.filter_ctx;
      frames = if frame then s3.frames - 1 else s3.frames;
    }
    r ← take_handle nofile written (close_input from_path s4)
    done (r.0, if is_neg ret then none else r.1)
]
