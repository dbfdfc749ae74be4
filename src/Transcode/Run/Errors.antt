-- ===== src/Transcode/Run/Errors.antt =====
-- do_transcode where a step of the set-up fails.
use audio_fs.Base.{
  ℕ, ◌+◌, ◌≡◌, refl, ◌∙◌, ◌⊎◌, Bool, inl, inr, true, false, Bool-cases, List, Option, none, some,
  arith,
}
use audio_fs.Base.Int.{ℤ, is_neg}
use audio_fs.Memory.{done, fault}
use audio_fs.Avio.{Handle}
use audio_fs.Transcode.{Ffmpeg, World}
use audio_fs.Transcode.Session.{
  Ref, garbage, object, null_ref, dangling_ref, live, StreamContext, Session, Media, header_written,
  stream_context, Answers, Target, input_opened, stream_info,
}
use audio_fs.Transcode.Input.{
  open_decoders, open_input_file, open_input_file_with_format_context, fresh_stream_context,
}
use audio_fs.Transcode.Input.Laws.{open_decoders-enc_ctx}
use audio_fs.Transcode.Output.{open_output_file}
use audio_fs.Transcode.Output.Laws.{open_output_file-Crippled}
use audio_fs.Transcode.Cleanup.{cleanup}
use audio_fs.Transcode.Cleanup.Laws.{
  Idle, cleanup_null, cleanup_dangling, cleanup_unset, cleanup-Crippled,
}
use audio_fs.Transcode.Run.{
  Source, from_context, from_file, is_path, streams_of, open_source, do_transcode, leave,
}

-- No stream context, or one whose encoder was never set.
abbrev Unready : Session → Type 0
Unready s =
    (s.stream_ctx ≡ null_ref)
    ⊎ ((s.stream_ctx ≡ dangling_ref)
        ⊎ ((st : StreamContext) × (s.stream_ctx ≡ live st) × (st.enc_ctx ≡ garbage)))

Ref-cases {ℓ} :
    {A : Type ℓ} (r : Ref A) → (r ≡ null_ref) ⊎ ((r ≡ dangling_ref) ⊎ ((x : A) × (r ≡ live x)))
Ref-cases null_ref = inl refl
Ref-cases dangling_ref = inr (inl refl)
Ref-cases (live x) = inr (inr (x, refl))

Idle-Unready : (s : Session) → Idle s → Unready s
Idle-Unready s idle = elim (Ref-cases s.stream_ctx) [
  | inl e ↦ inl e
  | inr (inl e) ↦ inr (inl e)
  | inr (inr (st, e)) ↦ absurd (idle.no_stream st e)
]

module _ (a : Answers) where
  open_context-Unready :
      (c : Option (List Media)) (s : Session)
      → Unready s
      → Unready (open_input_file_with_format_context a c s).0
  unfolding open_input_file_with_format_context
  open_context-Unready none s u = u
  open_context-Unready (some ms) s u = elim (Bool-cases (a.gives stream_context)) [
    | inr refused ↦ inl (ground arith)
    | inl given ↦
        let o =
          open_decoders a ms 0
            (record { stream = fresh_stream_context; codecs = s.codecs; frames = s.frames }) in
        inr (
          inr (
            o.0.stream,
            ground arith,
            open_decoders-enc_ctx a ms 0
                (record { stream = fresh_stream_context; codecs = s.codecs; frames = s.frames }),
          ))
  ]

  abbrev opened_file : Session → Session
  opened_file s = record s { ifmt_ctx = object; inputs = s.inputs + 1 }

  -- open_input_file gives up, or goes on as with a context.
  open_input_file-cases :
      (ms : List Media) (s : Session)
      → (((open_input_file a ms s).0.stream_ctx ≡ s.stream_ctx)
          × (is_neg (open_input_file a ms s).1 ≡ true))
        ⊎ (open_input_file a ms s ≡ open_input_file_with_format_context a (some ms) (opened_file s))
  unfolding open_input_file
  open_input_file-cases ms s = elim (Bool-cases (is_neg (a.code input_opened))) [
    | inl bad ↦ inl (ground arith, ground arith)
    | inr good ↦ elim (Bool-cases (is_neg (a.code stream_info))) [
      | inl bad ↦ inl (ground arith, ground arith)
      | inr fine ↦ inr (ground arith)
    ]
  ]

  Unready-same : (s s' : Session) → s'.stream_ctx ≡ s.stream_ctx → Unready s → Unready s'
  Unready-same s s' e (inl u) = inl (e ∙ u)
  Unready-same s s' e (inr (inl u)) = inr (inl (e ∙ u))
  Unready-same s s' e (inr (inr (st, u, unset))) = inr (inr (st, e ∙ u, unset))

  open_source-Unready :
      (source : Source) (s : Session) → Unready s → Unready (open_source a source s).0
  unfolding open_source
  open_source-Unready (from_context c) s u = open_context-Unready c s u
  open_source-Unready (from_file ms) s u = elim (open_input_file-cases ms s) [
    | inl (same, bad) ↦ Unready-same s (open_input_file a ms s).0 same u
    | inr e ↦ rw e (open_context-Unready (some ms) (opened_file s) u)
  ]

  -- A stream context whose encoder is not set.
  abbrev Unset : Session → Type 0
  Unset s = (st : StreamContext) × (s.stream_ctx ≡ live st) × (st.enc_ctx ≡ garbage)

  open_context-Unset :
      (c : Option (List Media)) (s : Session)
      → is_neg (open_input_file_with_format_context a c s).1 ≡ false
      → Unset (open_input_file_with_format_context a c s).0
  unfolding open_input_file_with_format_context
  open_context-Unset none s good = cc
  open_context-Unset (some ms) s good = elim (Bool-cases (a.gives stream_context)) [
    | inr refused ↦ absurd (ground arith)
    | inl given ↦
        let o =
          open_decoders a ms 0
            (record { stream = fresh_stream_context; codecs = s.codecs; frames = s.frames }) in
        (
          o.0.stream,
          ground arith,
          open_decoders-enc_ctx a ms 0
              (record { stream = fresh_stream_context; codecs = s.codecs; frames = s.frames }),
        )
  ]

  open_source-Unset :
      (source : Source) (s : Session)
      → is_neg (open_source a source s).1 ≡ false
      → Unset (open_source a source s).0
  unfolding open_source
  open_source-Unset (from_context c) s good = open_context-Unset c s good
  open_source-Unset (from_file ms) s good = elim (open_input_file-cases ms s) [
    | inl (same, bad) ↦ absurd (cc (bad, good))
    | inr e ↦ rw e (open_context-Unset (some ms) (opened_file s) cc)
  ]

cleanup-Unready :
    (from_path nofile : Bool) (written : Handle → Handle) (s : Session) (ret : ℤ)
    → Unready s
    → cleanup from_path nofile written s ret ≡ fault
cleanup-Unready p n f s ret (inl e) = cleanup_null p n f s ret e
cleanup-Unready p n f s ret (inr (inl e)) = cleanup_dangling p n f s ret e
cleanup-Unready p n f s ret (inr (inr (st, e, unset))) = cleanup_unset p n f s ret st e unset

module _ (lib : Ffmpeg) (written : lib.Muxer → Handle → Handle) (a : Answers) (t : Target) where
  do_transcode_unopened :
      (rounds : ℕ) (source : Source) (w : World lib) (s : Session)
      → is_neg (open_source a source s).1 ≡ true
      → do_transcode lib written a t rounds source w s
        ≡ leave lib written a t source w.muxer (open_source a source s).0 (open_source a source s).1
  unfolding do_transcode
  do_transcode_unopened rounds source w s bad = ground arith

  -- Every failure of the opening of the input is undefined behaviour, where the stream context, the
  -- filter context and the output are NULL or freed before the call, as on the first call and after
  -- each call that returned: the cleanup goes through a stream context that is not there, or frees an
  -- encoder that was never set.
  pub do_transcode_input_fault :
      (rounds : ℕ) (source : Source) (w : World lib) (s : Session)
      → Idle s
      → is_neg (open_source a source s).1 ≡ true
      → do_transcode lib written a t rounds source w s ≡ fault
  do_transcode_input_fault rounds source w s idle bad =
      do_transcode_unopened rounds source w s bad
      ∙ cleanup-Unready (is_path source) a.nofile (written w.muxer) (open_source a source s).0
          (open_source a source s).1 (open_source-Unready a source s (Idle-Unready s idle))

  do_transcode_unstarted :
      (rounds : ℕ) (source : Source) (w : World lib) (s : Session) {s2 : Session} {ret : ℤ}
      → is_neg (open_source a source s).1 ≡ false
      → open_output_file a (streams_of source) t (open_source a source s).0 ≡ done (s2, ret)
      → is_neg ret ≡ true
      → do_transcode lib written a t rounds source w s ≡ leave lib written a t source w.muxer s2 ret
  unfolding do_transcode
  do_transcode_unstarted rounds source w s good run bad = ground arith

  -- Once the input is open, every failure of open_output_file but that of writing the header is
  -- undefined behaviour, where the output format needs a file.
  pub do_transcode_output_fault :
      (rounds : ℕ) (source : Source) (w : World lib) (s : Session) {s2 : Session} {ret : ℤ}
      → is_neg (open_source a source s).1 ≡ false
      → open_output_file a (streams_of source) t (open_source a source s).0 ≡ done (s2, ret)
      → is_neg ret ≡ true
      → is_neg (a.code header_written) ≡ false
      → a.nofile ≡ false
      → do_transcode lib written a t rounds source w s ≡ fault
  do_transcode_output_fault rounds source w s {s2} {ret} good run bad header file =
      let (st, here, unset) = open_source-Unset a source s good in
      do_transcode_unstarted rounds source w s good run bad
      ∙ cleanup-Crippled (is_path source) a.nofile (written w.muxer) s2 ret
          (open_output_file-Crippled a t (streams_of source) (open_source a source s).0 st here
            unset file header run bad)
          file
