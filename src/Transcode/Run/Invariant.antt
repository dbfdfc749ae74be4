-- ===== src/Transcode/Run/Invariant.antt =====
-- The static pointers between the calls of do_transcode.
use audio_fs.Base.{
  ℕ, suc, ◌≡◌, refl, ap, sym, ◌-◌, ◌∙◌, Bool, Bool-cases, true, false, inl, inr, List, [], ◌∷◌,
  Option, none, some, arith, if◌then◌else◌,
}
use audio_fs.Base.Int.{ℤ, pos, negsuc, is_neg}
use audio_fs.Memory.{Outcome, done, >>=-eq-done, ◌>>=◌}
use audio_fs.Avio.{Handle}
use audio_fs.Transcode.{Ffmpeg, World}
use audio_fs.Transcode.Session.{
  Pointer, null, garbage, dangling, object, null_ref, dangling_ref, live, StreamContext,
  free_pointer, FilteringContext, Session, Media, audio, other_media, packet, Answers, Target,
}
use audio_fs.Transcode.Input.{open_input_file_with_format_context}
use audio_fs.Transcode.Output.{open_pb, start_output, open_output_file}
use audio_fs.Transcode.Filters.{
  fresh_filtering_context, init_filter, init_stream, init_streams, init_filters,
}
use audio_fs.Transcode.Main.{transcode_packets}
use audio_fs.Transcode.Cleanup.{
  free_codec, free_graph, free_filters, close_input, take_handle, cleanup, after_free,
}
use audio_fs.Transcode.Cleanup.Laws.{Idle, cleanup-Idle, cleanup_null, cleanup_dangling}
use audio_fs.Transcode.Run.{
  Source, from_file, from_context, is_path, streams_of, open_source, run_packets, run_filters,
  do_transcode, leave,
}

-- What a call leaves in `ifmt_ctx`: NULL for a path, else the context that it was given; where it was
-- given NULL, what was there.
abbrev pub input_left : Source → Session → Pointer
input_left (from_file ms) s = null
input_left (from_context none) s = s.ifmt_ctx
input_left (from_context (some ms)) s = object

-- The session behind a call, from the session at `end` on.
abbrev pub Closed : Source → Session → Session → Type 0
Closed source s s' = Idle s' × (s'.ifmt_ctx ≡ (if is_path source then null else s.ifmt_ctx))

free_codec-ifmt_ctx :
    (p : Pointer) (s : Session) {s' : Session} → free_codec p s ≡ done s' → s'.ifmt_ctx ≡ s.ifmt_ctx
free_codec-ifmt_ctx null s run = ground arith
free_codec-ifmt_ctx garbage s run = cc
free_codec-ifmt_ctx dangling s run = cc
free_codec-ifmt_ctx object s run = ground arith

free_filters-ifmt_ctx :
    (s : Session) {s' : Session} → free_filters s ≡ done s' → s'.ifmt_ctx ≡ s.ifmt_ctx
unfolding free_filters free_graph
free_filters-ifmt_ctx s run = ground arith

take_handle-ifmt_ctx :
    (nofile : Bool) (written : Handle → Handle) (s : Session) {r : Session × Option Handle}
    → take_handle nofile written s ≡ done r
    → r.0.ifmt_ctx ≡ s.ifmt_ctx
unfolding take_handle
take_handle-ifmt_ctx nofile written s run = ground arith

close_input-ifmt_ctx :
    (from_path : Bool) (s : Session)
    → (close_input from_path s).ifmt_ctx ≡ (if from_path then null else s.ifmt_ctx)
unfolding close_input
close_input-ifmt_ctx true s = refl
close_input-ifmt_ctx false s = refl

module _ (from_path nofile : Bool) (written : Handle → Handle) where
  -- The parts of the cleanup behind the label, from the last one on.
  module _ (st : StreamContext) (ret : ℤ) where
    abbrev behind_frame : Session → Bool → Outcome (Session × Option Handle)
    behind_frame s3 frame =
        take_handle nofile written (
          close_input from_path (record s3 {
            stream_ctx = dangling_ref;
            filter_ctx = after_free s3.filter_ctx;
            frames = if frame then s3.frames - 1 else s3.frames;
          }))
        >>= λ r. done (r.0, if is_neg ret then none else r.1)

    abbrev behind_filters : Session → Outcome (Session × Option Handle)
    behind_filters s3 = free_pointer st.dec_frame >>= behind_frame s3

    abbrev behind_encoder : Session → Outcome (Session × Option Handle)
    behind_encoder s2 = free_filters s2 >>= behind_filters

    abbrev behind_decoder : Session → Outcome (Session × Option Handle)
    behind_decoder s1 = free_codec st.enc_ctx s1 >>= behind_encoder

    cleanup-behind_decoder :
        (s : Session)
        → s.stream_ctx ≡ live st
        → cleanup from_path nofile written s ret ≡ (free_codec st.dec_ctx s >>= behind_decoder)
    unfolding cleanup
    cleanup-behind_decoder s e = rw e

    live-ifmt_ctx :
        (s : Session) {s' : Session} {h : Option Handle}
        → (free_codec st.dec_ctx s >>= behind_decoder) ≡ done (s', h)
        → s'.ifmt_ctx ≡ (if from_path then null else s.ifmt_ctx)
    live-ifmt_ctx s {s'} run =
        let (s1, first, run1) = >>=-eq-done (free_codec st.dec_ctx s) behind_decoder run in
        let (s2, second, run2) = >>=-eq-done (free_codec st.enc_ctx s1) behind_encoder run1 in
        let (s3, third, run3) = >>=-eq-done (free_filters s2) behind_filters run2 in
        let (frame, fourth, run4) =
          >>=-eq-done (free_pointer st.dec_frame) (behind_frame s3) run3 in
        let s4 : Session = record s3 {
          stream_ctx = dangling_ref;
          filter_ctx = after_free s3.filter_ctx;
          frames = if frame then s3.frames - 1 else s3.frames;
        } in
        let (r, fifth, last) =
          >>=-eq-done (take_handle nofile written (close_input from_path s4))
            (λ r. done (r.0, if is_neg ret then none else r.1)) run4 in
        let kept : s3.ifmt_ctx ≡ s.ifmt_ctx =
          free_filters-ifmt_ctx s2 third
          ∙ free_codec-ifmt_ctx st.enc_ctx s1 second
          ∙ free_codec-ifmt_ctx st.dec_ctx s first in
        let same : r.0 ≡ s' = cc last in
        ap (λ x. x.ifmt_ctx) (sym same)
        ∙ take_handle-ifmt_ctx nofile written (close_input from_path s4) fifth
        ∙ close_input-ifmt_ctx from_path s4
        ∙ ap (λ p. if from_path then null else p) kept

  cleanup-ifmt_ctx :
      (s : Session) (ret : ℤ) {s' : Session} {h : Option Handle}
      → cleanup from_path nofile written s ret ≡ done (s', h)
      → s'.ifmt_ctx ≡ (if from_path then null else s.ifmt_ctx)
  cleanup-ifmt_ctx s ret {s'} run =
      (elim s.stream_ctx
          as (λ r. s.stream_ctx ≡ r → s'.ifmt_ctx ≡ (if from_path then null else s.ifmt_ctx)) [
            | null_ref ↦ λ e. let f = cleanup_null from_path nofile written s ret e in cc (f, run)
            | dangling_ref ↦
                λ e. let f = cleanup_dangling from_path nofile written s ret e in cc (f, run)
            | live st ↦ λ e. live-ifmt_ctx st ret s (sym (cleanup-behind_decoder st ret s e) ∙ run)
          ])
        refl

module _ (a : Answers) where
  start_output-ifmt_ctx : (t : Target) (s : Session) → (start_output a t s).0.ifmt_ctx ≡ s.ifmt_ctx
  unfolding start_output open_pb
  start_output-ifmt_ctx t s = ground arith

  open_output_file-ifmt_ctx :
      (ms : List Media) (t : Target) (s : Session) {s' : Session} {ret : ℤ}
      → open_output_file a ms t s ≡ done (s', ret)
      → s'.ifmt_ctx ≡ s.ifmt_ctx
  unfolding open_output_file start_output open_pb
  open_output_file-ifmt_ctx ms t s run = ground arith

  init_stream-ifmt_ctx :
      (i : ℕ) (f : FilteringContext) (s : Session) → (init_stream a i f s).1.ifmt_ctx ≡ s.ifmt_ctx
  unfolding init_stream init_filter
  init_stream-ifmt_ctx i f s = ground arith

  init_streams-ifmt_ctx :
      (ms : List Media) (i : ℕ) (f : FilteringContext) (s : Session)
      → (init_streams a ms i f s).1.ifmt_ctx ≡ s.ifmt_ctx
  unfolding init_streams
  init_streams-ifmt_ctx [] i f s = refl
  init_streams-ifmt_ctx (other_media ∷ ms) i f s = init_streams-ifmt_ctx ms (suc i) f s
  init_streams-ifmt_ctx (audio ∷ ms) i f s = init_stream-ifmt_ctx i f s

  init_filters-ifmt_ctx :
      (ms : List Media) (s : Session) → (init_filters a ms s).0.ifmt_ctx ≡ s.ifmt_ctx
  unfolding init_filters
  init_filters-ifmt_ctx ms s = ground (arith, init_streams-ifmt_ctx ms 0 fresh_filtering_context s)

  open_source-input_left :
      (source : Source) (s : Session)
      → (if is_path source then null else (open_source a source s).0.ifmt_ctx) ≡ input_left source s
  unfolding open_source open_input_file_with_format_context
  open_source-input_left (from_file ms) s = refl
  open_source-input_left (from_context none) s = refl
  open_source-input_left (from_context (some ms)) s = ground arith

  Closed-same :
      (source : Source) (s s1 s' : Session)
      → s1.ifmt_ctx ≡ s.ifmt_ctx
      → Closed source s1 s'
      → Closed source s s'
  Closed-same source s s1 s' same (idle, left) =
      (idle, left ∙ ap (λ p. if is_path source then null else p) same)

module _ (lib : Ffmpeg) (written : lib.Muxer → Handle → Handle) (a : Answers) (t : Target) where
  leave-Closed :
      (source : Source) (m : lib.Muxer) (s : Session) (ret : ℤ) {s' : Session} {h : Option Handle}
      → leave lib written a t source m s ret ≡ done (s', h)
      → Closed source s s'
  leave-Closed source m s ret run = (
    cleanup-Idle (is_path source) a.nofile (written m) s ret run,
    cleanup-ifmt_ctx (is_path source) a.nofile (written m) s ret run,
  )

  run_packets-Closed :
      (rounds : ℕ) (source : Source) (k : ℕ) (w : World lib) (s : Session) {s' : Session}
      {h : Option Handle}
      → run_packets lib written a t rounds source k w s ≡ done (s', h)
      → Closed source s s'
  unfolding run_packets
  run_packets-Closed rounds source k w s run = elim (Bool-cases (a.gives packet)) [
    | inl given ↦
        let (r, first, last) =
          >>=-eq-done (transcode_packets lib rounds k w)
            (λ r. leave lib written a t source r.0.muxer s r.1) (rw given at run) in
        leave-Closed source r.0.muxer s r.1 last
    | inr refused ↦ leave-Closed source w.muxer s (pos k) (rw refused at run)
  ]

  filtered-Closed :
      (rounds : ℕ) (source : Source) (w : World lib) (s2 : Session) (code : ℤ) {s' : Session}
      {h : Option Handle}
      → (elim code as (λ _. Outcome (Session × Option Handle)) [
        | negsuc n ↦ leave lib written a t source w.muxer s2 (negsuc n)
        | pos selected ↦ run_packets lib written a t rounds source selected w s2
      ])
        ≡ done (s', h)
      → Closed source s2 s'
  filtered-Closed rounds source w s2 (pos k) run = run_packets-Closed rounds source k w s2 run
  filtered-Closed rounds source w s2 (negsuc n) run = leave-Closed source w.muxer s2 (negsuc n) run

  run_filters-Closed :
      (rounds : ℕ) (source : Source) (w : World lib) (s : Session) {s' : Session}
      {h : Option Handle}
      → run_filters lib written a t rounds source w s ≡ done (s', h)
      → Closed source s s'
  unfolding run_filters
  run_filters-Closed rounds source w s {s'} run =
      Closed-same a source s (init_filters a (streams_of source) s).0 s'
        (init_filters-ifmt_ctx a (streams_of source) s)
        (filtered-Closed rounds source w (init_filters a (streams_of source) s).0
          (init_filters a (streams_of source) s).1 run)

  -- Behind the opening of the input.
  opened-Closed :
      (rounds : ℕ) (source : Source) (w : World lib) (s : Session) {s' : Session}
      {h : Option Handle}
      → do_transcode lib written a t rounds source w s ≡ done (s', h)
      → Closed source (open_source a source s).0 s'
  unfolding do_transcode
  opened-Closed rounds source w s {s'} run =
      let (s1, ret) = open_source a source s in
      let next : Session × ℤ → Outcome (Session × Option Handle) = λ o.
        if is_neg o.1
        then leave lib written a t source w.muxer o.0 o.1
        else run_filters lib written a t rounds source w o.0 in
      elim (Bool-cases (is_neg ret)) [
        | inl bad ↦ leave-Closed source w.muxer s1 ret (rw bad at run)
        | inr good ↦
            let (o, first, last) =
              >>=-eq-done (open_output_file a (streams_of source) t s1) next (rw good at run) in
            let same = open_output_file-ifmt_ctx a (streams_of source) t s1 first in
            elim (Bool-cases (is_neg o.1)) [
              | inl bad ↦
                  Closed-same a source s1 o.0 s' same
                    (leave-Closed source w.muxer o.0 o.1 (rw bad at last))
              | inr fine ↦
                  Closed-same a source s1 o.0 s' same
                    (run_filters-Closed rounds source w o.0 (rw fine at last))
            ]
      ]

  -- Whatever fails, a call that returns leaves the pointers to the stream context, the filter context
  -- and the output NULL or freed, and `ifmt_ctx` NULL where it was given a path; where it was given
  -- a context, `ifmt_ctx` still leads to that.
  pub do_transcode-Idle :
      (rounds : ℕ) (source : Source) (w : World lib) (s : Session) {s' : Session}
      {h : Option Handle}
      → do_transcode lib written a t rounds source w s ≡ done (s', h)
      → Idle s' × (s'.ifmt_ctx ≡ input_left source s)
  do_transcode-Idle rounds source w s run =
      let (idle, left) = opened-Closed rounds source w s run in
      (idle, left ∙ open_source-input_left a source s)
