-- ===== src/Transcode/Run/Laws.antt =====
-- do_transcode where everything is granted: what it returns and what it leaves alive.
use audio_fs.Base.{
  ℕ, suc, ◌+◌, ◌*◌, ◌≡◌, refl, ◌∙◌, ◌<◌, true, false, List, [], ◌∷◌, none, some, arith,
  if◌then◌else◌,
}
use audio_fs.Base.Int.{ℤ, pos, is_neg}
use audio_fs.Memory.{done}
use audio_fs.Avio.{Handle}
use audio_fs.Avio.Open.{Ledger, avio_open}
use audio_fs.Transcode.{Ffmpeg, World}
use audio_fs.Transcode.Session.{
  object, live, Session, Media, audio, other_media, packet, Answers, Target, Willing, audios,
  first_audio,
}
use audio_fs.Transcode.Input.{fresh_stream_context}
use audio_fs.Transcode.Input.Laws.{decoding, open_input-Willing}
use audio_fs.Transcode.Output.{open_output_file}
use audio_fs.Transcode.Output.Laws.{encoding, open_output_file-Willing}
use audio_fs.Transcode.Filters.{init_filters}
use audio_fs.Transcode.Filters.Laws.{filtering, init_filters-Willing}
use audio_fs.Transcode.Main.{transcode_packets}
use audio_fs.Transcode.Cleanup.{close_input}
use audio_fs.Transcode.Cleanup.Laws.{Idle, cleanup_full, cleanup-Idle}
use audio_fs.Transcode.Run.{
  Source, from_context, streams_of, open_source, run_packets, run_filters, do_transcode, leave,
}

first_audio-audios : (ms : List Media) (i : ℕ) {k : ℕ} → first_audio ms i ≡ some k → 0 < audios ms
unfolding first_audio audios
first_audio-audios [] i e = cc
first_audio-audios (other_media ∷ ms) i e = first_audio-audios ms (suc i) e
first_audio-audios (audio ∷ ms) i e = omega arith

module _ (lib : Ffmpeg) (written : lib.Muxer → Handle → Handle) (a : Answers) (t : Target) where
  -- The three steps before the packets, from their results.
  pub do_transcode_opened :
      (rounds : ℕ) (source : Source) (w : World lib) (s : Session) {s1 s2 : Session} {r1 r2 : ℤ}
      → open_source a source s ≡ (s1, r1)
      → is_neg r1 ≡ false
      → open_output_file a (streams_of source) t s1 ≡ done (s2, r2)
      → is_neg r2 ≡ false
      → do_transcode lib written a t rounds source w s
        ≡ run_filters lib written a t rounds source w s2
  unfolding do_transcode
  do_transcode_opened rounds source w s e1 good1 e2 good2 = ground arith

  pub run_filters_selected :
      (rounds : ℕ) (source : Source) (w : World lib) (s : Session) {s' : Session} {k : ℕ}
      → init_filters a (streams_of source) s ≡ (s', pos k)
      → run_filters lib written a t rounds source w s
        ≡ run_packets lib written a t rounds source k w s'
  unfolding run_filters
  run_filters_selected rounds source w s e = ground arith

  pub run_packets_done :
      (rounds : ℕ) (source : Source) (k : ℕ) (w : World lib) (s : Session) {w' : World lib}
      {ret : ℤ}
      → a.gives packet ≡ true
      → transcode_packets lib rounds k w ≡ done (w', ret)
      → run_packets lib written a t rounds source k w s
        ≡ leave lib written a t source w'.muxer s ret
  unfolding run_packets
  run_packets_done rounds source k w s given run = ground arith

  -- The session behind init_filters.
  abbrev ready : List Media → Session → Handle → Ledger → Session
  ready ms s h l = record s {
    ifmt_ctx = object;
    ofmt_ctx = live (record { pb = some h });
    filter_ctx = live filtering;
    stream_ctx = live (encoding (decoding fresh_stream_context));
    codecs = (s.codecs + audios ms) + audios ms;
    frames = s.frames + audios ms;
    graphs = s.graphs + 1;
    avios = s.avios + 1;
    ledger = l;
  }

  module _ (will : Willing a) (file : a.nofile ≡ false) where
    do_transcode-ready :
        (rounds : ℕ) (ms : List Media) (w : World lib) (s : Session) {k : ℕ} {h : Handle}
        {l : Ledger}
        → first_audio ms 0 ≡ some k
        → avio_open t.mem t.os t.address t.name s.ledger ≡ (some h, l)
        → do_transcode lib written a t rounds (from_context (some ms)) w s
          ≡ run_packets lib written a t rounds (from_context (some ms)) k w (ready ms s h l)
    unfolding open_source
    do_transcode-ready rounds ms w s e opened =
        let source = from_context (some ms) in
        let s1 : Session = record s {
          ifmt_ctx = object;
          stream_ctx = live (decoding fresh_stream_context);
          codecs = s.codecs + audios ms;
          frames = s.frames + audios ms;
        } in
        do_transcode_opened rounds source w s (open_input-Willing a will ms s e) refl
          (open_output_file-Willing a will ms t s1 (decoding fresh_stream_context) e refl file
            opened)
          refl
        ∙ run_filters_selected rounds source w _ (init_filters-Willing a will ms _ e)

    -- Over a context with an audio stream, where FFmpeg grants everything, the format needs a file, the
    -- handle can be opened and the packets of the first audio stream are run to the value `ret`,
    -- do_transcode returns: NULL where `ret` is negative, else the handle that was opened, as the muxer's
    -- writes leave it. Then the stream context, the filter context and the output are freed, and
    -- `ifmt_ctx` is still the caller's context; as many filter graphs and inputs are alive as before,
    -- but one more AVIO context, what the handle holds, and for each audio stream but one two codec
    -- contexts and a frame.
    pub do_transcode_lem :
        (rounds : ℕ) (ms : List Media) (w : World lib) (s : Session) {k : ℕ} {h : Handle}
        {l : Ledger} {w' : World lib} {ret : ℤ}
        → first_audio ms 0 ≡ some k
        → avio_open t.mem t.os t.address t.name s.ledger ≡ (some h, l)
        → transcode_packets lib rounds k w ≡ done (w', ret)
        → (s' : Session) × (do_transcode lib written a t rounds (from_context (some ms)) w s
            ≡ done (s', if is_neg ret then none else some (written w'.muxer h)))
          × Idle s'
          × (s'.ifmt_ctx ≡ object)
          × (s'.codecs + 2 ≡ s.codecs + 2 * audios ms)
          × (s'.frames + 1 ≡ s.frames + audios ms)
          × (s'.graphs ≡ s.graphs)
          × (s'.inputs ≡ s.inputs)
          × (s'.avios ≡ s.avios + 1)
          × (s'.ledger ≡ l)
    unfolding close_input
    do_transcode_lem rounds ms w s {k} {h} {l} {w'} {ret} e opened run =
        let source = from_context (some ms) in
        let last =
          cleanup_full false a.nofile (written w'.muxer) (ready ms s h l) ret
            (encoding (decoding fresh_stream_context)) refl (refl, refl, refl) refl refl file in
        let some_audio = first_audio-audios ms 0 e in
        (
          _,
          do_transcode-ready rounds ms w s e opened
              ∙ run_packets_done rounds source k w (ready ms s h l) (will.given packet) run
              ∙ last,
          cleanup-Idle false a.nofile (written w'.muxer) (ready ms s h l) ret last,
          refl,
          omega arith,
          omega arith,
          omega arith,
          refl,
          refl,
          refl,
        )
