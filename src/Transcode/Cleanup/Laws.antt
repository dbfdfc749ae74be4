-- ===== src/Transcode/Cleanup/Laws.antt =====
-- The cleanup of do_transcode: of a session with everything in it, and of one where a part is missing.
use audio_fs.Base.{◌-◌, ◌≡◌, ◌≢◌, Bool, false, inl, inr, Option, none, some, arith, if◌then◌else◌}
use audio_fs.Base.Int.{ℤ, is_neg}
use audio_fs.Memory.{done, fault}
use audio_fs.Avio.{Handle}
use audio_fs.Transcode.Session.{
  garbage, object, null_ref, dangling_ref, live, StreamContext, FilteringContext, OutputContext,
  Session,
}
use audio_fs.Transcode.Cleanup.{close_input, cleanup}
use audio_fs.Transcode.Output.Laws.{Crippled}
use audio_fs.Transcode.Filters.Laws.{filtering}

module _ (from_path nofile : Bool) (written : Handle → Handle) where
  pub cleanup_null :
      (s : Session) (ret : ℤ)
      → s.stream_ctx ≡ null_ref
      → cleanup from_path nofile written s ret ≡ fault
  unfolding cleanup
  cleanup_null s ret e = ground arith

  pub cleanup_dangling :
      (s : Session) (ret : ℤ)
      → s.stream_ctx ≡ dangling_ref
      → cleanup from_path nofile written s ret ≡ fault
  unfolding cleanup
  cleanup_dangling s ret e = ground arith

  -- An encoder that was never set is undefined behaviour, whatever the decoder is.
  pub cleanup_unset :
      (s : Session) (ret : ℤ) (st : StreamContext)
      → s.stream_ctx ≡ live st
      → st.enc_ctx ≡ garbage
      → cleanup from_path nofile written s ret ≡ fault
  unfolding cleanup
  cleanup_unset s ret st e unset = ground arith

  -- An output without `pb` is undefined behaviour, where the format needs a file.
  cleanup_without_pb :
      (s : Session) (ret : ℤ) (st : StreamContext)
      → s.stream_ctx ≡ live st
      → s.ofmt_ctx ≡ live (record { pb = none })
      → nofile ≡ false
      → cleanup from_path nofile written s ret ≡ fault
  unfolding cleanup
  cleanup_without_pb s ret st e o file = ground arith

  pub cleanup-Crippled :
      (s : Session) (ret : ℤ)
      → Crippled s
      → nofile ≡ false
      → cleanup from_path nofile written s ret ≡ fault
  cleanup-Crippled s ret (st, e, inl unset) file = cleanup_unset s ret st e unset
  cleanup-Crippled s ret (st, e, inr o) file = cleanup_without_pb s ret st e o file

  -- A filter context of an earlier call is undefined behaviour.
  pub cleanup_stale :
      (s : Session) (ret : ℤ) (st : StreamContext)
      → s.stream_ctx ≡ live st
      → s.filter_ctx ≡ dangling_ref
      → cleanup from_path nofile written s ret ≡ fault
  unfolding cleanup
  cleanup_stale s ret st e o = ground arith

  -- With everything in place, one decoder with its frame, one encoder and the graph are freed, and the
  -- handle is handed out unless `ret` is an error.
  pub cleanup_full :
      (s : Session) (ret : ℤ) (st : StreamContext) {h : Handle}
      → s.stream_ctx ≡ live st
      → (st.dec_ctx ≡ object) × (st.enc_ctx ≡ object) × (st.dec_frame ≡ object)
      → s.filter_ctx ≡ live filtering
      → s.ofmt_ctx ≡ live (record { pb = some h })
      → nofile ≡ false
      → cleanup from_path nofile written s ret
        ≡ done (
          record (close_input from_path (record s {
            stream_ctx = dangling_ref;
            filter_ctx = dangling_ref;
            codecs = (s.codecs - 1) - 1;
            frames = s.frames - 1;
            graphs = s.graphs - 1;
          })) { ofmt_ctx = dangling_ref },
          if is_neg ret then none else some (written h),
        )
  unfolding cleanup
  cleanup_full s ret st e objects f o file = ground arith

-- The stream context, the filter context and the output are NULL or freed. Of `ifmt_ctx` nothing is
-- said, which may be the caller's.
pub record Idle (s : Session) : Type 0 where
  pub no_stream : (st : StreamContext) → s.stream_ctx ≢ live st
  pub no_filter : (f : FilteringContext) → s.filter_ctx ≢ live f
  pub no_output : (o : OutputContext) → s.ofmt_ctx ≢ live o

pub cleanup-Idle :
    (from_path nofile : Bool) (written : Handle → Handle) (s : Session) (ret : ℤ) {s' : Session}
    {h : Option Handle}
    → cleanup from_path nofile written s ret ≡ done (s', h)
    → Idle s'
unfolding cleanup
cleanup-Idle from_path nofile written s ret run = record {
  no_stream = λ st e. ground arith;
  no_filter = λ f e. ground arith;
  no_output = λ o e. ground arith;
}
