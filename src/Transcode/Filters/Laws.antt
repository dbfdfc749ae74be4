-- ===== src/Transcode/Filters/Laws.antt =====
-- What init_filters leaves where everything is granted, and where the set-up of the graph fails.
use audio_fs.Base.{ℕ, suc, ◌+◌, ◌≡◌, List, [], ◌∷◌, some, arith}
use audio_fs.Base.Int.{pos}
use audio_fs.Transcode.Session.{
  object, live, FilteringContext, Session, Media, audio, other_media, filter_context, outputs_list,
  inputs_list, filter_graph_struct, abuffer, abuffersink, in_name, out_name, encoder_packet,
  filtered_frame_struct, source_created, sink_created, formats_set, layouts_set, rates_set,
  graph_parsed, Answers, Willing, first_audio,
}
use audio_fs.Transcode.Filters.{
  first_failure, filter_code, init_filter, init_stream, init_streams, init_filters,
  fresh_filtering_context,
}

-- The structure with everything in it.
abbrev pub filtering : FilteringContext
filtering = record {
  buffersink_ctx = object;
  buffersrc_ctx = object;
  filter_graph = object;
  enc_pkt = object;
  filtered_frame = object;
}

module _ (a : Answers) (w : Willing a) where
  filter_code-Willing : filter_code a ≡ pos 0
  unfolding filter_code first_failure
  filter_code-Willing = ground (
    arith,
    w.given outputs_list,
    w.given inputs_list,
    w.given filter_graph_struct,
    w.given abuffer,
    w.given abuffersink,
    w.given in_name,
    w.given out_name,
    w.fine source_created,
    w.fine sink_created,
    w.fine formats_set,
    w.fine layouts_set,
    w.fine rates_set,
    w.fine graph_parsed,
    w.configured,
  )

  init_stream-Willing :
      (i : ℕ) (f : FilteringContext) (s : Session)
      → init_stream a i f s ≡ (filtering, record s { graphs = s.graphs + 1 }, pos i)
  unfolding init_stream init_filter
  init_stream-Willing i f s = ground (
    arith,
    filter_code-Willing,
    w.given filter_graph_struct,
    w.given encoder_packet,
    w.given filtered_frame_struct,
  )

  init_streams-Willing :
      (ms : List Media) (i : ℕ) (f : FilteringContext) (s : Session) {k : ℕ}
      → first_audio ms i ≡ some k
      → init_streams a ms i f s ≡ (filtering, record s { graphs = s.graphs + 1 }, pos k)
  unfolding init_streams first_audio
  init_streams-Willing [] i f s e = cc
  init_streams-Willing (other_media ∷ ms) i f s e = init_streams-Willing ms (suc i) f s e
  init_streams-Willing (audio ∷ ms) i f s e = ground (arith, init_stream-Willing i f s)

  -- With an audio stream, init_filters returns the index of the first one.
  pub init_filters-Willing :
      (ms : List Media) (s : Session) {k : ℕ}
      → first_audio ms 0 ≡ some k
      → init_filters a ms s
        ≡ (record s { filter_ctx = live filtering; graphs = s.graphs + 1 }, pos k)
  unfolding init_filters
  init_filters-Willing ms s e =
      ground (arith, w.given filter_context, init_streams-Willing ms 0 fresh_filtering_context s e)
