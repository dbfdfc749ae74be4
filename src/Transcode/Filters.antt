-- ===== src/Transcode/Filters.antt =====
-- init_filter and init_filters of native/transcode.c.
pub mod Laws
use audio_fs.Base.{ℕ, suc, ◌+◌, Bool, true, false, ◌&&◌, List, [], ◌∷◌, if◌then◌else◌}
use audio_fs.Base.Int.{ℤ, pos, negsuc, is_neg, is_nonzero}
use audio_fs.Transcode.Session.{
  null, garbage, object, null_ref, live, FilteringContext, Session, Media, audio, other_media,
  filter_context, outputs_list, inputs_list, filter_graph_struct, abuffer, abuffersink, in_name,
  out_name, encoder_packet, filtered_frame_struct, Call, source_created, sink_created, formats_set,
  layouts_set, rates_set, graph_parsed, graph_configured, Answers, averror_enomem, averror_unknown,
  pointer_of,
}

-- The calls one after the other, up to the first that fails.
unfoldable pub first_failure : Answers → List Call → ℤ → ℤ
first_failure a [] last = last
first_failure a (c ∷ cs) last =
    if is_neg (a.code c) then a.code c else first_failure a cs (a.code c)

-- The value that init_filter returns. Both contexts are those of audio streams.
unfoldable pub filter_code : Answers → ℤ
unfolding first_failure
filter_code a =
    if a.gives outputs_list && a.gives inputs_list && a.gives filter_graph_struct
    then (if a.gives abuffer && a.gives abuffersink
        then (let set =
              first_failure a
                (source_created ∷ sink_created ∷ formats_set ∷ layouts_set ∷ rates_set ∷ [])
                (pos 0) in
            if is_neg set
            then set
            else if a.gives in_name && a.gives out_name
            then first_failure a (graph_parsed ∷ graph_configured ∷ []) (pos 0)
            else averror_enomem)
        else averror_unknown)
    else averror_enomem

-- init_filter: the two lists are freed on every path, the graph on none.
unfoldable pub init_filter : Answers → FilteringContext → Session → FilteringContext × Session × ℤ
unfolding filter_code
init_filter a f s =
    let s' = if a.gives filter_graph_struct then record s { graphs = s.graphs + 1 } else s in
    if is_neg (filter_code a) then (f, s', filter_code a) else (
      record f { buffersink_ctx = object; buffersrc_ctx = object; filter_graph = object },
      s',
      filter_code a,
    )

-- The body of the loop of init_filters at the first audio stream, whose index it returns.
unfoldable pub init_stream :
    Answers → ℕ → FilteringContext → Session → FilteringContext × Session × ℤ
unfolding init_filter
init_stream a i f s =
    let cleared : FilteringContext = record f {
      buffersink_ctx = null;
      buffersrc_ctx = null;
      filter_graph = null;
    } in
    let (f1, s1, ret) = init_filter a cleared s in
    let f2 = record f1 { enc_pkt = pointer_of (a.gives encoder_packet) } in
    let f3 = record f2 { filtered_frame = pointer_of (a.gives filtered_frame_struct) } in
    if is_nonzero ret
    then (f1, s1, ret)
    else if a.gives encoder_packet
    then (if a.gives filtered_frame_struct then (f3, s1, pos i) else (f3, s1, averror_enomem))
    else (f2, s1, averror_enomem)

-- The loop of init_filters from index `i` on.
unfoldable pub init_streams :
    Answers → List Media → ℕ → FilteringContext → Session → FilteringContext × Session × ℤ
unfolding init_stream
init_streams a [] i f s = (f, s, negsuc 0)
init_streams a (other_media ∷ ms) i f s = init_streams a ms (suc i) f s
init_streams a (audio ∷ ms) i f s = init_stream a i f s

-- av_malloc leaves the structure as it is.
abbrev pub fresh_filtering_context : FilteringContext
fresh_filtering_context = record {
  buffersink_ctx = garbage;
  buffersrc_ctx = garbage;
  filter_graph = garbage;
  enc_pkt = garbage;
  filtered_frame = garbage;
}

unfoldable pub init_filters : Answers → List Media → Session → Session × ℤ
unfolding init_streams
init_filters a ms s =
    if a.gives filter_context
    then (let (f, s', ret) = init_streams a ms 0 fresh_filtering_context s in
        (record s' { filter_ctx = live f }, ret))
    else (record s { filter_ctx = null_ref }, averror_enomem)
