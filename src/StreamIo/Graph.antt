-- ===== src/StreamIo/Graph.antt =====
-- stream_io_manager.cpp, `setup_multi_output_filter_graph`, lines 70 to 217: one graph that samples a
-- stream for each of its events. The freeing of what a failed call leaves is left out.
use frame_processor.Base.{
  ℕ, ◌+◌, ℤ, pos, negsuc, ltb_ℤ, eqb_ℤ, Bool, false, not, ◌&&◌, List, [], ◌∷◌, ◌++◌, length, none,
  some, Text, codes, decimal, Dict, insert, text_key, if◌then◌else◌,
}
use frame_processor.Types.{Rational, Double, one, EventConfig}
use frame_processor.StreamIo.Media.{VideoStream, Media}

-- Which allocations succeed: those at the start, and that of the list's entry after the one for sink
-- number `i`.
pub record Allocations : Type 0 where
  pub outputs : Bool
  pub inputs : Bool
  pub graph : Bool
  pub next : ℕ → Bool

-- `AV_PIX_FMT_NONE` and `AV_PIX_FMT_YUV420P`.
abbrev pub no_format : ℤ
no_format = negsuc 0

abbrev pub yuv420p : ℤ
yuv420p = pos 0

abbrev pub number : ℕ → Text
number i = decimal (pos i)

unfoldable pub source_args : VideoStream → Text
source_args v =
    codes "width="
    ++ (decimal v.width
        ++ (codes ":height="
            ++ (decimal v.height
                ++ (codes ":"
                    ++ ((if eqb_ℤ v.format no_format
                          then []
                          else codes "pix_fmt=" ++ (decimal v.format ++ codes ":"))
                        ++ (codes "time_base="
                            ++ (decimal v.time_base.num
                                ++ (codes "/"
                                    ++ (decimal v.time_base.den
                                        ++ (codes ":pixel_aspect="
                                            ++ (decimal v.sample_aspect_ratio.num
                                                ++ (codes "/"
                                                    ++ decimal v.sample_aspect_ratio.den))))))))))))

-- `[in]split=n[s0][s1]…`.
unfoldable pub split_labels : ℕ → List EventConfig → Text
split_labels i [] = []
split_labels i (e ∷ es) = codes "[s" ++ (number i ++ (codes "]" ++ split_labels (i + 1) es))

unfoldable pub sink_name : ℕ → Text
sink_name i = codes "sink" ++ number i

-- A rate that can be used.
unfoldable pub is_rate : Rational → Bool
is_rate r = ltb_ℤ (pos 0) r.den && ltb_ℤ (pos 0) r.num

-- A step succeeds, cannot be done, or follows a null pointer.
pub data Setup (A : Type 0) : Type 0 where
  ready : A → Setup A
  refused crashed : Setup A

module _ (av : Media) where
  open av use {
    Graph, Sink, av_q2d, is_positive, divide, truncate, empty_graph, create_source, create_sink,
    set_pix_fmts, parse_ptr, configure,
  }

  unfoldable pub source_fps : VideoStream → Double
  source_fps v =
      if is_rate v.avg_frame_rate
      then av_q2d v.avg_frame_rate
      else if is_rate v.r_frame_rate
      then av_q2d v.r_frame_rate
      else one

  -- One frame of this many is kept for an event.
  unfoldable pub sampling_interval : Double → Double → ℤ
  sampling_interval fps target_fps =
      let target = if is_positive target_fps then target_fps else one in
      let interval = truncate (divide fps target) in
      if ltb_ℤ interval (pos 1) then pos 1 else interval

  -- `;[s0]select='not(mod(n\,k))'[sink0]…`.
  unfoldable pub selections : Double → ℕ → List EventConfig → Text
  selections fps i [] = []
  selections fps i (e ∷ es) =
      codes ";[s"
      ++ (number i
          ++ (codes "]select='not(mod(n\\,"
              ++ (decimal (sampling_interval fps e.target_fps)
                  ++ (codes "))'[" ++ (sink_name i ++ (codes "]" ++ selections fps (i + 1) es))))))

  unfoldable pub sampling_spec : VideoStream → List EventConfig → Text
  sampling_spec v es =
      codes "[in]split="
      ++ (number (length es) ++ (split_labels 0 es ++ selections (source_fps v) 0 es))

  -- The format that the sinks accept.
  unfoldable pub preferred : VideoStream → ℤ
  preferred v = if eqb_ℤ v.format no_format then yuv420p else v.format

  -- The graph with its sinks, by the names of their events, and the named inputs of the list.
  pub record Sinks : Type 0 where
    pub graph : Graph
    pub sink_contexts : Dict Text Sink
    pub inputs : List (Text × Sink)

  -- The loop over the events, from number `i` on. `is_null` says that the list's entry for this event
  -- was not allocated.
  unfoldable pub add_sinks :
      Allocations → VideoStream → ℕ → Bool → List EventConfig → Sinks → Setup Sinks
  add_sinks a v i is_null [] s = ready s
  add_sinks a v i is_null (e ∷ es) s = elim (create_sink s.graph (sink_name i)) [
    | none ↦ refused
    | some (sink, g) ↦
        let rest = add_sinks a v (i + 1) (not (a.next i)) es (record {
          graph = set_pix_fmts g sink (preferred v);
          sink_contexts = insert text_key e.name sink s.sink_contexts;
          inputs = s.inputs ++ (sink_name i, sink) ∷ [];
        }) in
        if is_null then crashed else rest
  ]

  -- The specification is parsed with the inputs, and the graph configured.
  unfoldable pub link : Text → Sinks → Setup Sinks
  link spec s = elim (parse_ptr s.graph spec s.inputs) [
    | none ↦ refused
    | some g ↦ elim (configure g) [ none ↦ refused | some g' ↦ ready (record s { graph = g' }) ]
  ]

  unfoldable pub setup_multi_output_filter_graph :
      Allocations → VideoStream → List EventConfig → Setup Sinks
  setup_multi_output_filter_graph a v es =
      if not (a.outputs && a.inputs)
      then refused
      else if not a.graph
      then refused
      else elim (create_source empty_graph (source_args v)) [
        | none ↦ refused
        | some g ↦
            elim (add_sinks a v 0 false es
              (record { graph = g; sink_contexts = []; inputs = [] })) [
                | ready s ↦ link (sampling_spec v es) s
                | refused ↦ refused
                | crashed ↦ crashed
              ]
      ]
