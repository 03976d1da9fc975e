-- ===== src/StreamIo/Reading.antt =====
-- stream_io_manager.cpp, `run_stream`, lines 408 to 500: packets are decoded, frames sampled for each
-- event and pushed, and the graph is flushed. `pushed` lists the calls of `push` on the queue of
-- decoded frames in their order. The loops that wait for an answer other than a frame take fuel.
use frame_processor.Base.{
  ℕ, zero, suc, Bool, true, false, not, ◌||◌, List, [], ◌∷◌, ◌++◌, none, some, Text, Dict, find,
  text_key, if◌then◌else◌,
}
use frame_processor.Base.Runs.{Run, done, throws, stuck, ◌>>=◌}
use frame_processor.Types.{
  Frame, DecodedFrame, EventConfig, StreamConfig, again, end_of_file, failed, got,
}
use frame_processor.StreamIo.Media.{Media}

module _ (av : Media) where
  open av use {
    Graph, Sink, Decoder, Packet, add_frame, end_source, get_frame, time_base, send_packet,
    receive_frame,
  }

  -- What a connection works on; `stream_healthy` is false once it must be made anew.
  pub record Session : Type 0 where
    pub decoder : Decoder
    pub graph : Graph
    pub sink_contexts : Dict Text Sink
    pub stream_healthy : Bool
    pub left : Bool
    pub pushed : List DecodedFrame

  -- The frame that is pushed for an event.
  unfoldable pub sampled_frame : StreamConfig → EventConfig → Graph → Sink → Frame → DecodedFrame
  sampled_frame config event g sink f = record {
    frame = f;
    source_config = config;
    event_config = event;
    time_base = time_base g sink;
  }

  -- The frames of a sink, until it answers anything else.
  unfoldable pub pull_sink : ℕ → StreamConfig → EventConfig → Sink → Session → Run Session
  pull_sink zero config event sink s = stuck
  pull_sink (suc fuel) config event sink s =
      let (answer, g) = get_frame s.graph sink in
      elim answer [
        | again ↦ done (record s { graph = g })
        | end_of_file ↦ done (record s { graph = g })
        | failed ↦ done (record s { graph = g })
        | got f ↦
            pull_sink fuel config event sink (record s {
              graph = g;
              pushed = s.pushed ++ sampled_frame config event g sink f ∷ [];
            })
      ]

  -- The sinks of the events in their order; `at` throws if an event has none.
  unfoldable pub pull_events : ℕ → StreamConfig → List EventConfig → Session → Run Session
  pull_events fuel config [] s = done s
  pull_events fuel config (event ∷ events) s = elim (find text_key event.name s.sink_contexts) [
    | none ↦ throws
    | some sink ↦ pull_sink fuel config event sink s >>= pull_events fuel config events
  ]

  -- A decoded frame goes to the graph, and the sinks are emptied; the flag says whether the decoder is
  -- asked for the next one.
  unfoldable pub sample : ℕ → StreamConfig → Frame → Session → Run (Bool × Session)
  sample fuel config f s =
      let (accepted, g) = add_frame s.graph f in
      if accepted
      then pull_events fuel config config.events (record s { graph = g }) >>= (λ t. done (true, t))
      else done (false, record s { graph = g; stream_healthy = false })

  -- The frames that the decoder has, `rounds` at most.
  unfoldable pub decode : ℕ → ℕ → StreamConfig → Session → Run Session
  decode fuel zero config s = stuck
  decode fuel (suc rounds) config s =
      let (answer, d) = receive_frame s.decoder in
      elim answer [
        | again ↦ done (record s { decoder = d })
        | end_of_file ↦ done (record s { decoder = d })
        | failed ↦ done (record s { decoder = d; stream_healthy = false })
        | got f ↦ sample fuel config f (record s { decoder = d }) >>= λ (more, t). elim more [
          | true ↦ decode fuel rounds config t
          | false ↦ done t
        ]
      ]

  -- What `av_read_frame` gives: an error or the end, a packet of another stream, or one of the video.
  pub data Reading : Type 0 where
    read_failed foreign : Reading
    packet : Packet → Reading

  unfoldable pub read_packet : ℕ → StreamConfig → Reading → Session → Run Session
  read_packet fuel config read_failed s = done (record s { stream_healthy = false })
  read_packet fuel config foreign s = done s
  read_packet fuel config (packet p) s =
      let (sent, d) = send_packet s.decoder p in
      if sent
      then decode fuel fuel config (record s { decoder = d })
      else done (record s { decoder = d })

  -- The loop over the packets so far, by what `stop_requested` says at the head of each round.
  unfoldable pub read_packets : ℕ → StreamConfig → List (Bool × Reading) → Session → Run Session
  read_packets fuel config [] s = done (record s { left = not s.stream_healthy })
  read_packets fuel config ((stop_requested, r) ∷ rs) s =
      if stop_requested || not s.stream_healthy
      then done (record s { left = true })
      else read_packet fuel config r s >>= read_packets fuel config rs

  -- The frames that a sink still has are dropped.
  unfoldable pub flush_sink : ℕ → Sink → Session → Run Session
  flush_sink zero sink s = stuck
  flush_sink (suc fuel) sink s =
      let (answer, g) = get_frame s.graph sink in
      elim answer [
        | again ↦ done (record s { graph = g })
        | end_of_file ↦ done (record s { graph = g })
        | failed ↦ done (record s { graph = g })
        | got f ↦ flush_sink fuel sink (record s { graph = g })
      ]

  unfoldable pub flush_events : ℕ → List EventConfig → Session → Run Session
  flush_events fuel [] s = done s
  flush_events fuel (event ∷ events) s = elim (find text_key event.name s.sink_contexts) [
    | none ↦ flush_events fuel events s
    | some sink ↦ flush_sink fuel sink s >>= flush_events fuel events
  ]

  unfoldable pub flush_graph : ℕ → StreamConfig → Session → Run Session
  flush_graph fuel config s =
      flush_events fuel config.events (record s { graph = end_source s.graph })
