-- ===== src/StreamIo/Thread.antt =====
-- stream_io_manager.cpp, `run_stream`, lines 287 to 507: the whole thread of a stream.
use frame_processor.Base.{ℕ, ◌+◌, Bool, true, false, not, ◌||◌, List, [], ◌∷◌, if◌then◌else◌}
use frame_processor.Base.Runs.{Run, done, throws, ◌>>=◌}
use frame_processor.Types.{DecodedFrame, StreamConfig}
use frame_processor.StreamIo.Connect.{Attempt, Connection, unconnected, connect}
use frame_processor.StreamIo.Media.{VideoStream, Media}
use frame_processor.StreamIo.Graph.{
  Allocations, Sinks, ready, refused, crashed, setup_multi_output_filter_graph,
}
use frame_processor.StreamIo.Reading.{Session, Reading, read_packets, flush_graph}

-- A thread: the frames that it has pushed, its pauses of half a second, whether it has returned, and
-- whether it is still in a loop over connection attempts or packets.
pub record Thread : Type 0 where
  pub frames : List DecodedFrame
  pub pauses : ℕ
  pub returned : Bool
  pub waiting : Bool

abbrev pub new_thread : Thread
new_thread = record { frames = []; pauses = 0; returned = false; waiting = false }

unfoldable pub return : Thread → Thread
return t = record t { returned = true }

module _ (av : Media) where
  open av use {Graph, Decoder}

  -- What follows the connection: no information on the streams, so it is made anew; no video, codec or
  -- decoder, so the thread returns; or a stream with its decoder.
  pub data Opening : Type 0 where
    no_info unusable : Opening
    opened : VideoStream → Decoder → Opening

  -- What a round of the outer loop meets: `stop_requested` at its head, after the connection and at its
  -- end, and what FFmpeg answers.
  pub record Cycle : Type 0 where
    pub stop_before : Bool
    pub attempts : List (Bool × Attempt)
    pub stop_connected : Bool
    pub opening : Opening
    pub allocations : Allocations
    pub readings : List (Bool × Reading av)
    pub stop_after : Bool

  unfoldable pub session : Decoder → Sinks av → List DecodedFrame → Session av
  session d s frames = record {
    decoder = d;
    graph = s.graph;
    sink_contexts = s.sink_contexts;
    stream_healthy = true;
    left = false;
    pushed = frames;
  }

  unfoldable pub finish_stream : ℕ → StreamConfig → Cycle → Thread → Session av → Run Thread
  finish_stream fuel config c t s = do
    s' ← flush_graph av fuel config s
    done (record t { frames = s'.pushed; pauses = if c.stop_after then t.pauses else t.pauses + 1 })

  unfoldable pub leave_stream : ℕ → StreamConfig → Cycle → Thread → Session av → Run Thread
  leave_stream fuel config c t s =
      if s.left
      then finish_stream fuel config c t s
      else done (record t { frames = s.pushed; waiting = true })

  -- The packets of one connection, and the flush of its graph once that loop is left.
  unfoldable pub read_stream : ℕ → StreamConfig → Cycle → Decoder → Sinks av → Thread → Run Thread
  read_stream fuel config c d s t = do
    s' ← read_packets av fuel config c.readings (session d s t.frames)
    leave_stream fuel config c t s'

  unfoldable pub open_stream : ℕ → StreamConfig → Cycle → Thread → Run Thread
  open_stream fuel config c t = elim c.opening [
    | no_info ↦ done t
    | unusable ↦ done (return t)
    | opened v d ↦ elim (setup_multi_output_filter_graph av c.allocations v config.events) [
      | refused ↦ done (return t)
      | crashed ↦ throws
      | ready s ↦ read_stream fuel config c d s t
    ]
  ]

  unfoldable pub cycle_from : ℕ → StreamConfig → Cycle → Thread → Connection → Run Thread
  cycle_from fuel config c t k =
      if not (k.connected || k.stopped)
      then done (record t { waiting = true })
      else if c.stop_connected || k.stopped
      then done (return t)
      else open_stream fuel config c t

  -- The loop that connects goes on until there is a connection or a stop request.
  unfoldable pub cycle : ℕ → StreamConfig → Cycle → Thread → Run Thread
  cycle fuel config c t =
      if c.stop_before
      then done (return t)
      else cycle_from fuel config c t (connect c.attempts unconnected)

  unfoldable pub run_stream : ℕ → StreamConfig → List Cycle → Thread → Run Thread
  run_stream fuel config [] t = done t
  run_stream fuel config (c ∷ cs) t =
      if t.returned || t.waiting
      then done t
      else cycle fuel config c t >>= run_stream fuel config cs
