-- ===== src/Worker/Loop.antt =====
-- worker.cpp, `worker_loop`, lines 269 to 426, and `stop`: what becomes of each frame. The clock's
-- readings, which only a message shows, are left out.
use frame_processor.Base.{
  text_key, ℕ, zero, suc, ◌+◌, ◌%◌, ◌^◌, ◌==◌, ℤ, Bool, true, not, List, [], ◌∷◌, ◌++◌, none, some,
  insert, if◌then◌else◌,
}
use frame_processor.Fifo.{Fifo, Pop, blocks, closed, item, push, wait_and_pop, stop}
use frame_processor.Types.{again, end_of_file, failed, got, Frame, DecodedFrame}
use frame_processor.Worker.Filter.{Avfilter, Allocations}
use frame_processor.Worker.Context.{StreamProcessingContext, Contexts, ctx_key, context_for}

-- A frame that the saver is given: its stream and its number.
pub record Saved : Type 0 where
  pub frame : Frame
  pub stream_id : ℤ
  pub number : ℕ

module _ (av : Avfilter) where
  open av use {Graph, add_frame, get_frame}

  -- The loop `while (frames_drained < 5)` with `remaining` rounds left: the frames of the sink.
  unfoldable pub drain : ℕ → ℕ → Graph → List Frame × Graph
  drain zero drained g = ([], g)
  drain (suc remaining) drained g =
      let (answer, g') = get_frame g (not (drained == 0)) in
      elim answer [
        | again ↦ ([], g')
        | end_of_file ↦ ([], g')
        | failed ↦ ([], g')
        | got f ↦ let (fs, g'') = drain remaining (drained + 1) g' in (f ∷ fs, g'')
      ]

  -- What a frame's context and the contexts become when it is fed to the graph and the sink is
  -- drained; a frame that is not accepted gives nothing.
  unfoldable pub feed :
      DecodedFrame → StreamProcessingContext Graph × Contexts Graph → List Frame × Contexts Graph
  feed d (ctx, m) =
      let (accepted, g) = add_frame ctx.graph d.frame in
      let (fs, g') = if accepted then drain 5 0 g else ([], g) in
      (fs, insert text_key (ctx_key d) (record ctx { graph = g' }) m)

  -- The frames that one frame gives, and the contexts.
  unfoldable pub filtered :
      Allocations → DecodedFrame → Contexts Graph → List Frame × Contexts Graph
  filtered a d m = elim (context_for av a d m) [
    | none ↦ ([], m)
    | some (ctx, m') ↦ if not a.clone then ([], m') else feed d (ctx, m')
  ]

-- An output carries the stream, the event and the time base of the input.
unfoldable pub output_frame : DecodedFrame → Frame → DecodedFrame
output_frame d f = record d { frame = f }

-- A thread with its queues; `frames_processed_local` is its counter of saved frames, and `saved`
-- what the saver has been given.
pub record WorkerThread (Graph : Type 0) : Type 0 where
  pub in_queue : Fifo DecodedFrame
  pub out_queue : Fifo DecodedFrame
  pub stream_contexts : Contexts Graph
  pub is_processed_enabled : Bool
  pub frames_processed_local : ℕ
  pub saved : List Saved
  pub finished : Bool

-- One output: saved if that is enabled, and pushed.
unfoldable pub emit :
    {Graph : Type 0} → DecodedFrame → ℕ → Frame → WorkerThread Graph → WorkerThread Graph
emit d now f w =
    let count = (w.frames_processed_local + 1) % 2 ^ 64 in
    let pushed = push (output_frame d f) now w.out_queue in
    if w.is_processed_enabled
    then record w {
      out_queue = pushed;
      frames_processed_local = count;
      saved = w.saved ++ record { frame = f; stream_id = d.source_config.id; number = count } ∷ [];
    }
    else record w { out_queue = pushed }

unfoldable pub emit_all :
    {Graph : Type 0} → DecodedFrame → ℕ → List Frame → WorkerThread Graph → WorkerThread Graph
emit_all d now [] w = w
emit_all d now (f ∷ fs) w = emit_all d now fs (emit d now f w)

-- A neighbour pushes a frame or takes one; `Worker::stop` stops both queues; a round of the loop,
-- with what `stop_requested` says at its head, the allocations and the clock of its pushes.
pub data Event : Type 0 where
  arrives : DecodedFrame → ℕ → Event
  taken stops : Event
  round : Bool → Allocations → ℕ → Event

module _ (av : Avfilter) where
  open av use {Graph}

  unfoldable pub process : Allocations → ℕ → DecodedFrame → WorkerThread Graph → WorkerThread Graph
  process a now d w =
      let (fs, m) = filtered av a d w.stream_contexts in
      emit_all d now fs (record w { stream_contexts = m })

  unfoldable pub receive :
      Allocations
      → ℕ
      → Pop DecodedFrame × Fifo DecodedFrame
      → WorkerThread Graph
      → WorkerThread Graph
  receive a now (blocks, q) w = w
  receive a now (closed, q) w = record w { finished = true }
  receive a now (item d, q) w = process a now d (record w { in_queue = q })

  unfoldable pub advance : Event → WorkerThread Graph → WorkerThread Graph
  advance (arrives d now) w = record w { in_queue = push d now w.in_queue }
  advance taken w = record w { out_queue = (wait_and_pop w.out_queue).1 }
  advance stops w = record w { in_queue = stop w.in_queue; out_queue = stop w.out_queue }
  advance (round stop_requested a now) w =
      if w.finished
      then w
      else if stop_requested
      then record w { finished = true }
      else receive a now (wait_and_pop w.in_queue) w

  unfoldable pub worker_loop : List Event → WorkerThread Graph → WorkerThread Graph
  worker_loop [] w = w
  worker_loop (e ∷ es) w = worker_loop es (advance e w)
