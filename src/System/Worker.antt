-- ===== src/System/Worker.antt =====
-- worker.cpp, a round of `worker_loop` (lines 280 to 418) in steps: a frame is taken and processed, and
-- its outputs are emitted one after the other.
use frame_processor.Base.{ℕ, Bool, true, List, [], ◌∷◌, map, if◌then◌else◌}
use frame_processor.Fifo.{Fifo, Pop, blocks, closed, item, wait_and_pop}
use frame_processor.Types.{Frame, DecodedFrame}
use frame_processor.Worker.Filter.{Avfilter, Allocations}
use frame_processor.Worker.Loop.{WorkerThread, filtered, output_frame, emit}

-- A thread, and the frames that it has still to emit, each with the frame that it was made from.
pub record Busy (Graph : Type 0) : Type 0 where
  pub thread : WorkerThread Graph
  pub todo : List (DecodedFrame × Frame)

abbrev pub output_of : DecodedFrame × Frame → DecodedFrame
output_of (d, f) = output_frame d f

-- The thread, and the frame that it has taken, if it has.
pub record Begun (Graph : Type 0) : Type 0 where
  pub busy : Busy Graph
  pub consumed : List DecodedFrame

unfoldable pub unchanged : {Graph : Type 0} → Busy Graph → Begun Graph
unchanged h = record { busy = h; consumed = [] }

unfoldable pub leaves : {Graph : Type 0} → Busy Graph → Begun Graph
leaves h = record {
  busy = record h { thread = record h.thread { finished = true } };
  consumed = [];
}

module _ (av : Avfilter) where
  open av use {Graph}

  -- By the answer of `wait_and_pop`.
  unfoldable pub takes_frame :
      Allocations → Pop DecodedFrame × Fifo DecodedFrame → Busy Graph → Begun Graph
  unfolding unchanged leaves
  takes_frame a (blocks, q) h = unchanged h
  takes_frame a (closed, q) h = leaves h
  takes_frame a (item d, q) h =
      let (fs, m) = filtered av a d h.thread.stream_contexts in
      record {
        busy = record {
          thread = record h.thread { in_queue = q; stream_contexts = m };
          todo = map (λ f. (d, f)) fs;
        };
        consumed = d ∷ [];
      }

  -- The head of the loop, which a thread reaches when it has nothing more to emit.
  unfoldable pub begin : Bool → Allocations → Busy Graph → Begun Graph
  unfolding unchanged leaves
  begin stop_requested a h = elim h.todo [
    | x ∷ xs ↦ unchanged h
    | [] ↦
        if h.thread.finished
        then unchanged h
        else if stop_requested
        then leaves h
        else takes_frame a (wait_and_pop h.thread.in_queue) h
  ]

-- The next output is saved, if that is enabled, and pushed.
unfoldable pub emit_next : {Graph : Type 0} → ℕ → Busy Graph → Busy Graph
emit_next now h = elim h.todo [
  | [] ↦ h
  | (d, f) ∷ rest ↦ record { thread = emit d now f h.thread; todo = rest }
]
