-- ===== src/Pipeline/Shared.antt =====
-- The worker's output queue is the batcher's queue of processed frames.
use frame_processor.Base.{ℕ, Bool, List, [], ◌∷◌, ◌++◌, map, if◌then◌else◌}
use frame_processor.Fifo.{Pop, blocks, closed, item, wait_and_pop}
use frame_processor.Types.{DecodedFrame}
use frame_processor.Worker.Filter.{Avfilter, Allocations}
use frame_processor.Worker.Loop.{WorkerThread, filtered, output_frame}
use frame_processor.Worker.Loop
use frame_processor.Publisher.Batching.{Batcher}
use frame_processor.Publisher.Batching

-- A reader pushes a frame; `Worker::stop`; a round of the worker's loop; or an event of the batcher,
-- among them the pushes of the other workers.
pub data Event : Type 0 where
  decoded : DecodedFrame → ℕ → Event
  stops : Event
  works : Bool → Allocations → ℕ → Event
  packs : Batching.Event → Event

module _ (av : Avfilter) where
  open av use {Graph}

  -- The queue between the two is that of the batcher.
  pub record Pipeline : Type 0 where
    pub worker : WorkerThread Graph
    pub batcher : Batcher

  -- The worker with the common queue.
  unfoldable pub joined : Pipeline → WorkerThread Graph
  joined p = record p.worker { out_queue = p.batcher.processed }

  unfoldable pub after_worker : Pipeline → WorkerThread Graph → Pipeline
  after_worker p w = record p { worker = w; batcher = record p.batcher { processed = w.out_queue } }

  unfoldable pub step : Event → Pipeline → Pipeline
  unfolding joined after_worker
  step (decoded d now) p = after_worker p (Loop.advance av (Loop.arrives d now) (joined p))
  step stops p = after_worker p (Loop.advance av Loop.stops (joined p))
  step (works r a now) p = after_worker p (Loop.advance av (Loop.round r a now) (joined p))
  step (packs e) p = record p { batcher = Batching.advance e p.batcher }

  unfoldable pub run : List Event → Pipeline → Pipeline
  run [] p = p
  run (e ∷ es) p = run es (step e p)

  -- What a worker pushes in a round, by the answer of its queue.
  unfoldable pub outputs_of :
      Allocations → Pop DecodedFrame → WorkerThread Graph → List DecodedFrame
  outputs_of a blocks w = []
  outputs_of a closed w = []
  outputs_of a (item d) w = map (output_frame d) (filtered av a d w.stream_contexts).0

  unfoldable pub outputs : Bool → Allocations → WorkerThread Graph → List DecodedFrame
  outputs r a w =
      if w.finished then [] else if r then [] else outputs_of a (wait_and_pop w.in_queue).0 w

  -- What an event is for the batcher.
  unfoldable pub seen : Event → Pipeline → List Batching.Event
  seen (decoded d now) p = []
  seen stops p = Batching.closes ∷ []
  seen (works r a now) p = map (λ d. Batching.arrives d now) (outputs r a p.worker)
  seen (packs e) p = e ∷ []

  unfoldable pub seen_all : List Event → Pipeline → List Batching.Event
  seen_all [] p = []
  seen_all (e ∷ es) p = seen e p ++ seen_all es (step e p)
