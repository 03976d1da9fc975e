-- ===== src/System/Threads.antt =====
-- The state of all threads, and their steps.
use frame_processor.Base.{
  ℕ, Bool, true, false, List, [], ◌∷◌, ◌++◌, map, Option, none, some, Text, codes, if◌then◌else◌,
}
use frame_processor.Base.Totals.{get_elem?, set}
use frame_processor.Fifo.{Fifo, Pop, blocks, closed, item, new, push, wait_and_pop, stop}
use frame_processor.Types.{Frame, DecodedFrame}
use frame_processor.Worker.Filter.{Avfilter, Allocations}
use frame_processor.Worker.Loop.{WorkerThread}
use frame_processor.Publisher.Batching.{FrameBatch, Batcher}
use frame_processor.Publisher.Batching
use frame_processor.Publisher.Connection.{RedisConnection, Ledger}
use frame_processor.Publisher.Sender.{Entry, Sender, Weather, deliver}
use frame_processor.System.Worker.{Busy, Begun, output_of, begin, emit_next}

-- A publisher thread: its connection, and the batch that it has taken and not yet sent.
pub record Post : Type 0 where
  pub redis_conn : Option RedisConnection
  pub batch : Option FrameBatch
  pub finished : Bool

-- The queue of processed frames and that of batches are in the batcher's state. Five logs are kept:
-- the frames that workers have taken, what they have made of them, and the outputs whose push was
-- rejected. So are those of the publisher threads: the batches that were dropped, and those that were
-- put back although Redis has stored them.
pub record System (Graph : Type 0) : Type 0 where
  pub decoded : Fifo DecodedFrame
  pub workers : List (Busy Graph)
  pub batcher : Batcher
  pub posts : List Post
  pub ledger : Ledger
  pub stream : List Entry
  pub consumed : List DecodedFrame
  pub produced : List DecodedFrame
  pub rejected : List DecodedFrame
  pub lost : List FrameBatch
  pub repeated : List FrameBatch

-- A publisher thread before its first round.
unfoldable pub new_post : Option RedisConnection → Post
new_post c = record { redis_conn = c; batch = none; finished = false }

-- The threads as `app_logic` starts them, on new queues: the workers, and a connection for each
-- publisher thread that has one.
unfoldable pub start :
    {Graph : Type 0}
    → ℕ
    → ℕ
    → List (WorkerThread Graph)
    → List (Option RedisConnection)
    → Ledger
    → System Graph
unfolding new_post
start frames_threshold batches_threshold threads connections l = record {
  decoded = new frames_threshold (codes "decode_frame_queue");
  workers = map (λ t. record { thread = t; todo = [] }) threads;
  batcher =
      Batching.fresh (new frames_threshold (codes "processed_frame_queue"))
        (new batches_threshold (codes "publisher_batch_queue"));
  posts = map new_post connections;
  ledger = l;
  stream = [];
  consumed = [];
  produced = [];
  rejected = [];
  lost = [];
  repeated = [];
}

-- A worker's thread with the queues, and a publisher's with its queue and the stream.
unfoldable pub at_queues : {Graph : Type 0} → System Graph → Busy Graph → Busy Graph
at_queues s h = record h {
  thread = record h.thread { in_queue = s.decoded; out_queue = s.batcher.processed };
}

unfoldable pub as_sender : {Graph : Type 0} → System Graph → Post → Sender
as_sender s t = record {
  batch_queue = s.batcher.batch_queue;
  redis_conn = t.redis_conn;
  ledger = s.ledger;
  others = [];
  simulated = [];
  stream = s.stream;
  lost = s.lost;
  repeated = s.repeated;
  finished = t.finished;
}

-- The outputs of a frame that a worker has just taken.
abbrev pub news : {Graph : Type 0} → Begun Graph → List DecodedFrame
news b = elim b.consumed [ [] ↦ [] | d ∷ ds ↦ map output_of b.busy.todo ]

-- A worker reaches the head of its loop.
unfoldable pub begins :
    (av : Avfilter) → ℕ → Bool → Allocations → Busy av.Graph → System av.Graph → System av.Graph
unfolding at_queues
begins av i stop_requested a h s =
    let b = begin av stop_requested a (at_queues s h) in
    record s {
      decoded = b.busy.thread.in_queue;
      workers = set s.workers i b.busy;
      consumed = s.consumed ++ b.consumed;
      produced = s.produced ++ news b;
    }

-- What the push of the next output rejects.
abbrev pub rejects : Fifo DecodedFrame → List (DecodedFrame × Frame) → List DecodedFrame
rejects q [] = []
rejects q (x ∷ xs) = if q.stopped then output_of x ∷ [] else []

-- A worker emits its next output.
unfoldable pub emits : {Graph : Type 0} → ℕ → ℕ → Busy Graph → System Graph → System Graph
unfolding at_queues
emits i now h s =
    let h' = emit_next now (at_queues s h) in
    record s {
      workers = set s.workers i h';
      batcher = record s.batcher { processed = h'.thread.out_queue };
      rejected = s.rejected ++ rejects s.batcher.processed h.todo;
    }

-- A publisher thread takes a batch.
unfoldable pub takes_by :
    {Graph : Type 0} → ℕ → Post → Pop FrameBatch × Fifo FrameBatch → System Graph → System Graph
takes_by j t (blocks, q) s = s
takes_by j t (closed, q) s = record s { posts = set s.posts j (record t { finished = true }) }
takes_by j t (item b, q) s = record s {
  posts = set s.posts j (record t { batch = some b });
  batcher = record s.batcher { batch_queue = q };
}

unfoldable pub takes : {Graph : Type 0} → ℕ → Bool → Post → System Graph → System Graph
unfolding takes_by
takes j stop_requested t s = elim t.batch [
  | some b ↦ s
  | none ↦
      if t.finished
      then s
      else if stop_requested
      then record s { posts = set s.posts j (record t { finished = true }) }
      else takes_by j t (wait_and_pop s.batcher.batch_queue) s
]

-- A publisher thread sends its batch, or puts it back.
unfoldable pub delivers : {Graph : Type 0} → Text → ℕ → Weather → Post → System Graph → System Graph
unfolding as_sender
delivers base j e t s = elim t.batch [
  | none ↦ s
  | some b ↦
      let r = deliver base e b (as_sender s t) in
      record s {
        posts =
            set s.posts j
              (record { redis_conn = r.redis_conn; batch = none; finished = t.finished });
        batcher = record s.batcher { batch_queue = r.batch_queue };
        ledger = r.ledger;
        stream = r.stream;
        lost = r.lost;
        repeated = r.repeated;
      }
]

-- A reader pushes; worker number `i` begins a round or emits; `Worker::stop` stops two queues; the
-- batcher makes a round; `Publisher::stop` stops the queue of batches, once it has joined the batcher;
-- publisher thread number `j` takes a batch or sends it.
pub data Event : Type 0 where
  decodes : DecodedFrame → ℕ → Event
  works : ℕ → Bool → Allocations → Event
  emit_by : ℕ → ℕ → Event
  stops : Event
  packs : Bool → ℕ → Event
  closes : Event
  takes_batch : ℕ → Bool → Event
  sends : ℕ → Weather → Event

module _ (av : Avfilter) (base : Text) where
  open av use {Graph}

  unfoldable pub step : Event → System Graph → System Graph
  step (decodes d now) s = record s { decoded = push d now s.decoded }
  step (works i r a) s = elim (get_elem? s.workers i) [ none ↦ s | some h ↦ begins av i r a h s ]
  step (emit_by i now) s = elim (get_elem? s.workers i) [ none ↦ s | some h ↦ emits i now h s ]
  step stops s = record s {
    decoded = stop s.decoded;
    batcher = record s.batcher { processed = stop s.batcher.processed };
  }
  step (packs r now) s = record s { batcher = Batching.advance (Batching.round r now) s.batcher }
  step closes s =
      if s.batcher.finished
      then record s { batcher = record s.batcher { batch_queue = stop s.batcher.batch_queue } }
      else s
  step (takes_batch j r) s = elim (get_elem? s.posts j) [ none ↦ s | some t ↦ takes j r t s ]
  step (sends j e) s = elim (get_elem? s.posts j) [ none ↦ s | some t ↦ delivers base j e t s ]

  unfoldable pub run : List Event → System Graph → System Graph
  run [] s = s
  run (e ∷ es) s = run es (step e s)
