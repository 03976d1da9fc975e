-- ===== src/Publisher/Sender.antt =====
-- publisher.cpp, `publisher_loop`, lines 253 to 337: batches are sent to Redis, or put back.
use frame_processor.Base.{
  ℕ, Bool, true, false, List, [], ◌∷◌, ◌++◌, Option, none, some, Text, codes, decimal,
  if◌then◌else◌,
}
use frame_processor.Fifo.{Fifo, Pop, blocks, closed, item, push, wait_and_pop, stop}
use frame_processor.Publisher.Batching.{FrameBatch}
use frame_processor.Publisher.Connection.{
  Connect, RedisConnection, Ledger, new_connection, destroy, is_valid, get,
}

-- The arguments of `XADD key * event … data …`.
pub record Entry : Type 0 where
  pub redis_key : Text
  pub event : Text
  pub data_buffer : List ℕ

unfoldable pub entry : Text → FrameBatch → Entry
entry base b = record {
  redis_key = base ++ (codes ":" ++ decimal b.stream_id);
  event = b.event_name;
  data_buffer = b.data_buffer;
}

-- A publisher thread: its queue and connection, the batches that other threads have taken, those
-- whose sending a dry run has simulated, and the stream of Redis. Two logs are kept: the batches that
-- are dropped, and those that are put back although Redis has stored them.
pub record Sender : Type 0 where
  pub batch_queue : Fifo FrameBatch
  pub redis_conn : Option RedisConnection
  pub ledger : Ledger
  pub others : List FrameBatch
  pub simulated : List FrameBatch
  pub stream : List Entry
  pub lost : List FrameBatch
  pub repeated : List FrameBatch
  pub finished : Bool

-- What becomes of a command: it is stored and answered; it is refused by an error reply, which the
-- code takes for success; or there is no reply, and Redis may have stored it.
pub data Reply : Type 0 where
  stored error_reply : Reply
  no_reply : Bool → Reply

-- What a round meets: what a new connection would give, what becomes of the command, and the clock at
-- a push.
pub record Weather : Type 0 where
  pub connects : Connect
  pub reply : Reply
  pub now : ℕ

unfoldable pub has_connection : Option RedisConnection → Bool
has_connection none = false
has_connection (some r) = is_valid r

-- `redis_conn.reset()`, and what the assignment of a new connection does to the old one.
unfoldable pub release : Option RedisConnection → Ledger → Ledger
release none l = l
release (some r) l = destroy r l

-- `redis_conn = std::make_unique<RedisConnection>(…)`.
unfoldable pub reconnect : Connect → Sender → Sender
reconnect c s =
    let (r, l) = new_connection c s.ledger in
    record s { redis_conn = some r; ledger = release s.redis_conn l }

-- `batch_queue_.push(std::move(batch))`, which drops the batch if the queue is stopped.
unfoldable pub requeue : FrameBatch → ℕ → Sender → Sender
requeue b now s = record s {
  batch_queue = push b now s.batch_queue;
  lost = s.lost ++ (if s.batch_queue.stopped then b ∷ [] else []);
}

unfoldable pub reset : Sender → Sender
reset s = record s { redis_conn = none; ledger = release s.redis_conn s.ledger }

-- Redis has executed the command or not, and the thread does not learn of it.
unfoldable pub unanswered : Text → Bool → FrameBatch → Sender → Sender
unanswered base executed b s =
    if executed
    then record s { stream = s.stream ++ entry base b ∷ []; repeated = s.repeated ++ b ∷ [] }
    else s

-- The command, on the context of a connection.
unfoldable pub command : Text → Weather → FrameBatch → Option ℕ → Sender → Sender
command base e b none s = reset (requeue b e.now s)
command base e b (some ctx) s = elim e.reply [
  | stored ↦ record s { stream = s.stream ++ entry base b ∷ [] }
  | error_reply ↦ record s { lost = s.lost ++ b ∷ [] }
  | no_reply executed ↦ requeue b e.now (reset (unanswered base executed b s))
]

unfoldable pub context_of : Option RedisConnection → Option ℕ
context_of none = none
context_of (some r) = get r

unfoldable pub deliver : Text → Weather → FrameBatch → Sender → Sender
deliver base e b s =
    if has_connection s.redis_conn
    then command base e b (context_of s.redis_conn) s
    else if has_connection (reconnect e.connects s).redis_conn
    then command base e b (context_of (reconnect e.connects s).redis_conn) (reconnect e.connects s)
    else requeue b e.now (reconnect e.connects s)

-- What a round does with the answer of `wait_and_pop`.
unfoldable pub handle : Text → Bool → Weather → Pop FrameBatch × Fifo FrameBatch → Sender → Sender
handle base dry_run e (blocks, q) s = s
handle base dry_run e (closed, q) s = record s { finished = true }
handle base dry_run e (item b, q) s =
    if dry_run
    then record s { batch_queue = q; simulated = s.simulated ++ b ∷ [] }
    else deliver base e b (record s { batch_queue = q })

abbrev pub popped : Pop FrameBatch → List FrameBatch
popped blocks = []
popped closed = []
popped (item b) = b ∷ []

-- The batcher or another thread pushes a batch; another thread takes one; the queue is stopped; a
-- round of the loop, with what `stop_requested` says at its head.
pub data Event : Type 0 where
  offers : FrameBatch → ℕ → Event
  takes closes : Event
  round : Bool → Weather → Event

unfoldable pub advance : Text → Bool → Event → Sender → Sender
advance base dry_run (offers b now) s = record s { batch_queue = push b now s.batch_queue }
advance base dry_run takes s =
    let (p, q) = wait_and_pop s.batch_queue in
    record s { batch_queue = q; others = s.others ++ popped p }
advance base dry_run closes s = record s { batch_queue = stop s.batch_queue }
advance base dry_run (round stop_requested e) s =
    if s.finished
    then s
    else if stop_requested
    then record s { finished = true }
    else handle base dry_run e (wait_and_pop s.batch_queue) s

unfoldable pub publisher_loop : Text → Bool → List Event → Sender → Sender
publisher_loop base dry_run [] s = s
publisher_loop base dry_run (e ∷ es) s = publisher_loop base dry_run es (advance base dry_run e s)
