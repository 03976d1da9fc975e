-- ===== src/Child/Publishing.antt =====
-- publisher.cpp, the constructor of `Publisher`, lines 117 to 144, and `stop`, lines 150 to 160.
use frame_processor.Base.{
  ◌>>=◌, ℕ, ℤ, pos, pos_part, leb_ℤ, to_u64, Bool, true, false, not, Option, some, Text, codes,
  is_empty, [], if◌then◌else◌,
}
use frame_processor.Base.Numbers.{stoi}
use frame_processor.Base.Environment.{Environment, get_env}
use frame_processor.Fifo.{Fifo}
use frame_processor.Fifo
use frame_processor.Publisher.Batching.{FrameBatch}
use frame_processor.Types.{DecodedFrame}

-- The members of `Publisher` but the queue of processed frames, with the number of its threads.
pub record Publisher : Type 0 where
  pub batch_queue : Fifo FrameBatch
  pub redis_host : Text
  pub redis_port : ℤ
  pub redis_queue_base_name : Text
  pub is_enabled : Bool
  pub is_batching : Bool
  pub publisher_threads : ℕ

-- The batch queue and the host; nothing runs, and the port has no value that is used.
unfoldable pub disabled : ℤ → Text → Publisher
disabled threshold host = record {
  batch_queue = Fifo.new (to_u64 threshold) (codes "publisher_batch_queue");
  redis_host = host;
  redis_port = pos 0;
  redis_queue_base_name = [];
  is_enabled = false;
  is_batching = false;
  publisher_threads = 0;
}

-- `std::max(1, n)`.
unfoldable pub thread_count : ℤ → ℕ
thread_count n = if leb_ℤ n (pos 0) then 1 else pos_part n

-- The constructor; `none` is an exception.
unfoldable pub publisher : Environment → Option Publisher
unfolding get_env disabled thread_count
publisher env = do
  threshold ← stoi (get_env env (codes "FP_QUEUE_WARNING_THRESHOLD") (codes "1000"))
  let host = get_env env (codes "FP_REDIS_HOST") []
  num_threads ← stoi (get_env env (codes "FP_PUBLISHER_THREADS") (codes "4"))
  if is_empty host
      then some (disabled threshold host)
      else (stoi (get_env env (codes "FP_REDIS_PORT") (codes "6379")) >>= λ port.
          some (record (disabled threshold host) {
            redis_port = port;
            redis_queue_base_name =
                get_env env (codes "FP_REDIS_QUEUE_BASE_NAME") (codes "fp_batches");
            is_enabled = true;
            is_batching = true;
            publisher_threads = thread_count num_threads;
          }))

-- `stop`, on the queue of processed frames and the publisher; it joins the batcher before it stops the
-- queue of batches, and the publisher threads last.
unfoldable pub stop_publisher : Fifo DecodedFrame × Publisher → Fifo DecodedFrame × Publisher
stop_publisher (q, p) = if not p.is_enabled then (q, p) else (
  Fifo.stop q,
  record p { is_batching = false; batch_queue = Fifo.stop p.batch_queue; publisher_threads = 0 },
)
