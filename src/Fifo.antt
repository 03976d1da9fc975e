-- ===== src/Fifo.antt =====
-- utils/fifo.h: the stoppable queue between the threads. Each call holds the mutex from its first to
-- its last access, so a history of the threads is a sequence of calls. `wait_and_pop` on an empty
-- queue that runs waits: here that call leaves the queue alone and reports `blocks`.
pub mod Order
pub mod Counters
pub mod Drain
pub mod Warnings
mod Tests
use frame_processor.Base.{
  ℕ, ◌+◌, ◌-◌, ◌%◌, ◌^◌, Bool, true, false, ◌&&◌, List, [], ◌∷◌, ◌++◌, ltb, length, if◌then◌else◌,
  Text,
}

-- The members of `fifo<T>`, without the mutex and the condition variable.
pub record Fifo {ℓ} (A : Type ℓ) : Type ℓ where
  pub queue : List A
  pub warning_threshold : ℕ
  pub name : Text
  pub stopped : Bool
  pub last_warning_time : ℕ
  pub peak_size : ℕ
  pub total_pushed : ℕ
  pub total_popped : ℕ
  pub drop_count : ℕ

-- What a consumer gets: it waits, or the queue is stopped and empty (`std::nullopt`), or an item.
pub data Pop {ℓ} (A : Type ℓ) : Type ℓ where
  blocks closed : Pop A
  item : A → Pop A

pub record QueueStats : Type 0 where
  pub current_size : ℕ
  pub peak_size : ℕ
  pub total_pushed : ℕ
  pub total_popped : ℕ
  pub drop_count : ℕ

-- `++n` of a `size_t`.
abbrev pub inc_size : ℕ → ℕ
inc_size n = (n + 1) % 2 ^ 64

-- `10s` on the steady clock, which counts nanoseconds.
abbrev pub warning_period : ℕ
warning_period = 10_000_000_000

module _ {ℓ} {A : Type ℓ} where
  unfoldable pub new : ℕ → Text → Fifo A
  new threshold name = record {
    queue = [];
    warning_threshold = threshold;
    name = name;
    stopped = false;
    last_warning_time = 0;
    peak_size = 0;
    total_pushed = 0;
    total_popped = 0;
    drop_count = 0;
  }

  -- `queue_.push` and the two counters.
  enqueue : A → Fifo A → Fifo A
  enqueue value f =
      let queue' = f.queue ++ value ∷ [] in
      record f {
        queue = queue';
        total_pushed = inc_size f.total_pushed;
        peak_size = if ltb f.peak_size (length queue') then length queue' else f.peak_size;
      }

  -- The warning at the high water mark, at most one in ten seconds; `now` is the clock's reading.
  warn : ℕ → Fifo A → Fifo A
  warn now f =
      if ltb f.warning_threshold (length f.queue) && ltb warning_period (now - f.last_warning_time)
      then record f { last_warning_time = now }
      else f

  unfoldable pub push : A → ℕ → Fifo A → Fifo A
  unfolding enqueue warn
  push value now f = if f.stopped then f else warn now (enqueue value f)

  unfoldable pub wait_and_pop : Fifo A → Pop A × Fifo A
  wait_and_pop f = elim f.queue [
    | [] ↦ (if f.stopped then closed else blocks, f)
    | value ∷ rest ↦ (item value, record f { queue = rest; total_popped = inc_size f.total_popped })
  ]

  unfoldable pub stop : Fifo A → Fifo A
  stop f = record f { stopped = true }

  unfoldable pub size : Fifo A → ℕ
  size f = length f.queue

  unfoldable pub get_stats : Bool → Fifo A → QueueStats × Fifo A
  get_stats reset_peak f = (
    record {
      current_size = length f.queue;
      peak_size = f.peak_size;
      total_pushed = f.total_pushed;
      total_popped = f.total_popped;
      drop_count = f.drop_count;
    },
    if reset_peak then record f { peak_size = length f.queue } else f,
  )

  unfoldable pub increment_drop_count : Fifo A → Fifo A
  increment_drop_count f = record f { drop_count = inc_size f.drop_count }

-- The calls of the threads that share a queue.
pub data Call {ℓ} (A : Type ℓ) : Type ℓ where
  pushes : A → ℕ → Call A
  pops stops drops : Call A
  reads_stats : Bool → Call A

module _ {ℓ} {A : Type ℓ} where
  -- The item that a call hands out.
  abbrev pub delivered : Pop A → List A
  delivered blocks = []
  delivered closed = []
  delivered (item a) = a ∷ []

  unfoldable pub step : Call A → Fifo A → List A × Fifo A
  unfolding push wait_and_pop stop get_stats increment_drop_count
  step (pushes a now) f = ([], push a now f)
  step pops f = let (out, f') = wait_and_pop f in (delivered out, f')
  step stops f = ([], stop f)
  step drops f = ([], increment_drop_count f)
  step (reads_stats reset) f = ([], (get_stats reset f).1)

  -- All items that the calls hand out, in order, and the queue after them.
  unfoldable pub run : List (Call A) → Fifo A → List A × Fifo A
  run [] f = ([], f)
  run (c ∷ cs) f = let (out, f') = step c f in let (outs, f'') = run cs f' in (out ++ outs, f'')
