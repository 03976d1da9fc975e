-- ===== src/Fifo/Counters.antt =====
-- The metrics of the queue.
use frame_processor.Base.{◌+◌, ◌%◌, ◌^◌, ◌≤◌, ◌≡◌, List, [], ◌∷◌, arith, length, length-append}
use frame_processor.Fifo.{Fifo, Call, pushes, pops, stops, drops, reads_stats, step, run}

-- The pushed items are the popped and the queued ones, up to the wrap of `size_t`, and the peak is no
-- less than the present size.
pub record IsCounted {ℓ} {A : Type ℓ} (f : Fifo A) : Type 0 where
  pub balanced : f.total_pushed ≡ (f.total_popped + length f.queue) % 2 ^ 64
  pub peaked : length f.queue ≤ f.peak_size

module _ {ℓ} {A : Type ℓ} where
  step-IsCounted : (c : Call A) (f : Fifo A) → IsCounted f → IsCounted (step c f).1
  unfolding step
  step-IsCounted (pushes a now) f h = ground (arith, length-append f.queue (a ∷ []))
  step-IsCounted pops f h = ground arith
  step-IsCounted stops f h = ground arith
  step-IsCounted drops f h = ground arith
  step-IsCounted (reads_stats r) f h = ground arith

  -- Every history keeps the counters in step with the queue.
  pub run-IsCounted : (cs : List (Call A)) (f : Fifo A) → IsCounted f → IsCounted (run cs f).1
  unfolding run
  run-IsCounted [] f h = h
  run-IsCounted (c ∷ cs) f h = run-IsCounted cs (step c f).1 (step-IsCounted c f h)
