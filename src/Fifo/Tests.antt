-- ===== src/Fifo/Tests.antt =====
-- Runs of a small queue, and the theorems at inputs that meet their hypotheses.
use frame_processor.Base.{ℕ, ◌≡◌, refl, false, List, [], ◌∷◌, ◌++◌, codes, arith}
use frame_processor.Fifo.{Fifo, Call, pushes, pops, stops, closed, item, stop, step, run}
use frame_processor.Fifo.Warnings.{warnings}
use frame_processor.Fifo.Order.{run-queue}
use frame_processor.Fifo.Counters.{IsCounted, run-IsCounted}
use frame_processor.Fifo.Drain.{drain, drain-stopped}

abbrev small : Fifo ℕ
small = record {
  queue = 4 ∷ 5 ∷ [];
  warning_threshold = 2;
  name = codes "q";
  stopped = false;
  last_warning_time = 0;
  peak_size = 3;
  total_pushed = 6;
  total_popped = 4;
  drop_count = 0;
}

abbrev history : List (Call ℕ)
history = pushes 6 20_000_000_000 ∷ pops ∷ pushes 7 21_000_000_000 ∷ stops ∷ pushes 8 0 ∷ pops ∷ []

history_runs : (run history small).0 ≡ 4 ∷ 5 ∷ []
unfolding run step
history_runs = refl

history_warns : warnings history small ≡ 20_000_000_000 ∷ []
unfolding warnings step
history_warns = refl

small-IsCounted : IsCounted small
small-IsCounted = omega arith

run-queue_example : (run history small).0 ++ (run history small).1.queue ≡ 4 ∷ 5 ∷ 6 ∷ 7 ∷ []
run-queue_example = run-queue history small

run-IsCounted_example : IsCounted (run history small).1
run-IsCounted_example = run-IsCounted history small small-IsCounted

drain-stopped_example : drain 3 (stop small) ≡ item 4 ∷ item 5 ∷ closed ∷ []
unfolding stop
drain-stopped_example = drain-stopped (stop small) refl
