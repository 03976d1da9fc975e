-- ===== src/Publisher/Losses.antt =====
-- publisher.cpp, `publisher_loop`: when no batch is dropped.
use frame_processor.Base.{ℕ, ◌+◌, Bool, false, List, ◌≡◌, Text}
use frame_processor.Base.Totals.{total}
use frame_processor.Fifo.{Fifo}
use frame_processor.Publisher.Batching.{FrameBatch}
use frame_processor.Publisher.Sender.{
  Entry, Sender, Reply, stored, error_reply, no_reply, Event, offers, takes, closes, round,
}
use frame_processor.Publisher.Delivery.{one, batches}

-- The command is not refused.
abbrev pub IsTaken : Reply → Type 0
IsTaken stored = Unit
IsTaken error_reply = ⊥
IsTaken (no_reply executed) = Unit

-- The queue is not stopped, and no command is refused.
abbrev pub IsHarmless : Event → Type 0
IsHarmless (offers b now) = Unit
IsHarmless takes = Unit
IsHarmless closes = ⊥
IsHarmless (round stop_requested e) = IsTaken e.reply

module _ (base : Text) (l : List FrameBatch) where
  -- The queue runs, and these are the batches that were dropped.
  abbrev Keeps : Sender → Type 0
  Keeps s = (s.batch_queue.stopped ≡ false) × (s.lost ≡ l)

-- The batches on the queue, those with other threads and the simulated ones, and the entries of the
-- stream.
abbrev pub present : (Entry → Bool) → Text → Sender → ℕ
present p base s =
    batches p base s.batch_queue.queue
    + batches p base s.others
    + batches p base s.simulated
    + total (one p base) s.stream
