-- ===== src/Publisher/SenderTests.antt =====
-- A publisher thread through a failed command and a reconnection, and its theorems there.
use frame_processor.Base.{
  some, ◌+◌, pos, Bool, true, false, List, [], ◌∷◌, ◌≡◌, refl, none, codes, text_eq,
}
use frame_processor.Fifo.{new, push, wait_and_pop}
use frame_processor.Publisher.Batching.{FrameBatch}
use frame_processor.Publisher.Connection.{
  moved, move_assigned, with_error, ready, new_connection, destroy, is_valid, get,
}
use frame_processor.Publisher.Sender.{
  stored, error_reply, no_reply, unanswered, Entry, entry, Sender, Weather, has_connection, release,
  reconnect, requeue, reset, command, context_of, deliver, handle, Event, offers, round, advance,
  publisher_loop,
}
use frame_processor.Publisher.Delivery.{tally, batches, accepted, publisher_loop-tally}
use frame_processor.Publisher.Ledger.{publisher_loop-frees}

abbrev batch : FrameBatch
batch = record {
  stream_id = pos 7;
  event_name = codes "door";
  frame_count = 2;
  data_buffer = 1 ∷ 2 ∷ [];
}

abbrev thread : Sender
thread = record {
  batch_queue = new 10 (codes "publisher_batch_queue");
  redis_conn = none;
  ledger = record { made = []; freed = [] };
  others = [];
  simulated = [];
  stream = [];
  lost = [];
  repeated = [];
  finished = false;
}

abbrev silent : Weather
silent = record { connects = with_error 2; reply = no_reply false; now = 0 }

abbrev fair : Weather
fair = record { connects = ready 3; reply = stored; now = 0 }

-- The command fails, the next connection fails, and the one after it works.
abbrev history : List Event
history =
    offers batch 0
    ∷ round false silent
    ∷ round false silent
    ∷ round false fair
    ∷ round true fair
    ∷ []

abbrev for_door : Entry → Bool
for_door e = text_eq e.event (codes "door")

sent_at_last :
    (publisher_loop (codes "fp_batches") false history (reconnect (ready 1) thread)).stream
    ≡ record { redis_key = codes "fp_batches:7"; event = codes "door"; data_buffer = 1 ∷ 2 ∷ [] }
      ∷ []
unfolding publisher_loop advance handle deliver command unanswered reconnect requeue reset release
    has_connection context_of new_connection destroy is_valid get entry new push wait_and_pop
sent_at_last = refl

abbrev from_ready : Event → Sender
from_ready e =
    publisher_loop (codes "fp_batches") false (offers batch 0 ∷ e ∷ []) (reconnect (ready 1) thread)

-- An error reply loses the batch; a lost reply to a stored one puts it back.
lost_by_error : (from_ready (round false (record fair { reply = error_reply }))).lost ≡ batch ∷ []
unfolding publisher_loop advance handle deliver command unanswered reconnect requeue reset release
    has_connection context_of new_connection destroy is_valid get entry new push wait_and_pop
lost_by_error = refl

stored_and_put_back :
    (let s = from_ready (round false (record fair { reply = no_reply true })) in
      (s.stream ≡ entry (codes "fp_batches") batch ∷ []) × (s.batch_queue.queue ≡ batch ∷ []))
unfolding publisher_loop advance handle deliver command unanswered reconnect requeue reset release
    has_connection context_of new_connection destroy is_valid get entry new push wait_and_pop
stored_and_put_back = (refl, refl)

publisher_loop-tally_example :
    tally for_door (codes "fp_batches") (publisher_loop (codes "fp_batches") false history thread)
      + batches for_door (codes "fp_batches") thread.repeated
    ≡ tally for_door (codes "fp_batches") thread
      + batches for_door (codes "fp_batches") (accepted thread.batch_queue.stopped history)
      + batches for_door
          (codes "fp_batches")
          (publisher_loop (codes "fp_batches") false history thread).repeated
publisher_loop-tally_example =
    publisher_loop-tally for_door (codes "fp_batches") false history thread

abbrev end_of : List Event → Sender
end_of es = publisher_loop (codes "fp_batches") false es (reconnect (ready 1) thread)

publisher_loop-frees_example :
    (release (end_of history).redis_conn (end_of history).ledger).freed
    ≡ (release (end_of history).redis_conn (end_of history).ledger).made
publisher_loop-frees_example =
    publisher_loop-frees (codes "fp_batches") false (ready 1) history thread refl refl

-- A connection that is assigned replaces the own one, whose context is freed.
connection_assigned :
    (move_assigned
      (record { context = some 1 })
      (record { context = some 2 })
      (record { made = 1 ∷ 2 ∷ []; freed = [] })).1.freed
    ≡ 1 ∷ []
unfolding move_assigned moved
connection_assigned = refl
