-- ===== src/Publisher/Batching.antt =====
-- publisher.cpp, `Publisher::batching_loop`: the batcher thread between the queue of processed frames
-- and the queue of batches. A round of its loop is one event; the others are what its neighbours do.
use frame_processor.Base.{
  ℕ, ◌+◌, ℤ, pos, eqb_ℤ, eqb_ℤ_iff, ltb_ℤ, leb_ℤ, Text, text_eq, text_eq_iff, text_lt, Bool, true,
  false, ◌&&◌, ◌||◌, List, [], ◌∷◌, ◌++◌, none, some, Key, Dict, find, insert, erase, if◌then◌else◌,
  ltb, arith, ◌≡◌, ◌↔◌,
}
use frame_processor.Types.{DecodedFrame}
use frame_processor.Fifo.{Fifo, Pop, blocks, closed, item, push, stop, wait_and_pop}
use frame_processor.Publisher.Serialize.{append_frame}

-- `FrameBatch`; its members `width` and `height` are never written or read. The count is an `int`
-- that starts at zero and only grows.
pub record FrameBatch : Type 0 where
  pub stream_id : ℤ
  pub event_name : Text
  pub frame_count : ℕ
  pub data_buffer : List ℕ

-- `std::pair<long long, std::string>`, in the order of pairs.
abbrev pub BatchKey : Type 0
BatchKey = ℤ × Text

abbrev pub key_eq : BatchKey → BatchKey → Bool
key_eq (i, s) (j, t) = eqb_ℤ i j && text_eq s t

abbrev pub key_lt : BatchKey → BatchKey → Bool
key_lt (i, s) (j, t) = ltb_ℤ i j || (eqb_ℤ i j && text_lt s t)

pub key_eq_iff : (a b : BatchKey) → (key_eq a b ≡ true) ↔ (a ≡ b)
key_eq_iff (i, s) (j, t) = ground (arith, eqb_ℤ_iff i j, text_eq_iff s t)

unfoldable pub batch_key : Key BatchKey
batch_key = record { eq = key_eq; lt = key_lt; eq_iff = key_eq_iff }

abbrev pub Batches : Type 0
Batches = Dict BatchKey FrameBatch

-- The key of a frame.
abbrev pub frame_key : DecodedFrame → BatchKey
frame_key d = (d.source_config.id, d.event_config.name)

abbrev pub new_batch : DecodedFrame → FrameBatch
new_batch d = record {
  stream_id = d.source_config.id;
  event_name = d.event_config.name;
  frame_count = 0;
  data_buffer = [];
}

-- The key under which a batch is published.
abbrev pub key_of : FrameBatch → BatchKey
key_of b = (b.stream_id, b.event_name)

-- The batch of a frame's key, made if it is not there, with the frame packed into it.
unfoldable pub extended : DecodedFrame → Batches → FrameBatch
extended d m =
    let batch : FrameBatch = elim (find batch_key (frame_key d) m) [
      | none ↦ new_batch d
      | some b ↦ b
    ] in
    record batch {
      data_buffer = append_frame d.frame batch.data_buffer;
      frame_count = batch.frame_count + 1;
    }

-- The body of the loop: `now` is the clock's reading if the full batch is pushed.
unfoldable pub pack : DecodedFrame → ℕ → Batches → Fifo FrameBatch → Batches × Fifo FrameBatch
pack d now m out =
    let batch = extended d m in
    let m' = insert batch_key (frame_key d) batch m in
    if leb_ℤ d.event_config.batch_size (pos batch.frame_count)
    then (erase batch_key (frame_key d) m', push batch now out)
    else (m', out)

-- The partial batches, in the order of their keys.
unfoldable pub flush : ℕ → Batches → Fifo FrameBatch → Fifo FrameBatch
flush now [] out = out
flush now ((k, b) ∷ m) out = flush now m (if ltb 0 b.frame_count then push b now out else out)

-- The queues, the batches of the loop, and the batches that publisher threads have taken.
pub record Batcher : Type 0 where
  pub processed : Fifo DecodedFrame
  pub batches : Batches
  pub batch_queue : Fifo FrameBatch
  pub taken : List FrameBatch
  pub finished : Bool

-- A worker pushes a frame; the processed queue is stopped; a publisher thread takes a batch, or puts
-- one back that it could not send; a round of the loop, with what `stop_requested` says at its head and what the clock reads.
pub data Event : Type 0 where
  arrives : DecodedFrame → ℕ → Event
  closes takes : Event
  returns : FrameBatch → ℕ → Event
  round : Bool → ℕ → Event

-- The loop is left: the partial batches are pushed.
unfoldable pub finish : ℕ → Batcher → Batcher
finish now s = record s {
  batches = [];
  batch_queue = flush now s.batches s.batch_queue;
  finished = true;
}

-- What a round does with the answer of `wait_and_pop`; a call that waits leaves all as it was.
unfoldable pub receive : ℕ → Pop DecodedFrame × Fifo DecodedFrame → Batcher → Batcher
receive now (blocks, q) s = s
receive now (closed, q) s = finish now s
receive now (item d, q) s =
    let packed_frame = pack d now s.batches s.batch_queue in
    record s { processed = q; batches = packed_frame.0; batch_queue = packed_frame.1 }

abbrev pub taken_batch : Pop FrameBatch → List FrameBatch
taken_batch blocks = []
taken_batch closed = []
taken_batch (item b) = b ∷ []

unfoldable pub advance : Event → Batcher → Batcher
advance (arrives d now) s = record s { processed = push d now s.processed }
advance closes s = record s { processed = stop s.processed }
advance takes s =
    let popped = wait_and_pop s.batch_queue in
    record s { batch_queue = popped.1; taken = s.taken ++ taken_batch popped.0 }
advance (returns b now) s = record s { batch_queue = push b now s.batch_queue }
advance (round stop_requested now) s =
    if s.finished
    then s
    else if stop_requested
    then finish now s
    else receive now (wait_and_pop s.processed) s

unfoldable pub batching : List Event → Batcher → Batcher
batching [] s = s
batching (e ∷ es) s = batching es (advance e s)

-- The batcher as `Publisher`'s constructor starts it.
unfoldable pub fresh : Fifo DecodedFrame → Fifo FrameBatch → Batcher
fresh processed out = record {
  processed = processed;
  batches = [];
  batch_queue = out;
  taken = [];
  finished = false;
}
