-- ===== src/Publisher/Sending.antt =====
-- A publisher thread takes a batch and sends it: what the thread, the queue, the stream and the logs
-- of the publisher threads hold together stays.
use frame_processor.Base.{
  ℕ, ◌+◌, ◌≡◌, refl, subst, ◌∙◌, Bool, [], ◌∷◌, Option, none, some, Text, arith, if_both,
  if◌then◌else◌, inl, inr, Bool-cases,
}
use frame_processor.Base.Totals.{total, total-append}
use frame_processor.Fifo.{Fifo, push}
use frame_processor.Fifo.Order.{queue-push, stopped-push}
use frame_processor.Publisher.Batching.{FrameBatch}
use frame_processor.Publisher.Connection.{Connect}
use frame_processor.Publisher.Sender.{
  Entry, entry, Sender, Weather, has_connection, reconnect, requeue, reset, command, context_of,
  deliver, unanswered, Reply, stored, error_reply, no_reply,
}

module _ (base : Text) (measure : Entry → ℕ) where
  -- A batch, as its entry.
  abbrev pub in_batch : FrameBatch → ℕ
  in_batch b = measure (entry base b)

  -- The queue, the stream and the dropped batches have `n` more than before, and as much as the
  -- batches that are repeated.
  pub record Sent (n : ℕ) (old s : Sender) : Type 0 where
    pub others : s.others ≡ old.others
    pub simulated : s.simulated ≡ old.simulated
    pub stopped : s.batch_queue.stopped ≡ old.batch_queue.stopped
    pub conserved :
        total in_batch s.batch_queue.queue
          + total measure s.stream
          + total in_batch s.lost
          + total in_batch old.repeated
        ≡ n
          + total in_batch old.batch_queue.queue
          + total measure old.stream
          + total in_batch old.lost
          + total in_batch s.repeated

  total-push :
      (b : FrameBatch) (now : ℕ) (q : Fifo FrameBatch)
      → total in_batch (push b now q).queue + total in_batch (if q.stopped then b ∷ [] else [])
        ≡ total in_batch q.queue + in_batch b
  total-push b now q = elim (Bool-cases q.stopped) [
    | inl e ↦ rw (queue-push b now q, e) (omega arith)
    | inr e ↦ rw (queue-push b now q, e) (omega (arith, total-append in_batch q.queue (b ∷ [])))
  ]

  pub requeue-Sent :
      (n : ℕ) (b : FrameBatch) (now : ℕ) (old s : Sender)
      → Sent n old s
      → Sent (n + in_batch b) old (requeue b now s)
  unfolding requeue
  requeue-Sent n b now old s h = record {
    stopped = stopped-push b now s.batch_queue ∙ h.stopped;
    others = h.others;
    simulated = h.simulated;
    conserved = omega (
      arith,
      h.conserved,
      total-push b now s.batch_queue,
      total-append in_batch s.lost (if s.batch_queue.stopped then b ∷ [] else []),
    );
  }

  reset-Sent : (n : ℕ) (old s : Sender) → Sent n old s → Sent n old (reset s)
  unfolding reset
  reset-Sent n old s h = record {
    stopped = h.stopped;
    others = h.others;
    simulated = h.simulated;
    conserved = h.conserved;
  }

  unanswered-Sent :
      (n : ℕ) (executed : Bool) (b : FrameBatch) (old s : Sender)
      → Sent n old s
      → Sent n old (unanswered base executed b s)
  unfolding unanswered
  unanswered-Sent n executed b old s h =
      if_both (Sent n old) executed
        (record {
          stopped = h.stopped;
          others = h.others;
          simulated = h.simulated;
          conserved = omega (
            arith,
            h.conserved,
            total-append measure s.stream (entry base b ∷ []),
            total-append in_batch s.repeated (b ∷ []),
          );
        })
        h

  command-Sent :
      (n : ℕ) (e : Weather) (b : FrameBatch) (c : Option ℕ) (old s : Sender)
      → Sent n old s
      → Sent (n + in_batch b) old (command base e b c s)
  unfolding command
  command-Sent n e b c old s h = of_reply c e.connects e.reply e.now
    where
      of_reply :
          (c : Option ℕ) (k : Connect) (r : Reply) (now : ℕ)
          → Sent
              (n + in_batch b)
              old
              (command base (record { connects = k; reply = r; now = now }) b c s)
      of_reply none k r now = (reset-Sent (n + in_batch b) old _ (requeue-Sent n b now old s h))
      of_reply (some x) k stored now = (record {
        stopped = h.stopped;
        others = h.others;
        simulated = h.simulated;
        conserved = omega (arith, h.conserved, total-append measure s.stream (entry base b ∷ []));
      })
      of_reply (some x) k error_reply now = (record {
        stopped = h.stopped;
        others = h.others;
        simulated = h.simulated;
        conserved = omega (arith, h.conserved, total-append in_batch s.lost (b ∷ []));
      })
      of_reply (some x) k (no_reply executed) now =
          (requeue-Sent n b now old _ (reset-Sent n old _ (unanswered-Sent n executed b old s h)))

  reconnect-Sent :
      (n : ℕ) (e : Weather) (old s : Sender) → Sent n old s → Sent n old (reconnect e.connects s)
  unfolding reconnect
  reconnect-Sent n e old s h = record {
    stopped = h.stopped;
    others = h.others;
    simulated = h.simulated;
    conserved = h.conserved;
  }

  pub deliver-Sent :
      (n : ℕ) (e : Weather) (b : FrameBatch) (old s : Sender)
      → Sent n old s
      → Sent (n + in_batch b) old (deliver base e b s)
  unfolding deliver
  deliver-Sent n e b old s h =
      if_both (Sent (n + in_batch b) old) (has_connection s.redis_conn)
        (command-Sent n e b (context_of s.redis_conn) old s h)
        (if_both (Sent (n + in_batch b) old) (has_connection (reconnect e.connects s).redis_conn)
          (command-Sent n e b (context_of (reconnect e.connects s).redis_conn) old
            (reconnect e.connects s) (reconnect-Sent n e old s h))
          (requeue-Sent n b e.now old (reconnect e.connects s) (reconnect-Sent n e old s h)))

  -- From a sender, the batch is sent, on the queue again, or dropped.
  pub delivered-Sent :
      (e : Weather) (b : FrameBatch) (s : Sender) → Sent (in_batch b) s (deliver base e b s)
  delivered-Sent e b s =
      let none_yet : Sent 0 s s = record {
        stopped = refl;
        others = refl;
        simulated = refl;
        conserved = omega arith;
      } in
      let added : 0 + in_batch b ≡ in_batch b = omega arith in
      subst (λ n. Sent n s (deliver base e b s)) added (deliver-Sent 0 e b s s none_yet)
