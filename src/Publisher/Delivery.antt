-- ===== src/Publisher/Delivery.antt =====
-- publisher.cpp, `publisher_loop`: what becomes of every batch that is offered.
use frame_processor.Base.{
  ℕ, ◌+◌, Bool, true, false, List, [], ◌∷◌, ◌++◌, ◌≡◌, refl, ap, ◌∙◌, Text, if◌then◌else◌, if_both,
  arith,
}
use frame_processor.Base.Totals.{total, total-append}
use frame_processor.Fifo.{Fifo, Pop, blocks, closed, item, wait_and_pop, push, stop}
use frame_processor.Fifo.Order.{queue-push, stopped-push}
use frame_processor.Publisher.Batching.{FrameBatch}
use frame_processor.Publisher.Sender.{
  Entry, Sender, Weather, deliver, handle, popped, Event, offers, takes, closes, round, advance,
  publisher_loop,
}
use frame_processor.Publisher.Sending.{in_batch, delivered-Sent}

-- The batches that a history offers while the queue runs, from a queue that is stopped or not.
abbrev pub accepted : Bool → List Event → List FrameBatch
accepted stopped [] = []
accepted stopped (offers b now ∷ es) =
    if stopped then accepted stopped es else b ∷ accepted stopped es
accepted stopped (takes ∷ es) = accepted stopped es
accepted stopped (closes ∷ es) = accepted true es
accepted stopped (round r e ∷ es) = accepted stopped es

module _ (p : Entry → Bool) (base : Text) where
  abbrev pub one : Entry → ℕ
  one e = if p e then 1 else 0

  -- How many batches have an entry that passes the test.
  abbrev pub batches : List FrameBatch → ℕ
  batches = total (in_batch base one)

  -- The batches on the queue, those with other threads, the simulated and the dropped ones, and the
  -- entries of the stream.
  abbrev pub tally : Sender → ℕ
  tally s =
      batches s.batch_queue.queue
      + batches s.others
      + batches s.simulated
      + batches s.lost
      + total one s.stream

  -- A queue that is stopped or not, and the account from `n` and `m`.
  Holds : Bool → ℕ → ℕ → Sender → Type 0
  Holds z n m s = (s.batch_queue.stopped ≡ z) × (tally s + m ≡ n + batches s.repeated)

  deliver-Holds :
      (z : Bool) (n m : ℕ) (e : Weather) (b : FrameBatch) (s : Sender)
      → s.batch_queue.stopped ≡ z
      → tally s + in_batch base one b + m ≡ n + batches s.repeated
      → Holds z n m (deliver base e b s)
  unfolding Holds
  deliver-Holds z n m e b s k t =
      let d = delivered-Sent base one e b s in
      (d.stopped ∙ k, omega (arith, t, d.conserved, ap batches d.others, ap batches d.simulated))

  -- What a call of `wait_and_pop` takes and leaves.
  IsSplit : Fifo FrameBatch → Pop FrameBatch × Fifo FrameBatch → Type 0
  IsSplit f r =
      (r.1.stopped ≡ f.stopped) × (batches (popped r.0) + batches r.1.queue ≡ batches f.queue)

  wait_and_pop-IsSplit : (f : Fifo FrameBatch) → IsSplit f (wait_and_pop f)
  unfolding wait_and_pop IsSplit
  wait_and_pop-IsSplit f = of_queue f.queue f
    where
      of_queue :
          (q : List FrameBatch) (f : Fifo FrameBatch)
          → IsSplit (record f { queue = q }) (wait_and_pop (record f { queue = q }))
      of_queue [] f = (
        refl,
        if_both (λ (a : Pop FrameBatch). batches (popped a) + 0 ≡ 0) f.stopped (omega arith)
            (omega arith),
      )
      of_queue (b ∷ rest) f = (refl, omega arith)

  handle-Holds :
      (dry_run z : Bool) (n m : ℕ) (e : Weather) (s : Sender) (r : Pop FrameBatch × Fifo FrameBatch)
      → IsSplit s.batch_queue r
      → Holds z n m s
      → Holds z n m (handle base dry_run e r s)
  unfolding handle Holds IsSplit
  handle-Holds dry_run z n m e s (blocks, q) k h = h
  handle-Holds dry_run z n m e s (closed, q) k h = h
  handle-Holds dry_run z n m e s (item b, q) (k, l) (r, t) =
      if_both (Holds z n m) dry_run
        (k ∙ r, omega (arith, l, t, total-append (in_batch base one) s.simulated (b ∷ [])))
        (deliver-Holds z n m e b (record s { batch_queue = q }) (k ∙ r) (omega (arith, l, t)))

  takes-Holds :
      (z : Bool) (n m : ℕ) (s : Sender) (r : Pop FrameBatch × Fifo FrameBatch)
      → IsSplit s.batch_queue r
      → Holds z n m s
      → Holds z n m (record s { batch_queue = r.1; others = s.others ++ popped r.0 })
  unfolding Holds IsSplit
  takes-Holds z n m s (a, q) (k, l) (r, t) =
      (k ∙ r, omega (arith, l, t, total-append (in_batch base one) s.others (popped a)))

  offered-Holds :
      (z : Bool) (n m now : ℕ) (b : FrameBatch) (s : Sender)
      → Holds z n m s
      → Holds z
          (if z then n else n + in_batch base one b)
          m
          (record s { batch_queue = push b now s.batch_queue })
  unfolding Holds
  offered-Holds true n m now b s (r, t) =
      (stopped-push b now s.batch_queue ∙ r, rw (queue-push b now s.batch_queue, r) t)
  offered-Holds false n m now b s (r, t) = (
    stopped-push b now s.batch_queue ∙ r,
    rw (queue-push b now s.batch_queue, r)
        (omega (arith, t, total-append (in_batch base one) s.batch_queue.queue (b ∷ []))),
  )

  publisher_loop-Holds :
      (dry_run z : Bool) (es : List Event) (n m : ℕ) (s : Sender)
      → Holds z n m s
      → tally (publisher_loop base dry_run es s) + m
        ≡ n + batches (accepted z es) + batches (publisher_loop base dry_run es s).repeated
  unfolding publisher_loop advance Holds stop
  publisher_loop-Holds dry_run z [] n m s (r, t) = omega (arith, t)
  publisher_loop-Holds dry_run true (offers b now ∷ es) n m s h =
      publisher_loop-Holds dry_run true es n m _ (offered-Holds true n m now b s h)
  publisher_loop-Holds dry_run false (offers b now ∷ es) n m s h = omega (
    arith,
    publisher_loop-Holds dry_run false es (n + in_batch base one b) m
        (record s { batch_queue = push b now s.batch_queue }) (offered-Holds false n m now b s h),
  )
  publisher_loop-Holds dry_run z (takes ∷ es) n m s h =
      publisher_loop-Holds dry_run z es n m _
        (takes-Holds z n m s (wait_and_pop s.batch_queue) (wait_and_pop-IsSplit s.batch_queue) h)
  publisher_loop-Holds dry_run z (closes ∷ es) n m s (r, t) =
      publisher_loop-Holds dry_run true es n m (record s { batch_queue = stop s.batch_queue })
        (refl, t)
  publisher_loop-Holds dry_run z (round r e ∷ es) n m s h =
      publisher_loop-Holds dry_run z es n m _ (
        if_both (Holds z n m) s.finished h (
          if_both (Holds z n m) r h (
            handle-Holds dry_run z n m e s (wait_and_pop s.batch_queue)
              (wait_and_pop-IsSplit s.batch_queue) h)))

-- A publisher thread, in any order of offers, stops, rounds and takes by other threads, whatever the
-- connections and commands do, and whether sending is simulated or not: of the batches whose entry
-- passes any test, those on the queue, with other threads, simulated and dropped, and the entries of
-- the stream, are together as many as at first, and those that were offered while the queue ran, and
-- those put back since although Redis had stored them.
pub publisher_loop-tally :
    (p : Entry → Bool) (base : Text) (dry_run : Bool) (es : List Event) (s : Sender)
    → tally p base (publisher_loop base dry_run es s) + batches p base s.repeated
      ≡ tally p base s
        + batches p base (accepted s.batch_queue.stopped es)
        + batches p base (publisher_loop base dry_run es s).repeated
unfolding Holds
publisher_loop-tally p base dry_run es s =
    publisher_loop-Holds p base dry_run s.batch_queue.stopped es (tally p base s)
      (batches p base s.repeated) s (refl, refl)
