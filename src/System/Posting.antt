-- ===== src/System/Posting.antt =====
-- The steps of the publisher threads keep what is in flight.
use frame_processor.Base.{
  ℕ, ◌≡◌, ap, ◌∙◌, Bool, true, none, some, Text, arith, if_both, inl, inr, Option-cases,
}
use frame_processor.Base.Totals.{get_elem?, set, total, total-set, optional}
use frame_processor.Fifo.{Fifo, Pop}
use frame_processor.Fifo.Order.{PopCases, wait_and_pop_cases}
use frame_processor.Worker.Filter.{Avfilter}
use frame_processor.Publisher.Batching.{FrameBatch}
use frame_processor.Publisher.Sender.{Entry, Weather, deliver}
use frame_processor.System.Weight.{Weight}
use frame_processor.System.Threads.{Post, System, as_sender, takes_by, takes, delivers}
use frame_processor.Publisher.Sending.{in_batch, delivered-Sent}
use frame_processor.System.Invariant.{IsBalanced}

module _ (av : Avfilter) (base : Text) (measure : Entry → ℕ) (w : Weight) where
  open av use {Graph}
  open w use {Fair, batch, frame}

  closed_post :
      (j : ℕ) (t : Post) (s : System Graph)
      → get_elem? s.posts j ≡ some t
      → IsBalanced av measure w s
      → IsBalanced av measure w (record s { posts = set s.posts j (record t { finished = true }) })
  closed_post j t s e v = record {
    conserved = omega (
      arith,
      v.conserved,
      total-set (λ (t : Post). optional batch t.batch) s.posts j t (record t { finished = true }) e,
    );
    batcher = v.batcher;
    fed = v.fed;
    fair = v.fair;
  }

  takes_by-IsBalanced :
      (j : ℕ) (t : Post) (r : Pop FrameBatch × Fifo FrameBatch) (s : System Graph)
      → get_elem? s.posts j ≡ some t
      → t.batch ≡ none
      → PopCases s.batcher.batch_queue r
      → IsBalanced av measure w s
      → IsBalanced av measure w (takes_by j t r s)
  unfolding takes_by
  takes_by-IsBalanced j t r s e n (inl (eq, es, h)) v = rw h v
  takes_by-IsBalanced j t r s e n (inr (inl (eq, es, h))) v = rw h (closed_post j t s e v)
  takes_by-IsBalanced j t r s e n (inr (inr (b, q, eq, h))) v = rw h (record {
    conserved = omega (
      arith,
      v.conserved,
      ap (total batch) eq,
      ap (optional batch) n,
      total-set (λ (t : Post). optional batch t.batch) s.posts j t (record t { batch = some b }) e,
    );
    batcher = λ on.
        let b = v.batcher on in
        record {
          sound = record {
            unique = b.sound.unique;
            keyed = b.sound.keyed;
            running = b.sound.running;
          };
          valid = b.valid;
          fair = b.fair;
        };
    fed = v.fed;
    fair = v.fair;
  })

  pub takes-IsBalanced :
      (j : ℕ) (stop_requested : Bool) (t : Post) (s : System Graph)
      → get_elem? s.posts j ≡ some t
      → IsBalanced av measure w s
      → IsBalanced av measure w (takes j stop_requested t s)
  unfolding takes
  takes-IsBalanced j stop_requested t s e v = elim (Option-cases t.batch) [
    | inr (b, n) ↦ rw (n, takes) v
    | inl n ↦
        rw (n, takes)
          (if_both (IsBalanced av measure w) t.finished v (
            if_both (IsBalanced av measure w) stop_requested (closed_post j t s e v)
              (takes_by-IsBalanced j t _ s e n (wait_and_pop_cases s.batcher.batch_queue) v)))
  ]

  sent_post :
      (j : ℕ) (b : FrameBatch) (weather : Weather) (t : Post) (s : System Graph)
      → w.batch ≡ in_batch base measure
      → get_elem? s.posts j ≡ some t
      → t.batch ≡ some b
      → IsBalanced av measure w s
      → (let r = deliver base weather b (as_sender s t) in
          IsBalanced av measure w (record s {
            posts =
                set s.posts j
                  (record { redis_conn = r.redis_conn; batch = none; finished = t.finished });
            batcher = record s.batcher { batch_queue = r.batch_queue };
            ledger = r.ledger;
            stream = r.stream;
            lost = r.lost;
            repeated = r.repeated;
          }))
  unfolding as_sender
  sent_post j b weather t s same e n v =
      let r = deliver base weather b (as_sender s t) in
      let d = delivered-Sent base measure weather b (as_sender s t) in
      let t' : Post = record { redis_conn = r.redis_conn; batch = none; finished = t.finished } in
      record {
        conserved = omega (
          arith,
          v.conserved,
          d.conserved,
          ap (λ g. total g r.batch_queue.queue) same,
          ap (λ g. total g s.batcher.batch_queue.queue) same,
          ap (λ g. total g r.lost) same,
          ap (λ g. total g s.lost) same,
          ap (λ g. total g r.repeated) same,
          ap (λ g. total g s.repeated) same,
          ap (λ g. g b) same,
          ap (optional batch) n,
          total-set (λ (t : Post). optional batch t.batch) s.posts j t t' e,
        );
        batcher = λ on.
            let f = v.batcher on in
            record {
              sound = record {
                unique = f.sound.unique;
                keyed = f.sound.keyed;
                running = d.stopped ∙ f.sound.running;
              };
              valid = f.valid;
              fair = f.fair;
            };
        fed = v.fed;
        fair = v.fair;
      }

  pub sends-IsBalanced :
      (j : ℕ) (weather : Weather) (t : Post) (s : System Graph)
      → w.batch ≡ in_batch base measure
      → get_elem? s.posts j ≡ some t
      → IsBalanced av measure w s
      → IsBalanced av measure w (delivers base j weather t s)
  unfolding delivers as_sender
  sends-IsBalanced j weather t s same e v = elim (Option-cases t.batch) [
    | inl n ↦ rw (n, delivers) v
    | inr (b, n) ↦ rw (n, delivers) (sent_post j b weather t s same e n v)
  ]
