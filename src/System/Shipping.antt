-- ===== src/System/Shipping.antt =====
-- The publisher threads can send all batches, if Redis can be reached, stores and replies.
use frame_processor.Base.{
  ℕ, zero, suc, ◌≡◌, refl, ap, ap₂, sym, ◌∙◌, subst, Bool, false, List, [], ◌∷◌, Option, none, some,
  Text, arith, inl, inr, ◌⊎◌, All, Option-cases,
}
use frame_processor.Base.Totals.{get_elem?, set, total, total-set, optional}
use frame_processor.Fifo.{Fifo, wait_and_pop}
use frame_processor.Types.{DecodedFrame}
use frame_processor.Worker.Filter.{Avfilter}
use frame_processor.Publisher.Batching.{FrameBatch, Batches}
use frame_processor.Publisher.Connection.{RedisConnection, ready, new_connection, is_valid, get}
use frame_processor.Publisher.Sender.{
  stored, Sender, Weather, has_connection, reconnect, command, context_of, deliver,
}
use frame_processor.System.Worker.{Busy}
use frame_processor.System.Threads.{
  Post, System, as_sender, takes_by, takes, delivers, takes_batch, sends, step,
}
use frame_processor.System.Reaching.{Reaches, reached_here, reached_by, reached_then}
use frame_processor.System.Emptying.{Serves, record_of}

-- A connection can be made, and the command is replied to.
abbrev fair : Weather
fair = record { connects = ready 0; reply = stored; now = 0 }

-- What a sent batch leaves as it is.
abbrev Delivers : Text → FrameBatch → Sender → Type 0
Delivers base b s =
    let r = deliver base fair b s in
    (r.batch_queue ≡ s.batch_queue) × (r.lost ≡ s.lost) × (r.repeated ≡ s.repeated)

deliver-fair : (base : Text) (b : FrameBatch) (s : Sender) → Delivers base b s
unfolding deliver command reconnect has_connection context_of new_connection is_valid get
deliver-fair base b s = of_connection s.redis_conn
  where
    of_context :
        (k : Option ℕ) → Delivers base b (record s { redis_conn = some (record { context = k }) })
    of_context none = (refl, refl, refl)
    of_context (some k) = (refl, refl, refl)

    of_connection : (c : Option RedisConnection) → Delivers base b (record s { redis_conn = c })
    of_connection none = (refl, refl, refl)
    of_connection (some r) = of_context r.context

abbrev pub IsEmptyHanded : Post → Type 0
IsEmptyHanded t = t.batch ≡ none

abbrev loads : Post → ℕ
loads t = optional (λ (b : FrameBatch). 1) t.batch

post_cases :
    (ts : List Post)
    → All IsEmptyHanded ts
      ⊎ ((j : ℕ) × (t : Post) × (b : FrameBatch) × (get_elem? ts j ≡ some t) × (t.batch ≡ some b))
post_cases [] = inl tt
post_cases (t ∷ ts) = elim (Option-cases t.batch) [
  | inr (b, e) ↦ inr (0, t, b, refl, e)
  | inl e ↦ elim (post_cases ts) [
    | inl r ↦ inl (e, r)
    | inr (j, u, b, g, f) ↦ inr (suc j, u, b, g, f)
  ]
]

set-Serves :
    (ts : List Post) (j : ℕ) (t u : Post)
    → Serves ts
    → get_elem? ts j ≡ some t
    → u.finished ≡ t.finished
    → Serves (set ts j u)
set-Serves [] j t u v g e = v
set-Serves (x ∷ ts) zero t u v g e =
    e ∙ (let same : x ≡ t = cc in subst (λ z. z.finished ≡ false) same v)
set-Serves (x ∷ ts) (suc j) t u v g e = v

-- What the publisher threads leave as it is.
abbrev pub aside :
    {Graph : Type 0}
    → System Graph
    → List (Busy Graph)
      × (Fifo DecodedFrame
          × (Batches
              × (List DecodedFrame
                  × (List DecodedFrame
                      × (List DecodedFrame × (List FrameBatch × List FrameBatch))))))
aside s = (s.workers, (s.batcher.processed, (s.batcher.batches, record_of s)))

module _ (av : Avfilter) (base : Text) where
  open av use {Graph}

  -- A thread has sent its batch.
  sent_by : ℕ → Post → FrameBatch → System Graph → System Graph
  sent_by j t b s =
      let r = deliver base fair b (as_sender s t) in
      record s {
        posts =
            set s.posts j
              (record { redis_conn = r.redis_conn; batch = none; finished = t.finished });
        batcher = record s.batcher { batch_queue = r.batch_queue };
        ledger = r.ledger;
        stream = r.stream;
        lost = r.lost;
        repeated = r.repeated;
      }

  step-sent_by :
      (j : ℕ) (t : Post) (b : FrameBatch) (s : System Graph)
      → get_elem? s.posts j ≡ some t
      → t.batch ≡ some b
      → step av base (sends j fair) s ≡ sent_by j t b s
  unfolding step delivers sent_by
  step-sent_by j t b s g e = rw (g, step) (rw (e, delivers) refl)

  -- All threads have sent what they had taken.
  abbrev Shipped : System Graph → System Graph → Type 0
  Shipped s s' =
      (aside s' ≡ aside s)
      × (s'.batcher.batch_queue ≡ s.batcher.batch_queue)
      × Serves s'.posts
      × All IsEmptyHanded s'.posts

  -- A thread with a batch sends it, and then what follows happens.
  ships_one :
      (j : ℕ) (t : Post) (b : FrameBatch) (s : System Graph)
      → get_elem? s.posts j ≡ some t
      → t.batch ≡ some b
      → Reaches av base (sent_by j t b s) (Shipped (sent_by j t b s))
      → Reaches av base s (Shipped s)
  unfolding sent_by as_sender
  ships_one j t b s g e (es, (same, left, v, r)) =
      let d = deliver-fair base b (as_sender s t) in
      let kept : aside (sent_by j t b s) ≡ aside s =
        ap₂
          (λ x y. (
            s.workers,
            (
              s.batcher.processed,
              (s.batcher.batches, (s.consumed, (s.produced, (s.rejected, (x, y))))),
            ),
          ))
          d.1 d.2 in
      reached_by av base (Shipped s) (sends j fair) s (
        subst (λ z. Reaches av base z (Shipped s)) (sym (step-sent_by j t b s g e))
          (es, (same ∙ kept, left ∙ d.0, v, r)))

  send_as_many :
      (n : ℕ) (s : System Graph)
      → total loads s.posts ≡ n
      → Serves s.posts
      → Reaches av base s (Shipped s)
  unfolding sent_by
  send_as_many zero s m v = elim (post_cases s.posts) [
    | inl r ↦ reached_here av base (Shipped s) s (refl, refl, v, r)
    | inr (j, t, b, g, e) ↦
        let loaded : loads t ≡ 1 = ap (optional (λ b. 1)) e in
        absurd (omega (arith, m, loaded, total-set loads s.posts j t (record t { batch = none }) g))
  ]
  send_as_many (suc n) s m v = elim (post_cases s.posts) [
    | inl r ↦ reached_here av base (Shipped s) s (refl, refl, v, r)
    | inr (j, t, b, g, e) ↦
        let loaded : loads t ≡ 1 = ap (optional (λ b. 1)) e in
        let r = deliver base fair b (as_sender s t) in
        let u : Post = record { redis_conn = r.redis_conn; batch = none; finished = t.finished } in
        ships_one j t b s g e (
          send_as_many n (sent_by j t b s)
            (omega (arith, m, loaded, total-set loads s.posts j t u g))
            (set-Serves s.posts j t u v g refl))
  ]

  -- A thread without a batch takes the next one.
  abbrev Takes : List FrameBatch → System Graph → System Graph → Type 0
  Takes q s s' =
      (aside s' ≡ aside s)
      × (s'.batcher.batch_queue.queue ≡ q)
      × (s'.batcher.batch_queue.stopped ≡ s.batcher.batch_queue.stopped)
      × Serves s'.posts

  step-Takes :
      (b : FrameBatch) (q : List FrameBatch) (s : System Graph)
      → s.batcher.batch_queue.queue ≡ b ∷ q
      → All IsEmptyHanded s.posts
      → Serves s.posts
      → Takes q s (step av base (takes_batch 0 false) s)
  unfolding step takes takes_by wait_and_pop
  step-Takes b q s e r v =
      subst
        (λ l.
          Takes q (at_queue l s.posts) (step av base (takes_batch 0 false) (at_queue l s.posts)))
        (sym e) (of_posts s.posts r v)
    where
      at_queue : List FrameBatch → List Post → System Graph
      at_queue l ts = record s {
        posts = ts;
        batcher = record s.batcher { batch_queue = record s.batcher.batch_queue { queue = l } };
      }

      of_posts :
          (ts : List Post)
          → All IsEmptyHanded ts
          → Serves ts
          → Takes q (at_queue (b ∷ q) ts) (step av base (takes_batch 0 false) (at_queue (b ∷ q) ts))
      of_posts [] r v = cc
      of_posts (t ∷ ts) r v =
          let idle : Option FrameBatch → Bool → Post =
            λ c f. record t { batch = c; finished = f } in
          let P : Post → Type 0 = λ u.
            Takes q (at_queue (b ∷ q) (u ∷ ts))
              (step av base (takes_batch 0 false) (at_queue (b ∷ q) (u ∷ ts))) in
          subst (λ c. P (idle c t.finished)) (sym r.0)
            (subst (λ f. P (idle none f)) (sym v) (refl, refl, refl, refl))

  -- The queue of batches is empty, and no thread has a batch.
  abbrev pub IsShipped : System Graph → System Graph → Type 0
  IsShipped s s' =
      (aside s' ≡ aside s) × (s'.batcher.batch_queue.queue ≡ []) × All IsEmptyHanded s'.posts

  pub send_everything :
      (q : List FrameBatch) (s : System Graph)
      → s.batcher.batch_queue.queue ≡ q
      → Serves s.posts
      → Reaches av base s (IsShipped s)
  send_everything [] s e v =
      let (es, (same, left, v', r)) = send_as_many _ s refl v in
      (es, (same, ap (λ (f : Fifo FrameBatch). f.queue) left ∙ e, r))
  send_everything (b ∷ q) s e v =
      reached_then av base (Shipped s) (IsShipped s) s (send_as_many _ s refl v) (λ s' p.
        let (same, left, v', r) = p in
        let front = ap (λ (f : Fifo FrameBatch). f.queue) left ∙ e in
        let (same', left', still, w) = step-Takes b q s' front r v' in
        let s2 = step av base (takes_batch 0 false) s' in
        let (es, (same'', none_left, r')) = send_everything q s2 left' w in
        reached_by av base (IsShipped s) (takes_batch 0 false) s'
          (es, (same'' ∙ (same' ∙ same), none_left, r')))
