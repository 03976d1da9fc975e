-- ===== src/System/Sequence.antt =====
-- One worker and one publisher thread: what is published is in the order of production.
use frame_processor.Base.{
  ℕ, zero, suc, ◌≡◌, refl, ap, ap₂, sym, ◌∙◌, subst, Bool, List, [], ◌∷◌, ◌++◌, map, append_assoc,
  Option, none, Text, if_both, inl, inr, All, map-append, Option-cases, find,
}
use frame_processor.Fifo.{new, Fifo, Pop, inc_size}
use frame_processor.Fifo.Order.{PopCases, wait_and_pop_cases}
use frame_processor.Worker.Filter.{Avfilter}
use frame_processor.Worker.Loop.{WorkerThread}
use frame_processor.Publisher.Batching.{FrameBatch, BatchKey, Batcher, fresh}
use frame_processor.Publisher.Accounts.{bytes_for, blob_for, bytes_for-append}
use frame_processor.Publisher.Rounds.{held, IsPacked, IsRunning}
use frame_processor.Publisher.Connection.{Ledger, RedisConnection, ready}
use frame_processor.Publisher.Sender.{stored, entry}
use frame_processor.System.Worker.{Busy}
use frame_processor.System.Threads.{
  new_post, start, Post, System, as_sender, takes_by, takes, delivers, Event, decodes, works,
  emit_by, stops, packs, closes, takes_batch, sends, step, run,
}
use frame_processor.System.Growth.{run-Grows}
use frame_processor.System.Calm.{outputs, hand, held-front, deliver-calm, IsCalm}
use frame_processor.System.Ordered.{
  Ordered, solo, Next, begins-Next, emits-Next, on_solo, left_Next, packs-Next,
}

module _ (av : Avfilter) (base : Text) (k : BatchKey) where
  open av use {Graph}

  takes_by-Next :
      (h : Busy Graph) (t : Post) (s : System Graph) (p : Pop FrameBatch × Fifo FrameBatch)
      → Ordered av base k h t s
      → t.batch ≡ none
      → PopCases s.batcher.batch_queue p
      → Next av base k (takes_by 0 t p (solo av base k h t s))
  unfolding takes_by held bytes_for
  takes_by-Next h t s p v n (inl (e, o, x)) = rw x (h, t, refl, refl, on_solo av base k h t s v)
  takes_by-Next h t s p v n (inr (inl (e, o, x))) = rw x (left_Next av base k h t s v)
  takes_by-Next h t s p v n (inr (inr (b, q, e, x))) = rw x (
    h,
    _,
    refl,
    refl,
    record {
      sent = v.sent;
      published = v.published;
      whole =
          ap (λ bs. bytes_for k v.sent ++ bs)
            (sym (append_assoc (bytes_for k (b ∷ [])) _ (blob_for k (outputs h)))
              ∙ ap (λ bs. bs ++ blob_for k (outputs h))
                  (sym (
                    held-front k b q s.batcher
                      (record s.batcher.batch_queue {
                        queue = q;
                        total_popped = inc_size s.batcher.batch_queue.total_popped;
                      })
                      v.no_log e refl))
              ∙ ap (λ c. bytes_for k (hand c) ++ (held k s.batcher ++ blob_for k (outputs h)))
                  (sym n))
          ∙ v.whole;
      running = record {
        sound = record {
          unique = v.running.sound.unique;
          keyed = v.running.sound.keyed;
          running = v.running.sound.running;
        };
        planar = v.running.planar;
      };
      open_queue = v.open_queue;
      packed = v.packed;
      no_log = v.no_log;
    },
  )

  takes-Next :
      (r : Bool) (h : Busy Graph) (t : Post) (s : System Graph)
      → Ordered av base k h t s
      → Next av base k (takes 0 r t (solo av base k h t s))
  unfolding takes
  takes-Next r h t s v = elim (Option-cases t.batch) [
    | inr (b, n) ↦ rw (n, takes) (h, t, refl, refl, on_solo av base k h t s v)
    | inl n ↦
        rw (n, takes)
          (if_both (Next av base k) t.finished (h, t, refl, refl, on_solo av base k h t s v)
            (if_both (Next av base k) r (left_Next av base k h t s v)
              (takes_by-Next h t s _ v n (wait_and_pop_cases s.batcher.batch_queue))))
  ]

  sends-Next :
      (c now : ℕ) (h : Busy Graph) (t : Post) (s : System Graph)
      → Ordered av base k h t s
      → Next av base k (
          delivers base 0
            (record { connects = ready c; reply = stored; now = now })
            t
            (solo av base k h t s))
  unfolding delivers as_sender bytes_for
  sends-Next c now h t s v = elim (Option-cases t.batch) [
    | inl n ↦ rw (n, delivers) (h, t, refl, refl, on_solo av base k h t s v)
    | inr (b, n) ↦
        let (left, more) = deliver-calm base c now b (as_sender s t) in
        let same = ap (λ q. record s.batcher { batch_queue = q }) left in
        rw (n, delivers)
          (
            h,
            _,
            refl,
            refl,
            record {
              sent = v.sent ++ b ∷ [];
              published =
                  more
                  ∙ (ap (λ xs. xs ++ entry base b ∷ []) v.published
                      ∙ sym (map-append (entry base) v.sent (b ∷ [])));
              whole =
                  ap₂ (λ xs (z : Batcher). xs ++ (held k z ++ blob_for k (outputs h)))
                    (bytes_for-append k v.sent (b ∷ [])) same
                  ∙ append_assoc (bytes_for k v.sent) (bytes_for k (b ∷ []))
                      (held k s.batcher ++ blob_for k (outputs h))
                  ∙ ap
                      (λ c.
                        bytes_for k v.sent
                        ++ (bytes_for k (hand c) ++ (held k s.batcher ++ blob_for k (outputs h))))
                      (sym n)
                  ∙ v.whole;
              running = subst IsRunning (sym same) v.running;
              open_queue = v.open_queue;
              packed = v.packed;
              no_log = v.no_log;
            },
          )
  ]

  step-Next :
      (e : Event) (h : Busy Graph) (t : Post) (s : System Graph)
      → IsCalm e
      → Ordered av base k h t s
      → All IsPacked (step av base e (solo av base k h t s)).produced
      → Next av base k (step av base e (solo av base k h t s))
  unfolding step
  step-Next (decodes d now) h t s c v f = (
    h,
    t,
    refl,
    refl,
    record {
      sent = v.sent;
      published = v.published;
      whole = v.whole;
      running = v.running;
      open_queue = v.open_queue;
      packed = v.packed;
      no_log = v.no_log;
    },
  )
  step-Next stops h t s c v f = cc
  step-Next closes h t s c v f = cc
  step-Next (packs r now) h t s c v f = packs-Next av base k r now h t s v
  step-Next (works zero r a) h t s c v f = begins-Next av base k r a h t s v f
  step-Next (works (suc i) r a) h t s c v f = (h, t, refl, refl, on_solo av base k h t s v)
  step-Next (emit_by zero now) h t s c v f = emits-Next av base k now h t s v
  step-Next (emit_by (suc i) now) h t s c v f = (h, t, refl, refl, on_solo av base k h t s v)
  step-Next (takes_batch zero r) h t s c v f = takes-Next r h t s v
  step-Next (takes_batch (suc j) r) h t s c v f = (h, t, refl, refl, on_solo av base k h t s v)
  step-Next (sends zero e) h t s (c, same) v f =
      subst (λ x. Next av base k (delivers base 0 x t (solo av base k h t s))) (sym same)
        (sends-Next c e.now h t s v)
  step-Next (sends (suc j) e) h t s c v f = (h, t, refl, refl, on_solo av base k h t s v)

  run-Next :
      (es : List Event) (h : Busy Graph) (t : Post) (s : System Graph)
      → All IsCalm es
      → Ordered av base k h t s
      → All IsPacked (run av base es (solo av base k h t s)).produced
      → Next av base k (run av base es (solo av base k h t s))
  unfolding run
  run-Next [] h t s c v f = (h, t, refl, refl, on_solo av base k h t s v)
  run-Next (e ∷ es) h t s c v f =
      let s1 = step av base e (solo av base k h t s) in
      let (h1, t1, ew, ep, v1) = step-Next e h t s c.0 v (run-Grows av base IsPacked es s1 f) in
      let here : s1 ≡ solo av base k h1 t1 s1 =
        ap₂ (λ ws ts. record s1 { workers = ws; posts = ts }) ew ep in
      subst (λ z. Next av base k (run av base es z)) (sym here)
        (run-Next es h1 t1 s1 c.1 v1 (subst (λ z. All IsPacked (run av base es z).produced) here f))

module _ (av : Avfilter) (base : Text) (m n : ℕ) (thread : WorkerThread av.Graph)
    (connection : Option RedisConnection) (l : Ledger) (k : BatchKey) where
  start-Ordered :
      (let s = start m n (thread ∷ []) (connection ∷ []) l in
        Ordered av base k (record { thread = thread; todo = [] }) (new_post connection) s)
  unfolding start new_post new fresh bytes_for blob_for held find
  start-Ordered = record {
    sent = [];
    published = refl;
    whole = refl;
    running = record { sound = record { unique = tt; keyed = tt; running = refl }; planar = tt };
    open_queue = refl;
    packed = tt;
    no_log = refl;
  }

  -- With one worker and one publisher thread, that start on new queues, in any order of the steps of
  -- all threads, if the queues are not stopped, whenever a batch is sent Redis can be reached, stores
  -- it and replies, and the frames that the worker produces are planar: the stream of Redis is that of
  -- some batches, and for each stream and event their bytes are a first part of those that the frames
  -- pack to, in the order in which the worker has produced these.
  pub run-ordered :
      (es : List Event)
      → All IsCalm es
      → (let s = run av base es (start m n (thread ∷ []) (connection ∷ []) l) in
          All IsPacked s.produced
          → (sent : List FrameBatch) × (rest : List ℕ) × (s.stream ≡ map (entry base) sent)
            × (bytes_for k sent ++ rest ≡ blob_for k s.produced))
  unfolding start new_post
  run-ordered es c f =
      let (h, t, ew, ep, v) =
        run-Next av base k es (record { thread = thread; todo = [] }) (new_post connection)
          (start m n (thread ∷ []) (connection ∷ []) l) c start-Ordered f in
      (v.sent, _, v.published, v.whole)
