-- ===== src/System/Ordered.antt =====
-- One worker and one publisher thread: where the bytes of a stream and event are, in order.
use frame_processor.Base.{
  ℕ, ◌≡◌, refl, ap, sym, ◌∙◌, subst, Bool, true, false, List, [], ◌∷◌, ◌++◌, map, append_assoc,
  Text, All, All-append,
}
use frame_processor.Base.Totals.{append-All}
use frame_processor.Fifo.{Fifo, push}
use frame_processor.Fifo.Order.{queue-push_running, stopped-push}
use frame_processor.Types.{Frame, DecodedFrame}
use frame_processor.Worker.Filter.{Avfilter, Allocations}
use frame_processor.Worker.Loop.{WorkerThread, output_frame, emit}
use frame_processor.Worker.Outputs.{emit-out_queue}
use frame_processor.Publisher.Batching.{FrameBatch, BatchKey, Batcher, finish, receive}
use frame_processor.Publisher.Batching
use frame_processor.Publisher.Accounts.{bytes_for, blob_for, own, blob_for-append}
use frame_processor.Publisher.Rounds.{
  held, IsPacked, IsRunning, arrived-held, round-held, round-IsRunning, round-stopped, round-taken,
}
use frame_processor.Publisher.Sender.{entry}
use frame_processor.System.Worker.{Busy, output_of, begin, emit_next}
use frame_processor.System.Threads.{Post, System, at_queues, news, begins, emits}
use frame_processor.System.Calm.{outputs, hand, outputs-begin, behind}

module _ (av : Avfilter) (base : Text) (k : BatchKey) where
  open av use {Graph}

  -- The bytes of the key: published, in the thread's hand, with the batcher, and with the worker.
  pub record Ordered (h : Busy Graph) (t : Post) (s : System Graph) : Type 0 where
    pub sent : List FrameBatch
    pub published : s.stream ≡ map (entry base) sent
    pub whole :
        bytes_for k sent
          ++ (bytes_for k (hand t.batch) ++ (held k s.batcher ++ blob_for k (outputs h)))
        ≡ blob_for k s.produced
    pub running : IsRunning s.batcher
    pub open_queue : s.batcher.processed.stopped ≡ false
    pub packed : All IsPacked (outputs h)
    pub no_log : s.batcher.taken ≡ []

  abbrev pub solo : Busy Graph → Post → System Graph → System Graph
  solo h t s = record s { workers = h ∷ []; posts = t ∷ [] }

  -- A state of the two threads.
  abbrev pub Next : System Graph → Type 0
  Next s = (h : Busy Graph) × (t : Post) × (s.workers ≡ h ∷ []) × (s.posts ≡ t ∷ []) × Ordered h t s

  pub begins-Next :
      (r : Bool) (a : Allocations) (h : Busy Graph) (t : Post) (s : System Graph)
      → Ordered h t s
      → All IsPacked (begins av 0 r a h (solo h t s)).produced
      → Next (begins av 0 r a h (solo h t s))
  unfolding begins at_queues
  begins-Next r a h t s v f =
      let b = begin av r a (at_queues s h) in
      let more = outputs-begin av r a (at_queues s h) in
      (
        b.busy,
        t,
        refl,
        refl,
        record {
          sent = v.sent;
          published = v.published;
          whole =
              ap
                (λ ds.
                  bytes_for k v.sent
                  ++ (bytes_for k (hand t.batch) ++ (held k s.batcher ++ blob_for k ds)))
                more
              ∙ ap
                  (λ bs.
                    bytes_for k v.sent ++ (bytes_for k (hand t.batch) ++ (held k s.batcher ++ bs)))
                  (blob_for-append k (outputs h) (news b))
              ∙ behind (bytes_for k v.sent) (bytes_for k (hand t.batch)) (held k s.batcher)
                  (blob_for k (outputs h)) (blob_for k (news b)) v.whole
              ∙ sym (blob_for-append k s.produced (news b));
          running = v.running;
          open_queue = v.open_queue;
          packed = subst (All IsPacked) (sym more) (
              All-append IsPacked (outputs h) (news b) v.packed
                (append-All IsPacked s.produced (news b) f).1);
          no_log = v.no_log;
        },
      )

  -- An output goes from the worker to the batcher.
  pushed-Ordered :
      (now : ℕ) (d : DecodedFrame) (f : Frame) (rest : List (DecodedFrame × Frame))
      (u u' : WorkerThread Graph) (t : Post) (s : System Graph) (rejected : List DecodedFrame)
      → Ordered (record { thread = u; todo = (d, f) ∷ rest }) t s
      → u'.out_queue ≡ push (output_frame d f) now s.batcher.processed
      → Ordered
          (record { thread = u'; todo = rest })
          t
          (record s {
            workers = record { thread = u'; todo = rest } ∷ [];
            posts = t ∷ [];
            batcher = record s.batcher { processed = u'.out_queue };
            rejected = rejected;
          })
  unfolding blob_for
  pushed-Ordered now d f rest u u' t s rejected v e =
      let x = output_frame d f in
      let later = blob_for k (map output_of rest) in
      let more =
        ap (λ q. held k (record s.batcher { processed = q })) e
        ∙ arrived-held k x now s.batcher v.open_queue in
      let queued =
        ap (λ (q : Fifo DecodedFrame). q.queue) e
        ∙ queue-push_running x now s.batcher.processed v.open_queue in
      record {
        sent = v.sent;
        published = v.published;
        whole =
            ap (λ bs. bytes_for k v.sent ++ (bytes_for k (hand t.batch) ++ (bs ++ later))) more
            ∙ ap (λ bs. bytes_for k v.sent ++ (bytes_for k (hand t.batch) ++ bs))
                (append_assoc (held k s.batcher) (own k x) later)
            ∙ v.whole;
        running = record {
          sound = record {
            unique = v.running.sound.unique;
            keyed = v.running.sound.keyed;
            running = v.running.sound.running;
          };
          planar = subst (All IsPacked) (sym queued) (
              All-append IsPacked s.batcher.processed.queue (x ∷ []) v.running.planar
                (v.packed.0, tt));
        };
        open_queue =
            ap (λ (q : Fifo DecodedFrame). q.stopped) e
            ∙ (stopped-push x now s.batcher.processed ∙ v.open_queue);
        packed = v.packed.1;
        no_log = v.no_log;
      }

  pub emits-Next :
      (now : ℕ) (h : Busy Graph) (t : Post) (s : System Graph)
      → Ordered h t s
      → Next (emits 0 now h (solo h t s))
  unfolding emits at_queues emit_next
  emits-Next now h t s v = of_todo h.thread h.todo v
    where
      of_todo :
          (u : WorkerThread Graph) (xs : List (DecodedFrame × Frame))
          → Ordered (record { thread = u; todo = xs }) t s
          → Next (
              emits 0 now
                (record { thread = u; todo = xs })
                (solo (record { thread = u; todo = xs }) t s))
      of_todo u [] v = (
        _,
        t,
        refl,
        refl,
        record {
          sent = v.sent;
          published = v.published;
          whole = v.whole;
          running = v.running;
          open_queue = v.open_queue;
          packed = v.packed;
          no_log = v.no_log;
        },
      )
      of_todo u ((d, f) ∷ rest) v =
          let u1 = record u { in_queue = s.decoded; out_queue = s.batcher.processed } in
          (
            _,
            t,
            refl,
            refl,
            pushed-Ordered now d f rest u (emit d now f u1) t s _ v (emit-out_queue d now f u1),
          )

  pub on_solo :
      (h : Busy Graph) (t : Post) (s : System Graph) → Ordered h t s → Ordered h t (solo h t s)
  on_solo h t s v = record {
    sent = v.sent;
    published = v.published;
    whole = v.whole;
    running = v.running;
    open_queue = v.open_queue;
    packed = v.packed;
    no_log = v.no_log;
  }

  -- The thread leaves its loop.
  pub left_Next :
      (h : Busy Graph) (t : Post) (s : System Graph)
      → Ordered h t s
      → Next (record (solo h t s) { posts = record t { finished = true } ∷ [] })
  left_Next h t s v = (
    h,
    record t { finished = true },
    refl,
    refl,
    record {
      sent = v.sent;
      published = v.published;
      whole = v.whole;
      running = v.running;
      open_queue = v.open_queue;
      packed = v.packed;
      no_log = v.no_log;
    },
  )

  pub packs-Next :
      (r : Bool) (now : ℕ) (h : Busy Graph) (t : Post) (s : System Graph)
      → Ordered h t s
      → Next (record (solo h t s) { batcher = Batching.advance (Batching.round r now) s.batcher })
  packs-Next r now h t s v = (
    h,
    t,
    refl,
    refl,
    record {
      sent = v.sent;
      published = v.published;
      whole =
          ap
            (λ bs.
              bytes_for k v.sent ++ (bytes_for k (hand t.batch) ++ (bs ++ blob_for k (outputs h))))
            (round-held k r now s.batcher v.running)
          ∙ v.whole;
      running = round-IsRunning r now s.batcher v.running;
      open_queue = round-stopped r now s.batcher ∙ v.open_queue;
      packed = v.packed;
      no_log = round-taken r now s.batcher ∙ v.no_log;
    },
  )
