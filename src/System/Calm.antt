-- ===== src/System/Calm.antt =====
-- What the steps of one worker and one publisher thread move, when Redis can be reached.
use frame_processor.Base.{
  ℕ, ◌≡◌, refl, ap, sym, ◌∙◌, Bool, true, false, List, [], ◌∷◌, ◌++◌, map, append_assoc, append-nil,
  Option, none, some, Text, if_both,
}
use frame_processor.Fifo.{Fifo, Pop, blocks, closed, item, wait_and_pop}
use frame_processor.Types.{Frame, DecodedFrame}
use frame_processor.Worker.Filter.{Avfilter, Allocations}
use frame_processor.Worker.Loop.{WorkerThread}
use frame_processor.Publisher.Batching.{FrameBatch, BatchKey, Batcher}
use frame_processor.Publisher.Accounts.{bytes_for, bytes_for-append}
use frame_processor.Publisher.Rounds.{held}
use frame_processor.Publisher.Connection.{RedisConnection, ready, new_connection, is_valid, get}
use frame_processor.Publisher.Sender.{
  stored, entry, Sender, Weather, has_connection, reconnect, command, context_of, deliver,
}
use frame_processor.System.Worker.{Busy, Begun, output_of, unchanged, leaves, takes_frame, begin}
use frame_processor.System.Threads.{
  news, Event, decodes, works, emit_by, stops, packs, closes, takes_batch, sends,
}

-- The outputs that a thread has still to emit, and the batch that one has taken.
abbrev pub outputs : {Graph : Type 0} → Busy Graph → List DecodedFrame
outputs h = map output_of h.todo

abbrev pub hand : Option FrameBatch → List FrameBatch
hand none = []
hand (some b) = b ∷ []

module _ (av : Avfilter) where
  open av use {Graph}

  outputs-takes_frame :
      (a : Allocations) (p : Pop DecodedFrame × Fifo DecodedFrame) (t : WorkerThread Graph)
      → outputs (takes_frame av a p (record { thread = t; todo = [] })).busy
        ≡ news (takes_frame av a p (record { thread = t; todo = [] }))
  unfolding takes_frame unchanged leaves
  outputs-takes_frame a (blocks, q) t = refl
  outputs-takes_frame a (closed, q) t = refl
  outputs-takes_frame a (item d, q) t = refl

  -- A round that begins adds the outputs of its frame behind those that are left.
  pub outputs-begin :
      (r : Bool) (a : Allocations) (h : Busy Graph)
      → outputs (begin av r a h).busy ≡ outputs h ++ news (begin av r a h)
  unfolding begin unchanged leaves
  outputs-begin r a h = of_todo h.thread h.todo
    where
      of_todo :
          (t : WorkerThread Graph) (xs : List (DecodedFrame × Frame))
          → outputs (begin av r a (record { thread = t; todo = xs })).busy
            ≡ map output_of xs ++ news (begin av r a (record { thread = t; todo = xs }))
      of_todo t (x ∷ xs) = sym (append-nil (map output_of (x ∷ xs)))
      of_todo t [] =
          if_both (λ (b : Begun Graph). outputs b.busy ≡ news b) t.finished refl
            (if_both (λ (b : Begun Graph). outputs b.busy ≡ news b) r refl
              (outputs-takes_frame a (wait_and_pop t.in_queue) t))

pub behind :
    {X : List ℕ} (a b c d e : List ℕ)
    → a ++ (b ++ (c ++ d)) ≡ X
    → a ++ (b ++ (c ++ (d ++ e))) ≡ X ++ e
behind a b c d e h =
    let moved : a ++ (b ++ (c ++ (d ++ e))) ≡ (a ++ (b ++ (c ++ d))) ++ e = simp append_assoc in
    moved ∙ ap (λ x. x ++ e) h

-- The front of the queue of batches.
pub held-front :
    (k : BatchKey) (b : FrameBatch) (q : List FrameBatch) (s : Batcher) (f : Fifo FrameBatch)
    → s.taken ≡ []
    → s.batch_queue.queue ≡ b ∷ q
    → f.queue ≡ q
    → held k s ≡ bytes_for k (b ∷ []) ++ held k (record s { batch_queue = f })
unfolding held bytes_for
held-front k b q s f n e g =
    let front : bytes_for k s.batch_queue.queue ≡ bytes_for k (b ∷ []) ++ bytes_for k f.queue =
      ap (bytes_for k) e
      ∙ (bytes_for-append k (b ∷ []) q ∙ ap (λ x. bytes_for k (b ∷ []) ++ bytes_for k x) (sym g)) in
    rw (n, front, bytes_for) (simp (bytes_for, append_assoc))

-- With a connection that can be made and a reply, a batch is sent.
pub deliver-calm :
    (base : Text) (c now : ℕ) (b : FrameBatch) (s : Sender)
    → (let r = deliver base (record { connects = ready c; reply = stored; now = now }) b s in
        (r.batch_queue ≡ s.batch_queue) × (r.stream ≡ s.stream ++ entry base b ∷ []))
unfolding deliver command reconnect has_connection context_of new_connection is_valid get
deliver-calm base c now b s = of_connection s.redis_conn
  where
    calm : Weather
    calm = record { connects = ready c; reply = stored; now = now }

    Delivers : Sender → Type 0
    Delivers z =
        ((deliver base calm b z).batch_queue ≡ z.batch_queue)
        × ((deliver base calm b z).stream ≡ z.stream ++ entry base b ∷ [])

    of_context : (x : Option ℕ) → Delivers (record s { redis_conn = some (record { context = x }) })
    of_context none = (refl, refl)
    of_context (some x) = (refl, refl)

    of_connection : (x : Option RedisConnection) → Delivers (record s { redis_conn = x })
    of_connection none = (refl, refl)
    of_connection (some r) = of_context r.context

-- Redis can be reached, stores and replies, and the queues are not stopped.
abbrev pub IsCalm : Event → Type 0
IsCalm (decodes d now) = Unit
IsCalm (works i r a) = Unit
IsCalm (emit_by i now) = Unit
IsCalm stops = true ≡ false
IsCalm closes = true ≡ false
IsCalm (packs r now) = Unit
IsCalm (takes_batch j r) = Unit
IsCalm (sends j e) = (c : ℕ) × (e ≡ record { connects = ready c; reply = stored; now = e.now })
