-- ===== src/System/Emptying.antt =====
-- The workers can emit all that they hold.
use frame_processor.Base.{
  ℕ, zero, suc, ◌≡◌, refl, ap, sym, ◌∙◌, subst, true, false, if◌then◌else◌, List, [], ◌∷◌, ◌++◌,
  append-nil, some, Text, arith, inl, inr, ◌⊎◌, All, length,
}
use frame_processor.Base.Totals.{get_elem?, total, total-set, list_cases}
use frame_processor.Fifo.Order.{stopped-push}
use frame_processor.Types.{Frame, DecodedFrame}
use frame_processor.Worker.Filter.{Avfilter}
use frame_processor.Worker.Loop.{WorkerThread, output_frame}
use frame_processor.Worker.Outputs.{emit-out_queue}
use frame_processor.Publisher.Batching.{FrameBatch}
use frame_processor.Publisher.Accounts.{IsSound}
use frame_processor.System.Worker.{Busy, emit_next}
use frame_processor.System.Threads.{Post, System, at_queues, emits, emit_by, step}
use frame_processor.System.Reaching.{Reaches, reached_here, reached_by}

-- The first publisher thread has not left its loop.
abbrev pub Serves : List Post → Type 0
Serves [] = false ≡ true
Serves (t ∷ ts) = t.finished ≡ false

module _ {Graph : Type 0} where
  -- The batcher is in its loop, and the queues on both sides of it run.
  pub record IsOpen (s : System Graph) : Type 0 where
    pub batching : s.batcher.finished ≡ false
    pub queuing : s.batcher.processed.stopped ≡ false
    pub sound : IsSound s.batcher.batches s.batcher.batch_queue
    pub serving : Serves s.posts

  -- What has been taken, produced and rejected, and the batches dropped and repeated.
  abbrev pub record_of :
      System Graph
      → List DecodedFrame
        × (List DecodedFrame × (List DecodedFrame × (List FrameBatch × List FrameBatch)))
  record_of s = (s.consumed, (s.produced, (s.rejected, (s.lost, s.repeated))))

  abbrev pub IsRested : Busy Graph → Type 0
  IsRested h = h.todo ≡ []

  busy_cases :
      (ws : List (Busy Graph))
      → All IsRested ws
        ⊎ ((i : ℕ) × (t : WorkerThread Graph) × (x : DecodedFrame × Frame) × (xs : List
              (DecodedFrame × Frame))
            × (get_elem? ws i ≡ some (record { thread = t; todo = x ∷ xs })))
  busy_cases [] = inl tt
  busy_cases (h ∷ ws) = elim (list_cases h.todo) [
    | inr (x, xs, e) ↦
        inr (0, h.thread, x, xs, ap (λ l. some (record { thread = h.thread; todo = l })) e)
    | inl e ↦ elim (busy_cases ws) [
      | inl r ↦ inl (e, r)
      | inr (i, t, x, xs, g) ↦ inr (suc i, t, x, xs, g)
    ]
  ]

  abbrev waiting_outputs : Busy Graph → ℕ
  waiting_outputs h = length h.todo

module _ (av : Avfilter) (base : Text) where
  open av use {Graph}

  -- The workers have nothing to emit, and nothing else has happened.
  abbrev pub Emitted : System Graph → System Graph → Type 0
  Emitted s s' = IsOpen s' × All IsRested s'.workers × (record_of s' ≡ record_of s)

  emits-IsOpen :
      (i : ℕ) (t : WorkerThread Graph) (x : DecodedFrame × Frame) (xs : List (DecodedFrame × Frame))
      (s : System Graph)
      → IsOpen s
      → (let s' = emits i 0 (record { thread = t; todo = x ∷ xs }) s in
          IsOpen s' × (record_of s' ≡ record_of s))
  unfolding emits emit_next at_queues
  emits-IsOpen i t (d, f) xs s v =
      let u = record t { in_queue = s.decoded; out_queue = s.batcher.processed } in
      (
        record {
          batching = v.batching;
          queuing =
              ap (λ q. q.stopped) (emit-out_queue d 0 f u)
              ∙ (stopped-push (output_frame d f) 0 s.batcher.processed ∙ v.queuing);
          sound = record {
            unique = v.sound.unique;
            keyed = v.sound.keyed;
            running = v.sound.running;
          };
          serving = v.serving;
        },
        ap
              (λ r. (
                s.consumed,
                (
                  s.produced,
                  (s.rejected ++ (if r then output_frame d f ∷ [] else []), (s.lost, s.repeated)),
                ),
              ))
              v.queuing
            ∙ ap (λ r. (s.consumed, (s.produced, (r, (s.lost, s.repeated)))))
                (append-nil s.rejected),
      )

  step-emits :
      (i : ℕ) (h : Busy Graph) (s : System Graph)
      → get_elem? s.workers i ≡ some h
      → step av base (emit_by i 0) s ≡ emits i 0 h s
  unfolding step
  step-emits i h s g = rw (g, step) refl

  emit_as_many :
      (n : ℕ) (s : System Graph)
      → total waiting_outputs s.workers ≡ n
      → IsOpen s
      → Reaches av base s (Emitted s)
  unfolding emits emit_next at_queues
  emit_as_many zero s m v = elim (busy_cases s.workers) [
    | inl r ↦ reached_here av base (Emitted s) s (v, r, refl)
    | inr (i, t, x, xs, g) ↦ absurd (
        omega (
          arith,
          m,
          total-set waiting_outputs s.workers i (record { thread = t; todo = x ∷ xs })
              (record { thread = t; todo = xs }) g,
        ))
  ]
  emit_as_many (suc n) s m v = elim (busy_cases s.workers) [
    | inl r ↦ reached_here av base (Emitted s) s (v, r, refl)
    | inr (i, t, x, xs, g) ↦
        let h : Busy Graph = record { thread = t; todo = x ∷ xs } in
        let s1 = emits i 0 h s in
        let (o, same) = emits-IsOpen i t x xs s v in
        let fewer : total waiting_outputs s1.workers ≡ n =
          omega
            (arith, m, total-set waiting_outputs s.workers i h (emit_next 0 (at_queues s h)) g) in
        let (es, (o', r, same')) = emit_as_many n s1 fewer o in
        reached_by av base (Emitted s) (emit_by i 0) s (
          subst (λ z. Reaches av base z (Emitted s)) (sym (step-emits i h s g))
            (es, (o', r, same' ∙ same)))
  ]

  pub emit_everything : (s : System Graph) → IsOpen s → Reaches av base s (Emitted s)
  emit_everything s v = emit_as_many (total waiting_outputs s.workers) s refl v
