-- ===== src/Fifo/Order.antt =====
-- The items leave the queue in the order of the accepted pushes.
use frame_processor.Base.{
  ◌≡◌, refl, ap, ◌∙◌, Bool, true, false, List, [], ◌∷◌, ◌++◌, append_assoc, append-nil, arith,
  if◌then◌else◌, inl, inr, ℕ, sym, ◌⊎◌,
}
use frame_processor.Fifo.{
  Fifo, Call, pushes, pops, stops, drops, reads_stats, step, run, push, wait_and_pop, Pop, blocks,
  closed, item, inc_size,
}

module _ {ℓ} {A : Type ℓ} where
  -- The pushes that come before the queue is stopped.
  abbrev pub accepted : Bool → List (Call A) → List A
  accepted true cs = []
  accepted false [] = []
  accepted false (pushes a now ∷ cs) = a ∷ accepted false cs
  accepted false (pops ∷ cs) = accepted false cs
  accepted false (stops ∷ cs) = []
  accepted false (drops ∷ cs) = accepted false cs
  accepted false (reads_stats reset ∷ cs) = accepted false cs

  pub queue-push :
      (a : A) (now : ℕ) (f : Fifo A)
      → (push a now f).queue ≡ (if f.stopped then f.queue else f.queue ++ a ∷ [])
  unfolding push
  queue-push a now f = ground arith

  pub queue-push_running :
      (a : A) (now : ℕ) (f : Fifo A) → f.stopped ≡ false → (push a now f).queue ≡ f.queue ++ a ∷ []
  queue-push_running a now f e =
      queue-push a now f ∙ ap (λ s. if s then f.queue else f.queue ++ a ∷ []) e

  pub queue-push_stopped : (a : A) (now : ℕ) (f : Fifo A) → f.stopped ≡ true → push a now f ≡ f
  unfolding push
  queue-push_stopped a now f e = ground arith

  pub stopped-push : (a : A) (now : ℕ) (f : Fifo A) → (push a now f).stopped ≡ f.stopped
  unfolding push
  stopped-push a now f = ground arith

  -- One call: what it hands out, and what it leaves in the queue.
  step-queue :
      (c : Call A) (cs : List (Call A)) (f : Fifo A) (s : Bool)
      → f.stopped ≡ s
      → f.queue ++ accepted s (c ∷ cs)
        ≡ (step c f).0 ++ ((step c f).1.queue ++ accepted (step c f).1.stopped cs)
  unfolding step
  step-queue (pushes a now) cs f true e = ground (arith)
  step-queue (pushes a now) cs f false e =
      ground (arith, append_assoc f.queue (a ∷ []) (accepted false cs))
  step-queue pops cs f true e = ground arith
  step-queue pops cs f false e = ground arith
  step-queue stops cs f true e = ground arith
  step-queue stops cs f false e = ground arith
  step-queue drops cs f true e = ground arith
  step-queue drops cs f false e = ground arith
  step-queue (reads_stats r) cs f true e = ground arith
  step-queue (reads_stats r) cs f false e = ground arith

  accepted-nil : (s : Bool) → accepted s [] ≡ []
  accepted-nil true = refl
  accepted-nil false = refl

  -- In any history of calls, the items that were in the queue and those accepted since come out in
  -- that order, and what has not come out is still in the queue: nothing is lost, doubled or reordered.
  pub run-queue :
      (cs : List (Call A)) (f : Fifo A)
      → (run cs f).0 ++ (run cs f).1.queue ≡ f.queue ++ accepted f.stopped cs
  unfolding run
  run-queue [] f = sym (ap (λ xs. f.queue ++ xs) (accepted-nil f.stopped) ∙ append-nil f.queue)
  run-queue (c ∷ cs) f =
      append_assoc (step c f).0 (run cs (step c f).1).0 (run cs (step c f).1).1.queue
      ∙ ap (λ xs. (step c f).0 ++ xs) (run-queue cs (step c f).1)
      ∙ sym (step-queue c cs f f.stopped refl)

-- The answers of `wait_and_pop`, with what each says of the queue.
abbrev pub PopCases {ℓ} : {A : Type ℓ} → Fifo A → Pop A × Fifo A → Type ℓ
PopCases {A} f r =
    ((f.queue ≡ []) × (f.stopped ≡ false) × (r ≡ (blocks, f)))
    ⊎ (((f.queue ≡ []) × (f.stopped ≡ true) × (r ≡ (closed, f)))
        ⊎ ((a : A) × (q : List A) × (f.queue ≡ a ∷ q)
            × (r ≡ (item a, record f { queue = q; total_popped = inc_size f.total_popped }))))

pop_by_queue {ℓ} :
    {A : Type ℓ} (f : Fifo A) (q : List A) (s : Bool)
    → f.queue ≡ q
    → f.stopped ≡ s
    → PopCases f (wait_and_pop f)
unfolding wait_and_pop
pop_by_queue f [] true e t = inr (inl (e, t, ground arith))
pop_by_queue f [] false e t = inl (e, t, ground arith)
pop_by_queue f (a ∷ q) s e t = inr (inr (a, q, e, ground arith))

pub wait_and_pop_cases {ℓ} : {A : Type ℓ} (f : Fifo A) → PopCases f (wait_and_pop f)
wait_and_pop_cases f = pop_by_queue f f.queue f.stopped refl refl
