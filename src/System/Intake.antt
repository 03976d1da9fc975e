-- ===== src/System/Intake.antt =====
-- Each decoded frame is taken by one worker, in the order of decoding, however many workers there are.
use frame_processor.Base.{
  ℕ, ◌≡◌, refl, ap, ap₂, sym, ◌∙◌, Bool, true, false, List, [], ◌∷◌, ◌++◌, append_assoc, append-nil,
  Text, if_both, inl, inr, Option-cases,
}
use frame_processor.Base.Totals.{get_elem?}
use frame_processor.Fifo.{Fifo, Pop, push, wait_and_pop, stop}
use frame_processor.Fifo.Order.{
  PopCases, wait_and_pop_cases, queue-push_running, queue-push_stopped, stopped-push,
}
use frame_processor.Types.{Frame, DecodedFrame}
use frame_processor.Worker.Filter.{Avfilter, Allocations}
use frame_processor.Worker.Loop.{WorkerThread}
use frame_processor.Publisher.Sender.{Weather}
use frame_processor.System.Worker.{Busy, Begun, unchanged, leaves, takes_frame, begin}
use frame_processor.System.Threads.{
  System, at_queues, begins, emits, takes, delivers, Event, decodes, works, emit_by, stops, packs,
  closes, takes_batch, sends, step, run,
}
use frame_processor.System.Upstream.{upstream, upstream-takes, upstream-delivers}

-- The frames that readers push before the queue is stopped.
abbrev pub decoded_frames : Bool → List Event → List DecodedFrame
decoded_frames true es = []
decoded_frames false [] = []
decoded_frames false (decodes d now ∷ es) = d ∷ decoded_frames false es
decoded_frames false (works i r a ∷ es) = decoded_frames false es
decoded_frames false (emit_by i now ∷ es) = decoded_frames false es
decoded_frames false (stops ∷ es) = []
decoded_frames false (closes ∷ es) = decoded_frames false es
decoded_frames false (packs r now ∷ es) = decoded_frames false es
decoded_frames false (takes_batch j r ∷ es) = decoded_frames false es
decoded_frames false (sends j e ∷ es) = decoded_frames false es

module _ (av : Avfilter) where
  open av use {Graph}

  -- What a round takes comes from the front of the queue.
  abbrev TakesFront : Fifo DecodedFrame → Begun Graph → Type 0
  TakesFront q b =
      (b.consumed ++ b.busy.thread.in_queue.queue ≡ q.queue)
      × (b.busy.thread.in_queue.stopped ≡ q.stopped)

  takes_frame-TakesFront :
      (a : Allocations) (r : Pop DecodedFrame × Fifo DecodedFrame) (h : Busy Graph)
      → PopCases h.thread.in_queue r
      → TakesFront h.thread.in_queue (takes_frame av a r h)
  unfolding takes_frame unchanged leaves
  takes_frame-TakesFront a r h (inl (e, t, p)) = rw p (refl, refl)
  takes_frame-TakesFront a r h (inr (inl (e, t, p))) = rw p (refl, refl)
  takes_frame-TakesFront a r h (inr (inr (d, q, e, p))) = rw p (sym e, refl)

  begin-TakesFront :
      (stop_requested : Bool) (a : Allocations) (h : Busy Graph)
      → TakesFront h.thread.in_queue (begin av stop_requested a h)
  unfolding begin unchanged leaves
  begin-TakesFront stop_requested a h = of_todo h.thread h.todo
    where
      of_todo :
          (t : WorkerThread Graph) (xs : List (DecodedFrame × Frame))
          → TakesFront t.in_queue (begin av stop_requested a (record { thread = t; todo = xs }))
      of_todo t (x ∷ xs) = (refl, refl)
      of_todo t [] =
          if_both (TakesFront t.in_queue) t.finished (refl, refl)
            (if_both (TakesFront t.in_queue) stop_requested (refl, refl)
              (takes_frame-TakesFront a (wait_and_pop t.in_queue) (record { thread = t; todo = [] })
                (wait_and_pop_cases t.in_queue)))

  -- The frames taken, and then those on the queue.
  abbrev pub intake : System Graph → List DecodedFrame
  intake s = s.consumed ++ s.decoded.queue

  -- A step at which no frame arrives.
  abbrev Quiet : System Graph → System Graph → Type 0
  Quiet s s' = (intake s' ≡ intake s) × (s'.decoded.stopped ≡ s.decoded.stopped)

  begins-Quiet :
      (i : ℕ) (r : Bool) (a : Allocations) (h : Busy Graph) (s : System Graph)
      → Quiet s (begins av i r a h s)
  unfolding begins at_queues
  begins-Quiet i r a h s =
      let (front, same) = begin-TakesFront r a (at_queues s h) in
      (append_assoc s.consumed _ _ ∙ ap (λ xs. s.consumed ++ xs) front, same)

  upstream-Quiet : (s s' : System Graph) → upstream s' ≡ upstream s → Quiet s s'
  upstream-Quiet s s' e = (ap (λ u. u.1.0 ++ u.0.queue) e, ap (λ u. u.0.stopped) e)

  intake-Quiet :
      (es : List Event) (s s' : System Graph) (b : Bool)
      → s.decoded.stopped ≡ b
      → Quiet s s'
      → intake s' ++ decoded_frames s'.decoded.stopped es ≡ intake s ++ decoded_frames b es
  intake-Quiet es s s' b r (e, t) = ap₂ (λ xs c. xs ++ decoded_frames c es) e (t ∙ r)

  -- The steps but those that push or stop the queue.
  worked-Quiet :
      (i : ℕ) (r : Bool) (a : Allocations) (base : Text) (s : System Graph)
      → Quiet s (step av base (works i r a) s)
  unfolding step
  worked-Quiet i r a base s = elim (Option-cases (get_elem? s.workers i)) [
    | inl n ↦ rw (n, step) (refl, refl)
    | inr (h, n) ↦ rw (n, step) (begins-Quiet i r a h s)
  ]

  emitted-Quiet :
      (i now : ℕ) (base : Text) (s : System Graph) → Quiet s (step av base (emit_by i now) s)
  unfolding step emits
  emitted-Quiet i now base s = elim (Option-cases (get_elem? s.workers i)) [
    | inl n ↦ rw (n, step) (refl, refl)
    | inr (h, n) ↦ rw (n, step) (refl, refl)
  ]

  took-Quiet :
      (j : ℕ) (r : Bool) (base : Text) (s : System Graph)
      → Quiet s (step av base (takes_batch j r) s)
  unfolding step
  took-Quiet j r base s = elim (Option-cases (get_elem? s.posts j)) [
    | inl n ↦ rw (n, step) (refl, refl)
    | inr (t, n) ↦ rw (n, step) (upstream-Quiet s (takes j r t s) (upstream-takes j r t s))
  ]

  sent-Quiet :
      (j : ℕ) (e : Weather) (base : Text) (s : System Graph) → Quiet s (step av base (sends j e) s)
  unfolding step
  sent-Quiet j e base s = elim (Option-cases (get_elem? s.posts j)) [
    | inl n ↦ rw (n, step) (refl, refl)
    | inr (t, n) ↦
        rw (n, step) (upstream-Quiet s (delivers base j e t s) (upstream-delivers base j e t s))
  ]

  step-intake :
      (base : Text) (e : Event) (es : List Event) (s : System Graph) (b : Bool)
      → s.decoded.stopped ≡ b
      → intake (step av base e s) ++ decoded_frames (step av base e s).decoded.stopped es
        ≡ intake s ++ decoded_frames b (e ∷ es)
  unfolding step stop
  step-intake base (decodes d now) es s true t =
      let same = queue-push_stopped d now s.decoded t in
      intake-Quiet es s (record s { decoded = push d now s.decoded }) true t
        (ap (λ q. s.consumed ++ q.queue) same, ap (λ q. q.stopped) same)
  step-intake base (decodes d now) es s false t =
      ap₂ (λ xs c. (s.consumed ++ xs) ++ decoded_frames c es) (queue-push_running d now s.decoded t)
        (stopped-push d now s.decoded ∙ t)
      ∙ simp append_assoc
  step-intake base stops es s true t = refl
  step-intake base stops es s false t = refl
  step-intake base closes es s true t =
      intake-Quiet es s (step av base closes s) true t
        (if_both (Quiet s) s.batcher.finished (refl, refl) (refl, refl))
  step-intake base closes es s false t =
      intake-Quiet es s (step av base closes s) false t
        (if_both (Quiet s) s.batcher.finished (refl, refl) (refl, refl))
  step-intake base (works i r a) es s true t =
      intake-Quiet es s (step av base (works i r a) s) true t (worked-Quiet i r a base s)
  step-intake base (works i r a) es s false t =
      intake-Quiet es s (step av base (works i r a) s) false t (worked-Quiet i r a base s)
  step-intake base (emit_by i now) es s true t =
      intake-Quiet es s (step av base (emit_by i now) s) true t (emitted-Quiet i now base s)
  step-intake base (emit_by i now) es s false t =
      intake-Quiet es s (step av base (emit_by i now) s) false t (emitted-Quiet i now base s)
  step-intake base (packs r now) es s true t =
      intake-Quiet es s (step av base (packs r now) s) true t (refl, refl)
  step-intake base (packs r now) es s false t =
      intake-Quiet es s (step av base (packs r now) s) false t (refl, refl)
  step-intake base (takes_batch j r) es s true t =
      intake-Quiet es s (step av base (takes_batch j r) s) true t (took-Quiet j r base s)
  step-intake base (takes_batch j r) es s false t =
      intake-Quiet es s (step av base (takes_batch j r) s) false t (took-Quiet j r base s)
  step-intake base (sends j e) es s true t =
      intake-Quiet es s (step av base (sends j e) s) true t (sent-Quiet j e base s)
  step-intake base (sends j e) es s false t =
      intake-Quiet es s (step av base (sends j e) s) false t (sent-Quiet j e base s)

  decoded_frames_nil : (b : Bool) → decoded_frames b [] ≡ []
  decoded_frames_nil true = refl
  decoded_frames_nil false = refl

  -- However many workers there are and in whatever order the threads step: the frames that workers have
  -- taken, followed by those on the queue of decoded frames, are those taken and queued at first,
  -- followed by those that readers have pushed since, until the queue was stopped. So each frame is
  -- taken once, in the order of decoding.
  pub run-intake :
      (base : Text) (es : List Event) (s : System Graph)
      → intake (run av base es s) ≡ intake s ++ decoded_frames s.decoded.stopped es
  unfolding run
  run-intake base [] s =
      sym (ap (λ ds. intake s ++ ds) (decoded_frames_nil s.decoded.stopped) ∙ append-nil (intake s))
  run-intake base (e ∷ es) s =
      run-intake base es (step av base e s) ∙ step-intake base e es s s.decoded.stopped refl
