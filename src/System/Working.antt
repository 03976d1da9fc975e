-- ===== src/System/Working.antt =====
-- The steps of a worker keep what is on its way through it.
use frame_processor.Base.{
  ℕ, ◌+◌, ◌≡◌, ap, ◌∙◌, Bool, List, [], ◌∷◌, map, arith, if_both, inl, inr, All, All-append,
  Bool-cases,
}
use frame_processor.Base.Totals.{total, total-append, total-map, map-All}
use frame_processor.Fifo.{Fifo, Pop, blocks, closed, item, push, wait_and_pop}
use frame_processor.Fifo.Order.{queue-push_running, queue-push_stopped}
use frame_processor.Types.{Frame, DecodedFrame}
use frame_processor.Worker.Filter.{Avfilter, Allocations}
use frame_processor.Worker.Loop.{WorkerThread, filtered, emit}
use frame_processor.Worker.Outputs.{emit-out_queue}
use frame_processor.System.Worker.{
  Busy, Begun, output_of, unchanged, leaves, takes_frame, begin, emit_next,
}
use frame_processor.System.Threads.{news, rejects}

-- What a worker has still to emit, weighed.
abbrev pub carried : {Graph : Type 0} → (DecodedFrame → ℕ) → Busy Graph → ℕ
carried frame h = total (λ x. frame (output_of x)) h.todo

abbrev pub CarriesFair : {Graph : Type 0} → (DecodedFrame → Type 0) → Busy Graph → Type 0
CarriesFair Fair h = All (λ x. Fair (output_of x)) h.todo

module _ (frame : DecodedFrame → ℕ) (Fair : DecodedFrame → Type 0) {Graph : Type 0} where
  -- A round that begins adds the outputs of its frame.
  abbrev pub Begins : Busy Graph → Begun Graph → Type 0
  Begins h b =
      (carried frame b.busy ≡ carried frame h + total frame (news b))
      × (CarriesFair Fair h → All Fair (news b) → CarriesFair Fair b.busy)

  unchanged-Begins : (h : Busy Graph) → Begins h (unchanged h)
  unfolding unchanged
  unchanged-Begins h = (omega arith, λ f g. f)

  leaves-Begins : (h : Busy Graph) → Begins h (leaves h)
  unfolding leaves
  leaves-Begins h = (omega arith, λ f g. f)

  -- What an emission moves, and that it keeps fair frames.
  abbrev pub Moves : Busy Graph → Busy Graph → Type 0
  Moves h h' =
      (carried frame h'
          + (total frame h'.thread.out_queue.queue
              + total frame (rejects h.thread.out_queue h.todo))
        ≡ carried frame h + total frame h.thread.out_queue.queue)
      × (CarriesFair Fair h
          → All Fair h.thread.out_queue.queue
          → CarriesFair Fair h' × All Fair h'.thread.out_queue.queue)

  pushed-Moves :
      (t t' : WorkerThread Graph) (now : ℕ) (x : DecodedFrame × Frame)
      (rest : List (DecodedFrame × Frame))
      → t'.out_queue ≡ push (output_of x) now t.out_queue
      → Moves (record { thread = t; todo = x ∷ rest }) (record { thread = t'; todo = rest })
  pushed-Moves t t' now x rest e = elim (Bool-cases t.out_queue.stopped) [
    | inl s ↦
        let same = ap (λ q. q.queue) (e ∙ queue-push_stopped (output_of x) now t.out_queue s) in
        rw (s, same) (omega arith, λ f g. (f.1, g))
    | inr s ↦
        let more = ap (λ q. q.queue) e ∙ queue-push_running (output_of x) now t.out_queue s in
        rw (s, more)
          (
            omega (arith, total-append frame t.out_queue.queue (output_of x ∷ [])),
            λ f g. (f.1, All-append Fair t.out_queue.queue (output_of x ∷ []) g (f.0, tt)),
          )
  ]

  -- The next output is on the queue, or is rejected.
  pub emit_next-Moves : (now : ℕ) (h : Busy Graph) → Moves h (emit_next now h)
  unfolding emit_next
  emit_next-Moves now h = of_todo h.thread h.todo
    where
      of_todo :
          (t : WorkerThread Graph) (xs : List (DecodedFrame × Frame))
          → Moves
              (record { thread = t; todo = xs })
              (emit_next now (record { thread = t; todo = xs }))
      of_todo t [] = (omega arith, λ f g. (f, g))
      of_todo t ((d, f) ∷ rest) =
          pushed-Moves t (emit d now f t) now (d, f) rest (emit-out_queue d now f t)

module _ (frame : DecodedFrame → ℕ) (Fair : DecodedFrame → Type 0) (av : Avfilter) where
  open av use {Graph}

  abbrev emitted : WorkerThread Graph → Busy Graph
  emitted t = record { thread = t; todo = [] }

  -- The outputs of a frame, as a worker holds them.
  takes_frame-Begins :
      (a : Allocations) (r : Pop DecodedFrame × Fifo DecodedFrame) (t : WorkerThread Graph)
      → Begins frame Fair (emitted t) (takes_frame av a r (emitted t))
  unfolding takes_frame
  takes_frame-Begins a (blocks, q) t = unchanged-Begins frame Fair {Graph = Graph} (emitted t)
  takes_frame-Begins a (closed, q) t = leaves-Begins frame Fair {Graph = Graph} (emitted t)
  takes_frame-Begins a (item d, q) t =
      let todo = map (λ f. (d, f)) (filtered av a d t.stream_contexts).0 in
      (omega (arith, total-map frame output_of todo), λ f g. map-All Fair output_of todo g)

  pub begin-Begins :
      (stop_requested : Bool) (a : Allocations) (h : Busy Graph)
      → Begins frame Fair h (begin av stop_requested a h)
  unfolding begin
  begin-Begins stop_requested a h = of_todo h.thread h.todo
    where
      of_todo :
          (t : WorkerThread Graph) (xs : List (DecodedFrame × Frame))
          → Begins frame Fair
              (record { thread = t; todo = xs })
              (begin av stop_requested a (record { thread = t; todo = xs }))
      of_todo t (x ∷ xs) =
          unchanged-Begins frame Fair {Graph = Graph} (record { thread = t; todo = x ∷ xs })
      of_todo t [] =
          if_both (Begins frame Fair (emitted t)) t.finished
            (unchanged-Begins frame Fair {Graph = Graph} (emitted t))
            (if_both (Begins frame Fair (emitted t)) stop_requested
              (leaves-Begins frame Fair {Graph = Graph} (emitted t))
              (takes_frame-Begins a (wait_and_pop t.in_queue) t))
