-- ===== src/System/Overtaking.antt =====
-- Two workers may queue their outputs in the other order than that of decoding.
use frame_processor.Base.{
  ℕ, ◌≡◌, ap, sym, ◌∙◌, false, List, [], ◌∷◌, ◌++◌, append_assoc, Text, map, subst,
}
use frame_processor.Fifo.{wait_and_pop}
use frame_processor.Fifo.Order.{queue-push_running, stopped-push}
use frame_processor.Types.{Frame, DecodedFrame}
use frame_processor.Worker.Filter.{Avfilter, Allocations}
use frame_processor.Worker.Loop.{WorkerThread, filtered, output_frame, emit}
use frame_processor.Worker.Outputs.{emit-out_queue}
use frame_processor.System.Worker.{Busy, output_of, takes_frame, begin, emit_next}
use frame_processor.System.Threads.{
  System, at_queues, begins, emits, Event, works, emit_by, step, run,
}

-- The first worker begins before the second, and emits after it.
abbrev pub overtaking : Allocations → ℕ → List Event
overtaking a now = works 0 false a ∷ works 1 false a ∷ emit_by 1 now ∷ emit_by 0 now ∷ []

module _ (av : Avfilter) (base : Text) where
  open av use {Graph}

  abbrev pub running : WorkerThread Graph → WorkerThread Graph
  running t = record t { finished = false }

  -- Two frames wait for two workers that have nothing to emit.
  abbrev pub ready :
      DecodedFrame
      → DecodedFrame
      → WorkerThread Graph
      → WorkerThread Graph
      → System Graph
      → System Graph
  ready d0 d1 t0 t1 s = record s {
    decoded = record s.decoded { queue = d0 ∷ d1 ∷ s.decoded.queue };
    workers =
        record { thread = running t0; todo = [] }
        ∷ record { thread = running t1; todo = [] }
        ∷ s.workers;
  }

  -- Two threads emit, the second before the first.
  emits-swapped :
      (now : ℕ) (x0 x1 : DecodedFrame × Frame) (xs0 xs1 : List (DecodedFrame × Frame))
      (t0 t1 : WorkerThread Graph) (ws : List (Busy Graph)) (s : System Graph)
      → s.batcher.processed.stopped ≡ false
      → (run av base (emit_by 1 now ∷ emit_by 0 now ∷ []) (record s {
        workers =
            record { thread = t0; todo = x0 ∷ xs0 } ∷ record { thread = t1; todo = x1 ∷ xs1 } ∷ ws;
      })).batcher.processed.queue
        ≡ s.batcher.processed.queue ++ output_of x1 ∷ output_of x0 ∷ []
  unfolding run step emits emit_next at_queues
  emits-swapped now (d0, f0) (d1, f1) xs0 xs1 t0 t1 ws s r =
      let q = s.batcher.processed in
      let u1 = record t1 { in_queue = s.decoded; out_queue = q } in
      let pushed = emit-out_queue d1 now f1 u1 in
      let u0 = record t0 { in_queue = s.decoded; out_queue = (emit d1 now f1 u1).out_queue } in
      let runs = ap (λ q. q.stopped) pushed ∙ (stopped-push (output_frame d1 f1) now q ∙ r) in
      ap (λ q. q.queue) (emit-out_queue d0 now f0 u0)
      ∙ queue-push_running (output_frame d0 f0) now u0.out_queue runs
      ∙ ap (λ xs. xs ++ output_frame d0 f0 ∷ [])
          (ap (λ q. q.queue) pushed ∙ queue-push_running (output_frame d1 f1) now q r)
      ∙ append_assoc q.queue (output_frame d1 f1 ∷ []) (output_frame d0 f0 ∷ [])

  -- If two frames wait for two workers that have nothing to emit, each frame gives at least one output
  -- and the queue of processed frames runs, then there is an order of their steps, `overtaking`, in
  -- which the frames are taken in order and the first output of the second frame is queued before that
  -- of the first.
  pub run-overtaking :
      (a : Allocations) (now : ℕ) (d0 d1 : DecodedFrame) (f0 f1 : Frame) (fs0 fs1 : List Frame)
      (t0 t1 : WorkerThread Graph) (s : System Graph)
      → s.batcher.processed.stopped ≡ false
      → (filtered av a d0 t0.stream_contexts).0 ≡ f0 ∷ fs0
      → (filtered av a d1 t1.stream_contexts).0 ≡ f1 ∷ fs1
      → (let s' = run av base (overtaking a now) (ready d0 d1 t0 t1 s) in
          (s'.consumed ≡ s.consumed ++ d0 ∷ d1 ∷ [])
          × (s'.batcher.processed.queue
              ≡ s.batcher.processed.queue ++ output_frame d1 f1 ∷ output_frame d0 f0 ∷ []))
  unfolding run step begins begin takes_frame emits at_queues wait_and_pop
  run-overtaking a now d0 d1 f0 f1 fs0 fs1 t0 t1 s r g0 g1 =
      let begun0 = step av base (works 0 false a) (ready d0 d1 t0 t1 s) in
      let begun = step av base (works 1 false a) begun0 in
      let idle1 : Busy Graph = record { thread = running t1; todo = [] } in
      let u0 =
        (begin av false a
          (at_queues (ready d0 d1 t0 t1 s) (record idle1 { thread = running t0 }))).busy.thread in
      let u1 = (begin av false a (at_queues begun0 idle1)).busy.thread in
      let after : List Frame → List Frame → List DecodedFrame = λ r0 r1.
        (run av base (emit_by 1 now ∷ emit_by 0 now ∷ []) (record begun {
          workers =
              record { thread = u0; todo = map (λ f. (d0, f)) r0 }
              ∷ record { thread = u1; todo = map (λ f. (d1, f)) r1 }
              ∷ s.workers;
        })).batcher.processed.queue in
      let wanted = s.batcher.processed.queue ++ output_frame d1 f1 ∷ output_frame d0 f0 ∷ [] in
      (
        append_assoc s.consumed (d0 ∷ []) (d1 ∷ []),
        subst (λ r0. after r0 (filtered av a d1 t1.stream_contexts).0 ≡ wanted) (sym g0)
            (subst (λ r1. after (f0 ∷ fs0) r1 ≡ wanted) (sym g1)
              (emits-swapped now (d0, f0) (d1, f1) (map (λ f. (d0, f)) fs0) (map (λ f. (d1, f)) fs1)
                u0 u1 s.workers begun r)),
      )
