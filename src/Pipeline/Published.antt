-- ===== src/Pipeline/Published.antt =====
-- What the worker makes is what the batcher packs into batches.
use frame_processor.Base.{
  ℕ, ◌≡◌, refl, ap, sym, ◌∙◌, subst, Bool, true, false, List, [], ◌∷◌, ◌++◌, map, All, Text,
  if◌then◌else◌,
}
use frame_processor.Fifo.{Fifo, Pop, blocks, closed, item, wait_and_pop}
use frame_processor.Types.{Frame, DecodedFrame}
use frame_processor.Worker.Filter.{Avfilter, Allocations}
use frame_processor.Worker.Loop.{
  WorkerThread, filtered, output_frame, emit, emit_all, process, receive,
}
use frame_processor.Worker.Loop
use frame_processor.Worker.Outputs.{emit-out_queue}
use frame_processor.Publisher.Batching.{BatchKey, Batcher, batching}
use frame_processor.Publisher.Batching
use frame_processor.Publisher.Accounts.{bytes_for, blob_for}
use frame_processor.Publisher.Rounds.{Unreturned, accepted_frames, IsPacked}
use frame_processor.Publisher.Shutdown.{Unrequested, start, batching_complete}
use frame_processor.Pipeline.Shared.{
  Event, decoded, stops, works, packs, Pipeline, joined, after_worker, step, run, outputs_of,
  outputs, seen, seen_all,
}

batching-append :
    (xs ys : List Batching.Event) (s : Batcher)
    → batching (xs ++ ys) s ≡ batching ys (batching xs s)
unfolding batching
batching-append [] ys s = refl
batching-append (x ∷ xs) ys s = batching-append xs ys (Batching.advance x s)

abbrev arrival : ℕ → DecodedFrame → Batching.Event
arrival now d = Batching.arrives d now

-- The pushes of a worker are arrivals at the batcher.
emit_all-batching :
    {Graph : Type 0} (d : DecodedFrame) (now : ℕ) (fs : List Frame) (w : WorkerThread Graph)
    (b : Batcher)
    → record b { processed = (emit_all d now fs w).out_queue }
      ≡ batching
          (map (arrival now) (map (output_frame d) fs))
          (record b { processed = w.out_queue })
unfolding emit_all batching Batching.advance
emit_all-batching d now [] w b = refl
emit_all-batching d now (f ∷ fs) w b =
    emit_all-batching d now fs (emit d now f w) b
    ∙ ap (λ q. batching (map (arrival now) (map (output_frame d) fs)) (record b { processed = q }))
        (emit-out_queue d now f w)

-- Two conditionals with one test.
if_alike :
    {A B C : Type 0} (g : A → C) (h : B → C) (b : Bool) {x y : A} {u v : B}
    → g x ≡ h u
    → g y ≡ h v
    → g (if b then x else y) ≡ h (if b then u else v)
if_alike g h true p q = p
if_alike g h false p q = q

module _ (av : Avfilter) where
  open av use {Graph}

  receive-batching :
      (a : Allocations) (now : ℕ) (r : Pop DecodedFrame × Fifo DecodedFrame) (p : Pipeline av)
      → record p.batcher { processed = (receive av a now r (joined av p)).out_queue }
        ≡ batching (map (arrival now) (outputs_of av a r.0 p.worker)) p.batcher
  unfolding receive process joined outputs_of batching
  receive-batching a now (blocks, q) p = refl
  receive-batching a now (closed, q) p = refl
  receive-batching a now (item d, q) p =
      emit_all-batching d now (filtered av a d p.worker.stream_contexts).0 _ p.batcher

  works-batching :
      (r : Bool) (a : Allocations) (now : ℕ) (p : Pipeline av)
      → (step av (works r a now) p).batcher
        ≡ batching (map (arrival now) (outputs av r a p.worker)) p.batcher
  unfolding step joined after_worker outputs batching Loop.advance
  works-batching r a now p = if_alike at_queue at_batcher p.worker.finished refl (
      if_alike at_queue at_batcher r refl
        (receive-batching a now (wait_and_pop p.worker.in_queue) p))
    where
      at_queue : WorkerThread Graph → Batcher
      at_queue w = record p.batcher { processed = w.out_queue }

      at_batcher : List DecodedFrame → Batcher
      at_batcher ds = batching (map (arrival now) ds) p.batcher

  step-seen :
      (e : Event) (p : Pipeline av) → (step av e p).batcher ≡ batching (seen av e p) p.batcher
  unfolding step joined after_worker seen batching Loop.advance Batching.advance
  step-seen (decoded d now) p = refl
  step-seen stops p = refl
  step-seen (works r a now) p = works-batching r a now p
  step-seen (packs e) p = refl

  -- The batcher of the pipeline is the batcher that sees the worker's outputs arrive.
  pub run-seen :
      (es : List Event) (p : Pipeline av)
      → (run av es p).batcher ≡ batching (seen_all av es p) p.batcher
  unfolding run seen_all batching
  run-seen [] p = refl
  run-seen (e ∷ es) p =
      run-seen es (step av e p)
      ∙ ap (batching (seen_all av es (step av e p))) (step-seen e p)
      ∙ sym (batching-append (seen av e p) (seen_all av es (step av e p)) p.batcher)

  abbrev pub joint : WorkerThread Graph → ℕ → Text → Pipeline av
  joint w threshold name = record { worker = w; batcher = start threshold name }

  abbrev pub IsBatched : BatchKey → Batcher → List DecodedFrame → Type 0
  IsBatched k b ds = bytes_for k b.taken ++ bytes_for k b.batch_queue.queue ≡ blob_for k ds

  -- The frames that reach the batcher: the worker's outputs and what the other workers push, until the
  -- queue is stopped.
  abbrev pub reached : List Event → Pipeline av → List DecodedFrame
  reached es p = accepted_frames false (seen_all av es p)

  -- A worker and the batcher, in any order of their steps, from new queues: if the batcher ends without
  -- having seen a stop request, no publisher thread puts a batch back, and the frames that reach the
  -- batcher are planar, then for each stream and event the batches that publisher threads have taken
  -- and those on the queue hold the packed bytes of these frames, in their order and nothing else.
  pub run_complete :
      (k : BatchKey) (es : List Event) (w : WorkerThread Graph) (threshold : ℕ) (name : Text)
      → All Unrequested (seen_all av es (joint w threshold name))
      → All Unreturned (seen_all av es (joint w threshold name))
      → All IsPacked (reached es (joint w threshold name))
      → (run av es (joint w threshold name)).batcher.finished ≡ true
      → IsBatched k
          (run av es (joint w threshold name)).batcher
          (reached es (joint w threshold name))
  run_complete k es w threshold name u r h f =
      let p = joint w threshold name in
      let same = run-seen es p in
      subst (λ b. IsBatched k b (reached es p)) (sym same)
        (batching_complete k (seen_all av es p) threshold name u r h
          (ap (λ b. b.finished) (sym same) ∙ f))
