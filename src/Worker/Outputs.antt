-- ===== src/Worker/Outputs.antt =====
-- What a worker makes of one frame: how many outputs there are, and which contexts it touches.
use frame_processor.Base.{
  text_key, ℕ, zero, suc, ◌+◌, ◌≤◌, ◌==◌, Bool, true, false, not, List, [], ◌∷◌, ◌++◌, ◌≡◌, refl,
  sym, ◌∙◌, ap, inl, inr, Option, none, some, Text, length, map, text_eq, find, insert, find-insert,
  Option-cases, Bool-cases, if◌then◌else◌, if_both, arith, append_assoc, append-nil,
}
use frame_processor.Fifo.{push}
use frame_processor.Fifo.Order.{queue-push_running, queue-push_stopped, stopped-push}
use frame_processor.Types.{Pull, again, end_of_file, failed, got, Frame, DecodedFrame}
use frame_processor.Worker.Filter.{Avfilter, Allocations}
use frame_processor.Worker.Context.{
  StreamProcessingContext, Contexts, ctx_key, fits, new_context, reinit, context_for,
}
use frame_processor.Worker.Loop.{
  drain, feed, filtered, output_frame, WorkerThread, emit, emit_all, process,
}

module _ (av : Avfilter) where
  open av use {Graph, add_frame, get_frame}

  drain-bound : (remaining n : ℕ) (g : Graph) → length (drain av remaining n g).0 ≤ remaining
  unfolding drain
  drain-bound zero n g = omega arith
  drain-bound (suc remaining) n g =
      of_answer (drain-bound remaining (n + 1)) (get_frame g (not (n == 0)))
    where
      of_answer :
          ((g' : Graph) → length (drain av remaining (n + 1) g').0 ≤ remaining)
          → (r : Pull × Graph)
          → length
              (elim r.0 as (λ a. List Frame × Graph) [
                | again ↦ ([], r.1)
                | end_of_file ↦ ([], r.1)
                | failed ↦ ([], r.1)
                | got f ↦ let (fs, g'') = drain av remaining (n + 1) r.1 in (f ∷ fs, g'')
              ]).0
            ≤ suc remaining
      of_answer later (again, g') = omega arith
      of_answer later (end_of_file, g') = omega arith
      of_answer later (failed, g') = omega arith
      of_answer later (got f, g') = omega (arith, later g')

  -- The contexts under other keys are as they were.
  abbrev pub KeepsOthers : DecodedFrame → Contexts Graph → Contexts Graph → Type 0
  KeepsOthers d m m' =
      (key : Text) → text_eq (ctx_key d) key ≡ false → find text_key key m' ≡ find text_key key m

  insert-KeepsOthers :
      (d : DecodedFrame) (ctx : StreamProcessingContext Graph) (m : Contexts Graph)
      → KeepsOthers d m (insert text_key (ctx_key d) ctx m)
  insert-KeepsOthers d ctx m key h = rw (find-insert text_key (ctx_key d) key ctx m, h) refl

  abbrev pub KeepsAll :
      DecodedFrame
      → Contexts Graph
      → Option (StreamProcessingContext Graph × Contexts Graph)
      → Type 0
  KeepsAll d m none = Unit
  KeepsAll d m (some (ctx, m')) = KeepsOthers d m m'

  reinit-KeepsAll :
      (a : Allocations) (d : DecodedFrame) (m : Contexts Graph) → KeepsAll d m (reinit av a d m)
  unfolding reinit
  reinit-KeepsAll a d m = elim (Option-cases (new_context av a d)) [
    | inl n ↦ rw (reinit, n) tt
    | inr (ctx, n) ↦ rw (reinit, n) (insert-KeepsOthers d ctx m)
  ]

  context_for-KeepsAll :
      (a : Allocations) (d : DecodedFrame) (m : Contexts Graph)
      → KeepsAll d m (context_for av a d m)
  unfolding context_for
  context_for-KeepsAll a d m = elim (Option-cases (find text_key (ctx_key d) m)) [
    | inl n ↦ rw (context_for, n) (reinit-KeepsAll a d m)
    | inr (ctx, n) ↦
        rw (context_for, n)
          (if_both (KeepsAll d m) (fits ctx d) (λ key h. refl) (reinit-KeepsAll a d m))
  ]

  -- One frame gives at most five outputs, also if a step of its processing fails, and leaves the
  -- contexts under all keys but its own as they were.
  pub filtered-isolated :
      (a : Allocations) (d : DecodedFrame) (m : Contexts Graph)
      → (length (filtered av a d m).0 ≤ 5) × KeepsOthers d m (filtered av a d m).1
  unfolding filtered feed
  filtered-isolated a d m = of_context (context_for av a d m) (context_for-KeepsAll a d m)
    where
      of_feed :
          (ctx : StreamProcessingContext Graph) (m' : Contexts Graph)
          → KeepsOthers d m m'
          → (length (feed av d (ctx, m')).0 ≤ 5) × KeepsOthers d m (feed av d (ctx, m')).1
      of_feed ctx m' k = (
        if_both (λ (r : List Frame × Graph). length r.0 ≤ 5) (add_frame ctx.graph d.frame).0
            (drain-bound 5 0 (add_frame ctx.graph d.frame).1) (omega arith),
        λ key h. insert-KeepsOthers d _ m' key h ∙ k key h,
      )

      of_context :
          (o : Option (StreamProcessingContext Graph × Contexts Graph))
          → KeepsAll d m o
          → (let r = elim o as (λ o. List Frame × Contexts Graph) [
            | none ↦ ([], m)
            | some (ctx, m') ↦ if not a.clone then ([], m') else feed av d (ctx, m')
          ] in
              (length r.0 ≤ 5) × KeepsOthers d m r.1)
      of_context none k = (omega arith, λ key h. refl)
      of_context (some (ctx, m')) k =
          if_both (λ (r : List Frame × Contexts Graph). (length r.0 ≤ 5) × KeepsOthers d m r.1)
            (not a.clone) (omega arith, k) (of_feed ctx m' k)

-- A frame that is emitted is pushed, saved or not.
pub emit-out_queue :
    {Graph : Type 0} (d : DecodedFrame) (now : ℕ) (f : Frame) (w : WorkerThread Graph)
    → (emit d now f w).out_queue ≡ push (output_frame d f) now w.out_queue
unfolding emit
emit-out_queue {Graph} d now f w =
    if_both (λ (v : WorkerThread Graph). v.out_queue ≡ push (output_frame d f) now w.out_queue)
      w.is_processed_enabled refl refl

emit_all-running :
    {Graph : Type 0} (d : DecodedFrame) (now : ℕ) (fs : List Frame) (w : WorkerThread Graph)
    → w.out_queue.stopped ≡ false
    → (emit_all d now fs w).out_queue.queue ≡ w.out_queue.queue ++ map (output_frame d) fs
unfolding emit_all
emit_all-running d now [] w h = sym (append-nil w.out_queue.queue)
emit_all-running d now (f ∷ fs) w h =
    let out = emit-out_queue d now f w in
    let runs : (emit d now f w).out_queue.stopped ≡ false =
      ap (λ q. q.stopped) out ∙ (stopped-push (output_frame d f) now w.out_queue ∙ h) in
    let front : (emit d now f w).out_queue.queue ≡ w.out_queue.queue ++ output_frame d f ∷ [] =
      ap (λ q. q.queue) out ∙ queue-push_running (output_frame d f) now w.out_queue h in
    emit_all-running d now fs (emit d now f w) runs
    ∙ (ap (λ l. l ++ map (output_frame d) fs) front
        ∙ append_assoc w.out_queue.queue (output_frame d f ∷ []) (map (output_frame d) fs))

emit_all-stopped :
    {Graph : Type 0} (d : DecodedFrame) (now : ℕ) (fs : List Frame) (w : WorkerThread Graph)
    → w.out_queue.stopped ≡ true
    → (emit_all d now fs w).out_queue ≡ w.out_queue
unfolding emit_all
emit_all-stopped d now [] w h = refl
emit_all-stopped d now (f ∷ fs) w h =
    let out = emit-out_queue d now f w ∙ queue-push_stopped (output_frame d f) now w.out_queue h in
    emit_all-stopped d now fs (emit d now f w) (ap (λ q. q.stopped) out ∙ h) ∙ out

-- The frames that the sink gives for a frame are queued in their order, each with the stream, the
-- event and the time base of the input; if the output queue has been stopped, all are lost.
process-out_queue :
    (av : Avfilter) (a : Allocations) (now : ℕ) (d : DecodedFrame) (w : WorkerThread av.Graph)
    → (process av a now d w).out_queue.queue ≡ (
        if w.out_queue.stopped
        then w.out_queue.queue
        else w.out_queue.queue ++ map (output_frame d) (filtered av a d w.stream_contexts).0)
unfolding process
process-out_queue av a now d w = elim (Bool-cases w.out_queue.stopped) [
  | inl s ↦ ap (λ q. q.queue) (emit_all-stopped d now result.0 ready s) ∙ ap chosen (sym s)
  | inr s ↦ emit_all-running d now result.0 ready s ∙ ap chosen (sym s)
]
  where
    result : List Frame × Contexts av.Graph
    result = filtered av a d w.stream_contexts

    ready : WorkerThread av.Graph
    ready = record w { stream_contexts = result.1 }

    chosen : Bool → List DecodedFrame
    chosen s = if s then w.out_queue.queue else w.out_queue.queue ++ map (output_frame d) result.0
