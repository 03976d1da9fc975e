-- ===== src/Worker/Provenance.antt =====
-- Which graph a frame meets.
use frame_processor.Base.{
  text_key, ℕ, zero, suc, ◌+◌, ◌==◌, ℤ, eqb_ℤ_iff, Bool, true, not, List, [], ◌∷◌, ◌≡◌, refl, sym,
  ◌∙◌, subst, inl, inr, Option, none, some, Text, find, Entries, find-Entries, insert-Entries,
  Option-cases, Bool-cases, if◌then◌else◌, if_both, arith,
}
use frame_processor.Fifo.{Fifo, Pop, blocks, closed, item, wait_and_pop}
use frame_processor.Types.{
  Pull, again, end_of_file, failed, got, Frame, DecodedFrame, ProcessingConfig,
}
use frame_processor.Types.Equality.{processing_eq_iff}
use frame_processor.Worker.Filter.{Avfilter, Allocations, create_processing_filter}
use frame_processor.Worker.Context.{
  StreamProcessingContext, Contexts, ctx_key, fits, new_context, reinit, context_for,
}
use frame_processor.Worker.Loop.{
  drain, feed, filtered, WorkerThread, emit, emit_all, Event, arrives, taken, stops, round, process,
  receive, advance, worker_loop,
}

-- What a graph is made for.
pub record Purpose : Type 0 where
  pub config : ProcessingConfig
  pub width : ℤ
  pub height : ℤ
  pub format : ℤ

abbrev pub purpose_of : DecodedFrame → Purpose
purpose_of d = record {
  config = d.source_config.processing;
  width = d.frame.width;
  height = d.frame.height;
  format = d.frame.format;
}

abbrev pub purpose_recorded : {Graph : Type 0} → StreamProcessingContext Graph → Purpose
purpose_recorded ctx = record {
  config = ctx.active_config;
  width = ctx.last_input_width;
  height = ctx.last_input_height;
  format = ctx.last_input_pix_fmt;
}

module _ (av : Avfilter) where
  open av use {Graph, add_frame, get_frame}

  -- A graph that was created for a purpose, and what is left of it after it has been used.
  pub data IsMadeFor (p : Purpose) : Graph → Type 0 where
    created :
        (a : Allocations) (d : DecodedFrame) (g : Graph)
        → create_processing_filter av a d.frame d.source_config.processing ≡ some g
        → purpose_of d ≡ p
        → IsMadeFor p g
    fed : (g : Graph) (f : Frame) → IsMadeFor p g → IsMadeFor p (add_frame g f).1
    drained : (g : Graph) (flag : Bool) → IsMadeFor p g → IsMadeFor p (get_frame g flag).1

  -- The graph of a context was made for what the context records.
  abbrev pub IsTrue : Text → StreamProcessingContext Graph → Type 0
  IsTrue key ctx = IsMadeFor (purpose_recorded ctx) ctx.graph

  abbrev pub AreTrue : Contexts Graph → Type 0
  AreTrue m = Entries text_key IsTrue m

  -- What is said of a frame's context, and of the contexts with it.
  abbrev pub Serves :
      DecodedFrame → Option (StreamProcessingContext Graph × Contexts Graph) → Type 0
  Serves d none = Unit
  Serves d (some (ctx, m)) =
      IsMadeFor (purpose_of d) ctx.graph × (IsTrue (ctx_key d) ctx × AreTrue m)

  reinit-Serves :
      (a : Allocations) (d : DecodedFrame) (m : Contexts Graph)
      → AreTrue m
      → Serves d (reinit av a d m)
  unfolding reinit new_context
  reinit-Serves a d m h =
      elim (Option-cases (create_processing_filter av a d.frame d.source_config.processing)) [
        | inl n ↦ rw (reinit, new_context, n) tt
        | inr (g, n) ↦
            let made = created a d g n refl in
            rw (reinit, new_context, n)
              (made, (made, insert-Entries text_key IsTrue (ctx_key d) _ m made h))
      ]

  fits-purpose :
      (ctx : StreamProcessingContext Graph) (d : DecodedFrame)
      → fits ctx d ≡ true
      → IsTrue (ctx_key d) ctx
      → IsMadeFor (purpose_of d) ctx.graph
  unfolding fits
  fits-purpose ctx d f h =
      let same : purpose_recorded ctx ≡ purpose_of d = ground (
        arith,
        processing_eq_iff ctx.active_config d.source_config.processing,
        eqb_ℤ_iff ctx.last_input_width d.frame.width,
        eqb_ℤ_iff ctx.last_input_height d.frame.height,
        eqb_ℤ_iff ctx.last_input_pix_fmt d.frame.format,
      ) in
      subst (λ p. IsMadeFor p ctx.graph) same h

  context_for-Serves :
      (a : Allocations) (d : DecodedFrame) (m : Contexts Graph)
      → AreTrue m
      → Serves d (context_for av a d m)
  unfolding context_for
  context_for-Serves a d m h = elim (Option-cases (find text_key (ctx_key d) m)) [
    | inl n ↦ rw (context_for, n) (reinit-Serves a d m h)
    | inr (ctx, n) ↦
        let true_ctx = find-Entries text_key IsTrue (ctx_key d) ctx m h n in
        elim (Bool-cases (fits ctx d)) [
          | inl f ↦ rw (context_for, n, f) (fits-purpose ctx d f true_ctx, (true_ctx, h))
          | inr f ↦ rw (context_for, n, f) (reinit-Serves a d m h)
        ]
  ]

  drain-IsMadeFor :
      (p : Purpose) (remaining n : ℕ) (g : Graph)
      → IsMadeFor p g
      → IsMadeFor p (drain av remaining n g).1
  unfolding drain
  drain-IsMadeFor p zero n g h = h
  drain-IsMadeFor p (suc remaining) n g h =
      of_answer (drain-IsMadeFor p remaining (n + 1)) (get_frame g (not (n == 0)))
        (drained g (not (n == 0)) h)
    where
      of_answer :
          ((g' : Graph) → IsMadeFor p g' → IsMadeFor p (drain av remaining (n + 1) g').1)
          → (r : Pull × Graph) → IsMadeFor p r.1
          → IsMadeFor p
              (elim r.0 as (λ a. List Frame × Graph) [
                | again ↦ ([], r.1)
                | end_of_file ↦ ([], r.1)
                | failed ↦ ([], r.1)
                | got f ↦ let (fs, g'') = drain av remaining (n + 1) r.1 in (f ∷ fs, g'')
              ]).1
      of_answer later (again, g') k = k
      of_answer later (end_of_file, g') k = k
      of_answer later (failed, g') k = k
      of_answer later (got f, g') k = later g' k

  feed-AreTrue :
      (d : DecodedFrame) (ctx : StreamProcessingContext Graph) (m : Contexts Graph)
      → IsTrue (ctx_key d) ctx
      → AreTrue m
      → AreTrue (feed av d (ctx, m)).1
  unfolding feed
  feed-AreTrue d ctx m h k =
      insert-Entries text_key IsTrue (ctx_key d) _ m
        (if_both (λ (r : List Frame × Graph). IsMadeFor (purpose_recorded ctx) r.1)
          (add_frame ctx.graph d.frame).0
          (drain-IsMadeFor (purpose_recorded ctx) 5 0 (add_frame ctx.graph d.frame).1
            (fed ctx.graph d.frame h))
          (fed ctx.graph d.frame h))
        k

  filtered-AreTrue :
      (a : Allocations) (d : DecodedFrame) (m : Contexts Graph)
      → AreTrue m
      → AreTrue (filtered av a d m).1
  unfolding filtered
  filtered-AreTrue a d m h = of_context (context_for av a d m) (context_for-Serves a d m h)
    where
      of_context :
          (o : Option (StreamProcessingContext Graph × Contexts Graph))
          → Serves d o
          → AreTrue
              (elim o as (λ o. List Frame × Contexts Graph) [
                | none ↦ ([], m)
                | some (ctx, m') ↦ if not a.clone then ([], m') else feed av d (ctx, m')
              ]).1
      of_context none k = h
      of_context (some (ctx, m')) (purpose, (k, l)) =
          if_both (λ (r : List Frame × Contexts Graph). AreTrue r.1) (not a.clone) l
            (feed-AreTrue d ctx m' k l)

  emit_all-stream_contexts :
      (d : DecodedFrame) (now : ℕ) (fs : List Frame) (w : WorkerThread Graph)
      → (emit_all d now fs w).stream_contexts ≡ w.stream_contexts
  unfolding emit_all emit
  emit_all-stream_contexts d now [] w = refl
  emit_all-stream_contexts d now (f ∷ fs) w =
      emit_all-stream_contexts d now fs (emit d now f w)
      ∙ if_both (λ (v : WorkerThread Graph). v.stream_contexts ≡ w.stream_contexts)
          w.is_processed_enabled refl refl

  process-AreTrue :
      (a : Allocations) (now : ℕ) (d : DecodedFrame) (w : WorkerThread Graph)
      → AreTrue w.stream_contexts
      → AreTrue (process av a now d w).stream_contexts
  unfolding process
  process-AreTrue a now d w h =
      let result = filtered av a d w.stream_contexts in
      subst AreTrue
        (sym (emit_all-stream_contexts d now result.0 (record w { stream_contexts = result.1 })))
        (filtered-AreTrue a d w.stream_contexts h)

  advance-AreTrue :
      (e : Event) (w : WorkerThread Graph)
      → AreTrue w.stream_contexts
      → AreTrue (advance av e w).stream_contexts
  unfolding advance receive
  advance-AreTrue (arrives d now) w h = h
  advance-AreTrue taken w h = h
  advance-AreTrue stops w h = h
  advance-AreTrue (round stop_requested a now) w h =
      if_both (λ (v : WorkerThread Graph). AreTrue v.stream_contexts) w.finished h
        (if_both (λ (v : WorkerThread Graph). AreTrue v.stream_contexts) stop_requested h
          (of_pop (wait_and_pop w.in_queue)))
    where
      of_pop :
          (r : Pop DecodedFrame × Fifo DecodedFrame)
          → AreTrue (receive av a now r w).stream_contexts
      of_pop (blocks, q) = h
      of_pop (closed, q) = h
      of_pop (item d, q) = process-AreTrue a now d (record w { in_queue = q }) h

  worker_loop-AreTrue :
      (es : List Event) (w : WorkerThread Graph)
      → AreTrue w.stream_contexts
      → AreTrue (worker_loop av es w).stream_contexts
  unfolding worker_loop
  worker_loop-AreTrue [] w h = h
  worker_loop-AreTrue (e ∷ es) w h = worker_loop-AreTrue es (advance av e w) (advance-AreTrue e w h)

  -- Whatever a thread that starts without contexts has seen, if a frame then has a context, its
  -- graph was created for a frame of the same width, height and pixel format and for the same
  -- processing configuration, and has since only been fed and drained; and all contexts record
  -- truly what their graphs were created for.
  pub worker_loop-Serves :
      (es : List Event) (w : WorkerThread Graph) (a : Allocations) (d : DecodedFrame)
      → w.stream_contexts ≡ []
      → Serves d (context_for av a d (worker_loop av es w).stream_contexts)
  worker_loop-Serves es w a d h =
      context_for-Serves a d (worker_loop av es w).stream_contexts
        (worker_loop-AreTrue es w (subst AreTrue (sym h) tt))
