-- ===== src/System/Growth.antt =====
-- What the workers have produced only grows.
use frame_processor.Base.{◌≡◌, if_both, ap, subst, List, [], ◌∷◌, Text, inl, inr, All, Option-cases}
use frame_processor.Base.Totals.{get_elem?, append-All}
use frame_processor.Worker.Filter.{Avfilter}
use frame_processor.Types.{DecodedFrame}
use frame_processor.System.Threads.{
  System, begins, emits, takes, delivers, Event, decodes, works, emit_by, stops, packs, closes,
  takes_batch, sends, step, run,
}
use frame_processor.System.Upstream.{upstream, upstream-takes, upstream-delivers}

module _ (av : Avfilter) (base : Text) (Fair : DecodedFrame → Type 0) where
  open av use {Graph}

  -- Frames that were produced are among those produced later.
  abbrev Grows : System Graph → System Graph → Type 0
  Grows s s' = All Fair s'.produced → All Fair s.produced

  upstream-Grows : (s s' : System Graph) → upstream s' ≡ upstream s → Grows s s'
  upstream-Grows s s' e f = subst (All Fair) (ap (λ u. u.1.1) e) f

  pub step-Grows : (e : Event) (s : System Graph) → Grows s (step av base e s)
  unfolding step begins emits
  step-Grows (decodes d now) s = λ f. f
  step-Grows stops s = λ f. f
  step-Grows closes s = if_both (Grows s) s.batcher.finished (λ f. f) (λ f. f)
  step-Grows (packs r now) s = λ f. f
  step-Grows (works i r a) s = elim (Option-cases (get_elem? s.workers i)) [
    | inl n ↦ rw (n, step) (λ f. f)
    | inr (h, n) ↦ rw (n, step) (λ f. (append-All Fair s.produced _ f).0)
  ]
  step-Grows (emit_by i now) s = elim (Option-cases (get_elem? s.workers i)) [
    | inl n ↦ rw (n, step) (λ f. f)
    | inr (h, n) ↦ rw (n, step) (λ f. f)
  ]
  step-Grows (takes_batch j r) s = elim (Option-cases (get_elem? s.posts j)) [
    | inl n ↦ rw (n, step) (λ f. f)
    | inr (t, n) ↦ rw (n, step) (upstream-Grows s (takes j r t s) (upstream-takes j r t s))
  ]
  step-Grows (sends j e) s = elim (Option-cases (get_elem? s.posts j)) [
    | inl n ↦ rw (n, step) (λ f. f)
    | inr (t, n) ↦
        rw (n, step) (upstream-Grows s (delivers base j e t s) (upstream-delivers base j e t s))
  ]

  pub run-Grows : (es : List Event) (s : System Graph) → Grows s (run av base es s)
  unfolding run
  run-Grows [] s f = f
  run-Grows (e ∷ es) s f = step-Grows e s (run-Grows es (step av base e s) f)
