-- ===== src/System/Balance.antt =====
-- Any interleaving of the threads keeps what is in flight between the workers and Redis.
use frame_processor.Base.{
  ℕ, ◌≡◌, refl, Bool, true, false, if◌then◌else◌, List, [], ◌∷◌, Text, inl, inr, All, Option-cases,
}
use frame_processor.Base.Totals.{get_elem?}
use frame_processor.Fifo.{stop}
use frame_processor.Worker.Filter.{Avfilter}
use frame_processor.Publisher.Sender.{Entry}
use frame_processor.Publisher.Sending.{in_batch}
use frame_processor.System.Weight.{Weight}
use frame_processor.System.Threads.{
  System, Event, decodes, works, emit_by, stops, packs, closes, takes_batch, sends, step, run,
}
use frame_processor.System.Invariant.{
  IsBalanced, begins-IsBalanced, emits-IsBalanced, packs-IsBalanced,
}
use frame_processor.System.Posting.{takes-IsBalanced, sends-IsBalanced}
use frame_processor.System.Growth.{run-Grows}

module _ (av : Avfilter) (base : Text) (measure : Entry → ℕ) (w : Weight)
    (same : w.batch ≡ in_batch base measure) where
  open av use {Graph}
  open w use {Fair, batch, frame}

  step-IsBalanced :
      (e : Event) (s : System Graph)
      → IsBalanced av measure w s
      → All Fair (step av base e s).produced
      → IsBalanced av measure w (step av base e s)
  unfolding step stop
  step-IsBalanced (decodes d now) s v f = record {
    conserved = v.conserved;
    batcher = v.batcher;
    fed = v.fed;
    fair = v.fair;
  }
  step-IsBalanced stops s v f = record {
    conserved = v.conserved;
    batcher =
        λ on. let b = v.batcher on in record { sound = b.sound; valid = b.valid; fair = b.fair };
    fed = v.fed;
    fair = v.fair;
  }
  step-IsBalanced (packs r now) s v f = packs-IsBalanced av measure w r now s v
  step-IsBalanced closes s v f = closed_if s.batcher.finished refl
    where
      closed_if :
          (z : Bool)
          → s.batcher.finished ≡ z
          → IsBalanced av measure w (
              if z
              then record s {
                batcher = record s.batcher { batch_queue = stop s.batcher.batch_queue };
              }
              else s)
      closed_if false e = v
      closed_if true e = record {
        conserved = v.conserved;
        batcher = λ on. cc;
        fed = v.fed;
        fair = v.fair;
      }
  step-IsBalanced (works i r a) s v f = elim (Option-cases (get_elem? s.workers i)) [
    | inl n ↦ rw (n, step) v
    | inr (h, n) ↦ rw (n, step) (begins-IsBalanced av measure w i r a h s n v (rw (n, step) at f))
  ]
  step-IsBalanced (emit_by i now) s v f = elim (Option-cases (get_elem? s.workers i)) [
    | inl n ↦ rw (n, step) v
    | inr (h, n) ↦ rw (n, step) (emits-IsBalanced av measure w i now h s n v)
  ]
  step-IsBalanced (takes_batch j r) s v f = elim (Option-cases (get_elem? s.posts j)) [
    | inl n ↦ rw (n, step) v
    | inr (t, n) ↦ rw (n, step) (takes-IsBalanced av base measure w j r t s n v)
  ]
  step-IsBalanced (sends j e) s v f = elim (Option-cases (get_elem? s.posts j)) [
    | inl n ↦ rw (n, step) v
    | inr (t, n) ↦ rw (n, step) (sends-IsBalanced av base measure w j e t s same n v)
  ]

  pub run-IsBalanced :
      (es : List Event) (s : System Graph)
      → IsBalanced av measure w s
      → All Fair (run av base es s).produced
      → IsBalanced av measure w (run av base es s)
  unfolding run
  run-IsBalanced [] s v f = v
  run-IsBalanced (e ∷ es) s v f =
      run-IsBalanced es (step av base e s)
        (step-IsBalanced e s v (run-Grows av base Fair es (step av base e s) f)) f
