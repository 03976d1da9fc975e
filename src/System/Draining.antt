-- ===== src/System/Draining.antt =====
-- From any state in which the batcher and a publisher thread are in their loops, all that the workers
-- have produced can still reach Redis.
use frame_processor.Base.{ℕ, ◌≡◌, refl, ap, sym, ◌∙◌, subst, List, [], ◌∷◌, Text, arith, All}
use frame_processor.Base.Totals.{total, total_values, optional}
use frame_processor.Types.{DecodedFrame}
use frame_processor.Worker.Filter.{Avfilter}
use frame_processor.Publisher.Batching.{FrameBatch, batch_key}
use frame_processor.System.Threads.{Post, System, run}
use frame_processor.System.Invariant.{in_flight}
use frame_processor.System.Working.{carried}
use frame_processor.System.Worker.{Busy, output_of}
use frame_processor.System.Reaching.{Reaches, reached_then}
use frame_processor.System.Emptying.{IsOpen, IsRested, Emitted, record_of, emit_everything}
use frame_processor.System.Flushing.{IsFlushed, pack_everything}
use frame_processor.System.Shipping.{aside, IsEmptyHanded, send_everything}

-- Nothing is between the workers and Redis.
pub record IsDrained {Graph : Type 0} (s : System Graph) : Type 0 where
  pub rested : All IsRested s.workers
  pub no_frames : s.batcher.processed.queue ≡ []
  pub no_batches : s.batcher.batches ≡ []
  pub no_queued : s.batcher.batch_queue.queue ≡ []
  pub empty_handed : All IsEmptyHanded s.posts

module _ (av : Avfilter) (base : Text) where
  open av use {Graph}

  abbrev Drains : System Graph → System Graph → Type 0
  Drains s s' = IsDrained s' × (record_of s' ≡ record_of s)

  -- The queue of batches is emptied last.
  flushed-IsDrained :
      (s1 s2 s3 : System Graph)
      → IsFlushed av base s1 s2
      → aside s3 ≡ aside s2
      → s3.batcher.batch_queue.queue ≡ []
      → All IsEmptyHanded s3.posts
      → IsDrained s3
  flushed-IsDrained s1 s2 s3 f kept none_left e = record {
    rested = subst (All IsRested) (sym (ap (λ u. u.0) kept)) f.rested;
    no_frames = ap (λ u. u.1.0.queue) kept ∙ f.no_frames;
    no_batches = ap (λ u. u.1.1.0) kept ∙ f.no_batches;
    no_queued = none_left;
    empty_handed = e;
  }

  pub open-Drains : (s : System Graph) → IsOpen s → Reaches av base s (Drains s)
  open-Drains s v =
      reached_then av base (Emitted av base s) (Drains s) s (emit_everything av base s v) (λ s1 p.
        let (o, r, same) = p in
        reached_then av base (IsFlushed av base s1) (Drains s) s1
          (pack_everything av base s1.batcher.processed.queue s1 refl o r)
          (λ s2 f.
            let (es, (kept, none_left, e)) =
              send_everything av base s2.batcher.batch_queue.queue s2 refl f.serving in
            (
              es,
              (
                flushed-IsDrained s1 s2 (run av base es s2) f kept none_left e,
                ap (λ u. u.1.1.1) kept ∙ (f.same ∙ same),
              ),
            )))

total-rested :
    {Graph : Type 0} (frame : DecodedFrame → ℕ) (ws : List (Busy Graph))
    → All IsRested ws
    → total (carried frame) ws ≡ 0
total-rested frame [] r = refl
total-rested frame (h ∷ ws) r =
    omega (arith, total-rested frame ws r.1, ap (total (λ x. frame (output_of x))) r.0)

total-empty_handed :
    (batch : FrameBatch → ℕ) (ts : List Post)
    → All IsEmptyHanded ts
    → total (λ (t : Post). optional batch t.batch) ts ≡ 0
total-empty_handed batch [] r = refl
total-empty_handed batch (t ∷ ts) r =
    omega (arith, total-empty_handed batch ts r.1, ap (optional batch) r.0)

-- What is drained has nothing in flight.
pub in_flight-drained :
    (av : Avfilter) (batch : FrameBatch → ℕ) (frame : DecodedFrame → ℕ) (s : System av.Graph)
    → IsDrained s
    → in_flight batch frame s ≡ 0
in_flight-drained av batch frame s v = omega (
  arith,
  total-rested frame s.workers v.rested,
  total-empty_handed batch s.posts v.empty_handed,
  ap (total batch) v.no_queued,
  ap (total frame) v.no_frames,
  ap (total_values batch_key batch) v.no_batches,
)
