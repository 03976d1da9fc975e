-- ===== src/System/Upstream.antt =====
-- The publisher threads leave what readers and workers have done as it was.
use frame_processor.Base.{ℕ, ◌≡◌, refl, Bool, List, Text, if_both, inl, inr, Option-cases}
use frame_processor.Fifo.{Fifo, Pop, blocks, closed, item, wait_and_pop}
use frame_processor.Types.{DecodedFrame}
use frame_processor.Publisher.Batching.{FrameBatch}
use frame_processor.Publisher.Sender.{Weather}
use frame_processor.System.Threads.{Post, System, takes_by, takes, delivers}

module _ {Graph : Type 0} where
  abbrev pub upstream : System Graph → Fifo DecodedFrame × (List DecodedFrame × List DecodedFrame)
  upstream s = (s.decoded, (s.consumed, s.produced))

  abbrev Leaves : System Graph → System Graph → Type 0
  Leaves s s' = upstream s' ≡ upstream s

  takes_by-Leaves :
      (j : ℕ) (t : Post) (r : Pop FrameBatch × Fifo FrameBatch) (s : System Graph)
      → Leaves s (takes_by j t r s)
  unfolding takes_by
  takes_by-Leaves j t (blocks, q) s = refl
  takes_by-Leaves j t (closed, q) s = refl
  takes_by-Leaves j t (item b, q) s = refl

  pub upstream-takes :
      (j : ℕ) (stop_requested : Bool) (t : Post) (s : System Graph)
      → upstream (takes j stop_requested t s) ≡ upstream s
  unfolding takes
  upstream-takes j stop_requested t s = elim (Option-cases t.batch) [
    | inr (b, n) ↦ rw (n, takes) refl
    | inl n ↦
        rw (n, takes)
          (if_both (Leaves s) t.finished refl (
            if_both (Leaves s) stop_requested refl
              (takes_by-Leaves j t (wait_and_pop s.batcher.batch_queue) s)))
  ]

  pub upstream-delivers :
      (base : Text) (j : ℕ) (e : Weather) (t : Post) (s : System Graph)
      → upstream (delivers base j e t s) ≡ upstream s
  unfolding delivers
  upstream-delivers base j e t s = elim (Option-cases t.batch) [
    | inl n ↦ rw (n, delivers) refl
    | inr (b, n) ↦ rw (n, delivers) refl
  ]
