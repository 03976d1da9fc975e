-- ===== src/Fifo/Drain.antt =====
-- A stopped queue lets its consumers finish.
use frame_processor.Base.{
  ℕ, zero, suc, ◌+◌, ◌≡◌, refl, true, List, [], ◌∷◌, ◌++◌, map, arith, length,
}
use frame_processor.Fifo.{Fifo, Pop, closed, item, wait_and_pop}

module _ {ℓ} {A : Type ℓ} where
  -- What `n` calls of `wait_and_pop` return, one after the other.
  pub drain : ℕ → Fifo A → List (Pop A)
  drain zero f = []
  drain (suc n) f = let (out, f') = wait_and_pop f in out ∷ drain n f'

  drain_items :
      (q : List A) (f : Fifo A)
      → f.queue ≡ q
      → f.stopped ≡ true
      → drain (length q + 1) f ≡ map item q ++ closed ∷ []
  unfolding drain wait_and_pop
  drain_items [] f e s = ground arith
  drain_items (x ∷ q) f e s = ground (arith, drain_items q (wait_and_pop f).1)

  -- Once a queue is stopped, as many calls of `wait_and_pop` as it holds items return those in order,
  -- and the next one returns empty-handed; none of them waits.
  pub drain-stopped :
      (f : Fifo A)
      → f.stopped ≡ true
      → drain (length f.queue + 1) f ≡ map item f.queue ++ closed ∷ []
  drain-stopped f s = drain_items f.queue f refl s
