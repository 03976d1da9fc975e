-- ===== src/System/Invariant.antt =====
-- What is in flight between the workers and Redis, and the steps of the workers and the batcher.
use frame_processor.Base.{
  ℕ, ◌+◌, ◌≡◌, ap, sym, subst, if◌then◌else◌, Bool, true, false, Bool-cases, inl, inr, some, arith,
  All,
}
use frame_processor.Base.Totals.{
  get_elem?, total, total-append, total-set, optional, get_elem-All, set-All, append-All,
}
use frame_processor.Fifo.{wait_and_pop}
use frame_processor.Types.{DecodedFrame}
use frame_processor.Worker.Filter.{Avfilter, Allocations}
use frame_processor.Publisher.Batching.{FrameBatch, Batcher}
use frame_processor.Publisher.Batching
use frame_processor.Publisher.Sender.{Entry}
use frame_processor.System.Weight.{Weight}
use frame_processor.System.Worker.{Busy, begin, emit_next}
use frame_processor.System.Threads.{Post, System, at_queues, news, begins, rejects, emits}
use frame_processor.System.Packing.{weight, IsFair, round-Keeps}
use frame_processor.System.Working.{carried, CarriesFair, begin-Begins, emit_next-Moves}

-- What is between the workers and Redis, weighed: what the workers have still to emit, what the batcher
-- and its queues hold, and what publisher threads have taken and not sent.
abbrev pub in_flight : {Graph : Type 0} → (FrameBatch → ℕ) → (DecodedFrame → ℕ) → System Graph → ℕ
in_flight batch frame s =
    total (carried frame) s.workers
    + (weight batch frame s.batcher + total (λ (t : Post). optional batch t.batch) s.posts)

-- A batcher that has left its loop does nothing.
pub advance_finished :
    (r : Bool) (now : ℕ) (b : Batcher)
    → b.finished ≡ true
    → Batching.advance (Batching.round r now) b ≡ b
unfolding Batching.advance
advance_finished r now b e =
    ap
      (λ z.
        if z
        then b
        else if r
        then Batching.finish now b
        else Batching.receive now (wait_and_pop b.processed) b)
      e

module _ (av : Avfilter) (measure : Entry → ℕ) (w : Weight) where
  open av use {Graph}
  open w use {Fair, batch, frame}

  -- The invariant: the stream, what is in flight, what was rejected and what was dropped weigh as much
  -- as what the workers have produced and what was repeated; the batcher is fair while it runs.
  pub record IsBalanced (s : System Graph) : Type 0 where
    pub conserved :
        total measure s.stream
          + (in_flight batch frame s + total frame s.rejected)
          + total batch s.lost
        ≡ total frame s.produced + total batch s.repeated
    pub batcher : s.batcher.finished ≡ false → IsFair w s.batcher
    pub fed : All Fair s.batcher.processed.queue
    pub fair : All (CarriesFair Fair) s.workers

  pub begins-IsBalanced :
      (i : ℕ) (stop_requested : Bool) (a : Allocations) (h : Busy Graph) (s : System Graph)
      → get_elem? s.workers i ≡ some h
      → IsBalanced s
      → All Fair (begins av i stop_requested a h s).produced
      → IsBalanced (begins av i stop_requested a h s)
  unfolding begins at_queues
  begins-IsBalanced i stop_requested a h s e v f =
      let b = begin av stop_requested a (at_queues s h) in
      let more = begin-Begins frame Fair av stop_requested a (at_queues s h) in
      record {
        conserved = omega (
          arith,
          v.conserved,
          more.0,
          total-set (carried frame) s.workers i h b.busy e,
          total-append frame s.produced (news b),
        );
        batcher = v.batcher;
        fed = v.fed;
        fair = set-All (CarriesFair Fair) s.workers i b.busy v.fair (
            more.1 (get_elem-All (CarriesFair Fair) s.workers i h v.fair e)
              (append-All Fair s.produced (news b) f).1);
      }

  pub emits-IsBalanced :
      (i now : ℕ) (h : Busy Graph) (s : System Graph)
      → get_elem? s.workers i ≡ some h
      → IsBalanced s
      → IsBalanced (emits i now h s)
  unfolding emits at_queues
  emits-IsBalanced i now h s e v =
      let h' = emit_next now (at_queues s h) in
      let moved = emit_next-Moves frame Fair now (at_queues s h) in
      let kept = moved.1 (get_elem-All (CarriesFair Fair) s.workers i h v.fair e) v.fed in
      record {
        conserved = omega (
          arith,
          v.conserved,
          moved.0,
          total-set (carried frame) s.workers i h h' e,
          total-append frame s.rejected (rejects s.batcher.processed h.todo),
        );
        batcher = λ on.
            let b = v.batcher on in
            record {
              sound = record {
                unique = b.sound.unique;
                keyed = b.sound.keyed;
                running = b.sound.running;
              };
              valid = b.valid;
              fair = kept.1;
            };
        fed = kept.1;
        fair = set-All (CarriesFair Fair) s.workers i h' v.fair kept.0;
      }

  pub packs-IsBalanced :
      (r : Bool) (now : ℕ) (s : System Graph)
      → IsBalanced s
      → IsBalanced (record s { batcher = Batching.advance (Batching.round r now) s.batcher })
  packs-IsBalanced r now s v = elim (Bool-cases s.batcher.finished) [
    | inl e ↦
        subst (λ b. IsBalanced (record s { batcher = b }))
          (sym (advance_finished r now s.batcher e)) v
    | inr e ↦
        let k = round-Keeps w r now s.batcher (v.batcher e) in
        record {
          conserved = omega (arith, v.conserved, k.1);
          batcher = λ on. k.0;
          fed = k.0.fair;
          fair = v.fair;
        }
  ]
