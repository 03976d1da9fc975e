-- ===== src/System/Packing.antt =====
-- A round of the batcher keeps what its queues and its map weigh together.
use frame_processor.Base.{
  ℕ, ◌+◌, ◌≡◌, refl, ap, ◌∙◌, Bool, [], ◌∷◌, if◌then◌else◌, some, arith, find, insert, find-insert,
  Entries, find-Entries, insert-Entries, erase-Entries, insert-Unique, if_both, Option-cases,
  Bool-cases, inl, inr, All, subst, lt→ltb, leb_ℤ, pos,
}
use frame_processor.Base.Totals.{
  total, total-append, optional, total_values, total-insert, total-erase,
}
use frame_processor.Types.{DecodedFrame}
use frame_processor.Fifo.{Fifo, Pop, push}
use frame_processor.Fifo.Order.{PopCases, wait_and_pop_cases, queue-push_running, stopped-push}
use frame_processor.Publisher.Batching.{
  FrameBatch, BatchKey, Batches, Batcher, batch_key, frame_key, extended, pack, flush, finish,
  receive, round, advance,
}
use frame_processor.Publisher.Accounts.{IsKeyed, IsSound, pack-IsSound, flush-running}
use frame_processor.System.Weight.{Weight}

-- What a batcher holds, weighed.
abbrev load : (FrameBatch → ℕ) → Batches → Fifo FrameBatch → ℕ
load batch m out = total batch out.queue + total_values batch_key batch m

abbrev pub weight : (FrameBatch → ℕ) → (DecodedFrame → ℕ) → Batcher → ℕ
weight batch frame s = load batch s.batches s.batch_queue + total frame s.processed.queue

module _ (w : Weight) where
  open w use {Valid, Fair, batch, frame, opens, joins}

  abbrev pub AllValid : Batches → Type 0
  AllValid m = Entries batch_key (λ k b. Valid b) m

  -- What holds of the batcher between two steps.
  pub record IsFair (s : Batcher) : Type 0 where
    pub sound : IsSound s.batches s.batch_queue
    pub valid : AllValid s.batches
    pub fair : All Fair s.processed.queue

  extended-weight :
      (d : DecodedFrame) (m : Batches)
      → Fair d
      → Entries batch_key IsKeyed m
      → AllValid m
      → Valid (extended d m)
        × (batch (extended d m) ≡ optional batch (find batch_key (frame_key d) m) + frame d)
  unfolding extended
  extended-weight d m f k v = elim (Option-cases (find batch_key (frame_key d) m)) [
    | inl e ↦ rw (e, extended) ((opens d f).0, omega (arith, (opens d f).1))
    | inr (b, e) ↦
        rw (e, extended)
          (joins d b f (find-Entries batch_key _ (frame_key d) b m v e)
            (find-Entries batch_key IsKeyed (frame_key d) b m k e).0)
  ]

  -- A batch that is pushed, or stays in the map.
  pack-load :
      (d : DecodedFrame) (now : ℕ) (m : Batches) (out : Fifo FrameBatch)
      → Fair d
      → IsSound m out
      → AllValid m
      → load batch (pack d now m out).0 (pack d now m out).1 ≡ load batch m out + frame d
  unfolding pack
  pack-load d now m out f v ok = elim (Bool-cases full) [
    | inl t ↦
        rw (t, queue-push_running b now out v.running)
          (omega (
            arith,
            total-append batch out.queue (b ∷ []),
            total-erase batch_key batch k (insert batch_key k b m)
                (insert-Unique batch_key k b m v.unique),
            put,
            joined_weight,
            own_key,
          ))
    | inr t ↦ rw t (omega (arith, put, joined_weight))
  ]
    where
      k : BatchKey
      k = frame_key d

      b : FrameBatch
      b = extended d m

      full : Bool
      full = leb_ℤ d.event_config.batch_size (pos b.frame_count)

      put :
          total_values batch_key batch (insert batch_key k b m)
            + optional batch (find batch_key k m)
          ≡ total_values batch_key batch m + batch b
      put = total-insert batch_key batch k b m v.unique

      joined_weight : batch b ≡ optional batch (find batch_key k m) + frame d
      joined_weight = (extended-weight d m f v.keyed ok).1

      own_key : optional batch (find batch_key k (insert batch_key k b m)) ≡ batch b
      own_key = ap (optional batch) (
          find-insert batch_key k k b m
          ∙ ap (λ t. if t then some b else find batch_key k m) ((batch_key.eq_iff k k).1 refl))

  pack-AllValid :
      (d : DecodedFrame) (now : ℕ) (m : Batches) (out : Fifo FrameBatch)
      → Fair d
      → IsSound m out
      → AllValid m
      → AllValid (pack d now m out).0
  unfolding pack
  pack-AllValid d now m out f v ok =
      let h =
        insert-Entries batch_key (λ k b. Valid b) (frame_key d) (extended d m) m
          (extended-weight d m f v.keyed ok).0 ok in
      ground (
        arith,
        h,
        erase-Entries batch_key (λ k b. Valid b) (frame_key d)
            (insert batch_key (frame_key d) (extended d m) m) h,
      )

  flush-load :
      (now : ℕ) (m : Batches) (out : Fifo FrameBatch)
      → IsSound m out
      → total batch (flush now m out).queue ≡ load batch m out
  unfolding flush
  flush-load now [] out v = omega arith
  flush-load now ((k, b) ∷ m) out v =
      rw (lt→ltb 0 b.frame_count v.keyed.0.1, flush)
        (omega (
          arith,
          flush-load now m (push b now out) (record {
            unique = v.unique.1;
            keyed = v.keyed.1;
            running = stopped-push b now out ∙ v.running;
          }),
          ap (total batch) (queue-push_running b now out v.running),
          total-append batch out.queue (b ∷ []),
        ))

  -- A step of the batcher that keeps what holds and what it weighs.
  abbrev pub Keeps : Batcher → Batcher → Type 0
  Keeps s s' = IsFair s' × (weight batch frame s' ≡ weight batch frame s)

  finish-Keeps : (now : ℕ) (s : Batcher) → IsFair s → Keeps s (finish now s)
  unfolding finish
  finish-Keeps now s v = (
    record {
      sound = record {
        unique = tt;
        keyed = tt;
        running = flush-running now s.batches s.batch_queue ∙ v.sound.running;
      };
      valid = tt;
      fair = v.fair;
    },
    omega (arith, flush-load now s.batches s.batch_queue v.sound),
  )

  receive-Keeps :
      (now : ℕ) (s : Batcher) (r : Pop DecodedFrame × Fifo DecodedFrame)
      → IsFair s
      → PopCases s.processed r
      → Keeps s (receive now r s)
  unfolding receive
  receive-Keeps now s r v (inl (e, t, h)) = rw h (v, refl)
  receive-Keeps now s r v (inr (inl (e, t, h))) = rw h (finish-Keeps now s v)
  receive-Keeps now s r v (inr (inr (d, q, e, h))) =
      let f = subst (All Fair) e v.fair in
      rw h (
        record {
          sound = pack-IsSound d now s.batches s.batch_queue v.sound;
          valid = pack-AllValid d now s.batches s.batch_queue f.0 v.sound v.valid;
          fair = f.1;
        },
        omega (
          arith,
          pack-load d now s.batches s.batch_queue f.0 v.sound v.valid,
          ap (total frame) e,
        ),
      )

  pub round-Keeps :
      (stop_requested : Bool) (now : ℕ) (s : Batcher)
      → IsFair s
      → Keeps s (advance (round stop_requested now) s)
  unfolding advance
  round-Keeps stop_requested now s v =
      if_both (Keeps s) s.finished (v, refl)
        (if_both (Keeps s) stop_requested (finish-Keeps now s v)
          (receive-Keeps now s _ v (wait_and_pop_cases s.processed)))
