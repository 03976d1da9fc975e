-- ===== src/Publisher/Rounds.antt =====
-- The bytes of each stream and event, in a round of the loop and in the other events.
use frame_processor.Base.{
  ℕ, ◌≡◌, refl, ap, sym, ◌∙◌, Bool, true, false, List, [], ◌∷◌, ◌++◌, append_assoc, append-nil,
  find, if_both, inl, inr, All, subst,
}
use frame_processor.Types.{DecodedFrame}
use frame_processor.Fifo.{Fifo, Pop, push, stop}
use frame_processor.Fifo.Order.{PopCases, wait_and_pop_cases, queue-push_running}
use frame_processor.Publisher.Layout.{IsPlanar}
use frame_processor.Publisher.Batching.{
  FrameBatch, BatchKey, Batcher, Event, arrives, closes, takes, returns, round, finish, receive,
  taken_batch, advance,
}
use frame_processor.Publisher.Accounts.{
  bytes_for, blob_for, own, held_by, IsSound, bytes_for-append, blob_for-append, pack-IsSound,
  pack-held, flush-bytes, flush-running,
}

-- Everything that a state holds for a key: taken, queued for it, pending, and still to be packed.
unfoldable pub held : BatchKey → Batcher → List ℕ
held k s =
    bytes_for k s.taken ++ (held_by k s.batches s.batch_queue ++ blob_for k s.processed.queue)

-- The frames that the processed queue accepts.
abbrev pub accepted_frames : Bool → List Event → List DecodedFrame
accepted_frames true es = []
accepted_frames false [] = []
accepted_frames false (arrives d now ∷ es) = d ∷ accepted_frames false es
accepted_frames false (closes ∷ es) = []
accepted_frames false (takes ∷ es) = accepted_frames false es
accepted_frames false (returns b now ∷ es) = accepted_frames false es
accepted_frames false (round stop_requested now ∷ es) = accepted_frames false es

-- No batch is put back.
abbrev pub Unreturned : Event → Type 0
Unreturned (arrives d now) = Unit
Unreturned closes = Unit
Unreturned takes = Unit
Unreturned (returns b now) = ⊥
Unreturned (round stop_requested now) = Unit

abbrev pub IsPacked : DecodedFrame → Type 0
IsPacked d = IsPlanar d.frame

-- What holds of the batcher between two events.
pub record IsRunning (s : Batcher) : Type 0 where
  pub sound : IsSound s.batches s.batch_queue
  pub planar : All IsPacked s.processed.queue

finish-held :
    (k : BatchKey) (now : ℕ) (s : Batcher) → IsRunning s → held k (finish now s) ≡ held k s
unfolding held finish find
finish-held k now s v =
    ap (λ xs. bytes_for k s.taken ++ (xs ++ blob_for k s.processed.queue))
      (append-nil _ ∙ flush-bytes k now s.batches s.batch_queue v.sound)

finish-IsRunning : (now : ℕ) (s : Batcher) → IsRunning s → IsRunning (finish now s)
unfolding finish
finish-IsRunning now s v = record {
  sound = record {
    unique = tt;
    keyed = tt;
    running = flush-running now s.batches s.batch_queue ∙ v.sound.running;
  };
  planar = v.planar;
}

received-held :
    (k : BatchKey) (now : ℕ) (s : Batcher) (r : Pop DecodedFrame × Fifo DecodedFrame)
    → IsRunning s
    → PopCases s.processed r
    → held k (receive now r s) ≡ held k s
unfolding receive held blob_for
received-held k now s r v (inl (e, t, h)) = rw h
received-held k now s r v (inr (inl (e, t, h))) = rw h (finish-held k now s v)
received-held k now s r v (inr (inr (d, q, e, h))) =
    rw (h, pack-held k d now s.batches s.batch_queue v.sound (subst (All IsPacked) e v.planar).0)
      (ap (λ xs. bytes_for k s.taken ++ xs)
        (append_assoc (held_by k s.batches s.batch_queue) (own k d) (blob_for k q)
          ∙ ap (λ xs. held_by k s.batches s.batch_queue ++ xs) (sym (ap (blob_for k) e))))

received-IsRunning :
    (now : ℕ) (s : Batcher) (r : Pop DecodedFrame × Fifo DecodedFrame)
    → IsRunning s
    → PopCases s.processed r
    → IsRunning (receive now r s)
unfolding receive
received-IsRunning now s r v (inl (e, t, h)) = rw h v
received-IsRunning now s r v (inr (inl (e, t, h))) = rw h (finish-IsRunning now s v)
received-IsRunning now s r v (inr (inr (d, q, e, h))) = rw h (record {
  sound = pack-IsSound d now s.batches s.batch_queue v.sound;
  planar = (subst (All IsPacked) e v.planar).1;
})

pub taken-held :
    (k : BatchKey) (s : Batcher) (r : Pop FrameBatch × Fifo FrameBatch)
    → PopCases s.batch_queue r
    → held k (record s { batch_queue = r.1; taken = s.taken ++ taken_batch r.0 }) ≡ held k s
unfolding held
taken-held k s r (inl (e, t, h)) = rw (h, append-nil)
taken-held k s r (inr (inl (e, t, h))) = rw (h, append-nil)
taken-held k s r (inr (inr (b, q, e, h))) =
    let front : bytes_for k s.batch_queue.queue ≡ bytes_for k (b ∷ []) ++ bytes_for k q =
      ap (bytes_for k) e ∙ bytes_for-append k (b ∷ []) q in
    rw (h, bytes_for-append k s.taken (b ∷ []), front) (simp append_assoc)

pub arrived-held :
    (k : BatchKey) (d : DecodedFrame) (now : ℕ) (s : Batcher)
    → s.processed.stopped ≡ false
    → held k (record s { processed = push d now s.processed }) ≡ held k s ++ own k d
unfolding held blob_for
arrived-held k d now s e =
    rw (queue-push_running d now s.processed e, blob_for-append k s.processed.queue (d ∷ []))
      (simp (blob_for, append_assoc, append-nil))

-- A round of the loop moves bytes and makes none.
pub round-held :
    (k : BatchKey) (stop_requested : Bool) (now : ℕ) (s : Batcher)
    → IsRunning s
    → held k (advance (round stop_requested now) s) ≡ held k s
unfolding advance
round-held k stop_requested now s v =
    if_both (λ t. held k t ≡ held k s) s.finished refl
      (if_both (λ t. held k t ≡ held k s) stop_requested (finish-held k now s v)
        (received-held k now s _ v (wait_and_pop_cases s.processed)))

pub round-IsRunning :
    (stop_requested : Bool) (now : ℕ) (s : Batcher)
    → IsRunning s
    → IsRunning (advance (round stop_requested now) s)
unfolding advance
round-IsRunning stop_requested now s v = if_both IsRunning s.finished v (
    if_both IsRunning stop_requested (finish-IsRunning now s v)
      (received-IsRunning now s _ v (wait_and_pop_cases s.processed)))

received-stopped :
    (now : ℕ) (s : Batcher) (r : Pop DecodedFrame × Fifo DecodedFrame)
    → PopCases s.processed r
    → (receive now r s).processed.stopped ≡ s.processed.stopped
unfolding receive finish
received-stopped now s r (inl (e, t, h)) = rw h
received-stopped now s r (inr (inl (e, t, h))) = rw h
received-stopped now s r (inr (inr (d, q, e, h))) = rw h

pub round-stopped :
    (stop_requested : Bool) (now : ℕ) (s : Batcher)
    → (advance (round stop_requested now) s).processed.stopped ≡ s.processed.stopped
unfolding advance finish
round-stopped stop_requested now s =
    if_both (λ (t : Batcher). t.processed.stopped ≡ s.processed.stopped) s.finished refl
      (if_both (λ (t : Batcher). t.processed.stopped ≡ s.processed.stopped) stop_requested refl
        (received-stopped now s _ (wait_and_pop_cases s.processed)))

received-taken :
    (now : ℕ) (s : Batcher) (r : Pop DecodedFrame × Fifo DecodedFrame)
    → PopCases s.processed r
    → (receive now r s).taken ≡ s.taken
unfolding receive finish
received-taken now s r (inl (e, t, h)) = rw h refl
received-taken now s r (inr (inl (e, t, h))) = rw h refl
received-taken now s r (inr (inr (d, q, e, h))) = rw h refl

pub round-taken :
    (stop_requested : Bool) (now : ℕ) (s : Batcher)
    → (advance (round stop_requested now) s).taken ≡ s.taken
unfolding advance finish
round-taken stop_requested now s =
    if_both (λ (t : Batcher). t.taken ≡ s.taken) s.finished refl
      (if_both (λ (t : Batcher). t.taken ≡ s.taken) stop_requested refl
        (received-taken now s _ (wait_and_pop_cases s.processed)))

pub taken-IsRunning :
    (s : Batcher) (r : Pop FrameBatch × Fifo FrameBatch)
    → IsRunning s
    → PopCases s.batch_queue r
    → IsRunning (record s { batch_queue = r.1; taken = s.taken ++ taken_batch r.0 })
taken-IsRunning s r v (inl (e, t, h)) = rw h (record { sound = v.sound; planar = v.planar })
taken-IsRunning s r v (inr (inl (e, t, h))) = rw h (record { sound = v.sound; planar = v.planar })
taken-IsRunning s r v (inr (inr (b, q, e, h))) = rw h (record {
  sound = record { unique = v.sound.unique; keyed = v.sound.keyed; running = v.sound.running };
  planar = v.planar;
})

-- The frames accepted from a state on.
abbrev pub arrivals : Batcher → List Event → List DecodedFrame
arrivals s = accepted_frames s.processed.stopped

pub closed-IsRunning :
    (s : Batcher) → IsRunning s → IsRunning (record s { processed = stop s.processed })
unfolding stop
closed-IsRunning s v = record {
  sound = record { unique = v.sound.unique; keyed = v.sound.keyed; running = v.sound.running };
  planar = v.planar;
}
