-- ===== src/Publisher/Conservation.antt =====
-- The bytes of each stream and event over any history of events.
use frame_processor.Base.{
  ℕ, ◌≡◌, refl, ap, ap₂, sym, ◌∙◌, Bool, true, false, List, [], ◌∷◌, ◌++◌, append_assoc, append-nil,
  All, All-append, subst,
}
use frame_processor.Types.{DecodedFrame}
use frame_processor.Fifo.{push, stop}
use frame_processor.Fifo.Order.{
  wait_and_pop_cases, queue-push_running, queue-push_stopped, stopped-push,
}
use frame_processor.Publisher.Batching.{
  BatchKey, Batcher, Event, arrives, closes, takes, returns, round, advance, batching,
}
use frame_processor.Publisher.Accounts.{blob_for, own}
use frame_processor.Publisher.Rounds.{
  Unreturned, held, accepted_frames, IsPacked, IsRunning, taken-held, arrived-held, round-held,
  round-IsRunning, round-stopped, taken-IsRunning, arrivals, closed-IsRunning,
}

-- One event: what it adds for a key is the frame that the processed queue accepts.
abbrev Advances : BatchKey → List Event → Batcher → Batcher → List DecodedFrame → Type 0
Advances k es s s' ds =
    (held k s' ++ blob_for k (arrivals s' es) ≡ held k s ++ blob_for k ds)
    × IsRunning s'
    × All IsPacked (arrivals s' es)

quiet :
    (k : BatchKey) (es : List Event) (s s' : Batcher) (b : Bool)
    → held k s' ≡ held k s
    → IsRunning s'
    → s'.processed.stopped ≡ b
    → All IsPacked (accepted_frames b es)
    → Advances k es s s' (accepted_frames b es)
quiet k es s s' b same v t h = (
  ap₂ (λ xs c. xs ++ blob_for k (accepted_frames c es)) same t,
  v,
  subst (λ c. All IsPacked (accepted_frames c es)) (sym t) h,
)

arrived-Advances :
    (k : BatchKey) (d : DecodedFrame) (now : ℕ) (es : List Event) (s : Batcher)
    → s.processed.stopped ≡ false
    → IsRunning s
    → IsPacked d
    → All IsPacked (accepted_frames false es)
    → Advances k es s
        (record s { processed = push d now s.processed })
        (d ∷ accepted_frames false es)
unfolding blob_for
arrived-Advances k d now es s t v hd h = (
  ap₂ (λ xs c. xs ++ blob_for k (accepted_frames c es)) (arrived-held k d now s t) still
      ∙ append_assoc (held k s) (own k d) _,
  record {
    sound = record { unique = v.sound.unique; keyed = v.sound.keyed; running = v.sound.running };
    planar =
        rw (queue-push_running d now s.processed t)
          (All-append IsPacked s.processed.queue (d ∷ []) v.planar (hd, tt));
  },
  subst (λ c. All IsPacked (accepted_frames c es)) (sym still) h,
)
  where
    still : (push d now s.processed).stopped ≡ false
    still = stopped-push d now s.processed ∙ t

step-Advances :
    (k : BatchKey) (e : Event) (es : List Event) (s : Batcher) (b : Bool)
    → Unreturned e
    → s.processed.stopped ≡ b
    → IsRunning s
    → All IsPacked (accepted_frames b (e ∷ es))
    → Advances k es s (advance e s) (accepted_frames b (e ∷ es))
unfolding advance stop held
step-Advances k (arrives d now) es s true u t v h =
    let same = queue-push_stopped d now s.processed t in
    quiet k es s _ true (ap (λ q. held k (record s { processed = q })) same)
      (subst (λ q. IsRunning (record s { processed = q })) (sym same) v)
      (stopped-push d now s.processed ∙ t) tt
step-Advances k (arrives d now) es s false u t v h = arrived-Advances k d now es s t v h.0 h.1
step-Advances k closes es s true u t v h = quiet k es s _ true refl (closed-IsRunning s v) refl tt
step-Advances k closes es s false u t v h = quiet k es s _ true refl (closed-IsRunning s v) refl tt
step-Advances k takes es s true u t v h =
    quiet k es s _ true (taken-held k s _ (wait_and_pop_cases s.batch_queue))
      (taken-IsRunning s _ v (wait_and_pop_cases s.batch_queue)) t h
step-Advances k takes es s false u t v h =
    quiet k es s _ false (taken-held k s _ (wait_and_pop_cases s.batch_queue))
      (taken-IsRunning s _ v (wait_and_pop_cases s.batch_queue)) t h
step-Advances k (returns b now) es s z u t v h = absurd u
step-Advances k (round r now) es s true u t v h =
    quiet k es s _ true (round-held k r now s v) (round-IsRunning r now s v)
      (round-stopped r now s ∙ t) h
step-Advances k (round r now) es s false u t v h =
    quiet k es s _ false (round-held k r now s v) (round-IsRunning r now s v)
      (round-stopped r now s ∙ t) h

pub accepted_frames_nil : (b : Bool) → accepted_frames b [] ≡ []
accepted_frames_nil true = refl
accepted_frames_nil false = refl

-- From a state whose queue of batches runs and is in order, in any order of the events of workers,
-- publisher threads and the batcher, provided that no batch is put back and the frames that the
-- processed queue accepts are planar: for each stream and event, the bytes of the batches that
-- publisher threads have taken, of those queued and pending, and of the frames still to be packed, are
-- those from before followed by those that the accepted frames pack to, in the order of their arrival.
pub batching-held :
    (k : BatchKey) (es : List Event) (s : Batcher)
    → All Unreturned es
    → IsRunning s
    → All IsPacked (arrivals s es)
    → (held k (batching es s) ≡ held k s ++ blob_for k (arrivals s es)) × IsRunning (batching es s)
unfolding batching blob_for
batching-held k [] s u v h =
    (sym (ap (λ ds. held k s ++ blob_for k ds) (accepted_frames_nil _) ∙ append-nil (held k s)), v)
batching-held k (e ∷ es) s u v h =
    let (same, v', h') = step-Advances k e es s s.processed.stopped u.0 refl v h in
    let (rest, w) = batching-held k es (advance e s) u.1 v' h' in (rest ∙ same, w)
