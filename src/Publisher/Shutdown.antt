-- ===== src/Publisher/Shutdown.antt =====
-- How the batcher ends: on an empty stopped queue, or on a stop request.
use frame_processor.Base.{
  ℕ, ◌≡◌, refl, ap, ap₂, sym, ◌∙◌, Bool, true, false, List, [], ◌∷◌, ◌++◌, append-nil, append_assoc,
  All, inl, inr, subst, Text, find, Bool-cases, if◌then◌else◌,
}
use frame_processor.Types.{DecodedFrame}
use frame_processor.Fifo.{Fifo, Pop, push, stop, new, wait_and_pop}
use frame_processor.Fifo.Order.{
  PopCases, wait_and_pop_cases, queue-push_running, queue-push_stopped, stopped-push,
}
use frame_processor.Publisher.Batching.{
  BatchKey, Batcher, Event, arrives, closes, takes, returns, round, finish, receive, advance,
  batching, fresh,
}
use frame_processor.Publisher.Accounts.{bytes_for, blob_for}
use frame_processor.Publisher.Rounds.{
  Unreturned, held, arrivals, accepted_frames, IsPacked, IsRunning,
}
use frame_processor.Publisher.Conservation.{accepted_frames_nil, batching-held}

-- No round of the history sees a stop request.
abbrev pub Unrequested : Event → Type 0
Unrequested (arrives d now) = Unit
Unrequested closes = Unit
Unrequested takes = Unit
Unrequested (returns b now) = Unit
Unrequested (round true now) = ⊥
Unrequested (round false now) = Unit

-- A loop that has ended left nothing behind.
pub record IsDrained (s : Batcher) : Type 0 where
  pub emptied : s.finished ≡ true → s.processed.queue ≡ []
  pub shut : s.finished ≡ true → s.processed.stopped ≡ true
  pub flushed : s.finished ≡ true → s.batches ≡ []

received-IsDrained :
    (now : ℕ) (s : Batcher) (r : Pop DecodedFrame × Fifo DecodedFrame)
    → IsDrained s
    → PopCases s.processed r
    → s.finished ≡ false
    → IsDrained (receive now r s)
unfolding receive finish
received-IsDrained now s r v (inl (e, t, h)) f = rw h v
received-IsDrained now s r v (inr (inl (e, t, h))) f =
    rw h (record { emptied = λ _. e; shut = λ _. t; flushed = λ _. refl })
received-IsDrained now s r v (inr (inr (d, q, e, h))) f =
    rw h (record { emptied = λ g. cc; shut = λ g. cc; flushed = λ g. cc })

advance-IsDrained :
    (e : Event) (s : Batcher) → Unrequested e → IsDrained s → IsDrained (advance e s)
unfolding advance stop
advance-IsDrained (arrives d now) s u v = record {
  emptied = λ f. ap (λ q. q.queue) (queue-push_stopped d now s.processed (v.shut f)) ∙ v.emptied f;
  shut = λ f. stopped-push d now s.processed ∙ v.shut f;
  flushed = v.flushed;
}
advance-IsDrained closes s u v = record {
  emptied = v.emptied;
  shut = λ f. refl;
  flushed = v.flushed;
}
advance-IsDrained takes s u v = record { emptied = v.emptied; shut = v.shut; flushed = v.flushed }
advance-IsDrained (returns b now) s u v = record {
  emptied = v.emptied;
  shut = v.shut;
  flushed = v.flushed;
}
advance-IsDrained (round true now) s u v = absurd u
advance-IsDrained (round false now) s u v = elim (Bool-cases s.finished) [
  | inl f ↦
      subst (λ b. IsDrained (if b then s else receive now (wait_and_pop s.processed) s)) (sym f) v
  | inr f ↦
      subst (λ b. IsDrained (if b then s else receive now (wait_and_pop s.processed) s)) (sym f)
        (received-IsDrained now s _ v (wait_and_pop_cases s.processed) f)
]

batching-IsDrained :
    (es : List Event) (s : Batcher) → All Unrequested es → IsDrained s → IsDrained (batching es s)
unfolding batching
batching-IsDrained [] s u v = v
batching-IsDrained (e ∷ es) s u v =
    batching-IsDrained es (advance e s) u.1 (advance-IsDrained e s u.0 v)

-- The two queues as the program makes them.
abbrev pub start : ℕ → Text → Batcher
start threshold name = fresh (new threshold name) (new threshold name)

pub start-IsRunning : (threshold : ℕ) (name : Text) → IsRunning (start threshold name)
unfolding fresh new
start-IsRunning threshold name = record {
  sound = record { unique = tt; keyed = tt; running = refl };
  planar = tt;
}

start-IsDrained : (threshold : ℕ) (name : Text) → IsDrained (start threshold name)
unfolding fresh
start-IsDrained threshold name = record { emptied = λ f. cc; shut = λ f. cc; flushed = λ f. refl }

-- If the batcher ends without having seen a stop request, no batch is put back, and the accepted
-- frames are planar, every frame that the processed queue has accepted is in a batch: for each stream and event, the batches taken by publisher threads and those
-- on the queue hold the packed bytes of its frames, in the order of their arrival and nothing else.
pub batching_complete :
    (k : BatchKey) (es : List Event) (threshold : ℕ) (name : Text)
    → All Unrequested es
    → All Unreturned es
    → All IsPacked (accepted_frames false es)
    → (batching es (start threshold name)).finished ≡ true
    → let s = batching es (start threshold name) in
      bytes_for k s.taken ++ bytes_for k s.batch_queue.queue ≡ blob_for k (accepted_frames false es)
unfolding fresh new held bytes_for blob_for find
batching_complete k es threshold name u r h f =
    sym left ∙ (batching-held k es s0 r (start-IsRunning threshold name) h).0
  where
    s0 : Batcher
    s0 = start threshold name

    s : Batcher
    s = batching es s0

    v : IsDrained s
    v = batching-IsDrained es s0 u (start-IsDrained threshold name)

    left : held k s ≡ bytes_for k s.taken ++ bytes_for k s.batch_queue.queue
    left = rw (v.emptied f, v.flushed f) (simp append-nil)

arrive-stranded :
    (d : DecodedFrame) (now : ℕ) (q : Fifo DecodedFrame) (b : Bool) (es : List Event)
    → q.stopped ≡ b
    → (push d now q).queue ++ accepted_frames (push d now q).stopped es
      ≡ q.queue ++ accepted_frames b (arrives d now ∷ es)
arrive-stranded d now q true es t =
    ap (λ p. p.queue ++ accepted_frames p.stopped es) (queue-push_stopped d now q t)
    ∙ ap (λ b. q.queue ++ accepted_frames b es) t
arrive-stranded d now q false es t =
    ap₂ (λ xs b. xs ++ accepted_frames b es) (queue-push_running d now q t)
      (stopped-push d now q ∙ t)
    ∙ append_assoc q.queue (d ∷ []) (accepted_frames false es)

-- The queue of processed frames, with the frames that it accepts later.
abbrev queued : Batcher → List Event → List DecodedFrame
queued s es = s.processed.queue ++ arrivals s es

over_step :
    (r : Bool) (now : ℕ) (es : List Event) (s : Batcher) (ds : List DecodedFrame)
    → s.finished ≡ true
    → queued s es ≡ ds
    → (queued (advance (round r now) s) es ≡ ds) × ((advance (round r now) s).finished ≡ true)
unfolding advance
over_step r now es s ds f h =
    subst
      (λ b.
        let s' =
          if b then s else if r then finish now s else receive now (wait_and_pop s.processed) s in
        (queued s' es ≡ ds) × (s'.finished ≡ true))
      (sym f) (h, f)

step-queued :
    (e : Event) (es : List Event) (s : Batcher) (b : Bool)
    → s.processed.stopped ≡ b
    → s.finished ≡ true
    → (queued (advance e s) es ≡ s.processed.queue ++ accepted_frames b (e ∷ es))
      × ((advance e s).finished ≡ true)
unfolding advance stop
step-queued (arrives d now) es s b t f = (arrive-stranded d now s.processed b es t, f)
step-queued closes es s true t f = (refl, f)
step-queued closes es s false t f = (refl, f)
step-queued takes es s true t f = (ap (λ b. s.processed.queue ++ accepted_frames b es) t, f)
step-queued takes es s false t f = (ap (λ b. s.processed.queue ++ accepted_frames b es) t, f)
step-queued (returns x now) es s true t f =
    (ap (λ b. s.processed.queue ++ accepted_frames b es) t, f)
step-queued (returns x now) es s false t f =
    (ap (λ b. s.processed.queue ++ accepted_frames b es) t, f)
step-queued (round r now) es s true t f =
    over_step r now es s _ f (ap (λ b. s.processed.queue ++ accepted_frames b es) t)
step-queued (round r now) es s false t f =
    over_step r now es s _ f (ap (λ b. s.processed.queue ++ accepted_frames b es) t)

-- A loop that has ended takes nothing more off the processed queue.
batching-finished :
    (es : List Event) (s : Batcher)
    → s.finished ≡ true
    → (batching es s).processed.queue ≡ queued s es
unfolding batching
batching-finished [] s f =
    sym (ap (λ ds. s.processed.queue ++ ds) (accepted_frames_nil _) ∙ append-nil _)
batching-finished (e ∷ es) s f =
    let (same, f') = step-queued e es s s.processed.stopped refl f in
    batching-finished es (advance e s) f' ∙ same

requested_round :
    (now : ℕ) (s : Batcher) → s.finished ≡ false → advance (round true now) s ≡ finish now s
unfolding advance
requested_round now s f = subst (λ b. (if b then s else finish now s) ≡ finish now s) (sym f) refl

-- A stop request that the loop sees before the queue is drained strands the rest: whatever happens
-- afterwards, the frames that were queued stay on the queue, and those accepted later join them.
pub stop_request-strands :
    (es : List Event) (now : ℕ) (s : Batcher)
    → s.finished ≡ false
    → (batching es (advance (round true now) s)).processed.queue
      ≡ s.processed.queue ++ arrivals s es
unfolding finish
stop_request-strands es now s f =
    ap (λ t. (batching es t).processed.queue) (requested_round now s f)
    ∙ batching-finished es (finish now s) refl
