-- ===== src/System/Flushing.antt =====
-- The batcher can pack all frames that are processed, and leave its loop.
use frame_processor.Base.{◌≡◌, refl, sym, ◌∙◌, subst, Bool, true, false, List, [], ◌∷◌, Text, All}
use frame_processor.Fifo.{wait_and_pop}
use frame_processor.Types.{DecodedFrame}
use frame_processor.Worker.Filter.{Avfilter}
use frame_processor.Publisher.Batching.{Batcher, finish, receive, round, advance}
use frame_processor.Publisher.Accounts.{IsSound, pack-IsSound, flush-running}
use frame_processor.System.Threads.{System, packs, step}
use frame_processor.System.Reaching.{Reaches, reached_here, reached_by}
use frame_processor.System.Emptying.{Serves, IsOpen, record_of, IsRested}

-- The batcher with a frame of its queue packed.
abbrev Packs : List DecodedFrame → Batcher → Batcher → Type 0
Packs q b b' =
    (b'.processed.queue ≡ q)
    × (b'.processed.stopped ≡ b.processed.stopped)
    × (b'.finished ≡ false)
    × IsSound b'.batches b'.batch_queue

round-Packs :
    (d : DecodedFrame) (q : List DecodedFrame) (b : Batcher)
    → b.processed.queue ≡ d ∷ q
    → b.finished ≡ false
    → IsSound b.batches b.batch_queue
    → Packs q b (advance (round false 0) b)
unfolding advance receive wait_and_pop
round-Packs d q b e f v =
    subst (λ l. Packs q b (advance (round false 0) (at_queue l b.finished))) (sym e)
      (subst (λ c. Packs q b (advance (round false 0) (at_queue (d ∷ q) c))) (sym f)
        (refl, refl, refl, pack-IsSound d 0 b.batches b.batch_queue v))
  where
    at_queue : List DecodedFrame → Bool → Batcher
    at_queue l c = record b { processed = record b.processed { queue = l }; finished = c }

-- The batcher that leaves its loop.
round-finish : (b : Batcher) → b.finished ≡ false → advance (round true 0) b ≡ finish 0 b
unfolding advance finish
round-finish b f =
    subst
      (λ c.
        advance (round true 0) (record b { finished = c }) ≡ finish 0 (record b { finished = c }))
      (sym f) refl

module _ (av : Avfilter) (base : Text) where
  open av use {Graph}

  -- All frames are on the queue of batches, or sent.
  pub record IsFlushed (s s' : System Graph) : Type 0 where
    pub rested : All IsRested s'.workers
    pub no_frames : s'.batcher.processed.queue ≡ []
    pub no_batches : s'.batcher.batches ≡ []
    pub running : s'.batcher.batch_queue.stopped ≡ false
    pub serving : Serves s'.posts
    pub same : record_of s' ≡ record_of s

  finish-IsFlushed :
      (s : System Graph)
      → IsOpen s
      → All IsRested s.workers
      → s.batcher.processed.queue ≡ []
      → IsFlushed s (step av base (packs true 0) s)
  unfolding step finish
  finish-IsFlushed s v r e =
      subst (λ b. IsFlushed s (record s { batcher = b })) (sym (round-finish s.batcher v.batching))
        left
    where
      left : IsFlushed s (record s { batcher = finish 0 s.batcher })
      left = record {
        rested = r;
        no_frames = e;
        no_batches = refl;
        running = flush-running 0 s.batcher.batches s.batcher.batch_queue ∙ v.sound.running;
        serving = v.serving;
        same = refl;
      }

  pub pack_everything :
      (q : List DecodedFrame) (s : System Graph)
      → s.batcher.processed.queue ≡ q
      → IsOpen s
      → All IsRested s.workers
      → Reaches av base s (IsFlushed s)
  unfolding step
  pack_everything [] s e v r = reached_by av base (IsFlushed s) (packs true 0) s (
      reached_here av base (IsFlushed s) (step av base (packs true 0) s) (finish-IsFlushed s v r e))
  pack_everything (d ∷ q) s e v r =
      let b = advance (round false 0) s.batcher in
      let (left, still, on, sound) = round-Packs d q s.batcher e v.batching v.sound in
      let s1 = record s { batcher = b } in
      let v1 : IsOpen s1 = record {
        batching = on;
        queuing = still ∙ v.queuing;
        sound = sound;
        serving = v.serving;
      } in
      let (es, f) = pack_everything q s1 left v1 r in
      reached_by av base (IsFlushed s) (packs false 0) s (
        es,
        record {
          rested = f.rested;
          no_frames = f.no_frames;
          no_batches = f.no_batches;
          running = f.running;
          serving = f.serving;
          same = f.same;
        },
      )
