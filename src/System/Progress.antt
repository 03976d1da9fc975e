-- ===== src/System/Progress.antt =====
-- Nothing that the workers have produced is stuck while the batcher and a publisher thread are in their
-- loops.
use frame_processor.Base.{
  ℕ, ◌+◌, ◌≡◌, ap, sym, subst, Bool, false, List, ◌++◌, Option, Text, arith, All,
}
use frame_processor.Base.Totals.{total}
use frame_processor.Worker.Filter.{Avfilter}
use frame_processor.Worker.Loop.{WorkerThread}
use frame_processor.Publisher.Decode.{Picture, IsReadable}
use frame_processor.Publisher.Connection.{RedisConnection, Ledger}
use frame_processor.Publisher.Sending.{in_batch}
use frame_processor.System.Threads.{System, start, Event, run}
use frame_processor.System.Invariant.{in_flight}
use frame_processor.System.Pictures.{pictures_in, picture_of, run-IsSound, run-pictures}
use frame_processor.System.Reaching.{run-append}
use frame_processor.System.Emptying.{Serves, record_of}
use frame_processor.System.Draining.{IsDrained, open-Drains, in_flight-drained}

-- Of the pictures that pass a test, the stream holds those that a state's workers have produced and
-- its repeated batches have twice, less those that were rejected or dropped.
abbrev pub Holds : {Graph : Type 0} → Text → System Graph → System Graph → Type 0
Holds base s s' =
    (p : Text → Text → Picture → Bool)
    → (let batch = in_batch base (pictures_in base p) in
        let frame = picture_of base p in
        total (pictures_in base p) s'.stream + total frame s.rejected + total batch s.lost
        ≡ total frame s.produced + total batch s.repeated)

module _ (av : Avfilter) (base : Text) (m n : ℕ) (threads : List (WorkerThread av.Graph))
    (connections : List (Option RedisConnection)) (l : Ledger) where
  abbrev pub after : List Event → System av.Graph
  after es = run av base es (start m n threads connections l)

  -- For any number of workers and publisher threads that start on new queues, and after any events: if
  -- the batcher and the first publisher thread are in their loops, the queue of processed frames runs,
  -- and the frames that the workers have produced are planar with 64-bit times, then further events
  -- exist, in which nothing is taken, produced, rejected, dropped or repeated, after which nothing is
  -- in flight; of any test on a picture, its stream's key and its event, a consumer then reads from the
  -- entries of the stream of Redis as many pictures as have been produced and are in repeated batches,
  -- less those that had been rejected or were in dropped batches.
  pub run-drains :
      (es : List Event)
      → (after es).batcher.finished ≡ false
      → (after es).batcher.processed.stopped ≡ false
      → Serves (after es).posts
      → All (λ d. IsReadable d.frame) (after es).produced
      → (more : List Event) × IsDrained (run av base more (after es))
        × (record_of (run av base more (after es)) ≡ record_of (after es))
        × Holds base (after es) (run av base more (after es))
  run-drains es on runs serves f =
      let s = after es in
      let (more, (drained, same)) = open-Drains av base s (record {
        batching = on;
        queuing = runs;
        sound = run-IsSound av base m n threads connections l es on f;
        serving = serves;
      }) in
      let s' = run av base more s in
      let joined = run-append av base es more (start m n threads connections l) in
      (
        more,
        drained,
        same,
        λ p.
            let batch = in_batch base (pictures_in base p) in
            let frame = picture_of base p in
            let f' : All (λ d. IsReadable d.frame) (after (es ++ more)).produced =
              subst (λ (z : System av.Graph). All (λ d. IsReadable d.frame) z.produced) (sym joined)
                (subst (All (λ d. IsReadable d.frame)) (sym (ap (λ r. r.1.0) same)) f) in
            omega (
              arith,
              run-pictures av base m n threads connections l p (es ++ more) f',
              ap (in_flight batch frame) joined,
              in_flight-drained av batch frame s' drained,
              ap (λ (z : System av.Graph). total (pictures_in base p) z.stream) joined,
              ap (λ (z : System av.Graph). total frame z.rejected) joined,
              ap (λ (z : System av.Graph). total frame z.produced) joined,
              ap (λ (z : System av.Graph). total batch z.lost) joined,
              ap (λ (z : System av.Graph). total batch z.repeated) joined,
              ap (λ r. total frame r.1.0) same,
              ap (λ r. total frame r.1.1.0) same,
              ap (λ r. total batch r.1.1.1.0) same,
              ap (λ r. total batch r.1.1.1.1) same,
            ),
      )
