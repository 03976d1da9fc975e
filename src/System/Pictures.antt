-- ===== src/System/Pictures.antt =====
-- The pictures of a stream and event that a consumer decodes from the batches, as README.md describes
-- the blob, over any interleaving of the threads.
use frame_processor.Base.{
  ℕ, ◌+◌, ◌≡◌, refl, ap, sym, ◌∙◌, Bool, true, false, List, [], ◌∷◌, ◌++◌, map, map-append, Option,
  Text, codes, decimal, arith, if◌then◌else◌, All, All-append, length,
}
use frame_processor.Base.Totals.{total, total-append, optional}
use frame_processor.Fifo.{new}
use frame_processor.Types.{Frame, DecodedFrame}
use frame_processor.Worker.Filter.{Avfilter}
use frame_processor.Worker.Loop.{WorkerThread}
use frame_processor.Publisher.Serialize.{append_frame}
use frame_processor.Publisher.Decode.{
  Picture, picture, append_frames, IsReadable, blob, append_frames-append, append_frames-blob,
}
use frame_processor.Publisher.Blob.{read_all, read_all-blob, length-blob, read_back}
use frame_processor.Publisher.Batching.{FrameBatch, BatchKey, key_of, frame_key, new_batch, fresh}
use frame_processor.Publisher.Accounts.{IsSound}
use frame_processor.Publisher.Connection.{RedisConnection, Ledger}
use frame_processor.Publisher.Sender.{Entry, entry}
use frame_processor.Publisher.Sending.{in_batch}
use frame_processor.System.Weight.{Weight, with_frame}
use frame_processor.System.Worker.{Busy}
use frame_processor.System.Threads.{Post, new_post, start, Event, run}
use frame_processor.System.Working.{carried, CarriesFair}
use frame_processor.System.Invariant.{in_flight, IsBalanced}
use frame_processor.System.Balance.{run-IsBalanced}

-- A batch that frames were packed into, one after the other.
abbrev IsPackedOf : List Frame → FrameBatch → Type 0
IsPackedOf fs b = All IsReadable fs × (b.data_buffer ≡ append_frames fs [])

read_back-packed :
    (fs : List Frame) (b : FrameBatch) → IsPackedOf fs b → read_back b.data_buffer ≡ map picture fs
read_back-packed fs b (ok, e) =
    ap read_back (e ∙ append_frames-blob fs [] ok)
    ∙ read_all-blob (length (blob fs)) fs (length-blob fs) ok

with_frame-IsPackedOf :
    (fs : List Frame) (d : DecodedFrame) (b : FrameBatch)
    → IsReadable d.frame
    → IsPackedOf fs b
    → IsPackedOf (fs ++ d.frame ∷ []) (with_frame d b)
with_frame-IsPackedOf fs d b ok (all, e) = (
  All-append IsReadable fs (d.frame ∷ []) all (ok, tt),
  ap (append_frame d.frame) e ∙ sym (append_frames-append fs d.frame []),
)

module _ (base : Text) (p : Text → Text → Picture → Bool) where
  abbrev pub one : Text → Text → Picture → ℕ
  one key event x = if p key event x then 1 else 0

  -- The pictures of an entry that pass the test, with its stream's key and its event.
  abbrev pub pictures_in : Entry → ℕ
  pictures_in e = total (one e.redis_key e.event) (read_back e.data_buffer)

  -- The picture of a frame, for the key and the event that it belongs to.
  abbrev pub picture_of : DecodedFrame → ℕ
  picture_of d =
      one (base ++ (codes ":" ++ decimal d.source_config.id)) d.event_config.name (picture d.frame)

  with_frame-pictures :
      (fs : List Frame) (d : DecodedFrame) (b : FrameBatch)
      → IsReadable d.frame
      → IsPackedOf fs b
      → key_of b ≡ frame_key d
      → in_batch base pictures_in (with_frame d b) ≡ in_batch base pictures_in b + picture_of d
  unfolding entry
  with_frame-pictures fs d b ok v e =
      let test : Picture → ℕ = one (base ++ (codes ":" ++ decimal b.stream_id)) b.event_name in
      let same : test (picture d.frame) ≡ picture_of d =
        ap (λ (k : BatchKey). one (base ++ (codes ":" ++ decimal k.0)) k.1 (picture d.frame)) e in
      let before : in_batch base pictures_in b ≡ total test (map picture fs) =
        ap (total test) (read_back-packed fs b v) in
      let after : in_batch base pictures_in (with_frame d b)
          ≡ total test (map picture fs ++ picture d.frame ∷ []) =
        ap (total test) (
          read_back-packed (fs ++ d.frame ∷ []) (with_frame d b) (with_frame-IsPackedOf fs d b ok v)
          ∙ map-append picture fs (d.frame ∷ [])) in
      omega (arith, before, after, same, total-append test (map picture fs) (picture d.frame ∷ []))

  unfoldable picture_weight : Weight
  unfolding append_frames entry read_all
  picture_weight = record {
    Valid = λ b. (fs : List Frame) × IsPackedOf fs b;
    Fair = λ d. IsReadable d.frame;
    batch = in_batch base pictures_in;
    frame = picture_of;
    opens = λ d f.
        let packs : IsPackedOf [] (new_batch d) = (tt, refl) in
        (
          (d.frame ∷ [], with_frame-IsPackedOf [] d (new_batch d) f packs),
          omega (arith, with_frame-pictures [] d (new_batch d) f packs refl),
        );
    joins = λ d b f (fs, v) e.
        ((fs ++ d.frame ∷ [], with_frame-IsPackedOf fs d b f v), with_frame-pictures fs d b f v e);
  }

total-new_post :
    (batch : FrameBatch → ℕ) (connections : List (Option RedisConnection))
    → total (λ (t : Post). optional batch t.batch) (map new_post connections) ≡ 0
unfolding new_post
total-new_post batch [] = refl
total-new_post batch (c ∷ cs) = omega (arith, total-new_post batch cs)

module _ {Graph : Type 0} where
  abbrev idle : WorkerThread Graph → Busy Graph
  idle t = record { thread = t; todo = [] }

  total-idle :
      (frame : DecodedFrame → ℕ) (Fair : DecodedFrame → Type 0)
      (threads : List (WorkerThread Graph))
      → (total (carried frame) (map idle threads) ≡ 0) × All (CarriesFair Fair) (map idle threads)
  total-idle frame Fair [] = (refl, tt)
  total-idle frame Fair (t ∷ ts) =
      let (n, f) = total-idle frame Fair ts in (omega (arith, n), (tt, f))

module _ (av : Avfilter) (base : Text) (m n : ℕ) (threads : List (WorkerThread av.Graph))
    (connections : List (Option RedisConnection)) (l : Ledger) where
  start-IsBalanced :
      (measure : Entry → ℕ) (w : Weight) → IsBalanced av measure w (start m n threads connections l)
  unfolding start new fresh
  start-IsBalanced measure w =
      let (none_carried, all_fair) = total-idle w.frame w.Fair threads in
      record {
        conserved = omega (arith, none_carried, total-new_post w.batch connections);
        batcher = λ on. record {
          sound = record { unique = tt; keyed = tt; running = refl };
          valid = tt;
          fair = tt;
        };
        fed = tt;
        fair = all_fair;
      }

  run-weighed :
      (p : Text → Text → Picture → Bool) (es : List Event)
      → (let s = run av base es (start m n threads connections l) in
          All (λ d. IsReadable d.frame) s.produced
          → IsBalanced av (pictures_in base p) (picture_weight base p) s)
  unfolding picture_weight
  run-weighed p es f =
      let w = picture_weight base p in
      let measure = pictures_in base p in
      run-IsBalanced av base measure w refl es _ (start-IsBalanced measure w) f

  pub run-IsSound :
      (es : List Event)
      → (let s = run av base es (start m n threads connections l) in
          s.batcher.finished ≡ false
          → All (λ d. IsReadable d.frame) s.produced
          → IsSound s.batcher.batches s.batcher.batch_queue)
  run-IsSound es on f = ((run-weighed (λ key event x. true) es f).batcher on).sound

  -- For any number of workers and publisher threads that start on new queues, in any order of their
  -- steps, of the stops of the queues and of what Redis does with the commands, and provided that the
  -- frames that the workers produce are planar with 64-bit times: of the pictures that pass any test
  -- on them, their stream's key and their event, those that a consumer reads from the entries of the
  -- stream of Redis, those in flight (to be emitted, processed, pending, batched or taken by a
  -- publisher thread), those that a stopped queue has rejected and those of dropped batches are
  -- together as many as the workers have produced and those of batches that were put back although
  -- Redis had stored them.
  pub run-pictures :
      (p : Text → Text → Picture → Bool) (es : List Event)
      → (let s = run av base es (start m n threads connections l) in
          let batch = in_batch base (pictures_in base p) in
          let frame = picture_of base p in
          All (λ d. IsReadable d.frame) s.produced
          → total (pictures_in base p) s.stream
              + (in_flight batch frame s + total frame s.rejected)
              + total batch s.lost
            ≡ total frame s.produced + total batch s.repeated)
  unfolding picture_weight
  run-pictures p es f = (run-weighed p es f).conserved
