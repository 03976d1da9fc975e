-- ===== src/System/Tests.antt =====
-- Two workers, the batcher and a publisher thread on a frame's way to Redis, and the theorems there.
use frame_processor.Base.{
  ℕ, ◌+◌, ◌≡◌, refl, pos, Bool, true, false, List, [], ◌∷◌, ◌++◌, map, codes, none, find, insert,
  erase, arith, Text, length, All, subst, sym,
}
use frame_processor.Base.Totals.{total}
use frame_processor.Fifo.{new, push, wait_and_pop, stop}
use frame_processor.Types.{Frame, DecodedFrame}
use frame_processor.Worker.Filter.{create_processing_filter}
use frame_processor.Worker.Context.{ctx_key, fits, new_context, reinit, context_for}
use frame_processor.Worker.Loop.{drain, feed, filtered, output_frame, emit}
use frame_processor.Worker.Tests.{passing, plenty, idle}
use frame_processor.Publisher.Batching.{
  BatchKey, FrameBatch, batch_key, finish, pack, extended, flush, fresh,
}
use frame_processor.Publisher.Batching
use frame_processor.Publisher.Connection.{ready, new_connection, destroy, is_valid, get}
use frame_processor.Publisher.Decode.{Picture, IsReadable}
use frame_processor.Publisher.Sender.{
  stored, Weather, entry, has_connection, release, reconnect, requeue, reset, command, context_of,
  deliver,
}
use frame_processor.Publisher.Tests.{frame, frame-IsPlanar, decoded}
use frame_processor.Publisher.Sending.{in_batch}
use frame_processor.System.Worker.{unchanged, leaves, takes_frame, begin, emit_next}
use frame_processor.System.Threads.{
  System, new_post, start, at_queues, as_sender, begins, emits, takes_by, takes, delivers, Event,
  decodes, works, emit_by, stops, packs, takes_batch, sends, step, run,
}
use frame_processor.System.Invariant.{in_flight}
use frame_processor.System.Pictures.{pictures_in, picture_of, run-pictures}
use frame_processor.System.Intake.{intake, decoded_frames, run-intake}
use frame_processor.System.Overtaking
use frame_processor.Publisher.Accounts.{bytes_for, blob_for}
use frame_processor.Publisher.Rounds.{IsPacked}
use frame_processor.System.Sequence.{run-ordered}
use frame_processor.System.Progress.{Holds, run-drains}
use frame_processor.System.Draining.{IsDrained}
use frame_processor.System.Emptying.{record_of}
use frame_processor.System.Overtaking.{overtaking, run-overtaking}

abbrev fair : Weather
fair = record { connects = ready 3; reply = stored; now = 0 }

-- One frame is decoded, filtered, packed, flushed when the workers have stopped, and sent.
abbrev history : List Event
history =
    decodes (decoded (pos 1)) 5
    ∷ works 1 false plenty
    ∷ emit_by 1 6
    ∷ packs false 7
    ∷ stops
    ∷ packs false 8
    ∷ takes_batch 0 false
    ∷ sends 0 fair
    ∷ []

abbrev base : Text
base = codes "fp_batches"

abbrev before : System (List Frame)
before = start 1000 1000 (idle ∷ idle ∷ []) (none ∷ none ∷ []) (record { made = []; freed = [] })

abbrev door : BatchKey
door = (pos 7, codes "ev")

abbrev any : Text → Text → Picture → Bool
any key event p = true

one_produced : (run passing base history before).produced ≡ decoded (pos 1) ∷ []
unfolding start new_post run step at_queues as_sender begins emits takes takes_by delivers begin
    takes_frame unchanged leaves emit_next filtered context_for reinit new_context
    create_processing_filter fits ctx_key feed drain emit output_frame Batching.advance
    Batching.receive finish pack extended flush fresh new push stop wait_and_pop find insert erase
    batch_key deliver command reconnect requeue reset release has_connection context_of
    new_connection destroy is_valid get entry
one_produced = refl

one_sent : length (run passing base history before).stream ≡ 1
unfolding start new_post run step at_queues as_sender begins emits takes takes_by delivers begin
    takes_frame unchanged leaves emit_next filtered context_for reinit new_context
    create_processing_filter fits ctx_key feed drain emit output_frame Batching.advance
    Batching.receive finish pack extended flush fresh new push stop wait_and_pop find insert erase
    batch_key deliver command reconnect requeue reset release has_connection context_of
    new_connection destroy is_valid get entry
one_sent = refl

run-pictures_example :
    (let s = run passing base history before in
      total (pictures_in base any) s.stream
        + (in_flight (in_batch base (pictures_in base any)) (picture_of base any) s
            + total (picture_of base any) s.rejected)
        + total (in_batch base (pictures_in base any)) s.lost
      ≡ total (picture_of base any) s.produced
        + total (in_batch base (pictures_in base any)) s.repeated)
run-pictures_example =
    run-pictures passing base 1000 1000 (idle ∷ idle ∷ []) (none ∷ none ∷ [])
      (record { made = []; freed = [] }) any history
      (subst (All (λ (d : DecodedFrame). IsReadable d.frame)) (sym one_produced)
        ((frame-IsPlanar (pos 1), omega arith), tt))

-- A frame that is filtered and not yet emitted.
abbrev halfway : List Event
halfway = decodes (decoded (pos 1)) 5 ∷ works 1 false plenty ∷ []

run-drains_example :
    (let s = run passing base halfway before in
      (more : List Event) × IsDrained (run passing base more s)
      × (record_of (run passing base more s) ≡ record_of s)
      × Holds base s (run passing base more s))
unfolding start fresh new_post run step at_queues begins begin takes_frame filtered context_for
    reinit new_context create_processing_filter fits ctx_key feed drain output_frame new push
    wait_and_pop find insert
run-drains_example =
    run-drains passing base 1000 1000 (idle ∷ idle ∷ []) (none ∷ none ∷ [])
      (record { made = []; freed = [] }) halfway refl refl refl
      ((frame-IsPlanar (pos 1), omega arith), tt)

-- A frame of one worker that reaches Redis.
abbrev calm : List Event
calm =
    decodes (decoded (pos 1)) 5
    ∷ works 0 false plenty
    ∷ emit_by 0 6
    ∷ packs false 7
    ∷ packs true 8
    ∷ takes_batch 0 false
    ∷ sends 0 fair
    ∷ []

abbrev alone : System (List Frame)
alone = start 1000 1000 (idle ∷ []) (none ∷ []) (record { made = []; freed = [] })

calm_produces : (run passing base calm alone).produced ≡ decoded (pos 1) ∷ []
unfolding start new_post run step at_queues as_sender begins emits takes takes_by delivers begin
    takes_frame unchanged leaves emit_next filtered context_for reinit new_context
    create_processing_filter fits ctx_key feed drain emit output_frame Batching.advance
    Batching.receive finish pack extended flush fresh new push stop wait_and_pop find insert erase
    batch_key deliver command reconnect requeue reset release has_connection context_of
    new_connection destroy is_valid get entry
calm_produces = refl

run-ordered_example :
    (let s = run passing base calm alone in
      (sent : List FrameBatch) × (rest : List ℕ) × (s.stream ≡ map (entry base) sent)
      × (bytes_for door sent ++ rest ≡ blob_for door s.produced))
run-ordered_example =
    run-ordered passing base 1000 1000 idle none (record { made = []; freed = [] }) door calm
      (tt, (tt, (tt, (tt, (tt, (tt, ((3, refl), tt)))))))
      (subst (All IsPacked) (sym calm_produces) (frame-IsPlanar (pos 1), tt))

run-intake_example :
    intake passing (run passing base history before)
    ≡ intake passing before ++ decoded_frames false history
unfolding start new
run-intake_example = run-intake passing base history before

run-overtaking_example :
    (let s =
        run passing base
          (overtaking plenty 6)
          (Overtaking.ready passing base (decoded (pos 1)) (decoded (pos 2)) idle idle before) in
      (s.consumed ≡ decoded (pos 1) ∷ decoded (pos 2) ∷ [])
      × (s.batcher.processed.queue
          ≡ output_frame (decoded (pos 2)) (frame (pos 2))
            ∷ output_frame (decoded (pos 1)) (frame (pos 1))
            ∷ []))
unfolding start fresh new filtered context_for reinit new_context create_processing_filter fits
    ctx_key feed drain find insert
run-overtaking_example =
    run-overtaking passing base plenty 6 (decoded (pos 1)) (decoded (pos 2)) (frame (pos 1))
      (frame (pos 2)) [] [] idle idle before refl refl refl
