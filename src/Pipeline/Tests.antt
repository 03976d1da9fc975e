-- ===== src/Pipeline/Tests.antt =====
-- A frame on its way from a reader to the publisher threads.
use frame_processor.Base.{
  ◌≡◌, refl, pos, true, false, List, [], ◌∷◌, codes, find, insert, erase, length,
}
use frame_processor.Fifo.{new, push, wait_and_pop, stop}
use frame_processor.Worker.Filter.{create_processing_filter}
use frame_processor.Worker.Context.{ctx_key, fits, new_context, reinit, context_for}
use frame_processor.Worker.Loop.{
  WorkerThread, drain, feed, filtered, output_frame, emit, emit_all, process,
}
use frame_processor.Worker.Loop
use frame_processor.Worker.Tests.{passing, plenty, idle}
use frame_processor.Publisher.Batching.{batch_key, finish, pack, extended, flush, fresh}
use frame_processor.Publisher.Batching
use frame_processor.Publisher.Tests.{frame-IsPlanar}
use frame_processor.Publisher.Tests
use frame_processor.Pipeline.Shared.{
  Event, decoded, stops, works, packs, Pipeline, joined, after_worker, step, run, outputs_of,
  outputs, seen, seen_all,
}
use frame_processor.Pipeline.Published.{joint, IsBatched, reached, run_complete}

abbrev history : List Event
history =
    decoded (Tests.decoded (pos 1)) 5
    ∷ works false plenty 6
    ∷ packs (Batching.round false 7)
    ∷ stops
    ∷ packs (Batching.round false 8)
    ∷ []

abbrev before : Pipeline passing
before = joint passing idle 1000 []

history_ends : (run passing history before).batcher.finished ≡ true
unfolding run step joined after_worker Loop.advance Loop.receive process filtered context_for reinit
    new_context create_processing_filter fits ctx_key feed drain emit_all emit Batching.advance
    Batching.receive finish pack extended flush fresh new push stop wait_and_pop find insert erase
    batch_key
history_ends = refl

-- One frame reaches the batcher.
one_arrives : length (reached passing history before) ≡ 1
unfolding seen_all seen outputs outputs_of run step joined after_worker Loop.advance Loop.receive
    process filtered context_for reinit new_context create_processing_filter fits ctx_key feed drain
    emit_all emit new push stop wait_and_pop find insert
one_arrives = refl

run_complete_example :
    IsBatched passing
      (pos 7, codes "ev")
      (run passing history before).batcher
      (reached passing history before)
unfolding seen_all seen outputs outputs_of run step joined after_worker Loop.advance Loop.receive
    process filtered context_for reinit new_context create_processing_filter fits ctx_key feed drain
    emit_all emit output_frame new push stop wait_and_pop find insert
run_complete_example =
    run_complete passing (pos 7, codes "ev") history idle 1000 [] (tt, (tt, (tt, (tt, tt))))
      (tt, (tt, (tt, (tt, tt)))) (frame-IsPlanar _, tt) history_ends
