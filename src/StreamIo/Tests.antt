-- ===== src/StreamIo/Tests.antt =====
-- The manager at two cameras, and the theorems at inputs that meet their hypotheses.
use frame_processor.Base.{
  ◌++◌, replicate, ℤ, pos, ◌≡◌, refl, true, false, some, none, List, [], ◌∷◌, codes, find, insert,
  erase, arith,
}
use frame_processor.Types.{StreamConfig, one, stream_eq}
use frame_processor.StreamIo.Connect.{
  check_interrupt, no_context, opened, refused, unconnected, attempt, connect,
}
use frame_processor.StreamIo.Backoff.{IsBounded, connect-IsBounded}
use frame_processor.StreamIo.Manager.{
  Manager, no_streams, int_key, desired, must_stop, to_stop, to_start, stop_threads, start_threads,
  update_streams, stop_all,
}
use frame_processor.StreamIo.Phases.{IsAligned, last_enabled, reconciled}
use frame_processor.StreamIo.Reconcile.{update_streams-reconciled}
use frame_processor.StreamIo.Change.{Reaches, update_streams_twice, update_streams-changed}

abbrev camera : ℤ → StreamConfig
camera id = record {
  id = id;
  url = codes "rtsp";
  target_fps = one;
  wait_for_keyframe = false;
  enabled = true;
  processing = record {
    scale = record { width = pos 0; height = pos 0 };
    crop = record { x = pos 0; y = pos 0; width = pos 0; height = pos 0 };
  };
  events = [];
}

abbrev moved : StreamConfig
moved = record (camera (pos 2)) { url = codes "other" }

abbrev running : List StreamConfig → Manager
running cs = let m = start_threads cs [] in record { stream_threads = m; active_stream_configs = m }

abbrev both : List StreamConfig
both = camera (pos 1) ∷ camera (pos 2) ∷ []

abbrev changed_configs : List StreamConfig
changed_configs = moved ∷ camera (pos 3) ∷ []

first_update : update_streams both no_streams ≡ some (running both)
unfolding update_streams desired to_stop must_stop to_start stop_threads start_threads find insert
    erase int_key
first_update = refl

-- The first stream is dropped, the second changed, the third new: only the third runs.
second_update : update_streams changed_configs (running both) ≡ some (running (camera (pos 3) ∷ []))
unfolding update_streams desired to_stop must_stop to_start stop_threads start_threads find insert
    erase int_key stream_eq
second_update = refl

third_update :
    update_streams changed_configs (running (camera (pos 3) ∷ [])) ≡ some (running changed_configs)
unfolding update_streams desired to_stop must_stop to_start stop_threads start_threads find insert
    erase int_key stream_eq
third_update = refl

stop_all_runs : stop_all (running both) ≡ no_streams
unfolding stop_all start_threads insert find int_key
stop_all_runs = refl

both-IsAligned : IsAligned (running both)
unfolding start_threads insert find int_key
both-IsAligned = record { unique = (refl, (refl, tt)); same = refl }

update_streams-reconciled_example :
    (s' : Manager) × (update_streams changed_configs (running both) ≡ some s')
    × IsAligned s'
    × ((j : ℤ)
        → find int_key j s'.stream_threads
          ≡ reconciled
              (find int_key j (running both).stream_threads)
              (last_enabled j changed_configs))
update_streams-reconciled_example =
    update_streams-reconciled changed_configs (running both) both-IsAligned (omega arith)

update_streams_twice_example :
    Reaches
      (last_enabled (pos 2) changed_configs)
      (find int_key (pos 2) (running changed_configs).stream_threads)
update_streams_twice_example =
    update_streams_twice changed_configs both-IsAligned (omega arith) second_update third_update
      (pos 2)

update_streams-changed_example :
    (find int_key (pos 2) (running (camera (pos 3) ∷ [])).stream_threads ≡ none)
    × (find int_key (pos 2) (running changed_configs).stream_threads ≡ some moved)
unfolding last_enabled start_threads insert find int_key stream_eq
update_streams-changed_example =
    update_streams-changed changed_configs (pos 2) (camera (pos 2)) moved both-IsAligned
      (omega arith) refl refl refl second_update third_update

-- The eighth attempt comes after half a minute, and succeeds.
eight_attempts :
    connect (replicate 7 (false, refused) ++ (false, opened) ∷ (false, refused) ∷ []) unconnected
    ≡ record {
      current_retry = 0;
      connected = true;
      stopped = false;
      waits = 1 ∷ 2 ∷ 4 ∷ 8 ∷ 16 ∷ 32 ∷ 30 ∷ [];
    }
unfolding connect attempt
eight_attempts = refl

connect-IsBounded_example :
    IsBounded (connect ((false, refused) ∷ (false, no_context) ∷ (true, opened) ∷ []) unconnected)
connect-IsBounded_example =
    connect-IsBounded ((false, refused) ∷ (false, no_context) ∷ (true, opened) ∷ []) unconnected
      (omega arith, tt)

interrupts : check_interrupt (some (record { stop_requested = some true })) ≡ 1
unfolding check_interrupt
interrupts = refl
