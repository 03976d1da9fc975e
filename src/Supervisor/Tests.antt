-- ===== src/Supervisor/Tests.antt =====
-- A parent whose child crashes once and is then asked to stop, and the theorems there.
use frame_processor.Base.{ℕ, ltb, Bool, false, List, [], ◌∷◌, ◌≡◌, refl, none, some, arith}
use frame_processor.Supervisor.Parent.{
  exited, signaled, still_running, reaped, Action, forks, kills, waits, sleeps, Round, Event,
  signals, rounds, parent_signal_handler, maybe_signal, reap, leave, launch, is_normal, after_child,
  watch_round, step, watch, poll, clean_up, first_child, supervise,
}
use frame_processor.Supervisor.Watch.{IsSettled, supervise-IsSettled, watch_round-stale}

abbrev quiet : Round
quiet = record { wait = still_running; signal = none; fork = none }

abbrev crash : Round
crash = record { wait = reaped (signaled 11); signal = none; fork = some 102 }

abbrev done : Round
done = record { wait = reaped (exited 0); signal = none; fork = none }

abbrev history : List Event
history = rounds quiet ∷ rounds crash ∷ rounds quiet ∷ signals 15 ∷ rounds quiet ∷ []

abbrev two_seconds : ℕ → Bool
two_seconds i = ltb i 2

relaunched_and_stopped :
    (supervise 101 history two_seconds false).log
    ≡ forks 101 ∷ forks 102 ∷ kills 102 15 ∷ kills 102 15 ∷ sleeps ∷ sleeps ∷ waits 102 ∷ []
unfolding supervise watch step watch_round after_child parent_signal_handler maybe_signal reap leave
    launch is_normal poll clean_up first_child
relaunched_and_stopped = refl

supervise-IsSettled_example : IsSettled (supervise 101 history two_seconds false)
supervise-IsSettled_example =
    supervise-IsSettled 101 history two_seconds false (omega arith)
      (tt, (omega arith, (tt, (tt, (tt, tt)))))

watch_round-stale_example :
    ((watch_round done (first_child 101)).children ≡ [])
    × (rest : List Action) × ((clean_up two_seconds false (watch_round done (first_child 101))).log
        ≡ forks 101 ∷ kills 101 15 ∷ rest)
unfolding first_child
watch_round-stale_example =
    watch_round-stale done (first_child 101) two_seconds false refl (omega arith) refl refl
