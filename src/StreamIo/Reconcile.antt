-- ===== src/StreamIo/Reconcile.antt =====
-- What one call of `update_streams` makes of the running streams.
use mathlib.Core.Option
use frame_processor.Base.{
  ℤ, ◌≡◌, refl, ap, ◌∙◌, some, List, [], ◌∷◌, Dict, find, Unique, insert-Unique, erase-Unique,
  Entries-found, to_i32, IsI32, arith, All,
}
use frame_processor.Types.{StreamConfig}
use frame_processor.StreamIo.Manager.{
  Manager, int_key, desired, to_stop, to_start, stop_threads, start_threads, update_streams,
}
use frame_processor.StreamIo.Phases.{
  last_enabled, IsAligned, find-desired, desired-Unique, desired-IsOwn, stale_ids,
  to_stop-stale_ids, member-stale_ids, find-stop_threads, find-start_threads, reconciled, find_nil,
}

stop_threads-Unique :
    (ids : List ℤ) (m : Dict ℤ StreamConfig)
    → Unique int_key m
    → Unique int_key (stop_threads ids m)
unfolding stop_threads
stop_threads-Unique [] m u = u
stop_threads-Unique (i ∷ ids) m u = stop_threads-Unique ids _ (erase-Unique int_key i m u)

start_threads-Unique :
    (cs : List StreamConfig) (m : Dict ℤ StreamConfig)
    → Unique int_key m
    → Unique int_key (start_threads cs m)
unfolding start_threads
start_threads-Unique [] m u = u
start_threads-Unique (c ∷ cs) m u =
    start_threads-Unique cs _ (insert-Unique int_key (to_i32 c.id) c m u)

-- The call as one equation, for a manager whose maps agree.
abbrev after_update : List StreamConfig → Dict ℤ StreamConfig → Dict ℤ StreamConfig
after_update cs m =
    start_threads (to_start m (desired cs [])) (stop_threads (stale_ids (desired cs []) m) m)

update_streams-stale_ids :
    (cs : List StreamConfig) (s : Manager)
    → IsAligned s
    → let m = after_update cs s.stream_threads in
      update_streams cs s ≡ some (record { stream_threads = m; active_stream_configs = m })
unfolding update_streams
update_streams-stale_ids cs s v =
    ap
      (λ active.
        Option.map
          (λ stopping.
            let starting = to_start threads (desired cs []) in
            record {
              stream_threads = start_threads starting (stop_threads stopping threads);
              active_stream_configs = start_threads starting (stop_threads stopping active);
            })
          (to_stop (desired cs []) active threads))
      v.same
    ∙ ap
        (Option.map (λ stopping.
          let m =
            start_threads (to_start threads (desired cs [])) (stop_threads stopping threads) in
          record { stream_threads = m; active_stream_configs = m }))
        (to_stop-stale_ids (desired cs []) threads threads (Entries-found int_key threads v.unique))
  where
    threads : Dict ℤ StreamConfig
    threads = s.stream_threads

find-after_update :
    (cs : List StreamConfig) (m : Dict ℤ StreamConfig) (j : ℤ)
    → Unique int_key m
    → All (λ c. IsI32 c.id) cs
    → find int_key j (after_update cs m) ≡ reconciled (find int_key j m) (last_enabled j cs)
find-after_update cs m j u h = ground (
  arith,
  find-start_threads j m (desired cs []) (stop_threads (stale_ids (desired cs []) m) m)
      (desired-Unique cs [] tt) (desired-IsOwn cs [] h tt),
  find-stop_threads j (stale_ids (desired cs []) m) m,
  member-stale_ids (desired cs []) m j u,
  find-desired j cs [],
  find_nil j,
)

after_update-Unique :
    (cs : List StreamConfig) (m : Dict ℤ StreamConfig)
    → Unique int_key m
    → Unique int_key (after_update cs m)
after_update-Unique cs m u = start_threads-Unique _ _ (stop_threads-Unique _ m u)

-- One call of `update_streams`, on a manager whose maps agree and for ids that are `int`s: it throws
-- nothing, its maps agree again, and for each id the stream that runs is the one that ran if an equal
-- configuration is wanted, the wanted one if none ran, and none otherwise; so a stream whose
-- configuration has changed is stopped and not started again.
pub update_streams-reconciled :
    (cs : List StreamConfig) (s : Manager)
    → IsAligned s
    → All (λ c. IsI32 c.id) cs
    → (s' : Manager) × (update_streams cs s ≡ some s')
      × IsAligned s'
      × ((j : ℤ)
          → find int_key j s'.stream_threads
            ≡ reconciled (find int_key j s.stream_threads) (last_enabled j cs))
update_streams-reconciled cs s v h =
    let m = after_update cs s.stream_threads in
    (
      record { stream_threads = m; active_stream_configs = m },
      update_streams-stale_ids cs s v,
      record { unique = after_update-Unique cs s.stream_threads v.unique; same = refl },
      λ j. find-after_update cs s.stream_threads j v.unique h,
    )
