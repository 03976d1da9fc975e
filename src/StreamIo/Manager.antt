-- ===== src/StreamIo/Manager.antt =====
-- stream_io_manager.cpp, lines 229 to 285: which streams have a thread. A thread is the configuration
-- that it was started with; erasing or replacing one requests its stop and joins it. The two maps have
-- keys of type `int`, while a stream's id is a `long long`.
use mathlib.Core.Option
use frame_processor.Base.{
  ℤ, Bool, true, not, Option, none, some, List, [], ◌∷◌, Key, Dict, find, insert, erase, eqb_ℤ,
  ltb_ℤ, eqb_ℤ_iff, to_i32, if◌then◌else◌,
}
use frame_processor.Types.{StreamConfig, stream_eq}

pub record Manager : Type 0 where
  pub stream_threads : Dict ℤ StreamConfig
  pub active_stream_configs : Dict ℤ StreamConfig

unfoldable pub int_key : Key ℤ
int_key = record { eq = eqb_ℤ; lt = ltb_ℤ; eq_iff = eqb_ℤ_iff }

-- `desired_configs`: the enabled configurations by id, a later one in place of an earlier.
unfoldable pub desired : List StreamConfig → Dict ℤ StreamConfig → Dict ℤ StreamConfig
desired [] m = m
desired (cfg ∷ cfgs) m = desired cfgs (if cfg.enabled then insert int_key cfg.id cfg m else m)

-- The test of phase 1; `none` is the exception of `at`, which is called if the stream is wanted.
unfoldable pub must_stop : Dict ℤ StreamConfig → Dict ℤ StreamConfig → ℤ → Option Bool
must_stop wanted active id = elim (find int_key id wanted) [
  | none ↦ some true
  | some new ↦ Option.map (λ old. not (stream_eq new old)) (find int_key id active)
]

-- `to_stop`, over the entries of `stream_threads_`.
unfoldable pub to_stop :
    Dict ℤ StreamConfig → Dict ℤ StreamConfig → Dict ℤ StreamConfig → Option (List ℤ)
to_stop wanted active [] = some []
to_stop wanted active ((id, thread) ∷ m) = elim (must_stop wanted active id) [
  | none ↦ none
  | some stops ↦ Option.map (λ ids. if stops then id ∷ ids else ids) (to_stop wanted active m)
]

-- `to_start`, over the entries of `desired_configs`; the lookup narrows the id.
unfoldable pub to_start : Dict ℤ StreamConfig → Dict ℤ StreamConfig → List StreamConfig
to_start threads [] = []
to_start threads ((id, cfg) ∷ m) = elim (find int_key (to_i32 id) threads) [
  | none ↦ cfg ∷ to_start threads m
  | some thread ↦ to_start threads m
]

-- Phase 2, on either map.
unfoldable pub stop_threads : List ℤ → Dict ℤ StreamConfig → Dict ℤ StreamConfig
stop_threads [] m = m
stop_threads (id ∷ ids) m = stop_threads ids (erase int_key id m)

-- Phase 3, on either map.
unfoldable pub start_threads : List StreamConfig → Dict ℤ StreamConfig → Dict ℤ StreamConfig
start_threads [] m = m
start_threads (cfg ∷ cfgs) m = start_threads cfgs (insert int_key (to_i32 cfg.id) cfg m)

-- `none` is an exception that leaves the function.
unfoldable pub update_streams : List StreamConfig → Manager → Option Manager
update_streams new_configs s =
    let wanted = desired new_configs [] in
    let starting = to_start s.stream_threads wanted in
    Option.map
      (λ stopping. record {
        stream_threads = start_threads starting (stop_threads stopping s.stream_threads);
        active_stream_configs =
            start_threads starting (stop_threads stopping s.active_stream_configs);
      })
      (to_stop wanted s.active_stream_configs s.stream_threads)

unfoldable pub stop_all : Manager → Manager
stop_all s = elim s.stream_threads [
  | [] ↦ s
  | entry ∷ m ↦ record { stream_threads = []; active_stream_configs = [] }
]

abbrev pub no_streams : Manager
no_streams = record { stream_threads = []; active_stream_configs = [] }
