-- ===== src/StreamIo/Phases.antt =====
-- What the phases of `update_streams` make of the maps.
use frame_processor.Base.{
  ℤ, Bool, true, false, not, ◌≡◌, refl, ap, ◌∙◌, Option, none, some, List, [], ◌∷◌, ◌&&◌, Dict,
  find, insert, erase, find-insert, find-erase, Unique, insert-Unique, Entries, insert-Entries,
  eqb_ℤ_iff, to_i32, to_i32_self, IsI32, if◌then◌else◌, arith, All, if_both,
}
use frame_processor.Types.{StreamConfig, stream_eq, member}
use frame_processor.StreamIo.Manager.{
  Manager, int_key, desired, must_stop, to_stop, to_start, stop_threads, start_threads,
}

-- The last enabled configuration with an id.
unfoldable pub last_enabled : ℤ → List StreamConfig → Option StreamConfig
last_enabled i [] = none
last_enabled i (c ∷ cs) = elim (last_enabled i cs) [
  | some d ↦ some d
  | none ↦ if c.enabled && int_key.eq c.id i then some c else none
]

-- The maps of a manager: each id once, and each thread runs the configuration that is recorded.
pub record IsAligned (s : Manager) : Type 0 where
  pub unique : Unique int_key s.stream_threads
  pub same : s.active_stream_configs ≡ s.stream_threads

pub find-desired :
    (i : ℤ) (cs : List StreamConfig) (m : Dict ℤ StreamConfig)
    → find int_key i (desired cs m)
      ≡ elim (last_enabled i cs) [ some d ↦ some d | none ↦ find int_key i m ]
unfolding desired last_enabled
find-desired i [] m = refl
find-desired i (c ∷ cs) m = ground (
  arith,
  find-desired i cs m,
  find-desired i cs (insert int_key c.id c m),
  find-insert int_key c.id i c m,
)

-- A configuration lies under its own id, which is an `int`.
abbrev IsOwn : ℤ → StreamConfig → Type 0
IsOwn i c = (c.id ≡ i) × IsI32 i

pub desired-Unique :
    (cs : List StreamConfig) (m : Dict ℤ StreamConfig)
    → Unique int_key m
    → Unique int_key (desired cs m)
unfolding desired
desired-Unique [] m u = u
desired-Unique (c ∷ cs) m u =
    desired-Unique cs _ (if_both (Unique int_key) c.enabled (insert-Unique int_key c.id c m u) u)

pub desired-IsOwn :
    (cs : List StreamConfig) (m : Dict ℤ StreamConfig)
    → All (λ c. IsI32 c.id) cs
    → Entries int_key IsOwn m
    → Entries int_key IsOwn (desired cs m)
unfolding desired
desired-IsOwn [] m h e = e
desired-IsOwn (c ∷ cs) m h e = desired-IsOwn cs _ h.1 (
    if_both (Entries int_key IsOwn) c.enabled (insert-Entries int_key IsOwn c.id c m (refl, h.0) e)
      e)

-- The streams to stop, without the exception.
abbrev pub changed : Option StreamConfig → StreamConfig → Bool
changed none old = true
changed (some new) old = not (stream_eq new old)

pub stale_ids : Dict ℤ StreamConfig → Dict ℤ StreamConfig → List ℤ
stale_ids wanted [] = []
stale_ids wanted ((i, old) ∷ m) =
    if changed (find int_key i wanted) old then i ∷ stale_ids wanted m else stale_ids wanted m

pub to_stop-stale_ids :
    (wanted active m : Dict ℤ StreamConfig)
    → Entries int_key (λ i old. find int_key i active ≡ some old) m
    → to_stop wanted active m ≡ some (stale_ids wanted m)
unfolding to_stop stale_ids must_stop
to_stop-stale_ids wanted active [] h = refl
to_stop-stale_ids wanted active ((i, old) ∷ m) h =
    ground (arith, to_stop-stale_ids wanted active m h.1)

pub member-stale_ids :
    (wanted m : Dict ℤ StreamConfig) (j : ℤ)
    → Unique int_key m
    → member j (stale_ids wanted m)
      ≡ elim (find int_key j m) [ none ↦ false | some old ↦ changed (find int_key j wanted) old ]
unfolding member stale_ids find int_key
member-stale_ids wanted [] j u = refl
member-stale_ids wanted ((i, old) ∷ m) j u =
    ground (arith, eqb_ℤ_iff i j, member-stale_ids wanted m j u.1)

pub find-stop_threads :
    (j : ℤ) (ids : List ℤ) (m : Dict ℤ StreamConfig)
    → find int_key j (stop_threads ids m) ≡ (if member j ids then none else find int_key j m)
unfolding stop_threads member int_key
find-stop_threads j [] m = refl
find-stop_threads j (i ∷ ids) m =
    ground (arith, find-erase int_key i j m, find-stop_threads j ids (erase int_key i m))

-- The lookup and the assignment of an id that is an `int` do not change it.
to_start_int :
    (threads wanted : Dict ℤ StreamConfig) (i : ℤ) (c : StreamConfig)
    → IsI32 i
    → to_start threads ((i, c) ∷ wanted) ≡ elim (find int_key i threads) [
      | none ↦ c ∷ to_start threads wanted
      | some thread ↦ to_start threads wanted
    ]
unfolding to_start
to_start_int threads wanted i c h =
    ap
      (λ k. elim (find int_key k threads) [
        | none ↦ c ∷ to_start threads wanted
        | some thread ↦ to_start threads wanted
      ])
      (to_i32_self i h)

start_threads_int :
    (cs : List StreamConfig) (m : Dict ℤ StreamConfig) (i : ℤ) (c : StreamConfig)
    → IsOwn i c
    → start_threads (c ∷ cs) m ≡ start_threads cs (insert int_key i c m)
unfolding start_threads
start_threads_int cs m i c h =
    ap (λ k. start_threads cs (insert int_key k c m)) (ap to_i32 h.0 ∙ to_i32_self i h.1)

-- Starting: a wanted stream gets a thread if it had none before the call.
pub find-start_threads :
    (j : ℤ) (threads wanted m : Dict ℤ StreamConfig)
    → Unique int_key wanted
    → Entries int_key IsOwn wanted
    → find int_key j (start_threads (to_start threads wanted) m) ≡ elim (find int_key j wanted) [
      | none ↦ find int_key j m
      | some new ↦ elim (find int_key j threads) [ none ↦ some new | some old ↦ find int_key j m ]
    ]
unfolding find
find-start_threads j threads [] m u h = unfold start_threads to_start in refl
find-start_threads j threads ((i, c) ∷ wanted) m u h = ground (
  arith,
  int_key.eq_iff i j,
  to_start_int threads wanted i c h.0.1,
  start_threads_int (to_start threads wanted) m i c h.0,
  find-insert int_key i j c m,
  find-start_threads j threads wanted (insert int_key i c m) u.1 h.1,
  find-start_threads j threads wanted m u.1 h.1,
)

-- What a call makes of the stream with an id: a running stream goes on if an equal configuration is
-- wanted, and a stream that does not run is started.
abbrev pub reconciled : Option StreamConfig → Option StreamConfig → Option StreamConfig
reconciled none wanted = wanted
reconciled (some old) none = none
reconciled (some old) (some new) = if stream_eq new old then some old else none

pub find_nil : (j : ℤ) → find int_key j (let m : Dict ℤ StreamConfig = [] in m) ≡ none
unfolding find
find_nil j = refl
