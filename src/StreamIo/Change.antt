-- ===== src/StreamIo/Change.antt =====
-- A stream whose configuration changes, over two calls of `update_streams`.
use frame_processor.Base.{
  ℤ, true, false, ◌≡◌, refl, Option, none, some, List, arith, All, IsI32, find, inl, inr,
  Bool-cases,
}
use frame_processor.Types.{StreamConfig, stream_eq}
use frame_processor.Types.Equality.{stream_eq_iff}
use frame_processor.StreamIo.Manager.{Manager, int_key, update_streams}
use frame_processor.StreamIo.Phases.{IsAligned, last_enabled, reconciled}
use frame_processor.StreamIo.Reconcile.{update_streams-reconciled}

-- A stream that is wanted runs with a configuration equal to the wanted one; no other stream runs.
abbrev pub Reaches : Option StreamConfig → Option StreamConfig → Type 0
Reaches none running = running ≡ none
Reaches (some new) running = (c : StreamConfig) × (running ≡ some c) × (stream_eq new c ≡ true)

stream_eq_self : (c : StreamConfig) → stream_eq c c ≡ true
stream_eq_self c = (stream_eq_iff c c).1 refl

reconciled_twice :
    (running wanted : Option StreamConfig)
    → Reaches wanted (reconciled (reconciled running wanted) wanted)
reconciled_twice none none = refl
reconciled_twice none (some new) = (new, rw (stream_eq_self new), stream_eq_self new)
reconciled_twice (some old) none = refl
reconciled_twice (some old) (some new) = elim (Bool-cases (stream_eq new old)) [
  | inl e ↦ (old, rw (e, e), e)
  | inr e ↦ (new, rw e, stream_eq_self new)
]

module _ (cs : List StreamConfig) {s s' : Manager} (v : IsAligned s)
    (h : All (λ c. IsI32 c.id) cs) where
  -- What a call that returned has made of the streams.
  once :
      update_streams cs s ≡ some s'
      → IsAligned s'
        × ((j : ℤ)
            → find int_key j s'.stream_threads
              ≡ reconciled (find int_key j s.stream_threads) (last_enabled j cs))
  once e =
      let (r, e', v', f) = update_streams-reconciled cs s v h in
      let same : r ≡ s' = cc in rw (← same) (v', f)

-- Two calls of `update_streams` with the same configurations bring about exactly the wanted streams,
-- whatever ran before.
pub update_streams_twice :
    (cs : List StreamConfig) {s s' s'' : Manager}
    → IsAligned s
    → All (λ c. IsI32 c.id) cs
    → update_streams cs s ≡ some s'
    → update_streams cs s' ≡ some s''
    → (j : ℤ) → Reaches (last_enabled j cs) (find int_key j s''.stream_threads)
update_streams_twice cs {s} {s'} {s''} v h e e' j =
    let (v', f) = once cs v h e in
    let (v'', f') = once cs v' h e' in
    rw (f' j, f j) (reconciled_twice (find int_key j s.stream_threads) (last_enabled j cs))

-- A stream that runs and whose wanted configuration differs does not run after the call; only a
-- second call with the same configurations starts it, with the wanted one.
pub update_streams-changed :
    (cs : List StreamConfig) {s s' s'' : Manager} (j : ℤ) (old new : StreamConfig)
    → IsAligned s
    → All (λ c. IsI32 c.id) cs
    → find int_key j s.stream_threads ≡ some old
    → last_enabled j cs ≡ some new
    → stream_eq new old ≡ false
    → update_streams cs s ≡ some s'
    → update_streams cs s' ≡ some s''
    → (find int_key j s'.stream_threads ≡ none) × (find int_key j s''.stream_threads ≡ some new)
update_streams-changed cs j old new v h runs wanted differs e e' =
    let (v', f) = once cs v h e in let (v'', f') = once cs v' h e' in ground (arith, f j, f' j)
