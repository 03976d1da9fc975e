-- ===== src/StreamIo/Connect.antt =====
-- stream_io_manager.cpp, `check_interrupt`, lines 44 to 59, and `run_stream`, lines 304 to 364: the attempts to open a stream and the waits
-- between them. What FFmpeg answers is an input; an early end of a wait by a stop request is seen at
-- the next round.
use frame_processor.Base.{
  ℕ, ◌+◌, ◌^◌, ltb, Bool, true, false, List, [], ◌∷◌, ◌++◌, Option, none, some, if◌then◌else◌,
}

-- `ReaderState`: what the stop token that it points to says, if it points to one.
pub record ReaderState : Type 0 where
  pub stop_requested : Option Bool

-- The callback that FFmpeg asks whether to give up; one gives up.
unfoldable pub check_interrupt : Option ReaderState → ℕ
check_interrupt none = 0
check_interrupt (some state) = elim state.stop_requested [
  | none ↦ 0
  | some requested ↦ if requested then 1 else 0
]

-- No context could be allocated, or `avformat_open_input` succeeds or fails.
pub data Attempt : Type 0 where
  no_context opened refused : Attempt

-- `current_retry`, `connected`, whether the loop was left for a stop request, and the waits in
-- seconds.
pub record Connection : Type 0 where
  pub current_retry : ℕ
  pub connected : Bool
  pub stopped : Bool
  pub waits : List ℕ

abbrev pub max_retries : ℕ
max_retries = 5

abbrev pub unconnected : Connection
unconnected = record { current_retry = 0; connected = false; stopped = false; waits = [] }

unfoldable pub attempt : Attempt → Connection → Connection
attempt no_context c = record c { waits = c.waits ++ 1 ∷ [] }
attempt opened c = record c { connected = true }
attempt refused c =
    if ltb max_retries c.current_retry
    then record c { current_retry = 0; waits = c.waits ++ 30 ∷ [] }
    else record c {
      current_retry = c.current_retry + 1;
      waits = c.waits ++ 2 ^ c.current_retry ∷ [];
    }

-- The loop so far, by what `stop_requested` says at the head of each round and what the attempt gives.
-- It is left once it is connected or has seen a stop request; else it goes on after these rounds.
unfoldable pub connect : List (Bool × Attempt) → Connection → Connection
connect [] c = c
connect ((stop_requested, a) ∷ es) c =
    let rest = connect es (attempt a c) in
    if c.connected then c else if stop_requested then record c { stopped = true } else rest
