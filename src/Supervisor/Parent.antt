-- ===== src/Supervisor/Parent.antt =====
-- core/main.cpp, `parent_signal_handler` and the parent's branch of `main`. What the system calls
-- answer is an input; a call of `fork` gives the child's number to the parent, or fails.
use frame_processor.Base.{
  ℕ, zero, suc, ◌+◌, ltb, ◌==◌, Bool, true, false, not, List, [], ◌∷◌, ◌++◌, Option, none, some,
  keep_if, if◌then◌else◌,
}

-- How a child ended.
pub data Status : Type 0 where
  exited signaled : ℕ → Status
  unknown : Status

-- The answer of `waitpid` with `WNOHANG`.
pub data Wait : Type 0 where
  still_running interrupted wait_failed : Wait
  reaped : Status → Wait

pub data Action : Type 0 where
  forks : ℕ → Action
  kills : ℕ → ℕ → Action
  waits : ℕ → Action
  sleeps : Action

-- `g_child_pid`, `g_parent_shutdown_request`, whether the loop runs, what has been done, and the
-- children that have been made and not yet been waited for.
pub record Parent : Type 0 where
  pub child_pid : ℕ
  pub shutdown_request : Bool
  pub watching : Bool
  pub log : List Action
  pub children : List ℕ

-- A round: the answer of `waitpid`, a signal that comes before the flag is looked at again, and what
-- `fork` gives.
pub record Round : Type 0 where
  pub wait : Wait
  pub signal : Option ℕ
  pub fork : Option ℕ

pub data Event : Type 0 where
  signals : ℕ → Event
  rounds : Round → Event

unfoldable pub parent_signal_handler : ℕ → Parent → Parent
parent_signal_handler signum s = record s {
  shutdown_request = true;
  log = if ltb 0 s.child_pid then s.log ++ kills s.child_pid signum ∷ [] else s.log;
}

unfoldable pub maybe_signal : Option ℕ → Parent → Parent
maybe_signal none s = s
maybe_signal (some n) s = parent_signal_handler n s

-- The child has been waited for.
unfoldable pub reap : Parent → Parent
reap s = record s { children = keep_if (λ p. not (p == s.child_pid)) s.children }

unfoldable pub leave : Parent → Parent
leave s = record s { watching = false }

unfoldable pub launch : Option ℕ → Parent → Parent
launch none s = leave s
launch (some pid) s = record s {
  child_pid = pid;
  log = s.log ++ forks pid ∷ [];
  children = s.children ++ pid ∷ [];
}

-- `WIFEXITED(status) && WEXITSTATUS(status) == 0`.
unfoldable pub is_normal : Status → Bool
is_normal (exited code) = code == 0
is_normal (signaled n) = false
is_normal unknown = false

-- What follows the end of the child.
unfoldable pub after_child : Status → Option ℕ → Parent → Parent
after_child status fork s =
    if is_normal status then leave s else if s.shutdown_request then leave s else launch fork s

unfoldable pub watch_round : Round → Parent → Parent
watch_round e s = elim e.wait [
  | still_running ↦ s
  | interrupted ↦ s
  | wait_failed ↦ leave s
  | reaped status ↦ after_child status e.fork (maybe_signal e.signal (reap s))
]

unfoldable pub step : Event → Parent → Parent
step (signals n) s = parent_signal_handler n s
step (rounds e) s =
    if not s.watching then s else if s.shutdown_request then leave s else watch_round e s

unfoldable pub watch : List Event → Parent → Parent
watch [] s = s
watch (e ∷ es) s = watch es (step e s)

-- The waiting for the child's end, for at most `n` more seconds; `alive` is what `kill(pid, 0)` says
-- each time.
unfoldable pub poll : (ℕ → Bool) → ℕ → ℕ → List Action
poll alive i zero = []
poll alive i (suc n) = let rest = poll alive (i + 1) n in if alive i then sleeps ∷ rest else []

-- The cleaning up after the loop; `remains` is what the last `kill(pid, 0)` says.
unfoldable pub clean_up : (ℕ → Bool) → Bool → Parent → Parent
clean_up alive remains s =
    if ltb 0 s.child_pid
    then record (reap s) {
      log =
          s.log
          ++ kills s.child_pid 15
            ∷ (poll alive 0 5
                ++ (if remains
                    then kills s.child_pid 9 ∷ waits s.child_pid ∷ []
                    else waits s.child_pid ∷ []));
    }
    else s

-- The first child.
unfoldable pub first_child : ℕ → Parent
first_child pid = record {
  child_pid = pid;
  shutdown_request = false;
  watching = true;
  log = forks pid ∷ [];
  children = pid ∷ [];
}

-- The parent, from its first child on.
unfoldable pub supervise : ℕ → List Event → (ℕ → Bool) → Bool → Parent
supervise pid es alive remains =
    let s = watch es (first_child pid) in if s.watching then s else clean_up alive remains s
