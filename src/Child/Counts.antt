-- ===== src/Child/Counts.antt =====
-- How many workers the child starts.
use mathlib.Core.Option
use frame_processor.Base.{
  ℕ, ◌-◌, ◌^◌, ◌≤◌, ◌<◌, ◌≡◌, ap, ◌∙◌, ℤ, pos, negsuc, pos_part, neg_part, IsI32, leb, Option, none,
  some, Text, codes, decimal, if◌then◌else◌, arith,
}
use frame_processor.Base.Numbers.{stoi, stoi-decimal}
use frame_processor.Base.Environment.{Environment, get_env, get_env-none, get_env-some}
use frame_processor.Child.Workers.{default_workers, get_worker_count, to_i16, start_workers}

abbrev pub IsI16 : ℤ → Type 0
IsI16 z = (neg_part z ≤ 2 ^ 15) × (pos_part z < 2 ^ 15)

pub to_i16_self : (z : ℤ) → IsI16 z → to_i16 z ≡ z
to_i16_self (pos n) h = ground arith
to_i16_self (negsuc n) h = ground arith

IsI16-IsI32 : (z : ℤ) → IsI16 z → IsI32 z
IsI16-IsI32 (pos n) h = omega arith
IsI16-IsI32 (negsuc n) h = omega arith

-- The variable is not set, or holds a number of 16 bits.
abbrev pub Asks : Environment → Option ℤ → Type 0
Asks env none = env (codes "FP_NUM_WORKER_THREADS") ≡ none
Asks env (some z) = (env (codes "FP_NUM_WORKER_THREADS") ≡ some (decimal z)) × IsI16 z

-- Two less than the cores but at least one, or as many as the number says: none if it is not positive.
abbrev pub threads_asked : Option ℤ → ℕ → ℕ
threads_asked none cores = if leb cores 3 then 1 else cores - 2
threads_asked (some z) cores = pos_part z

default_workers-IsI16 : (cores : ℕ) → cores ≤ 32769 → IsI16 (default_workers (pos cores))
unfolding default_workers
default_workers-IsI16 cores h = ground arith

default_workers-asked :
    (cores : ℕ) → pos_part (default_workers (pos cores)) ≡ threads_asked none cores
unfolding default_workers
default_workers-asked cores = ground arith

started :
    (t : Text) (z : ℤ)
    → t ≡ decimal z
    → IsI16 z
    → Option.map (λ c. start_workers (to_i16 c)) (stoi t) ≡ some (pos_part z)
unfolding start_workers
started t z e h =
    ap (λ o. Option.map (λ c. start_workers (to_i16 c)) o)
      (ap stoi e ∙ stoi-decimal z (IsI16-IsI32 z h))
    ∙ ap (λ c. some (pos_part c)) (to_i16_self z h)

-- On a machine of at most 32769 cores, with no number of workers set or one of 16 bits: as many workers
-- start as are asked for, by default two less than the cores but at least one, and none at all for a
-- number that is not positive.
pub get_worker_count-started :
    (env : Environment) (cores : ℕ) (o : Option ℤ)
    → cores ≤ 32769
    → Asks env o
    → Option.map (λ c. start_workers (to_i16 c)) (get_worker_count env (pos cores))
      ≡ some (threads_asked o cores)
unfolding get_worker_count
get_worker_count-started env cores none h a =
    let z = default_workers (pos cores) in
    started (get_env env (codes "FP_NUM_WORKER_THREADS") (decimal z)) z
      (get_env-none env (codes "FP_NUM_WORKER_THREADS") (decimal z) a)
      (default_workers-IsI16 cores h)
    ∙ ap some (default_workers-asked cores)
get_worker_count-started env cores (some z) h (a, r) =
    started (get_env env (codes "FP_NUM_WORKER_THREADS") (decimal (default_workers (pos cores)))) z
      (get_env-some env (codes "FP_NUM_WORKER_THREADS") (decimal (default_workers (pos cores)))
        (decimal z) a)
      r
