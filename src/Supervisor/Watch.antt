-- ===== src/Supervisor/Watch.antt =====
-- The children of the parent process.
use frame_processor.Base.{
  ℕ, ◌<◌, ◌==◌, Bool, true, false, not, List, [], ◌∷◌, ◌++◌, ◌≡◌, refl, ap, sym, subst, ◌∙◌, ◌⊎◌,
  inl, inr, Option, none, some, keep_if, if◌then◌else◌, if_both, Bool-cases, All, arith, lt→ltb,
}
use frame_processor.Supervisor.Parent.{
  Status, exited, Wait, still_running, interrupted, wait_failed, reaped, Action, kills, waits,
  Parent, Round, Event, signals, rounds, parent_signal_handler, maybe_signal, reap, leave, launch,
  is_normal, after_child, watch_round, step, watch, poll, clean_up, first_child, supervise,
}

-- The children are the current one, or, once the loop has been left, at most that one.
abbrev pub IsSingle : Parent → Type 0
IsSingle s =
    (0 < s.child_pid)
    × ((s.children ≡ s.child_pid ∷ []) ⊎ ((s.watching ≡ false) × (s.children ≡ [])))

-- `fork` gives positive numbers.
abbrev pub Forks : Event → Type 0
Forks (signals n) = Unit
Forks (rounds e) = elim e.fork [ none ↦ Unit | some pid ↦ 0 < pid ]

-- No child is left.
abbrev IsAlone : Parent → Type 0
IsAlone s = (0 < s.child_pid) × (s.children ≡ [])

keep_if_self : (n : ℕ) → keep_if (λ p. not (p == n)) (n ∷ []) ≡ []
keep_if_self n = ground arith

reap-IsAlone : (s : Parent) → IsSingle s → IsAlone (reap s)
unfolding reap
reap-IsAlone s (p, inl c) =
    (p, ap (keep_if (λ n. not (n == s.child_pid))) c ∙ keep_if_self s.child_pid)
reap-IsAlone s (p, inr (w, c)) = (p, ap (keep_if (λ n. not (n == s.child_pid))) c)

maybe_signal-IsAlone : (o : Option ℕ) (s : Parent) → IsAlone s → IsAlone (maybe_signal o s)
unfolding maybe_signal parent_signal_handler
maybe_signal-IsAlone none s h = h
maybe_signal-IsAlone (some n) s h = h

launch-IsSingle :
    (o : Option ℕ) (s : Parent)
    → Forks (rounds (record { wait = still_running; signal = none; fork = o }))
    → IsAlone s
    → IsSingle (launch o s)
unfolding launch leave
launch-IsSingle none s f (p, c) = (p, inr (refl, c))
launch-IsSingle (some pid) s f (p, c) = (f, inl (ap (λ l. l ++ pid ∷ []) c))

after_child-IsSingle :
    (status : Status) (o : Option ℕ) (s : Parent)
    → Forks (rounds (record { wait = still_running; signal = none; fork = o }))
    → IsAlone s
    → IsSingle (after_child status o s)
unfolding after_child leave
after_child-IsSingle status o s f (p, c) =
    if_both IsSingle (is_normal status) (p, inr (refl, c))
      (if_both IsSingle s.shutdown_request (p, inr (refl, c)) (launch-IsSingle o s f (p, c)))

leave-IsSingle : (s : Parent) → IsSingle s → IsSingle (leave s)
unfolding leave
leave-IsSingle s (p, inl c) = (p, inl c)
leave-IsSingle s (p, inr (w, c)) = (p, inr (refl, c))

watch_round-IsSingle :
    (e : Round) (s : Parent) → Forks (rounds e) → IsSingle s → IsSingle (watch_round e s)
unfolding watch_round
watch_round-IsSingle e s f h = of_wait e.wait
  where
    of_wait :
        (w : Wait)
        → IsSingle (elim w as (λ w. Parent) [
          | still_running ↦ s
          | interrupted ↦ s
          | wait_failed ↦ leave s
          | reaped status ↦ after_child status e.fork (maybe_signal e.signal (reap s))
        ])
    of_wait still_running = h
    of_wait interrupted = h
    of_wait wait_failed = leave-IsSingle s h
    of_wait (reaped status) =
        after_child-IsSingle status e.fork (maybe_signal e.signal (reap s)) f
          (maybe_signal-IsAlone e.signal (reap s) (reap-IsAlone s h))

step-IsSingle : (e : Event) (s : Parent) → Forks e → IsSingle s → IsSingle (step e s)
unfolding step parent_signal_handler
step-IsSingle (signals n) s f h = h
step-IsSingle (rounds e) s f h =
    if_both IsSingle (not s.watching) h
      (if_both IsSingle s.shutdown_request (leave-IsSingle s h) (watch_round-IsSingle e s f h))

watch-IsSingle : (es : List Event) (s : Parent) → All Forks es → IsSingle s → IsSingle (watch es s)
unfolding watch
watch-IsSingle [] s f h = h
watch-IsSingle (e ∷ es) s (f, fs) h = watch-IsSingle es (step e s) fs (step-IsSingle e s f h)

-- What is said of the parent, while it watches and afterwards.
abbrev pub IsSettled : Parent → Type 0
IsSettled r =
    ((r.watching ≡ true) × (r.children ≡ r.child_pid ∷ []))
    ⊎ ((r.watching ≡ false) × (r.children ≡ []))

clean_up-IsSettled :
    (alive : ℕ → Bool) (remains : Bool) (s : Parent)
    → IsSingle s
    → s.watching ≡ false
    → IsSettled (clean_up alive remains s)
unfolding clean_up reap
clean_up-IsSettled alive remains s h w =
    rw (clean_up, lt→ltb 0 s.child_pid h.0) (inr (w, (reap-IsAlone s h).1))

IsSettled_lem :
    (alive : ℕ → Bool) (remains : Bool) (s : Parent)
    → IsSingle s
    → IsSettled (if s.watching then s else clean_up alive remains s)
IsSettled_lem alive remains s h = elim (Bool-cases s.watching) [
  | inl w ↦
      subst IsSettled (sym (ap (λ b. if b then s else clean_up alive remains s) w))
        (inl (w, only w h.1))
  | inr w ↦
      subst IsSettled (sym (ap (λ b. if b then s else clean_up alive remains s) w))
        (clean_up-IsSettled alive remains s h w)
]
  where
    only :
        s.watching ≡ true
        → (s.children ≡ s.child_pid ∷ []) ⊎ ((s.watching ≡ false) × (s.children ≡ []))
        → s.children ≡ s.child_pid ∷ []
    only w (inl c) = c
    only w (inr (v, c)) = cc

-- Whatever signals come, however the children end and whatever the system calls answer, provided
-- that `fork` gives positive numbers: while the parent watches, the child that it last made is its
-- only child, and when it has cleaned up, it has waited for every child.
pub supervise-IsSettled :
    (pid : ℕ) (es : List Event) (alive : ℕ → Bool) (remains : Bool)
    → 0 < pid
    → All Forks es
    → IsSettled (supervise pid es alive remains)
unfolding supervise first_child
supervise-IsSettled pid es alive remains p f =
    IsSettled_lem alive remains (watch es (first_child pid))
      (watch-IsSingle es (first_child pid) f (p, inl refl))

-- When the child has ended normally, the parent still sends a signal to its number, which by then no
-- longer belongs to a child: the parent's children are none before the signal.
pub watch_round-stale :
    (e : Round) (s : Parent) (alive : ℕ → Bool) (remains : Bool)
    → s.children ≡ s.child_pid ∷ []
    → 0 < s.child_pid
    → e.wait ≡ reaped (exited 0)
    → e.signal ≡ none
    → ((watch_round e s).children ≡ [])
      × (rest : List Action) × ((clean_up alive remains (watch_round e s)).log
          ≡ s.log ++ kills s.child_pid 15 ∷ rest)
unfolding watch_round after_child maybe_signal clean_up leave reap is_normal
watch_round-stale e s alive remains c p w n =
    let left : watch_round e s ≡ leave (reap s) =
      rw (watch_round, w, after_child, is_normal, n, maybe_signal) refl in
    subst
      (λ r.
        (r.children ≡ [])
        × (rest : List Action) × ((clean_up alive remains r).log
            ≡ s.log ++ kills s.child_pid 15 ∷ rest))
      (sym left)
      (
        ap (keep_if (λ q. not (q == s.child_pid))) c ∙ keep_if_self s.child_pid,
        poll alive 0 5
            ++ (if remains
                then kills s.child_pid 9 ∷ waits s.child_pid ∷ []
                else waits s.child_pid ∷ []),
        rw (clean_up, lt→ltb 0 s.child_pid p) refl,
      )
