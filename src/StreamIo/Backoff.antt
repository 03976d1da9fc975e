-- ===== src/StreamIo/Backoff.antt =====
-- The waits between the attempts to open a stream.
use native.Mathlib.Nat.{pow-le-pow_right}
use frame_processor.Base.{
  ℕ, zero, suc, ◌+◌, ◌%◌, ◌^◌, ◌≤◌, ltb, Bool, false, List, [], ◌∷◌, ◌++◌, ◌≡◌, refl, ap, ap₂, inl,
  inr, subst, ◌∙◌, sym, append_assoc, append-nil, if◌then◌else◌, if_both, replicate, Bool-cases,
  arith, All, All-append, ltb→lt,
}
use frame_processor.StreamIo.Connect.{
  Attempt, no_context, opened, refused, Connection, max_retries, unconnected, attempt, connect,
}

-- The wait after the refusal number `k`, counted from zero: seven refusals make a cycle.
abbrev pub wait_of : ℕ → ℕ
wait_of k = if ltb 5 (k % 7) then 30 else 2 ^ (k % 7)

-- The waits after `n` refusals that begin with number `k`.
abbrev pub waits_from : ℕ → ℕ → List ℕ
waits_from k zero = []
waits_from k (suc n) = wait_of k ∷ waits_from (k + 1) n

-- The state before the refusal number `k`.
at_refusal : ℕ → List ℕ → Connection
at_refusal k ws = record { current_retry = k % 7; connected = false; stopped = false; waits = ws }

attempt-refused :
    (k : ℕ) (ws : List ℕ)
    → attempt refused (at_refusal k ws) ≡ at_refusal (k + 1) (ws ++ wait_of k ∷ [])
unfolding attempt at_refusal
attempt-refused k ws = elim (Bool-cases (ltb 5 (k % 7))) [
  | inl h ↦ let last : (k + 1) % 7 ≡ 0 = omega (arith, ltb→lt 5 (k % 7) h) in rw (h, last) refl
  | inr h ↦ let next : (k + 1) % 7 ≡ k % 7 + 1 = ground arith in rw (h, next) refl
]

connect-refused :
    (n k : ℕ) (ws : List ℕ)
    → connect (replicate n (false, refused)) (at_refusal k ws)
      ≡ at_refusal (k + n) (ws ++ waits_from k n)
unfolding connect at_refusal
connect-refused zero k ws =
    let same : k + 0 ≡ k = omega arith in rw (connect, same, append-nil ws) refl
connect-refused (suc n) k ws =
    let next : k + 1 + n ≡ k + suc n = omega arith in
    let waited = append_assoc ws (wait_of k ∷ []) (waits_from (k + 1) n) in
    ap (connect (replicate n (false, refused))) (attempt-refused k ws)
    ∙ (connect-refused n (k + 1) (ws ++ wait_of k ∷ []) ∙ ap₂ at_refusal next waited)

-- If the first `n` attempts of a connection are refused and no stop is requested, the waits after
-- them are 1, 2, 4, 8, 16, 32 and 30 seconds, over and over, and it is not connected.
connect-waits_from :
    (n : ℕ)
    → connect (replicate n (false, refused)) unconnected
      ≡ record { current_retry = n % 7; connected = false; stopped = false; waits = waits_from 0 n }
unfolding at_refusal
connect-waits_from n =
    let whole : 0 + n ≡ n = omega arith in
    connect-refused n 0 [] ∙ ap (λ k. at_refusal k (waits_from 0 n)) whole

-- The waits and the counter of a connection are small.
abbrev pub IsBounded : Connection → Type 0
IsBounded c = (c.current_retry ≤ 6) × All (λ w. w ≤ 32) c.waits

waited-IsBounded :
    (w r : ℕ) (c : Connection)
    → w ≤ 32
    → r ≤ 6
    → IsBounded c
    → IsBounded (record c { current_retry = r; waits = c.waits ++ w ∷ [] })
waited-IsBounded w r c h k (p, q) = (k, All-append (λ w. w ≤ 32) c.waits (w ∷ []) q (h, tt))

attempt-IsBounded : (a : Attempt) (c : Connection) → IsBounded c → IsBounded (attempt a c)
unfolding attempt
attempt-IsBounded no_context c h = waited-IsBounded 1 c.current_retry c (omega arith) h.0 h
attempt-IsBounded opened c h = h
attempt-IsBounded refused c h = elim (Bool-cases (ltb max_retries c.current_retry)) [
  | inl l ↦
      subst IsBounded (sym (ap chosen l)) (waited-IsBounded 30 0 c (omega arith) (omega arith) h)
  | inr l ↦
      let small : c.current_retry ≤ 5 = ground arith in
      subst IsBounded (sym (ap chosen l)) (
        waited-IsBounded (2 ^ c.current_retry) (c.current_retry + 1) c
          (pow-le-pow_right {n = 2} (omega arith) small) (omega (arith, small)) h)
]
  where
    chosen : Bool → Connection
    chosen b = if b then record c { current_retry = 0; waits = c.waits ++ 30 ∷ [] } else record c {
      current_retry = c.current_retry + 1;
      waits = c.waits ++ 2 ^ c.current_retry ∷ [];
    }

-- Whatever the attempts give and whenever a stop is requested, no wait of a connection is longer
-- than 32 seconds, and its counter stays below seven.
pub connect-IsBounded :
    (es : List (Bool × Attempt)) (c : Connection) → IsBounded c → IsBounded (connect es c)
unfolding connect
connect-IsBounded [] c h = h
connect-IsBounded ((stop_requested, a) ∷ es) c h = if_both IsBounded c.connected h (
    if_both IsBounded stop_requested h
      (connect-IsBounded es (attempt a c) (attempt-IsBounded a c h)))
