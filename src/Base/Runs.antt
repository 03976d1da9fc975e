-- ===== src/Base/Runs.antt =====
-- Code that can throw, and loops that take fuel.

-- The result, an exception that leaves the code, or the fuel is used up.
pub data Run {ℓ} (A : Type ℓ) : Type ℓ where
  done : A → Run A
  throws stuck : Run A

infixl 5 ◌>>=◌
abbrev pub ◌>>=◌ {ℓ κ} : {A : Type ℓ} {B : Type κ} → Run A → (A → Run B) → Run B
done a >>= f = f a
throws >>= f = throws
stuck >>= f = stuck

-- The code returns, and with a result of this kind.
abbrev pub Returns {ℓ} : {A : Type ℓ} → (A → Type 0) → Run A → Type 0
Returns P (done a) = P a
Returns P throws = ⊥
Returns P stuck = ⊥

pub Returns-bind {ℓ} :
    {A B : Type ℓ} (P : A → Type 0) (Q : B → Type 0) (m : Run A) (f : A → Run B)
    → Returns P m
    → ((a : A) → P a → Returns Q (f a))
    → Returns Q (m >>= f)
Returns-bind P Q (done a) f h k = k a h
Returns-bind P Q throws f h k = absurd h
Returns-bind P Q stuck f h k = absurd h
