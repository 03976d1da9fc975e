-- ===== src/Base/Totals.antt =====
-- Sums over lists and over the values of maps.
use Prim.Native.Nat.{ℕ, zero, suc, ◌+◌}
use mathlib.Core.Path.{◌≡◌, refl, subst}
use mathlib.Core.Logic.{◌⊎◌, inl, inr}
use mathlib.Core.List.{List, [], ◌∷◌, ◌++◌, map}
use mathlib.Core.Option.{Option, none, some}
use native.Mathlib.Omega.{arith}
use frame_processor.Base.Tests.{Bool-cases, Option-cases}
use frame_processor.Base.Lists.{All}
use frame_processor.Base.Maps.{Key, Dict, find, place, update, insert, erase, Unique}

module _ {ℓ} {A : Type ℓ} where
  abbrev pub get_elem? : List A → ℕ → Option A
  get_elem? [] i = none
  get_elem? (x ∷ xs) zero = some x
  get_elem? (x ∷ xs) (suc i) = get_elem? xs i

  -- A write out of bounds changes nothing.
  abbrev pub set : List A → ℕ → A → List A
  set [] i v = []
  set (x ∷ xs) zero v = v ∷ xs
  set (x ∷ xs) (suc i) v = x ∷ set xs i v

  module _ (w : A → ℕ) where
    abbrev pub total : List A → ℕ
    total [] = 0
    total (x ∷ xs) = w x + total xs

    pub total-append : (xs ys : List A) → total (xs ++ ys) ≡ total xs + total ys
    total-append [] ys = omega arith
    total-append (x ∷ xs) ys = omega (arith, total-append xs ys)

    pub total-set :
        (xs : List A) (i : ℕ) (x v : A)
        → get_elem? xs i ≡ some x
        → total (set xs i v) + w x ≡ total xs + w v
    total-set [] i x v h = ground arith
    total-set (y ∷ xs) zero x v h = ground arith
    total-set (y ∷ xs) (suc i) x v h = omega (arith, total-set xs i x v h)

  -- A statement of all items, at one that is read and after a write.
  pub get_elem-All {κ} :
      (P : A → Type κ) (xs : List A) (i : ℕ) (x : A) → All P xs → get_elem? xs i ≡ some x → P x
  get_elem-All P [] i x h e = cc
  get_elem-All P (y ∷ xs) zero x h e = let same : y ≡ x = cc in subst P same h.0
  get_elem-All P (y ∷ xs) (suc i) x h e = get_elem-All P xs i x h.1 e

  pub set-All {κ} :
      (P : A → Type κ) (xs : List A) (i : ℕ) (v : A) → All P xs → P v → All P (set xs i v)
  set-All P [] i v h p = tt
  set-All P (x ∷ xs) zero v h p = (p, h.1)
  set-All P (x ∷ xs) (suc i) v h p = (h.0, set-All P xs i v h.1 p)

  pub map-All {κ μ} :
      {B : Type κ} (P : B → Type μ) (f : A → B) (xs : List A)
      → All P (map f xs)
      → All (λ x. P (f x)) xs
  map-All P f [] h = tt
  map-All P f (x ∷ xs) h = (h.0, map-All P f xs h.1)

  pub append-All {κ} : (P : A → Type κ) (xs ys : List A) → All P (xs ++ ys) → All P xs × All P ys
  append-All P [] ys h = (tt, h)
  append-All P (x ∷ xs) ys h = let (a, b) = append-All P xs ys h.1 in ((h.0, a), b)

  -- A list is empty, or it has a head.
  pub list_cases : (xs : List A) → (xs ≡ []) ⊎ ((x : A) × (ys : List A) × (xs ≡ x ∷ ys))
  list_cases [] = inl refl
  list_cases (x ∷ xs) = inr (x, xs, refl)

  abbrev pub optional : (A → ℕ) → Option A → ℕ
  optional w none = 0
  optional w (some a) = w a

pub total-map {ℓ κ} :
    {A : Type ℓ} {B : Type κ} (w : B → ℕ) (f : A → B) (xs : List A)
    → total w (map f xs) ≡ total (λ x. w (f x)) xs
total-map w f [] = refl
total-map w f (x ∷ xs) = omega (arith, total-map w f xs)

module _ {ℓ κ} {K : Type ℓ} {V : Type κ} (key : Key K) (w : V → ℕ) where
  -- The sum of the values of a map.
  abbrev pub total_values : Dict K V → ℕ
  total_values [] = 0
  total_values ((k, v) ∷ m) = w v + total_values m

  total-place :
      (k : K) (v : V) (m : Dict K V) → total_values (place key k v m) ≡ total_values m + w v
  unfolding place
  total-place k v [] = omega arith
  total-place k v ((j, u) ∷ m) = elim (Bool-cases (key.lt k j)) [
    | inl e ↦ rw e (omega arith)
    | inr e ↦ rw e (omega (arith, total-place k v m))
  ]

  total-update_missing :
      (k : K) (v : V) (m : Dict K V)
      → find key k m ≡ none
      → total_values (update key k v m) ≡ total_values m
  unfolding find update
  total-update_missing k v [] h = refl
  total-update_missing k v ((j, u) ∷ m) h = ground (arith, total-update_missing k v m)

  total-update :
      (k : K) (v u : V) (m : Dict K V)
      → Unique key m
      → find key k m ≡ some u
      → total_values (update key k v m) + w u ≡ total_values m + w v
  unfolding find update
  total-update k v u [] n h = ground arith
  total-update k v u ((j, t) ∷ m) n h =
      ground (arith, total-update k v u m, total-update_missing k v m, key.eq_iff j k)

  -- A value that is put under a key takes the place of the one that was there.
  pub total-insert :
      (k : K) (v : V) (m : Dict K V)
      → Unique key m
      → total_values (insert key k v m) + optional w (find key k m) ≡ total_values m + w v
  unfolding insert
  total-insert k v m n = elim (Option-cases (find key k m)) [
    | inl e ↦ rw (e, insert) (omega (arith, total-place k v m))
    | inr (u, e) ↦ rw (e, insert) (total-update k v u m n e)
  ]

  total-erase_missing :
      (k : K) (m : Dict K V) → find key k m ≡ none → total_values (erase key k m) ≡ total_values m
  unfolding find erase
  total-erase_missing k [] h = refl
  total-erase_missing k ((j, u) ∷ m) h = ground (arith, total-erase_missing k m)

  pub total-erase :
      (k : K) (m : Dict K V)
      → Unique key m
      → total_values (erase key k m) + optional w (find key k m) ≡ total_values m
  unfolding find erase
  total-erase k [] n = omega arith
  total-erase k ((j, u) ∷ m) n =
      ground (arith, total-erase k m, total-erase_missing k m, key.eq_iff j k)
