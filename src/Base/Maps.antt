-- ===== src/Base/Maps.antt =====
-- `std::map`: entries in the order of their keys, each key once.
use mathlib.Core.Path.{◌≡◌, refl, sym, subst}
use mathlib.Core.Logic.{◌↔◌, inl, inr}
use mathlib.Core.Bool.{Bool, true}
use mathlib.Core.List.{List, [], ◌∷◌}
use mathlib.Core.Option.{Option, none, some}
use native.Mathlib.Omega.{arith}
use frame_processor.Base.Strings.{Text, text_eq, text_lt, text_eq_iff}
use frame_processor.Base.Tests.{if◌then◌else◌, Bool-cases, Option-cases}

-- A key type: its equality and the order in which a map walks it.
pub record Key {ℓ} (K : Type ℓ) : Type ℓ where
  pub eq : K → K → Bool
  pub lt : K → K → Bool
  pub eq_iff : (a b : K) → (eq a b ≡ true) ↔ (a ≡ b)

abbrev pub Dict {ℓ κ} : Type ℓ → Type κ → Type (ℓ ⊔ κ)
Dict K V = List (K × V)

-- The operations take the key's tests; a map of the program lists its keys in order and once.
module _ {ℓ κ} {K : Type ℓ} {V : Type κ} (key : Key K) where
  unfoldable pub find : K → Dict K V → Option V
  find k [] = none
  find k ((j, v) ∷ m) = if key.eq j k then some v else find k m

  -- A new key goes in front of the first larger one.
  unfoldable pub place : K → V → Dict K V → Dict K V
  place k v [] = (k, v) ∷ []
  place k v ((j, w) ∷ m) = if key.lt k j then (k, v) ∷ (j, w) ∷ m else (j, w) ∷ place k v m

  unfoldable pub update : K → V → Dict K V → Dict K V
  update k v [] = []
  update k v ((j, w) ∷ m) = (j, if key.eq j k then v else w) ∷ update k v m

  -- `m[k] = v`.
  unfoldable pub insert : K → V → Dict K V → Dict K V
  unfolding find place update
  insert k v m = elim (find k m) [ none ↦ place k v m | some w ↦ update k v m ]

  -- `m.erase(k)`.
  unfoldable pub erase : K → Dict K V → Dict K V
  erase k [] = []
  erase k ((j, w) ∷ m) = if key.eq j k then erase k m else (j, w) ∷ erase k m

  -- No key stands twice.
  abbrev pub Unique : Dict K V → Type κ
  Unique [] = Unit
  Unique ((k, v) ∷ m) = (find k m ≡ none) × Unique m

  find-place :
      (k j : K) (v : V) (m : Dict K V)
      → find k m ≡ none
      → find j (place k v m) ≡ (if key.eq k j then some v else find j m)
  unfolding find place
  find-place k j v [] h = refl
  find-place k j v ((i, w) ∷ m) h =
      ground (arith, key.eq_iff k j, key.eq_iff i k, key.eq_iff i j, find-place k j v m)

  find-update :
      (k j : K) (v : V) (m : Dict K V)
      → find j (update k v m)
        ≡ elim (find j m) [ none ↦ none | some w ↦ some (if key.eq k j then v else w) ]
  unfolding find update
  find-update k j v [] = refl
  find-update k j v ((i, w) ∷ m) =
      ground (arith, key.eq_iff k j, key.eq_iff i k, key.eq_iff i j, find-update k j v m)

  pub find-insert :
      (k j : K) (v : V) (m : Dict K V)
      → find j (insert k v m) ≡ (if key.eq k j then some v else find j m)
  unfolding insert
  find-insert k j v m = ground (arith, find-place k j v m, find-update k j v m, key.eq_iff k j)

  pub find-erase :
      (k j : K) (m : Dict K V) → find j (erase k m) ≡ (if key.eq k j then none else find j m)
  unfolding find erase
  find-erase k j [] = ground arith
  find-erase k j ((i, w) ∷ m) =
      ground (arith, key.eq_iff k j, key.eq_iff i k, key.eq_iff i j, find-erase k j m)

  place-Unique : (k : K) (v : V) (m : Dict K V) → find k m ≡ none → Unique m → Unique (place k v m)
  unfolding find place
  place-Unique k v [] h u = (refl, tt)
  place-Unique k v ((j, w) ∷ m) h u =
      ground (arith, place-Unique k v m, find-place k j v m, key.eq_iff k j, key.eq_iff j k)

  update-Unique : (k : K) (v : V) (m : Dict K V) → Unique m → Unique (update k v m)
  unfolding update
  update-Unique k v [] u = tt
  update-Unique k v ((j, w) ∷ m) u = ground (arith, update-Unique k v m, find-update k j v m)

  pub insert-Unique : (k : K) (v : V) (m : Dict K V) → Unique m → Unique (insert k v m)
  unfolding insert
  insert-Unique k v m u = ground (arith, place-Unique k v m, update-Unique k v m)

  pub erase-Unique : (k : K) (m : Dict K V) → Unique m → Unique (erase k m)
  unfolding erase
  erase-Unique k [] u = tt
  erase-Unique k ((j, w) ∷ m) u = ground (arith, erase-Unique k m, find-erase k j m)

-- A statement of every entry.
module _ {ℓ κ μ} {K : Type ℓ} {V : Type κ} (key : Key K) (P : K → V → Type μ) where
  abbrev pub Entries : Dict K V → Type μ
  Entries [] = Unit
  Entries ((k, v) ∷ m) = P k v × Entries m

  pub find-Entries : (k : K) (v : V) (m : Dict K V) → Entries m → find key k m ≡ some v → P k v
  unfolding find
  find-Entries k v [] h e = cc
  find-Entries k v ((j, w) ∷ m) h e = elim (Bool-cases (key.eq j k)) [
    | inl hit ↦
        let e' : some w ≡ some v = rw hit at e in
        let same : w ≡ v = cc in subst (λ a. P a v) ((key.eq_iff j k).0 hit) (subst (P j) same h.0)
    | inr miss ↦ find-Entries k v m h.1 (rw miss at e)
  ]

  place-Entries : (k : K) (v : V) (m : Dict K V) → P k v → Entries m → Entries (place key k v m)
  unfolding place
  place-Entries k v [] p h = (p, tt)
  place-Entries k v ((j, w) ∷ m) p h = elim (Bool-cases (key.lt k j)) [
    | inl e ↦ rw e (p, h)
    | inr e ↦ rw e (h.0, place-Entries k v m p h.1)
  ]

  update-Entries : (k : K) (v : V) (m : Dict K V) → P k v → Entries m → Entries (update key k v m)
  unfolding update
  update-Entries k v [] p h = tt
  update-Entries k v ((j, w) ∷ m) p h = elim (Bool-cases (key.eq j k)) [
    | inl e ↦ rw e (subst (λ a. P a v) (sym ((key.eq_iff j k).0 e)) p, update-Entries k v m p h.1)
    | inr e ↦ rw e (h.0, update-Entries k v m p h.1)
  ]

  pub insert-Entries :
      (k : K) (v : V) (m : Dict K V) → P k v → Entries m → Entries (insert key k v m)
  unfolding insert
  insert-Entries k v m p h = elim (Option-cases (find key k m)) [
    | inl e ↦ rw (e, insert) (place-Entries k v m p h)
    | inr (w, e) ↦ rw (e, insert) (update-Entries k v m p h)
  ]

  pub erase-Entries : (k : K) (m : Dict K V) → Entries m → Entries (erase key k m)
  unfolding erase
  erase-Entries k [] h = tt
  erase-Entries k ((j, w) ∷ m) h = elim (Bool-cases (key.eq j k)) [
    | inl e ↦ rw e (erase-Entries k m h.1)
    | inr e ↦ rw e (h.0, erase-Entries k m h.1)
  ]

module _ {ℓ κ} {K : Type ℓ} {V : Type κ} (key : Key K) where
  Entries-map {μ ν} :
      (P : K → V → Type μ) (Q : K → V → Type ν) (m : Dict K V)
      → ((k : K) (v : V) → P k v → Q k v)
      → Entries key P m
      → Entries key Q m
  Entries-map P Q [] f h = tt
  Entries-map P Q ((k, v) ∷ m) f h = (f k v h.0, Entries-map P Q m f h.1)

  -- In a map without a double key, each entry is found under its key.
  pub Entries-found : (m : Dict K V) → Unique key m → Entries key (λ k v. find key k m ≡ some v) m
  unfolding find
  Entries-found [] u = tt
  Entries-found ((k, v) ∷ m) u = (
    ground (arith, key.eq_iff k k),
    Entries-map _ _ m (λ j w e. ground (arith, key.eq_iff k j)) (Entries-found m u.1),
  )

-- The keys of a map from texts.
abbrev pub text_key : Key Text
text_key = record { eq = text_eq; lt = text_lt; eq_iff = text_eq_iff }
