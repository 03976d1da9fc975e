-- ===== src/Fifo/Warnings.antt =====
-- The high water mark warning is rate limited.
use frame_processor.Base.{
  ℕ, ◌+◌, ◌<◌, ◌≡◌, refl, ◌⊎◌, inl, List, [], ◌∷◌, arith, ◌==◌, if◌then◌else◌,
}
use frame_processor.Fifo.{Fifo, Call, pushes, pops, stops, drops, reads_stats, step, warning_period}

-- Each time lies more than a period after the one before it.
abbrev pub Spaced : ℕ → List ℕ → Type 0
Spaced t [] = Unit
Spaced t (u ∷ us) = (t + warning_period < u) × Spaced u us

module _ {ℓ} {A : Type ℓ} where
  -- The times at which a history logs the warning: a call logs it when it moves the time of the last.
  unfoldable pub warnings : List (Call A) → Fifo A → List ℕ
  warnings [] f = []
  warnings (c ∷ cs) f =
      let f' = (step c f).1 in
      let rest = warnings cs f' in
      if f'.last_warning_time == f.last_warning_time then rest else f'.last_warning_time ∷ rest

  step-warns :
      (c : Call A) (f : Fifo A)
      → ((step c f).1.last_warning_time ≡ f.last_warning_time)
        ⊎ (f.last_warning_time + warning_period < (step c f).1.last_warning_time)
  unfolding step
  step-warns (pushes a now) f = ground arith
  step-warns pops f = ground arith
  step-warns stops f = inl refl
  step-warns drops f = inl refl
  step-warns (reads_stats r) f = ground arith

  -- Whatever the calls and the clock's readings, the warnings of a queue are more than ten seconds apart.
  warnings-Spaced : (cs : List (Call A)) (f : Fifo A) → Spaced f.last_warning_time (warnings cs f)
  unfolding warnings
  warnings-Spaced [] f = tt
  warnings-Spaced (c ∷ cs) f = ground (arith, step-warns c f, warnings-Spaced cs (step c f).1)
