-- ===== src/System/Reaching.antt =====
-- What the threads can reach from a state.
use frame_processor.Base.{◌≡◌, refl, sym, List, [], ◌∷◌, ◌++◌, Text, subst}
use frame_processor.Worker.Filter.{Avfilter}
use frame_processor.System.Threads.{System, Event, step, run}

module _ (av : Avfilter) (base : Text) where
  open av use {Graph}

  -- Some events lead to a state with the property.
  abbrev pub Reaches : System Graph → (System Graph → Type 0) → Type 0
  Reaches s P = (es : List Event) × P (run av base es s)

  pub run-append :
      (es fs : List Event) (s : System Graph)
      → run av base (es ++ fs) s ≡ run av base fs (run av base es s)
  unfolding run
  run-append [] fs s = refl
  run-append (e ∷ es) fs s = run-append es fs (step av base e s)

  pub reached_here : (P : System Graph → Type 0) (s : System Graph) → P s → Reaches s P
  unfolding run
  reached_here P s p = ([], p)

  pub reached_by :
      (P : System Graph → Type 0) (e : Event) (s : System Graph)
      → Reaches (step av base e s) P
      → Reaches s P
  unfolding run
  reached_by P e s (es, p) = (e ∷ es, p)

  pub reached_then :
      (P Q : System Graph → Type 0) (s : System Graph)
      → Reaches s P
      → ((s' : System Graph) → P s' → Reaches s' Q)
      → Reaches s Q
  reached_then P Q s (es, p) f =
      let (fs, q) = f (run av base es s) p in (es ++ fs, subst Q (sym (run-append es fs s)) q)
