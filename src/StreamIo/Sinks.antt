-- ===== src/StreamIo/Sinks.antt =====
-- Every event of a stream has a sink in a graph that is ready.
use frame_processor.Base.{
  ℕ, ◌+◌, Bool, false, not, ◌&&◌, List, [], ◌∷◌, ◌++◌, ◌≡◌, refl, Option, none, some, Text, All,
  Dict, find, insert, find-insert, text_key, text_eq, text_eq_refl, inl, inr, if_both, Option-cases,
  Bool-cases,
}
use frame_processor.Types.{EventConfig}
use frame_processor.StreamIo.Media.{VideoStream, Media}
use frame_processor.StreamIo.Graph.{
  Allocations, Sinks, Setup, ready, refused, crashed, sink_name, preferred, sampling_spec,
  source_args, add_sinks, link, setup_multi_output_filter_graph,
}

-- A name has an entry.
abbrev pub Has {ℓ} : {S : Type ℓ} → Text → Dict Text S → Type ℓ
Has {S} name m = (sink : S) × (find text_key name m ≡ some sink)

Has-insert {ℓ} :
    {S : Type ℓ} (name other : Text) (sink : S) (m : Dict Text S)
    → Has name m
    → Has name (insert text_key other sink m)
Has-insert name other sink m (old, h) = elim (Bool-cases (text_eq other name)) [
  | inl same ↦ (sink, rw (find-insert text_key other name sink m, same) refl)
  | inr apart ↦ (old, rw (find-insert text_key other name sink m, apart) h)
]

Has-insert_self {ℓ} :
    {S : Type ℓ} (name : Text) (sink : S) (m : Dict Text S) → Has name (insert text_key name sink m)
Has-insert_self name sink m =
    (sink, rw (find-insert text_key name name sink m, text_eq_refl name) refl)

module _ (av : Media) where
  open av use {Sink, Graph, create_sink, create_source, empty_graph, parse_ptr, configure}

  -- What is said of the sinks if a step succeeds.
  abbrev pub IfReady : (Sinks av → Type 0) → Setup (Sinks av) → Type 0
  IfReady P (ready s) = P s
  IfReady P refused = Unit
  IfReady P crashed = Unit

  -- Every event has a sink.
  abbrev pub AllHave : List EventConfig → Sinks av → Type 0
  AllHave es s = All (λ e. Has e.name s.sink_contexts) es

  IfReady-map :
      (P Q : Sinks av → Type 0) (m : Setup (Sinks av))
      → ((s : Sinks av) → P s → Q s)
      → IfReady P m
      → IfReady Q m
  IfReady-map P Q (ready s) f p = f s p
  IfReady-map P Q refused f p = tt
  IfReady-map P Q crashed f p = tt

  -- The names that had a sink before have one, and these events too.
  abbrev Extends : List EventConfig → Sinks av → Sinks av → Type 0
  Extends es s t =
      ((name : Text) → Has name s.sink_contexts → Has name t.sink_contexts) × AllHave es t

  add_sinks-Extends :
      (a : Allocations) (v : VideoStream) (i : ℕ) (is_null : Bool) (es : List EventConfig)
      (s : Sinks av)
      → IfReady (Extends es s) (add_sinks av a v i is_null es s)
  unfolding add_sinks
  add_sinks-Extends a v i is_null [] s = (λ name h. h, tt)
  add_sinks-Extends a v i is_null (e ∷ es) s =
      elim (Option-cases (create_sink s.graph (sink_name i))) [
        | inl n ↦ rw (add_sinks, n) tt
        | inr ((sink, g), n) ↦
            let s' : Sinks av = record {
              graph = av.set_pix_fmts g sink (preferred av v);
              sink_contexts = insert text_key e.name sink s.sink_contexts;
              inputs = s.inputs ++ (sink_name i, sink) ∷ [];
            } in
            rw (add_sinks, n)
              (if_both (IfReady (Extends (e ∷ es) s)) is_null tt (
                IfReady-map (Extends es s') (Extends (e ∷ es) s)
                  (add_sinks av a v (i + 1) (not (a.next i)) es s')
                  (λ t (keep, have). (
                    λ name h. keep name (Has-insert name e.name sink s.sink_contexts h),
                    (keep e.name (Has-insert_self e.name sink s.sink_contexts), have),
                  ))
                  (add_sinks-Extends a v (i + 1) (not (a.next i)) es s')))
      ]

  link-AllHave :
      (spec : Text) (es : List EventConfig) (s : Sinks av)
      → AllHave es s
      → IfReady (AllHave es) (link av spec s)
  unfolding link
  link-AllHave spec es s h = elim (Option-cases (parse_ptr s.graph spec s.inputs)) [
    | inl n ↦ rw (link, n) tt
    | inr (g, n) ↦ elim (Option-cases (configure g)) [
      | inl k ↦ rw (link, n, k) tt
      | inr (g', k) ↦ rw (link, n, k) h
    ]
  ]

  -- In a graph that is ready every event has a sink under its name, also where names are the same.
  pub setup-AllHave :
      (a : Allocations) (v : VideoStream) (es : List EventConfig)
      → IfReady (AllHave es) (setup_multi_output_filter_graph av a v es)
  unfolding setup_multi_output_filter_graph
  setup-AllHave a v es = if_both (IfReady (AllHave es)) (not (a.outputs && a.inputs)) tt (
      if_both (IfReady (AllHave es)) (not a.graph) tt
        (of_source (create_source empty_graph (source_args v))))
    where
      of_sinks :
          (m : Setup (Sinks av))
          → IfReady (AllHave es) m
          → IfReady (AllHave es) (elim m as (λ m. Setup (Sinks av)) [
            | ready s ↦ link av (sampling_spec av v es) s
            | refused ↦ refused
            | crashed ↦ crashed
          ])
      of_sinks (ready s) h = link-AllHave (sampling_spec av v es) es s h
      of_sinks refused h = tt
      of_sinks crashed h = tt

      of_source :
          (o : Option Graph)
          → IfReady (AllHave es) (elim o as (λ o. Setup (Sinks av)) [
            | none ↦ refused
            | some g ↦
                elim (add_sinks av a v 0 false es
                  (record { graph = g; sink_contexts = []; inputs = [] })) [
                    | ready s ↦ link av (sampling_spec av v es) s
                    | refused ↦ refused
                    | crashed ↦ crashed
                  ]
          ])
      of_source none = tt
      of_source (some g) =
          let start : Sinks av = record { graph = g; sink_contexts = []; inputs = [] } in
          of_sinks (add_sinks av a v 0 false es start) (
            IfReady-map (Extends es start) (AllHave es) (add_sinks av a v 0 false es start)
              (λ t p. p.1) (add_sinks-Extends a v 0 false es start))
