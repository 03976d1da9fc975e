-- ===== src/StreamIo/Lifetime.antt =====
-- The thread of a stream over any number of rounds.
use frame_processor.Base.{
  ℕ, ◌+◌, Bool, true, false, not, ◌||◌, ◌&&◌, List, [], ◌∷◌, ◌≡◌, refl, ap, inl, inr, Option, none,
  some, Text, Dict, All, Option-cases, if_both,
}
use frame_processor.Base.Runs.{Run, done, throws, Returns, Returns-bind}
use frame_processor.Types.{EventConfig, StreamConfig}
use frame_processor.StreamIo.Connect.{unconnected, connect}
use frame_processor.StreamIo.Media.{VideoStream, Media}
use frame_processor.StreamIo.Graph.{
  Allocations, sink_name, Sinks, Setup, ready, refused, crashed, setup_multi_output_filter_graph,
  add_sinks, link, source_args, sampling_spec,
}
use frame_processor.StreamIo.Sinks.{Has, AllHave, IfReady, setup-AllHave}
use frame_processor.StreamIo.Reading.{Session, read_packets, flush_graph}
use frame_processor.StreamIo.Thread.{
  Thread, return, Opening, no_info, unusable, opened, Cycle, session, read_stream, open_stream,
  cycle, cycle_from, finish_stream, leave_stream, run_stream,
}
use frame_processor.StreamIo.Total.{
  IsDraining, Occurs, IsFrom, Fine, Known, read_packets-Returns, flush_graph-Returns,
}

Occurs-each : (es : List EventConfig) → All (λ e. Occurs e es) es
Occurs-each [] = tt
Occurs-each (x ∷ xs) = (inl refl, weaken xs (Occurs-each xs))
  where
    weaken : (ys : List EventConfig) → All (λ e. Occurs e xs) ys → All (λ e. Occurs e (x ∷ xs)) ys
    weaken [] h = tt
    weaken (y ∷ ys) (h, hs) = (inr h, weaken ys hs)

All-both :
    (P Q : EventConfig → Type 0) (es : List EventConfig)
    → All P es
    → All Q es
    → All (λ e. P e × Q e) es
All-both P Q [] h k = tt
All-both P Q (e ∷ es) (h, hs) (k, ks) = ((h, k), All-both P Q es hs ks)

-- The list's entries after the first are allocated.
abbrev pub NextAllocated : Allocations → Type 0
NextAllocated a = (i : ℕ) → a.next i ≡ true

module _ (av : Media) where
  -- No null pointer is followed.
  abbrev NoCrash : Setup (Sinks av) → Type 0
  NoCrash (ready s) = Unit
  NoCrash refused = Unit
  NoCrash crashed = ⊥

  add_sinks-NoCrash :
      (a : Allocations) (v : VideoStream) (i : ℕ) (is_null : Bool) (es : List EventConfig)
      (s : Sinks av)
      → NextAllocated a
      → is_null ≡ false
      → NoCrash (add_sinks av a v i is_null es s)
  unfolding add_sinks
  add_sinks-NoCrash a v i is_null [] s h n = tt
  add_sinks-NoCrash a v i is_null (e ∷ es) s h n =
      elim (Option-cases (av.create_sink s.graph (sink_name i))) [
        | inl k ↦ rw (add_sinks, k) tt
        | inr ((sink, g), k) ↦
            rw (add_sinks, k, n)
              (add_sinks-NoCrash a v (i + 1) (not (a.next i)) es _ h (ap not (h i)))
      ]

  link-NoCrash : (spec : Text) (s : Sinks av) → NoCrash (link av spec s)
  unfolding link
  link-NoCrash spec s = elim (Option-cases (av.parse_ptr s.graph spec s.inputs)) [
    | inl n ↦ rw (link, n) tt
    | inr (g, n) ↦ elim (Option-cases (av.configure g)) [
      | inl k ↦ rw (link, n, k) tt
      | inr (g', k) ↦ rw (link, n, k) tt
    ]
  ]

  setup-NoCrash :
      (a : Allocations) (v : VideoStream) (es : List EventConfig)
      → NextAllocated a
      → NoCrash (setup_multi_output_filter_graph av a v es)
  unfolding setup_multi_output_filter_graph
  setup-NoCrash a v es h = if_both NoCrash (not (a.outputs && a.inputs)) tt (
      if_both NoCrash (not a.graph) tt
        (of_source (av.create_source av.empty_graph (source_args v))))
    where
      of_sinks :
          (m : Setup (Sinks av))
          → NoCrash m
          → NoCrash (elim m as (λ m. Setup (Sinks av)) [
            | ready s ↦ link av (sampling_spec av v es) s
            | refused ↦ refused
            | crashed ↦ crashed
          ])
      of_sinks (ready s) k = link-NoCrash (sampling_spec av v es) s
      of_sinks refused k = tt
      of_sinks crashed k = k

      of_source :
          (o : Option av.Graph)
          → NoCrash (elim o as (λ o. Setup (Sinks av)) [
            | none ↦ refused
            | some g ↦
                elim (add_sinks av a v 0 false es
                  (record { graph = g; sink_contexts = []; inputs = [] })) [
                    | ready s ↦ link av (sampling_spec av v es) s
                    | refused ↦ refused
                    | crashed ↦ crashed
                  ]
          ])
      of_source none = tt
      of_source (some g) =
          let start : Sinks av = record { graph = g; sink_contexts = []; inputs = [] } in
          of_sinks (add_sinks av a v 0 false es start)
            (add_sinks-NoCrash a v 0 false es start h refl)

  -- All frames of a thread name its stream and one of its events.
  abbrev pub Names : StreamConfig → Thread → Type 0
  Names config t = All (IsFrom config) t.frames

  module _ (fuel : ℕ) (lib : IsDraining av fuel) (config : StreamConfig) where
    read_stream-Names :
        (c : Cycle av) (d : av.Decoder) (s : Sinks av) (t : Thread)
        → AllHave av config.events s
        → Names config t
        → Returns (Names config) (read_stream av fuel config c d s t)
    unfolding read_stream leave_stream finish_stream session Fine Known
    read_stream-Names c d s t h k =
        Returns-bind Good (Names config) (read_packets av fuel config c.readings first) _
          (read_packets-Returns av fuel lib config m c.readings first known (refl, k))
          (λ s' g.
            if_both (Returns (Names config)) s'.left
              (Returns-bind Good (Names config) (flush_graph av fuel config s') _
                (flush_graph-Returns av fuel lib config m s' g) (λ s'' (p, q). q))
              g.1)
      where
        m : Dict Text av.Sink
        m = s.sink_contexts

        Good : Session av → Type 0
        Good = Fine av fuel lib config m

        first : Session av
        first = session av d s t.frames

        known : Known av fuel lib config m config.events
        known =
            All-both (λ e. Occurs e config.events) (λ e. Has e.name m) config.events
              (Occurs-each config.events) h

    open_stream-Names :
        (c : Cycle av) (t : Thread)
        → NextAllocated c.allocations
        → Names config t
        → Returns (Names config) (open_stream av fuel config c t)
    unfolding open_stream return
    open_stream-Names c t a h = of_opening c.opening
      where
        of_setup :
            (d : av.Decoder) (m : Setup (Sinks av))
            → NoCrash m
            → IfReady av (AllHave av config.events) m
            → Returns (Names config) (elim m as (λ m. Run Thread) [
              | refused ↦ done (return t)
              | crashed ↦ throws
              | ready s ↦ read_stream av fuel config c d s t
            ])
        of_setup d (ready s) n k = read_stream-Names c d s t k h
        of_setup d refused n k = h
        of_setup d crashed n k = n

        of_opening :
            (o : Opening av)
            → Returns (Names config) (elim o as (λ o. Run Thread) [
              | no_info ↦ done t
              | unusable ↦ done (return t)
              | opened v d ↦
                  elim (setup_multi_output_filter_graph av c.allocations v config.events) [
                    | refused ↦ done (return t)
                    | crashed ↦ throws
                    | ready s ↦ read_stream av fuel config c d s t
                  ]
            ])
        of_opening no_info = h
        of_opening unusable = h
        of_opening (opened v d) =
            of_setup d (setup_multi_output_filter_graph av c.allocations v config.events)
              (setup-NoCrash c.allocations v config.events a)
              (setup-AllHave av c.allocations v config.events)

    cycle-Names :
        (c : Cycle av) (t : Thread)
        → NextAllocated c.allocations
        → Names config t
        → Returns (Names config) (cycle av fuel config c t)
    unfolding cycle cycle_from return
    cycle-Names c t a h =
        let k = connect c.attempts unconnected in
        if_both (Returns (Names config)) c.stop_before h (
          if_both (Returns (Names config)) (not (k.connected || k.stopped)) h (
            if_both (Returns (Names config)) (c.stop_connected || k.stopped) h
              (open_stream-Names c t a h)))

    -- If the library hands out fewer frames at a time than the fuel, and the lists of inputs can be
    -- allocated, then over any rounds of the loops over connections, attempts and packets, the thread
    -- of a stream does not throw, the fuel is enough for its loops over decoder, graph and sinks, and
    -- each frame that it pushes names its stream and one of its events.
    pub run_stream-Returns :
        (cs : List (Cycle av)) (t : Thread)
        → All (λ c. NextAllocated c.allocations) cs
        → Names config t
        → Returns (Names config) (run_stream av fuel config cs t)
    unfolding run_stream
    run_stream-Returns [] t a h = h
    run_stream-Returns (c ∷ cs) t (a, as') h =
        if_both (Returns (Names config)) (t.returned || t.waiting) h (
          Returns-bind (Names config) (Names config) (cycle av fuel config c t)
            (run_stream av fuel config cs) (cycle-Names c t a h)
            (λ t' k. run_stream-Returns cs t' as' k))
