-- ===== src/StreamIo/Total.antt =====
-- The thread of a stream neither waits for ever in an inner loop nor throws, and what it pushes.
use frame_processor.Base.{
  ℕ, zero, suc, ◌<◌, Bool, true, false, not, ◌||◌, List, [], ◌∷◌, ◌++◌, ◌≡◌, refl, sym, subst, ap,
  ◌∙◌, ◌⊎◌, inl, inr, some, Text, Dict, find, text_key, All, All-append, Option-cases, if_both,
  arith,
}
use frame_processor.Base.Runs.{Run, done, ◌>>=◌, Returns, Returns-bind}
use frame_processor.Types.{
  Frame, DecodedFrame, EventConfig, StreamConfig, Pull, again, end_of_file, failed, got,
}
use frame_processor.StreamIo.Media.{Media}
use frame_processor.StreamIo.Sinks.{Has}
use frame_processor.StreamIo.Reading.{
  Session, sampled_frame, pull_sink, pull_events, sample, decode, Reading, read_failed, foreign,
  packet, read_packet, read_packets, flush_sink, flush_events, flush_graph,
}

-- A decoder and a sink have finitely many frames, less than the fuel, and hand out each once.
pub record IsDraining (av : Media) (fuel : ℕ) : Type 0 where
  pub in_sink : av.Graph → av.Sink → ℕ
  pub in_decoder : av.Decoder → ℕ
  pub in_sink-lt : (g : av.Graph) (s : av.Sink) → in_sink g s < fuel
  pub in_decoder-lt : (d : av.Decoder) → in_decoder d < fuel
  pub get_frame-lt :
      (g : av.Graph) (s : av.Sink) (f : Frame)
      → (av.get_frame g s).0 ≡ got f
      → in_sink (av.get_frame g s).1 s < in_sink g s
  pub receive_frame-lt :
      (d : av.Decoder) (f : Frame)
      → (av.receive_frame d).0 ≡ got f
      → in_decoder (av.receive_frame d).1 < in_decoder d

-- An event is one of these.
abbrev pub Occurs : EventConfig → List EventConfig → Type 0
Occurs e [] = ⊥
Occurs e (x ∷ xs) = (x ≡ e) ⊎ Occurs e xs

-- A frame names the stream and one of its events.
abbrev pub IsFrom : StreamConfig → DecodedFrame → Type 0
IsFrom config d = (d.source_config ≡ config) × Occurs d.event_config config.events

module _ (av : Media) (fuel : ℕ) (lib : IsDraining av fuel) (config : StreamConfig)
    (m : Dict Text av.Sink) where
  open av use {Graph, Sink, Decoder, get_frame, receive_frame, add_frame, send_packet}

  -- The sinks are these, and all frames that have been pushed name the stream.
  unfoldable pub Fine : Session av → Type 0
  Fine s = (s.sink_contexts ≡ m) × All (IsFrom config) s.pushed

  -- The same, and the decoder is this one.
  Good : Decoder → Session av → Type 0
  Good d s = (s.decoder ≡ d) × (s.sink_contexts ≡ m) × All (IsFrom config) s.pushed

  pull_sink-Returns :
      (d : Decoder) (n : ℕ) (event : EventConfig) (sink : Sink) (s : Session av)
      → lib.in_sink s.graph sink < n
      → Occurs event config.events
      → Good d s
      → Returns (Good d) (pull_sink av n config event sink s)
  unfolding pull_sink sampled_frame Good
  pull_sink-Returns d zero event sink s h o p = absurd (omega (arith, h))
  pull_sink-Returns d (suc n) event sink s h o (e, p, q) =
      of_answer (pull_sink-Returns d n event sink) (get_frame s.graph sink)
        (λ f. lib.get_frame-lt s.graph sink f)
    where
      of_answer :
          ((t : Session av)
            → lib.in_sink t.graph sink < n
            → Occurs event config.events
            → Good d t
            → Returns (Good d) (pull_sink av n config event sink t))
          → (r : Pull × Graph)
          → ((f : Frame) → r.0 ≡ got f → lib.in_sink r.1 sink < lib.in_sink s.graph sink)
          → Returns (Good d) (elim r.0 as (λ a. Run (Session av)) [
            | again ↦ done (record s { graph = r.1 })
            | end_of_file ↦ done (record s { graph = r.1 })
            | failed ↦ done (record s { graph = r.1 })
            | got f ↦ pull_sink av n config event sink (record s {
              graph = r.1;
              pushed = s.pushed ++ sampled_frame av config event r.1 sink f ∷ [];
            })
          ])
      of_answer later (again, g) l = (e, p, q)
      of_answer later (end_of_file, g) l = (e, p, q)
      of_answer later (failed, g) l = (e, p, q)
      of_answer later (got f, g) l =
          later _ (omega (arith, h, l f refl)) o
            (e, p, All-append (IsFrom config) s.pushed _ q ((refl, o), tt))

  -- Of some events each is an event of the stream and has a sink.
  unfoldable pub Known : List EventConfig → Type 0
  Known events = All (λ e. Occurs e config.events × Has e.name m) events

  pull_events-Returns :
      (d : Decoder) (events : List EventConfig) (s : Session av)
      → Known events
      → Good d s
      → Returns (Good d) (pull_events av fuel config events s)
  unfolding pull_events Known Good
  pull_events-Returns d [] s k h = h
  pull_events-Returns d (event ∷ events) s ((o, (sink, f)), k) h =
      rw (pull_events, found s event sink f h)
        (Returns-bind (Good d) (Good d) (pull_sink av fuel config event sink s)
          (pull_events av fuel config events)
          (pull_sink-Returns d fuel event sink s (lib.in_sink-lt s.graph sink) o h)
          (λ t. pull_events-Returns d events t k))
    where
      found :
          (s : Session av) (event : EventConfig) (sink : Sink)
          → find text_key event.name m ≡ some sink
          → Good d s
          → find text_key event.name s.sink_contexts ≡ some sink
      found s event sink f (e, p, q) = ap (find text_key event.name) p ∙ f

  sample-Returns :
      (d : Decoder) (f : Frame) (s : Session av)
      → Known config.events
      → Good d s
      → Returns (λ r. Good d r.1) (sample av fuel config f s)
  unfolding sample Good
  sample-Returns d f s k h =
      if_both (Returns (λ (r : Bool × Session av). Good d r.1)) (add_frame s.graph f).0
        (Returns-bind (Good d) (λ (r : Bool × Session av). Good d r.1)
          (pull_events av fuel config config.events (record s { graph = (add_frame s.graph f).1 }))
          (λ t. done (true, t))
          (pull_events-Returns d config.events (record s { graph = (add_frame s.graph f).1 }) k h)
          (λ t g. g))
        h

  decode-Returns :
      (n : ℕ) (s : Session av)
      → lib.in_decoder s.decoder < n
      → Known config.events
      → Fine s
      → Returns Fine (decode av fuel n config s)
  unfolding decode Fine Good
  decode-Returns zero s h k g = absurd (omega (arith, h))
  decode-Returns (suc n) s h k g =
      of_answer (decode-Returns n) (receive_frame s.decoder) (λ f. lib.receive_frame-lt s.decoder f)
    where
      of_flag :
          ((t : Session av)
            → lib.in_decoder t.decoder < n
            → Known config.events
            → Fine t
            → Returns Fine (decode av fuel n config t))
          → (more : Bool) (t : Session av) → lib.in_decoder t.decoder < n
          → Fine t
          → Returns Fine (elim more as (λ b. Run (Session av)) [
            | true ↦ decode av fuel n config t
            | false ↦ done t
          ])
      of_flag later true t l v = later t l k v
      of_flag later false t l v = v

      of_answer :
          ((t : Session av)
            → lib.in_decoder t.decoder < n
            → Known config.events
            → Fine t
            → Returns Fine (decode av fuel n config t))
          → (r : Pull × Decoder)
          → ((f : Frame) → r.0 ≡ got f → lib.in_decoder r.1 < lib.in_decoder s.decoder)
          → Returns Fine (elim r.0 as (λ a. Run (Session av)) [
            | again ↦ done (record s { decoder = r.1 })
            | end_of_file ↦ done (record s { decoder = r.1 })
            | failed ↦ done (record s { decoder = r.1; stream_healthy = false })
            | got f ↦ sample av fuel config f (record s { decoder = r.1 }) >>= λ (more, t).
                elim more [ true ↦ decode av fuel n config t | false ↦ done t ]
          ])
      of_answer later (again, d) l = g
      of_answer later (end_of_file, d) l = g
      of_answer later (failed, d) l = g
      of_answer later (got f, d) l =
          Returns-bind (λ (r : Bool × Session av). Good d r.1) Fine
            (sample av fuel config f (record s { decoder = d })) _
            (sample-Returns d f (record s { decoder = d }) k (refl, g.0, g.1))
            (λ (more, t) (e, p, q).
              of_flag later more t
                (subst (λ x. lib.in_decoder x < n) (sym e) (omega (arith, h, l f refl))) (p, q))

  read_packet-Returns :
      (r : Reading av) (s : Session av)
      → Known config.events
      → Fine s
      → Returns Fine (read_packet av fuel config r s)
  unfolding read_packet Fine
  read_packet-Returns read_failed s k h = h
  read_packet-Returns foreign s k h = h
  read_packet-Returns (packet p) s k h =
      if_both (Returns Fine) (send_packet s.decoder p).0
        (decode-Returns fuel (record s { decoder = (send_packet s.decoder p).1 })
          (lib.in_decoder-lt (send_packet s.decoder p).1) k h)
        h

  pub read_packets-Returns :
      (rs : List (Bool × Reading av)) (s : Session av)
      → Known config.events
      → Fine s
      → Returns Fine (read_packets av fuel config rs s)
  unfolding read_packets Fine
  read_packets-Returns [] s k h = h
  read_packets-Returns ((stop_requested, r) ∷ rs) s k h =
      if_both (Returns Fine) (stop_requested || not s.stream_healthy) h (
        Returns-bind Fine Fine (read_packet av fuel config r s) (read_packets av fuel config rs)
          (read_packet-Returns r s k h) (λ t. read_packets-Returns rs t k))

  flush_sink-Returns :
      (n : ℕ) (sink : Sink) (s : Session av)
      → lib.in_sink s.graph sink < n
      → Fine s
      → Returns Fine (flush_sink av n sink s)
  unfolding flush_sink Fine
  flush_sink-Returns zero sink s h g = absurd (omega (arith, h))
  flush_sink-Returns (suc n) sink s h g =
      of_answer (flush_sink-Returns n sink) (get_frame s.graph sink)
        (λ f. lib.get_frame-lt s.graph sink f)
    where
      of_answer :
          ((t : Session av)
            → lib.in_sink t.graph sink < n
            → Fine t
            → Returns Fine (flush_sink av n sink t))
          → (r : Pull × Graph)
          → ((f : Frame) → r.0 ≡ got f → lib.in_sink r.1 sink < lib.in_sink s.graph sink)
          → Returns Fine (elim r.0 as (λ a. Run (Session av)) [
            | again ↦ done (record s { graph = r.1 })
            | end_of_file ↦ done (record s { graph = r.1 })
            | failed ↦ done (record s { graph = r.1 })
            | got f ↦ flush_sink av n sink (record s { graph = r.1 })
          ])
      of_answer later (again, g') l = g
      of_answer later (end_of_file, g') l = g
      of_answer later (failed, g') l = g
      of_answer later (got f, g') l = later _ (omega (arith, h, l f refl)) g

  flush_events-Returns :
      (events : List EventConfig) (s : Session av)
      → Fine s
      → Returns Fine (flush_events av fuel events s)
  unfolding flush_events
  flush_events-Returns [] s h = h
  flush_events-Returns (event ∷ events) s h =
      elim (Option-cases (find text_key event.name s.sink_contexts)) [
        | inl n ↦ rw (flush_events, n) (flush_events-Returns events s h)
        | inr (sink, n) ↦
            rw (flush_events, n)
              (Returns-bind Fine Fine (flush_sink av fuel sink s) (flush_events av fuel events)
                (flush_sink-Returns fuel sink s (lib.in_sink-lt s.graph sink) h)
                (λ t. flush_events-Returns events t))
      ]

  pub flush_graph-Returns : (s : Session av) → Fine s → Returns Fine (flush_graph av fuel config s)
  unfolding flush_graph Fine
  flush_graph-Returns s h =
      flush_events-Returns config.events (record s { graph = av.end_source s.graph }) h
