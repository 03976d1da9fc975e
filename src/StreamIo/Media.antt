-- ===== src/StreamIo/Media.antt =====
-- What the reading of a stream uses of FFmpeg and of `double`, which are not in the repository.
use frame_processor.Base.{ℤ, Bool, List, Option, Text}
use frame_processor.Types.{Frame, Rational, Double, Pull}

-- What the program reads of an `AVStream`.
pub record VideoStream : Type 0 where
  pub width : ℤ
  pub height : ℤ
  pub format : ℤ
  pub sample_aspect_ratio : Rational
  pub time_base : Rational
  pub avg_frame_rate : Rational
  pub r_frame_rate : Rational

-- A graph with its source and its sinks, a decoder, and the calls on them; each call gives the object
-- that it leaves. The `int` of `truncate` is unspecified where the value is out of range.
pub record Media : Type 1 where
  pub Graph : Type 0
  pub Sink : Type 0
  pub Decoder : Type 0
  pub Packet : Type 0
  pub av_q2d : Rational → Double
  pub is_positive : Double → Bool
  pub divide : Double → Double → Double
  pub truncate : Double → ℤ
  pub empty_graph : Graph
  pub create_source : Graph → Text → Option Graph
  pub create_sink : Graph → Text → Option (Sink × Graph)
  pub set_pix_fmts : Graph → Sink → ℤ → Graph
  -- The named inputs, in their order.
  pub parse_ptr : Graph → Text → List (Text × Sink) → Option Graph
  pub configure : Graph → Option Graph
  pub add_frame : Graph → Frame → Bool × Graph
  -- A null frame, which ends the source.
  pub end_source : Graph → Graph
  pub get_frame : Graph → Sink → Pull × Graph
  pub time_base : Graph → Sink → Rational
  pub send_packet : Decoder → Packet → Bool × Decoder
  pub receive_frame : Decoder → Pull × Decoder
