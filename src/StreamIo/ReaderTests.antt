-- ===== src/StreamIo/ReaderTests.antt =====
-- A thread that reads a stream with two events through a graph and a decoder that hold one frame, and
-- the theorems there.
use frame_processor.Base.{
  ℕ, ◌<◌, pos, negsuc, true, false, [], ◌∷◌, ◌≡◌, refl, Option, none, some, Text, codes, length,
  insert, find, arith,
}
use frame_processor.Base.Runs.{done, Returns}
use frame_processor.Types.{
  one, Frame, EventConfig, StreamConfig, ProcessingConfig, Pull, again, got,
}
use frame_processor.StreamIo.Connect.{refused, opened, attempt, connect}
use frame_processor.StreamIo.Media.{VideoStream, Media}
use frame_processor.StreamIo.Graph.{
  Allocations, source_args, split_labels, sink_name, is_rate, source_fps, sampling_interval,
  selections, sampling_spec, preferred, add_sinks, link, setup_multi_output_filter_graph,
}
use frame_processor.StreamIo.Reading.{
  sampled_frame, pull_sink, pull_events, sample, decode, foreign, packet, read_failed, read_packet,
  read_packets, flush_sink, flush_events, flush_graph,
}
use frame_processor.StreamIo.Thread as Threads
use frame_processor.StreamIo.Thread.{
  Thread, new_thread, return, Cycle, session, read_stream, open_stream, cycle, cycle_from,
  leave_stream, finish_stream, run_stream,
}
use frame_processor.StreamIo.Total.{IsDraining}
use frame_processor.StreamIo.Lifetime.{Names, run_stream-Returns}

abbrev handed_out : Option Frame → Pull × Option Frame
handed_out none = (again, none)
handed_out (some f) = (got f, none)

-- The doubles stand for one, and every quotient for three.
abbrev small : Media
small = record {
  Graph = Option Frame;
  Sink = ℕ;
  Decoder = Option Frame;
  Packet = Frame;
  av_q2d = λ r. one;
  is_positive = λ d. true;
  divide = λ a b. a;
  truncate = λ d. pos 3;
  empty_graph = none;
  create_source = λ g args. some g;
  create_sink = λ g name. some (length name, g);
  set_pix_fmts = λ g s format. g;
  parse_ptr = λ g spec inputs. some g;
  configure = λ g. some g;
  add_frame = λ g f. (true, some f);
  end_source = λ g. g;
  get_frame = λ g s. handed_out g;
  time_base = λ g s. record { num = pos 1; den = pos 25 };
  send_packet = λ d p. (true, some p);
  receive_frame = handed_out;
}

abbrev count_one : Option Frame → ℕ
count_one none = 0
count_one (some f) = 1

count_one-lt : (g : Option Frame) → count_one g < 2
count_one-lt none = omega arith
count_one-lt (some f) = omega arith

handed_out-lt :
    (g : Option Frame) (f : Frame)
    → (handed_out g).0 ≡ got f
    → count_one (handed_out g).1 < count_one g
handed_out-lt none f h = cc
handed_out-lt (some g) f h = omega arith

small-IsDraining : IsDraining small 2
small-IsDraining = record {
  in_sink = λ g s. count_one g;
  in_decoder = count_one;
  in_sink-lt = λ g s. count_one-lt g;
  in_decoder-lt = count_one-lt;
  get_frame-lt = λ g s. handed_out-lt g;
  receive_frame-lt = handed_out-lt;
}

abbrev untouched : ProcessingConfig
untouched = record {
  scale = record { width = pos 0; height = pos 0 };
  crop = record { x = pos 0; y = pos 0; width = pos 0; height = pos 0 };
}

abbrev event : Text → EventConfig
event name = record {
  id = 0;
  name = name;
  target_fps = one;
  batch_size = pos 8;
  processing = untouched;
}

abbrev two_events : StreamConfig
two_events = record {
  id = pos 4;
  url = codes "rtsp";
  target_fps = one;
  wait_for_keyframe = false;
  enabled = true;
  processing = untouched;
  events = event (codes "door") ∷ event (codes "yard") ∷ [];
}

abbrev video : VideoStream
video = record {
  width = pos 64;
  height = pos 48;
  format = negsuc 0;
  sample_aspect_ratio = record { num = pos 1; den = pos 1 };
  time_base = record { num = pos 1; den = pos 25 };
  avg_frame_rate = record { num = pos 0; den = pos 1 };
  r_frame_rate = record { num = pos 25; den = pos 1 };
}

abbrev picture : Frame
picture = record {
  width = pos 64;
  height = pos 48;
  format = pos 0;
  pts = pos 9;
  plane = λ p o. 0;
  linesize = λ p. pos 64;
  sample_aspect_ratio = record { num = pos 1; den = pos 1 };
}

abbrev plenty : Allocations
plenty = record { outputs = true; inputs = true; graph = true; next = λ i. true }

abbrev connected_once : Cycle small
connected_once = record {
  stop_before = false;
  attempts = (false, refused) ∷ (false, opened) ∷ [];
  stop_connected = false;
  opening = Threads.opened video none;
  allocations = plenty;
  readings =
      (false, foreign)
      ∷ (false, packet picture)
      ∷ (false, read_failed)
      ∷ (false, packet picture)
      ∷ [];
  stop_after = false;
}

spec_of_two :
    sampling_spec small video two_events.events
    ≡ codes
        "[in]split=2[s0][s1];[s0]select='not(mod(n\\,3))'[sink0];[s1]select='not(mod(n\\,3))'[sink1]"
unfolding sampling_spec split_labels selections sampling_interval source_fps is_rate sink_name
spec_of_two = refl

-- The format is not known, so it is left out.
args_of_video : source_args video ≡ codes "width=64:height=48:time_base=1/25:pixel_aspect=1/1"
unfolding source_args
args_of_video = refl

-- One frame is pushed for the first event, whose sink is emptied first; the packet after the error is
-- not read.
one_frame :
    run_stream small 2 two_events (connected_once ∷ []) new_thread
    ≡ done (record {
      frames =
          record {
            frame = picture;
            source_config = two_events;
            event_config = event (codes "door");
            time_base = record { num = pos 1; den = pos 25 };
          }
          ∷ [];
      pauses = 1;
      returned = false;
      waiting = false;
    })
unfolding run_stream cycle cycle_from leave_stream finish_stream open_stream read_stream session
    return setup_multi_output_filter_graph link add_sinks preferred source_args sampling_spec
    split_labels selections sampling_interval source_fps is_rate sink_name read_packets read_packet
    decode sample pull_events pull_sink sampled_frame flush_graph flush_events flush_sink connect
    attempt insert find
one_frame = refl

run_stream-Returns_example :
    Returns
      (Names small two_events)
      (run_stream small 2 two_events (connected_once ∷ connected_once ∷ []) new_thread)
run_stream-Returns_example =
    run_stream-Returns small 2 small-IsDraining two_events (connected_once ∷ connected_once ∷ [])
      new_thread (λ i. refl, (λ i. refl, tt)) tt
