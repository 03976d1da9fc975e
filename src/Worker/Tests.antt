-- ===== src/Worker/Tests.antt =====
-- A worker with graphs that hand back what they are fed, and the theorems at inputs of it.
use frame_processor.Base.{
  ◌≤◌, pos, true, false, List, [], ◌∷◌, ◌++◌, ◌≡◌, refl, some, codes, length,
}
use frame_processor.Fifo.{new}
use frame_processor.Types.{Pull, again, got, Frame, DecodedFrame, ProcessingConfig, one}
use frame_processor.Worker.Filter.{
  Avfilter, Allocations, filter_args, filter_spec, crops, scales, crop_spec, scale_spec,
}
use frame_processor.Worker.Context.{ctx_key, context_for}
use frame_processor.Worker.Loop.{WorkerThread, Event, arrives, round, filtered, worker_loop}
use frame_processor.Worker.Provenance.{Serves, worker_loop-Serves}
use frame_processor.Worker.Outputs.{KeepsOthers, filtered-isolated}

abbrev pub last_frame : List Frame → Pull × List Frame
last_frame [] = (again, [])
last_frame (f ∷ fs) = (got f, fs)

-- A graph is the list of the frames in it.
abbrev pub passing : Avfilter
passing = record {
  Graph = List Frame;
  empty_graph = [];
  create_source = λ g args. some g;
  create_sink = λ g. some g;
  set_pix_fmts = λ g format. g;
  parse_ptr = λ g spec. some g;
  configure = λ g. some g;
  add_frame = λ g f. (true, g ++ f ∷ []);
  get_frame = λ g flag. last_frame g;
}

abbrev halved : ProcessingConfig
halved = record {
  scale = record { width = pos 320; height = pos 240 };
  crop = record { x = pos 0; y = pos 8; width = pos 640; height = pos 464 };
}

abbrev picture : Frame
picture = record {
  width = pos 640;
  height = pos 480;
  format = pos 0;
  pts = pos 3;
  plane = λ p o. 0;
  linesize = λ p. pos 640;
  sample_aspect_ratio = record { num = pos 1; den = pos 1 };
}

abbrev decoded : DecodedFrame
decoded = record {
  frame = picture;
  source_config = record {
    id = pos 12;
    url = codes "rtsp";
    target_fps = one;
    wait_for_keyframe = false;
    enabled = true;
    processing = halved;
    events = [];
  };
  event_config = record {
    id = 0;
    name = codes "door";
    target_fps = one;
    batch_size = pos 2;
    processing = halved;
  };
  time_base = record { num = pos 1; den = pos 25 };
}

abbrev pub plenty : Allocations
plenty = record { graph = true; outputs = true; inputs = true; clone = true }

abbrev pub idle : WorkerThread (List Frame)
idle = record {
  in_queue = new 10 (codes "in");
  out_queue = new 10 (codes "out");
  stream_contexts = [];
  is_processed_enabled = false;
  frames_processed_local = 0;
  saved = [];
  finished = false;
}

abbrev history : List Event
history = arrives decoded 5 ∷ round false plenty 6 ∷ []

spec_of_both : filter_spec halved ≡ codes "crop=640:464:0:8,scale=320:240"
unfolding filter_spec crops scales crop_spec scale_spec
spec_of_both = refl

args_of_picture :
    filter_args picture ≡ codes "width=640:height=480:pix_fmt=0:time_base=1/1000:pixel_aspect=1/1"
unfolding filter_args
args_of_picture = refl

key_of_door : ctx_key decoded ≡ codes "12_door"
unfolding ctx_key
key_of_door = refl

worker_loop-Serves_example :
    Serves passing decoded
      (context_for passing plenty decoded (worker_loop passing history idle).stream_contexts)
worker_loop-Serves_example = worker_loop-Serves passing history idle plenty decoded refl

filtered-isolated_example :
    (length (filtered passing plenty decoded []).0 ≤ 5)
    × KeepsOthers passing decoded [] (filtered passing plenty decoded []).1
filtered-isolated_example = filtered-isolated passing plenty decoded []
