-- ===== src/Types/Tests.antt =====
-- The comparisons at concrete configurations.
use frame_processor.Base.{◌≡◌, refl, true, false, pos, [], ◌∷◌, none, codes, ◌↔◌}
use frame_processor.Types.{StreamConfig, one, stream_eq}
use frame_processor.Types.Deleters.{frame, filter_graph, delete, thread_name}
use frame_processor.Types.Equality.{stream_eq_iff}

abbrev camera : StreamConfig
camera = record {
  id = pos 1;
  url = codes "rtsp";
  target_fps = one;
  wait_for_keyframe = false;
  enabled = true;
  processing = record {
    scale = record { width = pos 0; height = pos 0 };
    crop = record { x = pos 0; y = pos 0; width = pos 0; height = pos 0 };
  };
  events = [];
}

abbrev faster : StreamConfig
faster = record camera { target_fps = record { bits = 0x4000_0000_0000_0000 } }

-- A change of the stream's own rate is no change.
faster_runs : stream_eq camera faster ≡ true
unfolding stream_eq
faster_runs = refl

stream_eq_iff_example : (stream_eq camera faster ≡ true) ↔ (faster ≡ faster)
stream_eq_iff_example = stream_eq_iff camera faster

long_name : thread_name (codes "config_reloader_thread") ≡ codes "config_reloader"
unfolding thread_name
long_name = refl

-- A null pointer is given to the library by some deleters only.
null_frame : delete frame none ≡ record { function_of = frame; pointer = none } ∷ []
unfolding delete
null_frame = refl

null_graph : delete filter_graph none ≡ []
unfolding delete
null_graph = refl
