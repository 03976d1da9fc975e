-- ===== src/Saver/Tests.antt =====
-- The saving of small frames, and its theorems at inputs that meet their hypotheses.
use frame_processor.Base.{
  List, length, All, ℕ, ◌≡◌, refl, pos, negsuc, true, false, [], ◌∷◌, none, some, Text, codes,
  text_eq, if◌then◌else◌, arith,
}
use frame_processor.Base.Numbers.{parse_int}
use frame_processor.Base.Environment.{Environment}
use frame_processor.Types.{Frame}
use frame_processor.Saver.Settings.{
  FrameSaver, frame_saver, is_decoded_enabled, is_processed_enabled, get_save_interval,
}
use frame_processor.Saver.Encode.{Answers, encode_and_save_jpeg}
use frame_processor.Saver.Encode.{convert, encode_packet}
use frame_processor.Saver.Save.{
  mark, save_usable, save_image, ensure_directory_exists, is_due, is_usable, contains, Saving, Call,
  dir_path, image_path, save_frame, save_frames,
}
use frame_processor.Saver.Resources.{IsBalanced, encode-IsBalanced}
use frame_processor.Saver.Rules.{IsRight, save_frames-IsRight}
use frame_processor.Saver.Paths.{image_path-injective}

abbrev env : Environment
env var =
    if text_eq var (codes "FP_SAVE_PROCESSED_FRAMES")
    then some (codes "Yes")
    else if text_eq var (codes "FP_SAVE_FRAME_INTERVAL")
    then some (codes "-3")
    else none

-- The interval is raised to one; only processed frames are saved.
abbrev saver : FrameSaver
saver = record {
  base_output_dir = codes "/tmp/output";
  save_interval = pos 1;
  save_decoded_enabled = false;
  save_processed_enabled = true;
  created_dirs = [];
}

small_saver : frame_saver env ≡ some saver
unfolding frame_saver parse_int
small_saver = refl

accessors :
    (is_decoded_enabled saver ≡ false)
    × (is_processed_enabled saver ≡ true)
    × (get_save_interval saver ≡ pos 1)
unfolding is_decoded_enabled is_processed_enabled get_save_interval
accessors = (refl, refl, refl)

abbrev grey : Frame
grey = record {
  width = pos 2;
  height = pos 2;
  format = pos 0;
  pts = pos 0;
  plane = λ i j. 128;
  linesize = λ i. pos 2;
  sample_aspect_ratio = record { num = pos 1; den = pos 1 };
}

abbrev all_succeed : Answers
all_succeed = record {
  find_encoder = true;
  alloc_context = true;
  open2 = true;
  frame_alloc = true;
  get_buffer = true;
  get_context = true;
  packet_alloc = true;
  send_frame = true;
  receive_packet = true;
  fopen = true;
}

abbrev path : Text
path = codes "/tmp/output/frames/processed/stream_-7/frame_00000042.jpg"

image_path_small : image_path (dir_path saver (codes "processed") (negsuc 6)) 42 ≡ path
unfolding image_path dir_path
image_path_small = refl

abbrev call : Call
call = record {
  frame = some grey;
  stream_id = negsuc 6;
  frame_index = 42;
  stage = codes "processed";
  exists = false;
  creates = true;
  answers = all_succeed;
}

abbrev start : Saving
start = record { saver = saver; images = [] }

save_frame_small : (save_frame call start).0 ≡ true
unfolding save_frame save_usable save_image ensure_directory_exists is_due is_usable contains
    encode_and_save_jpeg convert encode_packet
save_frame_small = refl

save_frame_stage : (save_frame (record call { stage = codes "decoded" }) start).0 ≡ false
unfolding save_frame is_due
save_frame_stage = refl

encode-IsBalanced_example :
    IsBalanced (encode_and_save_jpeg (record all_succeed { fopen = false }) grey path)
encode-IsBalanced_example = encode-IsBalanced (record all_succeed { fopen = false }) grey path

abbrev calls : List Call
calls = call ∷ record call { frame_index = 43 } ∷ []

one_image : length (save_frames calls start).images ≡ 2
unfolding save_frames save_frame save_usable save_image ensure_directory_exists mark is_due
    is_usable contains encode_and_save_jpeg convert encode_packet dir_path
one_image = refl

save_frames-IsRight_example :
    All (IsRight saver calls) (save_frames calls (record { saver = saver; images = [] })).images
save_frames-IsRight_example = save_frames-IsRight calls saver refl

abbrev same_number : ℕ
same_number = 42

image_path-injective_example : (pos 3 ≡ pos 3) × (same_number ≡ same_number)
image_path-injective_example =
    image_path-injective saver (codes "processed") (pos 3) (pos 3) same_number same_number
      (ground arith) (ground arith) (ground arith) (ground arith) refl
