-- ===== src/Saver/Save.antt =====
-- frame_saver.cpp, `ensure_directory_exists`, lines 78 to 104, and `save_frame`, lines 239 to 284, with
-- the images that are written.
use frame_processor.Base.{
  ℕ, zero, suc, ◌-◌, ◌%◌, ◌==◌, ℤ, pos, leb_ℤ, to_u64, Bool, true, false, not, ◌&&◌, ◌||◌, List, [],
  ◌∷◌, ◌++◌, length, Option, none, some, Text, codes, decimal, text_eq, if◌then◌else◌,
}
use frame_processor.Types.{Frame}
use frame_processor.Saver.Settings.{FrameSaver}
use frame_processor.Saver.Encode.{Answers, encode_and_save_jpeg}

-- An image: the directory and the number in its path, and what it was made for.
pub record Image : Type 0 where
  pub dir : Text
  pub frame_index : ℕ
  pub stage : Text
  pub frame : Frame

-- A saver, and the images that have been written.
pub record Saving : Type 0 where
  pub saver : FrameSaver
  pub images : List Image

unfoldable pub contains : Text → List Text → Bool
contains path [] = false
contains path (p ∷ ps) = text_eq p path || contains path ps

unfoldable pub mark : Text → Saving → Saving
mark path w = record w { saver = record w.saver { created_dirs = path ∷ w.saver.created_dirs } }

-- `exists` and `creates` are the answers of the file system, if it is asked.
unfoldable pub ensure_directory_exists : Bool → Bool → Text → Saving → Bool × Saving
ensure_directory_exists exists creates path w =
    if contains path w.saver.created_dirs
    then (true, w)
    else if not exists && not creates
    then (false, w)
    else (true, mark path w)

-- `{:08d}`.
unfoldable pub zeros : ℕ → Text
zeros zero = []
zeros (suc n) = 48 ∷ zeros n

unfoldable pub padded : ℕ → Text
unfolding zeros
padded n = let t = decimal (pos n) in zeros (8 - length t) ++ t

unfoldable pub dir_path : FrameSaver → Text → ℤ → Text
dir_path s stage stream_id =
    s.base_output_dir ++ (codes "/frames/" ++ (stage ++ (codes "/stream_" ++ decimal stream_id)))

unfoldable pub image_path : Text → ℕ → Text
unfolding padded
image_path dir frame_index = dir ++ (codes "/frame_" ++ (padded frame_index ++ codes ".jpg"))

-- What the stage and the interval say; the interval is converted to `uint64_t`.
unfoldable pub is_due : FrameSaver → ℕ → Text → Bool
is_due s frame_index stage =
    if text_eq stage (codes "decoded") && not s.save_decoded_enabled
    then false
    else if text_eq stage (codes "processed") && not s.save_processed_enabled
    then false
    else frame_index % to_u64 s.save_interval == 0

unfoldable pub is_usable : Frame → Bool
is_usable f = not (leb_ℤ f.width (pos 0) || leb_ℤ f.height (pos 0))

-- A call: the frame, its stream, number and stage, and what the calls that it makes answer.
pub record Call : Type 0 where
  pub frame : Option Frame
  pub stream_id : ℤ
  pub frame_index : ℕ
  pub stage : Text
  pub exists : Bool
  pub creates : Bool
  pub answers : Answers

-- The image is encoded and written to the directory.
unfoldable pub save_image : Call → Frame → Text → Saving → Bool × Saving
save_image c f dir w =
    if (encode_and_save_jpeg c.answers f (image_path dir c.frame_index)).result
    then (
      true,
      record w {
        images =
            record { dir = dir; frame_index = c.frame_index; stage = c.stage; frame = f }
            ∷ w.images;
      },
    )
    else (false, w)

-- A frame that is due and usable, with its directory.
unfoldable pub save_usable : Call → Frame → Saving → Bool × Saving
save_usable c f w =
    let dir = dir_path w.saver c.stage c.stream_id in
    let (there, w') = ensure_directory_exists c.exists c.creates dir w in
    if not there then (false, w') else save_image c f dir w'

unfoldable pub save_frame : Call → Saving → Bool × Saving
save_frame c w = if not (is_due w.saver c.frame_index c.stage) then (false, w) else elim c.frame [
  | none ↦ (false, w)
  | some f ↦ if not (is_usable f) then (false, w) else save_usable c f w
]

unfoldable pub save_frames : List Call → Saving → Saving
save_frames [] w = w
save_frames (c ∷ cs) w = save_frames cs (save_frame c w).1
