-- ===== src/Saver/Settings.antt =====
-- frame_saver.cpp, lines 34 to 76 and frame_saver.h, lines 72 to 85: the members of `FrameSaver`, but
-- the mutex, and what it takes from the environment.
use frame_processor.Base.{
  ◌>>=◌, ℕ, ◌+◌, ℤ, pos, negsuc, IsI32, ◌≤ℤ◌, arith, leb, ltb_ℤ, Bool, false, ◌&&◌, ◌||◌, List, [],
  map, Option, none, some, Text, codes, text_eq, if◌then◌else◌,
}
use frame_processor.Base.Numbers.{stoi}
use frame_processor.Base.Ranges.{IfSome, IfSome-bind, stoi-IsI32}
use frame_processor.Base.Environment.{Environment, get_env}

pub record FrameSaver : Type 0 where
  pub base_output_dir : Text
  pub save_interval : ℤ
  pub save_decoded_enabled : Bool
  pub save_processed_enabled : Bool
  pub created_dirs : List Text

-- `std::tolower` of the C locale.
unfoldable pub tolower : ℕ → ℕ
tolower c = if leb 65 c && leb c 90 then c + 32 else c

unfoldable pub parse_bool_env : Environment → Text → Bool → Bool
unfolding tolower
parse_bool_env env var default_value = elim (env var) [
  | none ↦ default_value
  | some val ↦
      let s = map tolower val in
      text_eq s (codes "true")
      || (text_eq s (codes "1") || (text_eq s (codes "yes") || text_eq s (codes "on")))
]

-- The interval is at least one.
unfoldable pub at_least_one : ℤ → ℤ
at_least_one interval = if ltb_ℤ interval (pos 1) then pos 1 else interval

-- The constructor; `none` is an exception.
unfoldable pub frame_saver : Environment → Option FrameSaver
unfolding get_env parse_bool_env at_least_one
frame_saver env = do
  interval ← stoi (get_env env (codes "FP_SAVE_FRAME_INTERVAL") (codes "1"))
  some (record {
    base_output_dir = get_env env (codes "FP_SAVED_FRAMES_OUTPUT_DIR") (codes "/tmp/output");
    save_interval = at_least_one interval;
    save_decoded_enabled = parse_bool_env env (codes "FP_SAVE_DECODED_FRAMES") false;
    save_processed_enabled = parse_bool_env env (codes "FP_SAVE_PROCESSED_FRAMES") false;
    created_dirs = [];
  })

unfoldable pub is_decoded_enabled : FrameSaver → Bool
is_decoded_enabled s = s.save_decoded_enabled

unfoldable pub is_processed_enabled : FrameSaver → Bool
is_processed_enabled s = s.save_processed_enabled

unfoldable pub get_save_interval : FrameSaver → ℤ
get_save_interval s = s.save_interval

at_least_one-IsPositive : (z : ℤ) → IsI32 z → IsI32 (at_least_one z) × (pos 1 ≤ℤ at_least_one z)
unfolding at_least_one
at_least_one-IsPositive (pos n) h = ground arith
at_least_one-IsPositive (negsuc n) h = ground arith

-- Whatever the environment holds, the interval of a saver that is made there is an `int` of at least
-- one, so that the remainder of a number by it is defined.
pub frame_saver-IsPositive :
    (env : Environment)
    → IfSome (λ s. IsI32 s.save_interval × (pos 1 ≤ℤ s.save_interval)) (frame_saver env)
unfolding frame_saver
frame_saver-IsPositive env =
    IfSome-bind IsI32 (λ s. IsI32 s.save_interval × (pos 1 ≤ℤ s.save_interval))
      (stoi (get_env env (codes "FP_SAVE_FRAME_INTERVAL") (codes "1"))) _
      (stoi-IsI32 (get_env env (codes "FP_SAVE_FRAME_INTERVAL") (codes "1")))
      at_least_one-IsPositive
