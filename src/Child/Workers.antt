-- ===== src/Child/Workers.antt =====
-- core/main.cpp, `get_worker_count`, lines 72 to 79, and worker.cpp, the constructor and `start`, lines
-- 171 to 222, and `stop`.
use frame_processor.Base.{
  ℕ, ◌-◌, ◌^◌, ℤ, pos, pos_part, leb_ℤ, signed, residue, List, [], ◌∷◌, Option, Text, codes,
  decimal, text_eq, Bool, true, false, if◌then◌else◌,
}
use frame_processor.Types.{DecodedFrame}
use frame_processor.Fifo
use frame_processor.Fifo.{Fifo}
use frame_processor.Base.Numbers.{stoi}
use frame_processor.Base.Environment.{Environment, get_env}

-- `std::max(1, cores - 2)`.
unfoldable pub default_workers : ℤ → ℤ
default_workers cores = if leb_ℤ cores (pos 2) then pos 1 else pos (pos_part cores - 2)

-- `cores` is what `hardware_concurrency` gives; `none` is an exception.
unfoldable pub get_worker_count : Environment → ℤ → Option ℤ
unfolding get_env
get_worker_count env cores =
    stoi (get_env env (codes "FP_NUM_WORKER_THREADS") (decimal (default_workers cores)))

-- The conversion to `int16_t`.
abbrev pub to_i16 : ℤ → ℤ
to_i16 z = signed (2 ^ 15) (2 ^ 16) (residue (2 ^ 16) z)

-- `Worker::start`: the number of its threads.
unfoldable pub start_workers : ℤ → ℕ
start_workers num_threads = pos_part num_threads

-- `Worker::stop`, on the queues of decoded and of processed frames.
unfoldable pub stop_workers :
    Fifo DecodedFrame × Fifo DecodedFrame → Fifo DecodedFrame × Fifo DecodedFrame
stop_workers (in_queue, out_queue) = (Fifo.stop in_queue, Fifo.stop out_queue)

-- The levels of FFmpeg that the constructor knows.
abbrev pub log_levels : List Text
log_levels =
    codes "AV_LOG_QUIET"
    ∷ codes "AV_LOG_PANIC"
    ∷ codes "AV_LOG_FATAL"
    ∷ codes "AV_LOG_ERROR"
    ∷ codes "AV_LOG_WARNING"
    ∷ codes "AV_LOG_INFO"
    ∷ codes "AV_LOG_VERBOSE"
    ∷ codes "AV_LOG_DEBUG"
    ∷ codes "AV_LOG_TRACE"
    ∷ []

unfoldable pub is_level : Text → List Text → Bool
is_level t [] = false
is_level t (l ∷ ls) = if text_eq l t then true else is_level t ls

-- The name of the level that is set.
unfoldable pub av_log_level : Environment → Text
unfolding get_env is_level
av_log_level env =
    let name = get_env env (codes "FFMPEG_LOG_LEVEL") (codes "AV_LOG_ERROR") in
    if is_level name log_levels then name else codes "AV_LOG_ERROR"
