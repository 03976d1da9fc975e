-- ===== src/Child/Tests.antt =====
-- The child in a small environment, and its theorems there.
use mathlib.Core.Option
use frame_processor.Base.{
  ◌≡◌, refl, pos, negsuc, true, false, [], none, some, codes, decimal, text_eq, if◌then◌else◌,
  arith,
}
use frame_processor.Base.Numbers.{parse_int}
use frame_processor.Base.Environment.{Environment}
use frame_processor.Config.State.{ConfigManager}
use frame_processor.Config.Scaling.{owns_stream, is_stream_whitelisted}
use frame_processor.Config.Environment.{config_manager, default_config}
use frame_processor.Config.Parse.{
  is_full, parse_processing, parse_events, parse_stream, take_stream, take_streams, global_config,
  parse_config_json,
}
use frame_processor.Config.Tests.{json, with_settings, three, full_disk}
use frame_processor.Saver.Settings.{frame_saver}
use frame_processor.Child.Logging.{
  warn, debug, stdout, is_printed, stream_of, level_str, log_print, print_message,
  string_to_loglevel,
}
use frame_processor.Child.Workers.{get_worker_count, to_i16, start_workers, av_log_level}
use frame_processor.Child.Publishing.{Publisher, disabled, thread_count, publisher}
use frame_processor.Child.Process.{app_logic}
use frame_processor.Child.Counts.{get_worker_count-started}
use frame_processor.Child.Startup.{Given, IsReadable, Serves, app_logic-Serves}

abbrev env : Environment
env var =
    if text_eq var (codes "FP_REDIS_HOST")
    then some (codes "redis")
    else if text_eq var (codes "FP_NUM_WORKER_THREADS")
    then some (codes "2")
    else none

abbrev manager : ConfigManager
manager = record {
  api_url = [];
  reload_interval = pos 60;
  current_config = default_config;
  instance_slot = pos 0;
  total_instances = pos 1;
  max_streams = pos 0;
  stream_id_whitelist = [];
  has_stream_whitelist = false;
}

abbrev sender : Publisher
sender = record (disabled (pos 1000) (codes "redis")) {
  redis_port = pos 6379;
  redis_queue_base_name = codes "fp_batches";
  is_enabled = true;
  is_batching = true;
  publisher_threads = 4;
}

abbrev given : Given json env (pos 8) full_disk
given = record {
  manager = manager;
  config = global_config json manager with_settings three;
  count = pos 2;
  threshold = pos 1000;
  saver = record {
    base_output_dir = codes "/tmp/output";
    save_interval = pos 1;
    save_decoded_enabled = false;
    save_processed_enabled = false;
    created_dirs = [];
  };
  sender = sender;
}

levels : (string_to_loglevel (codes "warning") ≡ warn) × (is_printed debug warn ≡ false)
unfolding string_to_loglevel is_printed
levels = (refl, refl)

default_level : av_log_level env ≡ codes "AV_LOG_ERROR"
unfolding av_log_level
default_level = refl

given-IsReadable : IsReadable json env (pos 8) full_disk given
unfolding config_manager default_config parse_config_json get_worker_count frame_saver publisher
    disabled thread_count parse_int global_config take_streams take_stream owns_stream
    is_stream_whitelisted is_full parse_stream parse_processing parse_events
given-IsReadable = (refl, refl, refl, ground arith, refl, refl, refl, ground arith)

app_logic-Serves_example :
    Serves json env (pos 8) full_disk given (app_logic json env (pos 8) full_disk)
app_logic-Serves_example = app_logic-Serves json env (pos 8) full_disk given given-IsReadable

-- A number that is not positive.
abbrev no_workers : Environment
no_workers var =
    if text_eq var (codes "FP_NUM_WORKER_THREADS") then some (decimal (negsuc 0)) else none

get_worker_count-started_example :
    Option.map (λ c. start_workers (to_i16 c)) (get_worker_count no_workers (pos 8)) ≡ some 0
get_worker_count-started_example =
    get_worker_count-started no_workers 8 (some (negsuc 0)) (omega arith) (refl, ground arith)

-- A warning at the level of warnings, and a message of a lower one.
one_line :
    print_message warn warn (codes "2024-05-01 10:00:00") (codes "main.cpp") 7 (codes "stop")
    ≡ some (stdout, codes "[2024-05-01 10:00:00] [WARN ] [main.cpp:7] stop\n")
unfolding print_message log_print level_str stream_of is_printed
one_line = refl

no_line : print_message debug warn (codes "now") (codes "main.cpp") 7 (codes "stop") ≡ none
unfolding print_message is_printed
no_line = refl
