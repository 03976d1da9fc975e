-- ===== src/Child/Process.antt =====
-- core/main.cpp, `app_logic`, lines 84 to 139: what the child builds, what the callback does with a
-- configuration, and the order of the shutdown.
use frame_processor.Base.{
  ◌>>=◌, ℕ, ℤ, to_u64, not, [], Option, none, some, Text, codes, if◌then◌else◌,
}
use frame_processor.Base.Numbers.{stoi}
use frame_processor.Base.Environment.{Environment, get_env}
use frame_processor.Types.{GlobalConfig, DecodedFrame}
use frame_processor.Fifo
use frame_processor.Fifo.{Fifo}
use frame_processor.StreamIo.Manager.{Manager, no_streams, update_streams, stop_all}
use frame_processor.Config.Environment.{config_manager}
use frame_processor.Config.Json.{Simdjson}
use frame_processor.Config.Merge.{Disk}
use frame_processor.Config.Reload.{Reloader, load_initial_config, start_reloader}
use frame_processor.Saver.Settings.{FrameSaver, frame_saver}
use frame_processor.Child.Logging.{LogLevel, info, string_to_loglevel}
use frame_processor.Child.Workers.{
  get_worker_count, to_i16, start_workers, stop_workers, av_log_level,
}
use frame_processor.Child.Publishing.{Publisher, publisher, stop_publisher}

-- The components of the child; a thread of the readers is a stream of the manager, the threads of the
-- workers are counted.
pub record App : Type 0 where
  pub reloader : Reloader
  pub log_level : LogLevel
  pub streams : Manager
  pub decode_frame_queue : Fifo DecodedFrame
  pub processed_frame_queue : Fifo DecodedFrame
  pub saver : FrameSaver
  pub ffmpeg_level : Text
  pub num_threads : ℤ
  pub workers : ℕ
  pub sender : Publisher

-- `EXIT_FAILURE`, an exception that nothing catches, or a child that runs.
pub data Start : Type 0 where
  exit_failure terminated : Start
  running : App → Start

-- The callback of the configuration manager; `none` is an exception.
unfoldable pub update_callback : GlobalConfig → App → Option App
update_callback config app = do
  streams ← update_streams config.stream_configs app.streams
  some (record app { log_level = string_to_loglevel config.log_level_str; streams = streams })

-- The queues and the components, before anything runs.
unfoldable pub components : Environment → ℤ → Reloader → Option App
components env cores r = do
  count ← get_worker_count env cores
  threshold ← stoi (get_env env (codes "FP_QUEUE_WARNING_THRESHOLD") (codes "1000"))
  saver ← frame_saver env
  sender ← publisher env
  some (record {
    reloader = r;
    log_level = info;
    streams = no_streams;
    decode_frame_queue = Fifo.new (to_u64 threshold) (codes "decode_frame_queue");
    processed_frame_queue = Fifo.new (to_u64 threshold) (codes "processed_frame_queue");
    saver = saver;
    ffmpeg_level = av_log_level env;
    num_threads = to_i16 count;
    workers = 0;
    sender = sender;
  })

-- The reloader tells the callback its configuration, and the workers start.
unfoldable pub launch_app : Simdjson → App → Option App
launch_app json app = do
  let r = start_reloader json app.reloader
  app' ← update_callback app.reloader.manager.current_config app
  some (record app' { reloader = r; workers = start_workers app.num_threads })

unfoldable pub run_child : Option App → Start
run_child none = terminated
run_child (some app) = running app

-- `app_logic` up to the wait for a signal. The file is read once, at the start.
unfoldable pub app_logic : Simdjson → Environment → ℤ → Disk → Start
app_logic json env cores disk = elim (config_manager env) [
  | none ↦ exit_failure
  | some m ↦
      let (loaded, r) =
        load_initial_config json (record { manager = m; disk = disk; notified = [] }) in
      if not loaded then exit_failure else run_child (components env cores r >>= launch_app json)
]

-- The shutdown: the readers, then the workers with both queues, then the publisher.
unfoldable pub shut_down : App → App
shut_down app =
    let (in_queue, out_queue) = stop_workers (app.decode_frame_queue, app.processed_frame_queue) in
    let (processed, sender) = stop_publisher (out_queue, app.sender) in
    record app {
      streams = stop_all app.streams;
      decode_frame_queue = in_queue;
      processed_frame_queue = processed;
      workers = 0;
      sender = sender;
    }
