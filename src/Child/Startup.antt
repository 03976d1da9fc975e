-- ===== src/Child/Startup.antt =====
-- The child from its environment and its configuration to the threads that run.
use frame_processor.Base.{
  ◌>>=◌, bind-some, ◌≡◌, refl, ap, pos_part, sym, subst, ◌∙◌, ℤ, to_u64, IsI32, true, [], ◌∷◌, some,
  All, codes, find,
}
use frame_processor.Base.Numbers.{stoi}
use frame_processor.Base.Environment.{Environment, get_env}
use frame_processor.Types.{GlobalConfig}
use frame_processor.Fifo
use frame_processor.StreamIo.Manager.{Manager, int_key, no_streams, update_streams}
use frame_processor.StreamIo.Phases.{IsAligned, last_enabled}
use frame_processor.StreamIo.Reconcile.{update_streams-reconciled}
use frame_processor.Config.State.{ConfigManager}
use frame_processor.Config.Environment.{config_manager}
use frame_processor.Config.Json.{Simdjson}
use frame_processor.Config.Parse.{parse_config_json}
use frame_processor.Config.Merge.{Disk}
use frame_processor.Config.Reload.{Reloader, load_initial_config, start_reloader}
use frame_processor.Saver.Settings.{FrameSaver, frame_saver}
use frame_processor.Child.Logging.{info, string_to_loglevel}
use frame_processor.Child.Workers.{get_worker_count, to_i16, start_workers, av_log_level}
use frame_processor.Child.Counts.{IsI16, to_i16_self}
use frame_processor.Child.Publishing.{Publisher, publisher}
use frame_processor.Child.Process.{
  App, Start, exit_failure, terminated, running, update_callback, components, launch_app, run_child,
  app_logic,
}

module _ (json : Simdjson) (env : Environment) (cores : ℤ) (disk : Disk) where
  -- What the environment and the file give.
  pub record Given : Type 0 where
    pub manager : ConfigManager
    pub config : GlobalConfig
    pub count : ℤ
    pub threshold : ℤ
    pub saver : FrameSaver
    pub sender : Publisher

  -- The environment can be read, with a number of workers of 16 bits, and the file has a configuration
  -- whose ids are `int`s.
  abbrev pub IsReadable : Given → Type 0
  IsReadable g =
      (config_manager env ≡ some g.manager)
      × (parse_config_json json g.manager disk.config_file ≡ some g.config)
      × (get_worker_count env cores ≡ some g.count)
      × IsI16 g.count
      × (stoi (get_env env (codes "FP_QUEUE_WARNING_THRESHOLD") (codes "1000")) ≡ some g.threshold)
      × (frame_saver env ≡ some g.saver)
      × (publisher env ≡ some g.sender)
      × All (λ c. IsI32 c.id) g.config.stream_configs

  -- The child runs, the streams that the configuration enables run, and no others, with as many
  -- workers as the number says, none if it is not positive; the callback has been told the configuration, once.
  abbrev pub Serves : Given → Start → Type 0
  Serves g exit_failure = ⊥
  Serves g terminated = ⊥
  Serves g (running app) =
      IsAligned app.streams
      × ((j : ℤ)
          → find int_key j app.streams.stream_threads ≡ last_enabled j g.config.stream_configs)
      × (app.reloader.notified ≡ g.config ∷ [])
      × (app.log_level ≡ string_to_loglevel g.config.log_level_str)
      × (app.workers ≡ pos_part g.count)

  loaded : Given → Reloader
  loaded g = record {
    manager = record g.manager { current_config = g.config };
    disk = disk;
    notified = [];
  }

  load-loaded :
      (g : Given)
      → parse_config_json json g.manager disk.config_file ≡ some g.config
      → load_initial_config json (record { manager = g.manager; disk = disk; notified = [] })
        ≡ (true, loaded g)
  unfolding load_initial_config loaded
  load-loaded g h = rw (h, load_initial_config) refl

  built : Given → App
  built g = record {
    reloader = loaded g;
    log_level = info;
    streams = no_streams;
    decode_frame_queue = Fifo.new (to_u64 g.threshold) (codes "decode_frame_queue");
    processed_frame_queue = Fifo.new (to_u64 g.threshold) (codes "processed_frame_queue");
    saver = g.saver;
    ffmpeg_level = av_log_level env;
    num_threads = to_i16 g.count;
    workers = 0;
    sender = g.sender;
  }

  components-built : (g : Given) → IsReadable g → components env cores (loaded g) ≡ some (built g)
  unfolding components built
  components-built g (em, ec, en, en16, et, es, ep, ids) =
      bind-some _ en ∙ bind-some _ et ∙ bind-some _ es ∙ bind-some _ ep

  -- The app after the callback and the start of the workers.
  launched : Given → Manager → App
  unfolding built loaded
  launched g s = record (built g) {
    reloader = start_reloader json (loaded g);
    log_level = string_to_loglevel g.config.log_level_str;
    streams = s;
    workers = start_workers (to_i16 g.count);
  }

  launch-launched :
      (g : Given) (s : Manager)
      → update_streams g.config.stream_configs no_streams ≡ some s
      → launch_app json (built g) ≡ some (launched g s)
  unfolding launch_app update_callback launched built loaded
  launch-launched g s h = bind-some _ (bind-some _ h)

  app_logic-running :
      (m : ConfigManager) (r : Reloader) (app : App)
      → config_manager env ≡ some m
      → load_initial_config json (record { manager = m; disk = disk; notified = [] }) ≡ (true, r)
      → (components env cores r >>= launch_app json) ≡ some app
      → app_logic json env cores disk ≡ running app
  unfolding app_logic run_child
  app_logic-running m r app em el ea = rw (em, el, ea, app_logic) refl

  -- In an environment that can be read, where the number of workers has 16 bits, and with a file whose
  -- streams have `int` ids, the child runs:
  -- exactly the streams that its configuration enables run, each with the last configuration of its
  -- id, the callback has been told the configuration once, the level of messages is that of the
  -- configuration, and as many workers run as were asked for, none if the number is not positive.
  pub app_logic-Serves : (g : Given) → IsReadable g → Serves g (app_logic json env cores disk)
  unfolding launched built loaded start_reloader find start_workers
  app_logic-Serves g (em, ec, en, en16, et, es, ep, ids) =
      let (s, e, aligned, streams) =
        update_streams-reconciled g.config.stream_configs no_streams
          (record { unique = tt; same = refl }) ids in
      subst (Serves g)
        (sym (
          app_logic-running g.manager (loaded g) (launched g s) em (load-loaded g ec) (
            bind-some (launch_app json) (components-built g (em, ec, en, en16, et, es, ep, ids))
            ∙ launch-launched g s e)))
        (aligned, streams, refl, refl, ap start_workers (to_i16_self g.count en16))
