-- ===== src/Config/State.antt =====
-- The members of `ConfigManager` (config_manager.h, lines 107 to 121), but the mutex, the callback and
-- the thread. The path of the file is fixed, so the file is part of the disk that Merge models.
use frame_processor.Base.{ℤ, Bool, List, Text}
use frame_processor.Types.{GlobalConfig}

pub record ConfigManager : Type 0 where
  pub api_url : Text
  pub reload_interval : ℤ
  pub current_config : GlobalConfig
  pub instance_slot : ℤ
  pub total_instances : ℤ
  pub max_streams : ℤ
  pub stream_id_whitelist : List ℤ
  pub has_stream_whitelist : Bool
