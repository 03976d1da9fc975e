-- ===== src/Config/Environment.antt =====
-- config_manager.cpp, the constructor `ConfigManager::ConfigManager`, lines 106 to 146: what an
-- instance takes from its environment. `none` is an exception.
use frame_processor.Base.{
  ◌>>=◌, ℕ, ◌==◌, ℤ, pos, Bool, true, false, List, [], ◌∷◌, ◌++◌, Option, none, some, Text, codes,
  is_empty, if◌then◌else◌,
}
use frame_processor.Base.Numbers.{stoi, stoll}
use frame_processor.Base.Environment.{Environment, get_env}
use frame_processor.Types.{GlobalConfig, member}
use frame_processor.Config.State.{ConfigManager}

-- `config_path_`.
unfoldable pub config_path : Environment → Text
unfolding get_env
config_path env = get_env env (codes "FP_CONFIG_PATH") (codes "/etc/fp/configs/config.json")

abbrev pub comma : ℕ
comma = 44

-- The set after an insertion.
unfoldable pub insert_id : ℤ → List ℤ → List ℤ
unfolding member
insert_id z ids = if member z ids then ids else z ∷ ids

-- The id that the text in front of a comma, or of the end, gives; an empty text gives none.
unfoldable pub take_id : Text → List ℤ → Option (List ℤ)
unfolding insert_id
take_id id_str ids =
    if is_empty id_str
    then some ids
    else elim (stoll id_str) [ none ↦ none | some z ↦ some (insert_id z ids) ]

-- The loop over the ids; `id_str` is what has been read since the last comma.
unfoldable pub take_ids : Text → Text → List ℤ → Option (List ℤ)
unfolding take_id
take_ids id_str [] ids = take_id id_str ids
take_ids id_str (c ∷ cs) ids =
    if c == comma
    then (take_id id_str ids >>= take_ids [] cs)
    else take_ids (id_str ++ c ∷ []) cs ids

-- `FP_STREAM_IDS`: whether there is a whitelist, and its ids.
unfoldable pub stream_ids : Text → Option (Bool × List ℤ)
unfolding take_ids
stream_ids stream_ids_str =
    if is_empty stream_ids_str
    then some (false, [])
    else elim (take_ids [] stream_ids_str []) [ none ↦ none | some ids ↦ some (true, ids) ]

-- `GlobalConfig` as it is made without arguments.
unfoldable pub default_config : GlobalConfig
default_config = record {
  log_level_str = codes "INFO";
  stream_configs = [];
  instance_slot = pos 0;
  total_instances = pos 1;
  max_streams = pos 0;
  stream_id_whitelist = [];
  has_stream_whitelist = false;
}

unfoldable pub config_manager : Environment → Option ConfigManager
unfolding get_env stream_ids default_config
config_manager env = do
  interval ← stoll (get_env env (codes "FP_CONFIG_RELOAD_INTERVAL_S") (codes "60"))
  slot ← stoi (get_env env (codes "FP_INSTANCE_SLOT") (codes "0"))
  total ← stoi (get_env env (codes "FP_TOTAL_INSTANCES") (codes "1"))
  max ← stoi (get_env env (codes "FP_MAX_STREAMS") (codes "0"))
  (has_whitelist, ids) ← stream_ids (get_env env (codes "FP_STREAM_IDS") [])
  some (record {
    api_url = get_env env (codes "FP_CONFIG_API_URL") [];
    reload_interval = interval;
    current_config = default_config;
    instance_slot = slot;
    total_instances = total;
    max_streams = max;
    stream_id_whitelist = ids;
    has_stream_whitelist = has_whitelist;
  })
