-- ===== src/Config/EnvironmentTests.antt =====
-- The constructor of the configuration manager at small environments, and its theorems at them.
use frame_processor.Base.{
  ◌≡◌, refl, pos, negsuc, true, [], ◌∷◌, none, some, codes, decimal, text_eq, if◌then◌else◌, arith,
}
use frame_processor.Base.Numbers.{stoi, parse_int}
use frame_processor.Base.Environment.{Environment}
use frame_processor.Config.Environment.{stream_ids, config_path, config_manager}
use frame_processor.Config.Transfer.{Transfer, moved, move_assigned, fetch_config_from_api}
use frame_processor.Config.Whitelist.{Settings, HasSettings, commas, config_manager-printed}

stoi_spaces : stoi (codes " -12x") ≡ some (negsuc 11)
unfolding parse_int
stoi_spaces = refl

stoi_empty : stoi (codes "x1") ≡ none
unfolding parse_int
stoi_empty = refl

stoi_large : stoi (codes "2147483648") ≡ none
unfolding parse_int
stoi_large = refl

-- Empty places between commas are skipped.
stream_ids_gaps : stream_ids (codes "3,,-4,") ≡ some (true, negsuc 3 ∷ pos 3 ∷ [])
unfolding stream_ids parse_int
stream_ids_gaps = refl

stream_ids_word : stream_ids (codes "3,a") ≡ none
unfolding stream_ids parse_int
stream_ids_word = refl

abbrev settings : Settings
settings = record {
  interval = pos 30;
  slot = pos 1;
  total = pos 3;
  max = pos 0;
  ids = pos 7 ∷ negsuc 0 ∷ [];
}

-- The environment in which the settings are printed.
abbrev printed : Environment
printed var =
    if text_eq var (codes "FP_CONFIG_RELOAD_INTERVAL_S")
    then some (decimal settings.interval)
    else if text_eq var (codes "FP_INSTANCE_SLOT")
    then some (decimal settings.slot)
    else if text_eq var (codes "FP_TOTAL_INSTANCES")
    then some (decimal settings.total)
    else if text_eq var (codes "FP_MAX_STREAMS")
    then some (decimal settings.max)
    else if text_eq var (codes "FP_STREAM_IDS")
    then some (commas settings.ids)
    else none

config_path_default : config_path printed ≡ codes "/etc/fp/configs/config.json"
unfolding config_path
config_path_default = refl

config_manager-printed_example : HasSettings settings (config_manager printed)
config_manager-printed_example =
    config_manager-printed printed settings (refl, refl, refl, refl, refl) (ground arith)

-- Two pieces arrive; the handle is cleaned up.
abbrev two_pieces : Transfer
two_pieces = record {
  init = some 5;
  chunks =
      record { contents = codes "{"; has_memory = true }
      ∷ record { contents = codes "}"; has_memory = true }
      ∷ [];
  performs = true;
  http_code = pos 200;
}

fetch_pieces :
    fetch_config_from_api two_pieces ≡ record { answer = some (codes "{}"); cleaned = 5 ∷ [] }
unfolding fetch_config_from_api
fetch_pieces = refl

fetch_missing :
    fetch_config_from_api (record two_pieces { http_code = pos 404 })
    ≡ record { answer = none; cleaned = 5 ∷ [] }
unfolding fetch_config_from_api
fetch_missing = refl

-- A handle that is assigned replaces the own one, which is cleaned up.
handle_assigned :
    move_assigned (record { handle = some 1 }) (record { handle = some 2 }) []
    ≡ ((record { handle = some 2 }, record { handle = none }), 1 ∷ [])
unfolding move_assigned moved
handle_assigned = refl
