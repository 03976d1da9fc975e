-- ===== src/Config/Tests.antt =====
-- The configuration manager at a small document model, and the theorems at inputs that meet their
-- hypotheses.
use frame_processor.Base.{
  ℕ, ◌%◌, ℤ, pos, ◌≡◌, refl, ◌↔◌, ◌⊎◌, true, false, List, [], ◌∷◌, Option, none, some, Text, codes,
  text_eq, All, if◌then◌else◌, arith,
}
use frame_processor.Types.{member, GlobalConfig, global_eq}
use frame_processor.Config.State.{ConfigManager}
use frame_processor.Config.Scaling.{owns_stream, is_stream_whitelisted, at_slot, owns_stream_iff}
use frame_processor.Config.Json.{Simdjson}
use frame_processor.Config.Parse.{
  is_full, parse_processing, parse_events, parse_stream, take_stream, take_streams, global_config,
  parse_config_json,
}
use frame_processor.Config.Selection.{limited, candidates, IsTaken, parse_config_json-candidates}
use frame_processor.Config.Merge.{
  Disk, Writing, returns, write_config, merged_text, merge_documents, update_local_config_from_api,
}
use frame_processor.Config.Reload.{Reloader, Round, terminated, reload, reload_round, reloader_loop}
use frame_processor.Config.Atomic.{LeavesAnswer, update_local_config-atomic}
use frame_processor.Config.Notify.{
  Announces, left_by, reloader_loop-Announces, reload-synced, reload_round-terminates,
}

-- Documents: the members of an object and the items of an array are chains.
pub data Tree : Type 0 where
  str : Text → Tree
  num : ℤ → Tree
  member_of : Text → Tree → Tree → Tree
  item : Tree → Tree → Tree
  end : Tree

abbrev pub value_at : Tree → Text → Option Tree
value_at (member_of k v rest) key = if text_eq k key then some v else value_at rest key
value_at (str t) key = none
value_at (num n) key = none
value_at (item a b) key = none
value_at end key = none

abbrev pub items : Tree → Option (List Tree)
items (item a rest) = elim (items rest) [ none ↦ none | some es ↦ some (a ∷ es) ]
items end = some []
items (str t) = none
items (num n) = none
items (member_of k v rest) = none

abbrev pub as_string : Tree → Option Text
as_string (str t) = some t
as_string (num n) = none
as_string (member_of k v rest) = none
as_string (item a b) = none
as_string end = none

abbrev pub as_int : Tree → Option ℤ
as_int (num n) = some n
as_int (str t) = none
as_int (member_of k v rest) = none
as_int (item a b) = none
as_int end = none

abbrev pub a_stream : ℤ → Tree
a_stream id = member_of (codes "id") (num id) (member_of (codes "url") (str (codes "rtsp")) end)

abbrev pub three_streams : Tree
three_streams = item (a_stream (pos 1)) (item (a_stream (pos 2)) (item (a_stream (pos 3)) end))

abbrev pub only_streams : Tree
only_streams = member_of (codes "streams") three_streams end

abbrev pub with_settings : Tree
with_settings = member_of (codes "global_settings") end only_streams

abbrev pub three : List Tree
three = a_stream (pos 1) ∷ a_stream (pos 2) ∷ a_stream (pos 3) ∷ []

-- Two texts are documents.
abbrev pub json : Simdjson
json = record {
  Element = Tree;
  parse = λ t.
      if text_eq t (codes "full")
      then some with_settings
      else if text_eq t (codes "bare")
      then some only_streams
      else none;
  minify = λ e. codes "{}";
  at_key = value_at;
  get_string = as_string;
  get_int64 = as_int;
  get_double = λ e. none;
  get_bool = λ e. none;
  get_array = items;
  get_object = λ e. none;
  overwritten = λ api local. local;
}

abbrev nothing_yet : GlobalConfig
nothing_yet = record {
  log_level_str = codes "INFO";
  stream_configs = [];
  instance_slot = pos 0;
  total_instances = pos 1;
  max_streams = pos 0;
  stream_id_whitelist = [];
  has_stream_whitelist = false;
}

-- The second of two instances, with at most one stream.
abbrev second_of_two : ConfigManager
second_of_two = record {
  api_url = codes "http://config";
  reload_interval = pos 30;
  current_config = nothing_yet;
  instance_slot = pos 1;
  total_instances = pos 2;
  max_streams = pos 1;
  stream_id_whitelist = pos 1 ∷ pos 3 ∷ [];
  has_stream_whitelist = true;
}

abbrev pub full_disk : Disk
full_disk = record { config_file = some (codes "full"); temp_file = none }

abbrev bare_disk : Disk
bare_disk = record { config_file = some (codes "bare"); temp_file = none }

abbrev started : Disk → Reloader
started d = record { manager = second_of_two; disk = d; notified = [] }

abbrev all_written : Writing
all_written = record { opens = true; stored = 1000; renames = true; removes = true }

abbrev answered : Round
answered = record {
  stop_requested = false;
  answer = some (codes "full");
  writing = record all_written { renames = false };
}

abbrev written_disk : Disk
written_disk = record full_disk {
  config_file = some (codes "{\n  \"global_settings\": {},\n  \"streams\": {}\n}");
}

owns_third : owns_stream second_of_two (pos 3) ≡ true
unfolding owns_stream
owns_third = refl

-- Of the streams 1, 2 and 3 the first is taken.
takes_first :
    take_streams json second_of_two [] (a_stream (pos 1) ∷ a_stream (pos 2) ∷ a_stream (pos 3) ∷ [])
    ≡ take_stream json second_of_two [] (a_stream (pos 1))
unfolding take_streams take_stream owns_stream is_stream_whitelisted member is_full parse_stream
    parse_processing parse_events
takes_first = refl

-- The answer that cannot be renamed leaves the file.
rename_fails :
    update_local_config_from_api json
      (record all_written { renames = false })
      (codes "full")
      full_disk
    ≡ returns false full_disk
unfolding update_local_config_from_api merge_documents write_config
rename_fails = refl

owns_stream_iff_example :
    (owns_stream (at_slot second_of_two 1 2) (pos 7) ≡ true) ↔ (◌≡◌ {A = ℕ} 1 (7 % 2))
owns_stream_iff_example = owns_stream_iff second_of_two 2 1 7 (omega arith) (omega arith)

parse_config_json-candidates_example :
    (c : GlobalConfig) × (parse_config_json json second_of_two (some (codes "bare")) ≡ some c)
    × (c.stream_configs ≡ limited second_of_two (candidates json second_of_two three))
    × All (IsTaken second_of_two) c.stream_configs
parse_config_json-candidates_example =
    parse_config_json-candidates json second_of_two (some (codes "bare")) only_streams three refl
      refl

update_local_config-atomic_example :
    LeavesAnswer json all_written (codes "full") full_disk true written_disk
unfolding update_local_config_from_api merge_documents write_config merged_text
update_local_config-atomic_example =
    update_local_config-atomic json all_written (codes "full") full_disk true written_disk refl

reloader_loop-Announces_example :
    Announces
      (started full_disk)
      (left_by (reloader_loop json (answered ∷ answered ∷ []) (started full_disk)))
reloader_loop-Announces_example =
    reloader_loop-Announces json (answered ∷ answered ∷ []) (started full_disk)

reload-synced_example :
    ((c : GlobalConfig) × (parse_config_json json second_of_two (some (codes "full")) ≡ some c)
      × (((reload json (started full_disk)).manager.current_config ≡ c)
          ⊎ (global_eq (reload json (started full_disk)).manager.current_config c ≡ true)))
    ⊎ ((parse_config_json json second_of_two (some (codes "full")) ≡ none)
        × (reload json (started full_disk) ≡ started full_disk))
reload-synced_example = reload-synced json (started full_disk)

reload_round-terminates_example :
    (parse_config_json json second_of_two (some (codes "bare"))
      ≡ some (global_config json second_of_two only_streams three))
    × (reload_round json answered (started bare_disk) ≡ terminated (started bare_disk))
reload_round-terminates_example =
    reload_round-terminates json answered (started bare_disk) (codes "full") with_settings
      only_streams three refl refl refl refl refl refl refl
