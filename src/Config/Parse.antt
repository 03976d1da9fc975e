-- ===== src/Config/Parse.antt =====
-- config_manager.cpp, `parse_config_json`: from the text of the file to a configuration.
use mathlib.Core.Option
use frame_processor.Base.{
  ℤ, pos, pos_part, ltb_ℤ, Bool, false, not, ◌&&◌, List, [], ◌∷◌, ◌++◌, map, Option, none, some,
  Text, codes, ◌>>=◌, is_empty, leb, length, to_i32, if◌then◌else◌,
}
use frame_processor.Types.{
  one, ScaleConfig, CropConfig, ProcessingConfig, EventConfig, StreamConfig, GlobalConfig,
}
use frame_processor.Config.State.{ConfigManager}
use frame_processor.Config.Scaling.{owns_stream, is_stream_whitelisted}
use frame_processor.Config.Json.{Simdjson, or_else}

abbrev pub no_scale : ScaleConfig
no_scale = record { width = pos 0; height = pos 0 }

abbrev pub no_crop : CropConfig
no_crop = record { x = pos 0; y = pos 0; width = pos 0; height = pos 0 }

abbrev pub no_processing : ProcessingConfig
no_processing = record { scale = no_scale; crop = no_crop }

-- The test of the limit; zero is none.
unfoldable pub is_full : ConfigManager → List StreamConfig → Bool
is_full m taken = ltb_ℤ (pos 0) m.max_streams && leb (pos_part m.max_streams) (length taken)

module _ (json : Simdjson) where
  open json use {
    Element, parse, at_key, get_string, get_int64, get_double, get_bool, get_array, get_object,
  }

  -- An integer member, narrowed to `int`; zero if it is missing or of another type.
  unfoldable pub int_field : Element → Text → ℤ
  int_field e key = elim (at_key e key >>= get_int64) [ none ↦ pos 0 | some v ↦ to_i32 v ]

  unfoldable pub parse_scale : Element → ScaleConfig
  parse_scale e = record {
    width = int_field e (codes "width");
    height = int_field e (codes "height");
  }

  unfoldable pub parse_crop : Element → CropConfig
  parse_crop e = record {
    x = int_field e (codes "x");
    y = int_field e (codes "y");
    width = int_field e (codes "width");
    height = int_field e (codes "height");
  }

  unfoldable pub parse_processing : Element → ProcessingConfig
  parse_processing stream = elim (at_key stream (codes "processing") >>= get_object) [
    | none ↦ no_processing
    | some proc ↦ record {
      scale =
          or_else (Option.map parse_scale (at_key proc (codes "scale") >>= get_object)) no_scale;
      crop = or_else (Option.map parse_crop (at_key proc (codes "crop") >>= get_object)) no_crop;
    }
  ]

  -- The id of an event and its own processing are never set.
  unfoldable pub parse_event : Element → EventConfig
  parse_event e = record {
    id = 0;
    name = or_else (at_key e (codes "name") >>= get_string) [];
    target_fps = or_else (at_key e (codes "target_fps") >>= get_double) one;
    batch_size = to_i32 (or_else (at_key e (codes "batch_size") >>= get_int64) (pos 8));
    processing = no_processing;
  }

  unfoldable pub parse_events : Element → List EventConfig
  parse_events stream = map parse_event (or_else (at_key stream (codes "events") >>= get_array) [])

  -- The members of a stream that is taken; `none` if its url is missing or empty.
  unfoldable pub parse_stream : Element → ℤ → Option StreamConfig
  parse_stream e id = elim (at_key e (codes "url") >>= get_string) [
    | none ↦ none
    | some url ↦
        if is_empty url
        then none
        else some (record {
          id = id;
          url = url;
          target_fps = or_else (at_key e (codes "target_fps") >>= get_double) one;
          wait_for_keyframe = or_else (at_key e (codes "wait_for_keyframe") >>= get_bool) false;
          enabled = or_else (at_key e (codes "enabled") >>= get_bool) false;
          processing = parse_processing e;
          events = parse_events e;
        })
  ]

  -- One round of the loop over the streams, with what has been taken so far.
  unfoldable pub take_stream : ConfigManager → List StreamConfig → Element → List StreamConfig
  take_stream m taken e = elim (at_key e (codes "id") >>= get_int64) [
    | none ↦ taken
    | some id ↦
        if not (is_stream_whitelisted m id)
        then taken
        else if not (owns_stream m id)
        then taken
        else if is_full m taken
        then taken
        else elim (parse_stream e id) [ none ↦ taken | some cfg ↦ taken ++ cfg ∷ [] ]
  ]

  unfoldable pub take_streams : ConfigManager → List StreamConfig → List Element → List StreamConfig
  take_streams m taken [] = taken
  take_streams m taken (e ∷ es) = take_streams m (take_stream m taken e) es

  unfoldable pub log_level : Element → Text
  log_level doc =
      or_else
        (at_key doc (codes "global_settings")
          >>= (λ s. at_key s (codes "log_level"))
          >>= get_string)
        (codes "INFO")

  -- What `config_out` holds at the end, for a document with these streams.
  unfoldable pub global_config : ConfigManager → Element → List Element → GlobalConfig
  global_config m doc streams = record {
    log_level_str = log_level doc;
    stream_configs = take_streams m [] streams;
    instance_slot = m.instance_slot;
    total_instances = m.total_instances;
    max_streams = m.max_streams;
    stream_id_whitelist = m.stream_id_whitelist;
    has_stream_whitelist = m.has_stream_whitelist;
  }

  -- `none` is the result `false`: the file is missing or no JSON, or has no array of streams.
  unfoldable pub parse_config_json : ConfigManager → Option Text → Option GlobalConfig
  parse_config_json m file = do
    doc ← file >>= parse
    streams ← at_key doc (codes "streams") >>= get_array
    some (global_config m doc streams)
