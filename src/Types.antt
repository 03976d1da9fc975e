-- ===== src/Types.antt =====
-- utils/types.h and utils/types.cpp: the configuration and the frames that pass through the queues.
pub mod Equality
mod Deleters
mod Tests
use frame_processor.Base.{
  ℕ, ◌==◌, ◌+◌, ℤ, eqb_ℤ, Bool, true, false, ◌&&◌, ◌||◌, List, [], ◌∷◌, Text, text_eq, length,
  list_eq, if◌then◌else◌,
}

-- A `double`, by the bit pattern of its value. Configuration values come from JSON, which denotes no
-- NaN, and a negative zero is read as zero: then `==` of doubles is equality of the patterns.
pub record Double : Type 0 where
  pub bits : ℕ

abbrev pub eqb_double : Double → Double → Bool
eqb_double a b = a.bits == b.bits

abbrev pub one : Double
one = record { bits = 0x3ff0_0000_0000_0000 }

abbrev pub eqb_bool : Bool → Bool → Bool
eqb_bool true b = b
eqb_bool false true = false
eqb_bool false false = true

pub record ScaleConfig : Type 0 where
  pub width : ℤ
  pub height : ℤ

pub record CropConfig : Type 0 where
  pub x : ℤ
  pub y : ℤ
  pub width : ℤ
  pub height : ℤ

pub record ProcessingConfig : Type 0 where
  pub scale : ScaleConfig
  pub crop : CropConfig

pub record EventConfig : Type 0 where
  pub id : ℕ
  pub name : Text
  pub target_fps : Double
  pub batch_size : ℤ
  pub processing : ProcessingConfig

pub record StreamConfig : Type 0 where
  pub id : ℤ
  pub url : Text
  pub target_fps : Double
  pub wait_for_keyframe : Bool
  pub enabled : Bool
  pub processing : ProcessingConfig
  pub events : List EventConfig

-- The whitelist, a `std::unordered_set`, is a list of distinct ids.
pub record GlobalConfig : Type 0 where
  pub log_level_str : Text
  pub stream_configs : List StreamConfig
  pub instance_slot : ℤ
  pub total_instances : ℤ
  pub max_streams : ℤ
  pub stream_id_whitelist : List ℤ
  pub has_stream_whitelist : Bool

unfoldable pub scale_eq : ScaleConfig → ScaleConfig → Bool
scale_eq a b = eqb_ℤ a.width b.width && eqb_ℤ a.height b.height

unfoldable pub crop_eq : CropConfig → CropConfig → Bool
crop_eq a b = eqb_ℤ a.x b.x && (eqb_ℤ a.y b.y && (eqb_ℤ a.width b.width && eqb_ℤ a.height b.height))

unfoldable pub processing_eq : ProcessingConfig → ProcessingConfig → Bool
unfolding scale_eq crop_eq
processing_eq a b = scale_eq a.scale b.scale && crop_eq a.crop b.crop

unfoldable pub event_eq : EventConfig → EventConfig → Bool
unfolding processing_eq
event_eq a b =
    a.id == b.id
    && (text_eq a.name b.name
        && (eqb_double a.target_fps b.target_fps
            && (eqb_ℤ a.batch_size b.batch_size && processing_eq a.processing b.processing)))

-- The stream's own `target_fps` is not compared.
unfoldable pub stream_eq : StreamConfig → StreamConfig → Bool
unfolding event_eq list_eq
stream_eq a b =
    eqb_ℤ a.id b.id
    && (text_eq a.url b.url
        && (eqb_bool a.wait_for_keyframe b.wait_for_keyframe
            && (eqb_bool a.enabled b.enabled
                && (list_eq event_eq a.events b.events
                    && processing_eq a.processing b.processing))))

unfoldable pub member : ℤ → List ℤ → Bool
member i [] = false
member i (j ∷ s) = eqb_ℤ j i || member i s

-- `==` of two sets: as many elements, and each of the one in the other.
unfoldable pub subset : List ℤ → List ℤ → Bool
unfolding member
subset [] t = true
subset (i ∷ s) t = member i t && subset s t

unfoldable pub set_eq : List ℤ → List ℤ → Bool
unfolding subset
set_eq s t = length s == length t && subset s t

unfoldable pub global_eq : GlobalConfig → GlobalConfig → Bool
unfolding stream_eq set_eq
global_eq a b =
    text_eq a.log_level_str b.log_level_str
    && (list_eq stream_eq a.stream_configs b.stream_configs
        && (eqb_ℤ a.instance_slot b.instance_slot
            && (eqb_ℤ a.total_instances b.total_instances
                && (eqb_ℤ a.max_streams b.max_streams
                    && (eqb_bool a.has_stream_whitelist b.has_stream_whitelist
                        && set_eq a.stream_id_whitelist b.stream_id_whitelist)))))

-- `AVRational`.
pub record Rational : Type 0 where
  pub num : ℤ
  pub den : ℤ

-- What the program reads of an `AVFrame`. `plane i o` is the byte at offset `o` of `data[i]`.
pub record Frame : Type 0 where
  pub width : ℤ
  pub height : ℤ
  pub format : ℤ
  pub pts : ℤ
  pub plane : ℕ → ℕ → ℕ
  pub linesize : ℕ → ℤ
  pub sample_aspect_ratio : Rational

pub record DecodedFrame : Type 0 where
  pub frame : Frame
  pub source_config : StreamConfig
  pub event_config : EventConfig
  pub time_base : Rational

-- What a sink or a decoder answers: a frame, that it needs more input, that it has ended, or another
-- error.
pub data Pull : Type 0 where
  again end_of_file failed : Pull
  got : Frame → Pull
