-- ===== src/Types/Equality.antt =====
-- The comparisons of types.cpp against equality of the values.
use frame_processor.Base.{
  ◌≡◌, arith, true, false, ◌↔◌, Decides, eqb_ℤ_iff, text_eq_iff, list_eq_iff,
}
use frame_processor.Types.{
  StreamConfig, eqb_double, eqb_bool, scale_eq, crop_eq, processing_eq, event_eq, stream_eq,
}

eqb_double_iff : Decides eqb_double
eqb_double_iff a b = ground arith

pub eqb_bool_iff : Decides eqb_bool
eqb_bool_iff true b = ground arith
eqb_bool_iff false true = ground arith
eqb_bool_iff false false = ground arith

scale_eq_iff : Decides scale_eq
unfolding scale_eq
scale_eq_iff a b = ground (arith, eqb_ℤ_iff a.width b.width, eqb_ℤ_iff a.height b.height)

crop_eq_iff : Decides crop_eq
unfolding crop_eq
crop_eq_iff a b = ground (
  arith,
  eqb_ℤ_iff a.x b.x,
  eqb_ℤ_iff a.y b.y,
  eqb_ℤ_iff a.width b.width,
  eqb_ℤ_iff a.height b.height,
)

-- `ProcessingConfig::operator==` holds exactly between equal configurations.
pub processing_eq_iff : Decides processing_eq
unfolding processing_eq
processing_eq_iff a b = ground (arith, scale_eq_iff a.scale b.scale, crop_eq_iff a.crop b.crop)

event_eq_iff : Decides event_eq
unfolding event_eq
event_eq_iff a b = ground (
  arith,
  text_eq_iff a.name b.name,
  eqb_double_iff a.target_fps b.target_fps,
  eqb_ℤ_iff a.batch_size b.batch_size,
  processing_eq_iff a.processing b.processing,
)

-- `StreamConfig::operator==` holds exactly if the configurations agree but for their own `target_fps`.
pub stream_eq_iff :
    (a b : StreamConfig) → (stream_eq a b ≡ true) ↔ (record a { target_fps = b.target_fps } ≡ b)
unfolding stream_eq
stream_eq_iff a b = ground (
  arith,
  eqb_ℤ_iff a.id b.id,
  text_eq_iff a.url b.url,
  eqb_bool_iff a.wait_for_keyframe b.wait_for_keyframe,
  eqb_bool_iff a.enabled b.enabled,
  list_eq_iff event_eq event_eq_iff a.events b.events,
  processing_eq_iff a.processing b.processing,
)
