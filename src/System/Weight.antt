-- ===== src/System/Weight.antt =====
-- What is counted in batches and in frames on their way into them.
use frame_processor.Base.{ℕ, ◌+◌, ◌≡◌}
use frame_processor.Types.{DecodedFrame}
use frame_processor.Publisher.Serialize.{append_frame}
use frame_processor.Publisher.Batching.{FrameBatch, new_batch, key_of, frame_key}

-- A batch with one more frame.
abbrev pub with_frame : DecodedFrame → FrameBatch → FrameBatch
with_frame d b = record b {
  data_buffer = append_frame d.frame b.data_buffer;
  frame_count = b.frame_count + 1;
}

-- A measure of frames and batches that packing keeps, for frames that are fair: a batch that is opened
-- for a frame weighs as much as the frame, and one that a frame joins weighs that much more.
pub record Weight : Type 1 where
  pub Valid : FrameBatch → Type 0
  pub Fair : DecodedFrame → Type 0
  pub batch : FrameBatch → ℕ
  pub frame : DecodedFrame → ℕ
  pub opens :
      (d : DecodedFrame)
      → Fair d
      → Valid (with_frame d (new_batch d)) × (batch (with_frame d (new_batch d)) ≡ frame d)
  pub joins :
      (d : DecodedFrame) (b : FrameBatch)
      → Fair d
      → Valid b
      → key_of b ≡ frame_key d
      → Valid (with_frame d b) × (batch (with_frame d b) ≡ batch b + frame d)
