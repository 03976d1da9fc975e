-- ===== src/Publisher/Serialize.antt =====
-- publisher.cpp, lines 193 to 225: one frame appended to the buffer of its batch. The row offsets are
-- products of `uint32_t`, and a negative line size is converted to that type.
use frame_processor.Base.{
  ℕ, zero, suc, ◌+◌, ◌*◌, ◌/◌, ◌%◌, ◌^◌, ℤ, List, ◌++◌, length, replicate, to_u32, to_u64,
}
use frame_processor.Types.{Frame}
use frame_processor.Publisher.Memory.{blit, read, le_bytes}

-- `sizeof(FrameHeader)`.
abbrev pub header_size : ℕ
header_size = 16

-- `FrameHeader`, packed: the presentation time, the width and the height.
unfoldable pub header : ℤ → ℕ → ℕ → List ℕ
header pts w h = le_bytes 8 (to_u64 pts) ++ (le_bytes 4 w ++ le_bytes 4 h)

-- The sizes of the planes and of the entry, as `size_t`.
unfoldable pub y_plane_size : Frame → ℕ
y_plane_size f = to_u32 f.width * to_u32 f.height

unfoldable pub uv_plane_size : Frame → ℕ
uv_plane_size f = (to_u32 f.width / 2) * (to_u32 f.height / 2)

unfoldable pub total_entry_size : Frame → ℕ
total_entry_size f = (header_size + (y_plane_size f + uv_plane_size f + uv_plane_size f)) % 2 ^ 64

-- The loop over the rows `i`, `i + 1`, … of a plane, `n` of them, to offset `dest` of the buffer.
unfoldable pub copy_rows : (ℕ → ℕ) → ℤ → ℕ → ℕ → ℕ → ℕ → List ℕ → List ℕ
copy_rows plane linesize w dest zero i buf = buf
copy_rows plane linesize w dest (suc n) i buf =
    let row = read plane (i * to_u32 linesize % 2 ^ 32) w in
    copy_rows plane linesize w dest n (i + 1) (blit (dest + i * w % 2 ^ 32) row buf)

unfoldable pub append_frame : Frame → List ℕ → List ℕ
append_frame f buf =
    let w = to_u32 f.width in
    let h = to_u32 f.height in
    let dest = length buf in
    let resized = buf ++ replicate (total_entry_size f) 0 in
    let headed = blit dest (header f.pts w h) resized in
    let dest_y = dest + header_size in
    let with_y = copy_rows (f.plane 0) (f.linesize 0) w dest_y h 0 headed in
    let dest_u = dest_y + y_plane_size f in
    let with_u = copy_rows (f.plane 1) (f.linesize 1) (w / 2) dest_u (h / 2) 0 with_y in
    let dest_v = dest_u + uv_plane_size f in
    copy_rows (f.plane 2) (f.linesize 2) (w / 2) dest_v (h / 2) 0 with_u
