-- ===== src/Publisher/Layout.antt =====
-- The bytes that the packing leaves: a header and three planes without padding.
use native.Mathlib.Nat.{mod-eq_of_lt}
use frame_processor.Base.{
  ℕ, zero, suc, ◌+◌, ◌*◌, ◌/◌, ◌%◌, ◌^◌, ◌≤◌, ◌<◌, ◌≡◌, refl, ap, sym, ◌∙◌, ℤ, pos, negsuc,
  pos_part, neg_part, List, [], ◌++◌, append_assoc, append-nil, arith, length, replicate,
  length-append, to_u32, to_u64,
}
use frame_processor.Types.{Frame}
use frame_processor.Publisher.Memory.{
  blit, read, le_bytes, length-read, length-le_bytes, blit-replicate,
}
use frame_processor.Publisher.Serialize.{
  header_size, header, y_plane_size, uv_plane_size, total_entry_size, copy_rows, append_frame,
}

-- Rows `i`, `i + 1`, … of a plane, `n` of them, `w` bytes of each, `s` bytes apart in memory.
unfoldable pub rows : (ℕ → ℕ) → ℕ → ℕ → ℕ → ℕ → List ℕ
rows plane s w zero i = []
rows plane s w (suc n) i = read plane (i * s) w ++ rows plane s w n (i + 1)

pub length-rows : (plane : ℕ → ℕ) (s w n i : ℕ) → length (rows plane s w n i) ≡ n * w
unfolding rows
length-rows plane s w zero i = omega arith
length-rows plane s w (suc n) i = omega (
  arith,
  length-append (read plane (i * s) w) (rows plane s w n (i + 1)),
  length-read plane (i * s) w,
  length-rows plane s w n (i + 1),
)

-- An offset of a row that is there does not wrap.
offset_mod : (i n x : ℕ) → (i + suc n) * x ≤ 2 ^ 32 → i * x % 2 ^ 32 ≡ i * x
offset_mod i n zero h = omega arith
offset_mod i n (suc x) h = mod-eq_of_lt (omega arith)

copy_rows-rows :
    (plane : ℕ → ℕ) (z : ℤ) (s w dest n i k m : ℕ) (pre post : List ℕ)
    → to_u32 z ≡ s
    → length pre ≡ dest + i * w
    → m ≡ n * w + k
    → (i + n) * w ≤ 2 ^ 32
    → (i + n) * s ≤ 2 ^ 32
    → copy_rows plane z w dest n i (pre ++ (replicate m 0 ++ post))
      ≡ (pre ++ rows plane s w n i) ++ (replicate k 0 ++ post)
unfolding copy_rows rows
copy_rows-rows plane z s w dest zero i k m pre post e l em hw hs =
    let same : m ≡ k = omega arith in rw (same, append-nil)
copy_rows-rows plane z s w dest (suc n) i k m pre post e l em hw hs =
    let row = read plane (i * s) w in
    let size : length row ≡ w = length-read plane (i * s) w in
    let size' = length-append pre row in
    let tail_rows = rows plane s w n (i + 1) in
    rw
      (
        e,
        offset_mod i n w hw,
        offset_mod i n s hs,
        blit-replicate pre row post (dest + i * w) (n * w + k) m (sym l) (omega arith),
      )
      (copy_rows-rows plane z s w dest n (i + 1) k (n * w + k) (pre ++ row) post e (omega arith)
          (omega arith) (omega arith) (omega arith)
        ∙ ap (λ xs. xs ++ (replicate k 0 ++ post)) (append_assoc pre row tail_rows))

-- What the packing relies on: sizes as an `int` of a picture has them, and planes whose sizes, with
-- their padding, a `uint32_t` counts.
pub record IsPlanar (f : Frame) : Type 0 where
  pub width_nonneg : neg_part f.width ≡ 0
  pub height_nonneg : neg_part f.height ≡ 0
  pub width_int : pos_part f.width < 2 ^ 31
  pub height_int : pos_part f.height < 2 ^ 31
  pub area : pos_part f.height * pos_part f.width ≤ 2 ^ 32
  pub stride_nonneg : (p : ℕ) → p < 3 → neg_part (f.linesize p) ≡ 0
  pub stride_int : (p : ℕ) → p < 3 → pos_part (f.linesize p) < 2 ^ 31
  pub plane_size : (p : ℕ) → p < 3 → pos_part f.height * pos_part (f.linesize p) ≤ 2 ^ 32

to_u32_pos : (z : ℤ) → neg_part z ≡ 0 → pos_part z < 2 ^ 31 → to_u32 z ≡ pos_part z
to_u32_pos (pos n) e h = omega arith
to_u32_pos (negsuc n) e h = absurd (omega arith)

-- Plane `p` of a frame, `w` bytes from each of `h` rows.
unfoldable pub packed_plane : Frame → ℕ → ℕ → ℕ → List ℕ
packed_plane f p w h = rows (f.plane p) (pos_part (f.linesize p)) w h 0

-- A frame in the layout of the stream: header, Y, U, V.
unfoldable pub packed : Frame → List ℕ
packed f =
    let w = pos_part f.width in
    let h = pos_part f.height in
    header f.pts w h
    ++ (packed_plane f 0 w h
        ++ (packed_plane f 1 (w / 2) (h / 2) ++ packed_plane f 2 (w / 2) (h / 2)))

pub length-packed_plane : (f : Frame) (p w h : ℕ) → length (packed_plane f p w h) ≡ h * w
unfolding packed_plane
length-packed_plane f p w h = length-rows (f.plane p) (pos_part (f.linesize p)) w h 0

half_area : (w h : ℕ) → h * w ≤ 2 ^ 32 → (h / 2) * (w / 2) ≤ 2 ^ 32
half_area w h k = grind arith

half_rows : (s h : ℕ) → h * s ≤ 2 ^ 32 → (h / 2) * s ≤ 2 ^ 32
half_rows s h k = grind arith

pub length-header : (pts : ℤ) (w h : ℕ) → length (header pts w h) ≡ 16
unfolding header
length-header pts w h = omega (
  arith,
  length-append (le_bytes 8 (to_u64 pts)) (le_bytes 4 w ++ le_bytes 4 h),
  length-append (le_bytes 4 w) (le_bytes 4 h),
  length-le_bytes 8 (to_u64 pts),
  length-le_bytes 4 w,
  length-le_bytes 4 h,
)

-- The entry has no padding, so its size does not wrap.
entry_size :
    (w h : ℕ) → h * w ≤ 2 ^ 32 → 16 + (w * h + (w / 2) * (h / 2) + (w / 2) * (h / 2)) < 2 ^ 64
entry_size w h k = omega (arith, half_area w h k)

blit_resized :
    (buf src : List ℕ) (k m : ℕ)
    → m ≡ length src + k
    → blit (length buf) src (buf ++ replicate m 0) ≡ (buf ++ src) ++ (replicate k 0 ++ [])
blit_resized buf src k m e =
    ap (λ xs. blit (length buf) src (buf ++ xs)) (sym (append-nil (replicate m 0)))
    ∙ blit-replicate buf src [] (length buf) k m refl e

-- Packing a planar frame appends exactly its header and its three planes, row after row with the
-- padding left out, and leaves the bytes before them alone.
pub append_frame-packed :
    (f : Frame) (buf : List ℕ) → IsPlanar f → append_frame f buf ≡ buf ++ packed f
unfolding append_frame packed packed_plane y_plane_size uv_plane_size total_entry_size
append_frame-packed f buf v =
    rw
      (
        to_u32_pos f.width v.width_nonneg v.width_int,
        to_u32_pos f.height v.height_nonneg v.height_int,
        blit_resized buf hd (h * w + (u + u)) ((header_size + (w * h + u + u)) % 2 ^ 64)
            (omega (arith, length-header f.pts w h, entry_size w h v.area)),
        copy_rows-rows (f.plane 0) (f.linesize 0) (s 0) w (length buf + header_size) h 0 (u + u)
            (h * w + (u + u)) (buf ++ hd) [] (stride 0 (omega arith)) (omega (arith, sizes)) refl
            (omega (arith, v.area)) (omega (arith, v.plane_size 0 (omega arith))),
        copy_rows-rows (f.plane 1) (f.linesize 1) (s 1) (w / 2) (length buf + header_size + w * h)
            (h / 2) 0 u (u + u) ((buf ++ hd) ++ y) [] (stride 1 (omega arith))
            (omega (arith, sizes_y)) (omega arith) (omega (arith, half_area w h v.area))
            (omega (arith, half_rows (s 1) h (v.plane_size 1 (omega arith)))),
        copy_rows-rows (f.plane 2) (f.linesize 2) (s 2) (w / 2)
            (length buf + header_size + w * h + u) (h / 2) 0 0 u (((buf ++ hd) ++ y) ++ uu) []
            (stride 2 (omega arith)) (omega (arith, sizes_u)) (omega arith)
            (omega (arith, half_area w h v.area))
            (omega (arith, half_rows (s 2) h (v.plane_size 2 (omega arith)))),
      )
      (simp (append_assoc, append-nil))
  where
    w : ℕ
    w = pos_part f.width

    h : ℕ
    h = pos_part f.height

    u : ℕ
    u = (w / 2) * (h / 2)

    s : ℕ → ℕ
    s p = pos_part (f.linesize p)

    hd : List ℕ
    hd = header f.pts w h

    sizes : length (buf ++ hd) ≡ length buf + 16
    sizes = omega (arith, length-append buf hd, length-header f.pts w h)

    stride : (p : ℕ) → p < 3 → to_u32 (f.linesize p) ≡ s p
    stride p k = to_u32_pos (f.linesize p) (v.stride_nonneg p k) (v.stride_int p k)

    y : List ℕ
    y = packed_plane f 0 w h

    uu : List ℕ
    uu = packed_plane f 1 (w / 2) (h / 2)

    sizes_y : length ((buf ++ hd) ++ y) ≡ length buf + 16 + w * h
    sizes_y = omega (arith, sizes, length-append (buf ++ hd) y, length-rows (f.plane 0) (s 0) w h 0)

    sizes_u : length (((buf ++ hd) ++ y) ++ uu) ≡ length buf + 16 + w * h + u
    sizes_u = omega (
      arith,
      sizes_y,
      length-append ((buf ++ hd) ++ y) uu,
      length-rows (f.plane 1) (s 1) (w / 2) (h / 2) 0,
    )
