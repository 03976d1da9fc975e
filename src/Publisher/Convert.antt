-- ===== src/Publisher/Convert.antt =====
-- publisher.cpp, lines 48 to 113: the conversion of a frame to YUV420P and the copying of a plane, two
-- functions that nothing calls; `batching_loop` copies planes by a loop of its own.
use native.Mathlib.Nat.{mod-eq_of_lt}
use frame_processor.Base.{
  ℕ, zero, suc, ◌+◌, ◌*◌, ◌%◌, ◌^◌, ◌≤◌, ◌≡◌, refl, sym, ◌∙◌, ℤ, pos, negsuc, eqb_ℤ, Bool, true,
  false, not, List, [], ◌∷◌, Option, none, some, if◌then◌else◌, arith, to_u32, to_u64,
}
use frame_processor.Types.{Frame, Rational}
use frame_processor.Publisher.Memory.{blit, read}
use frame_processor.Publisher.Serialize.{copy_rows}

-- `copy_plane_remove_stride`, from row `r` on, with `rows` rows left: the offsets are products of
-- `size_t`. The sizes of a plane are not negative.
unfoldable copy_plane_remove_stride : ℕ → (ℕ → ℕ) → ℤ → ℕ → ℕ → ℕ → List ℕ → List ℕ
copy_plane_remove_stride dest src src_linesize row_bytes zero r buf = buf
copy_plane_remove_stride dest src src_linesize row_bytes (suc rows) r buf =
    copy_plane_remove_stride dest src src_linesize row_bytes rows (r + 1) (
      blit (dest + r * row_bytes % 2 ^ 64) (read src (r * to_u64 src_linesize % 2 ^ 64) row_bytes)
        buf)

-- An offset that fits 32 bits is the same in both types.
offset_widens : (r n x : ℕ) → (r + suc n) * x ≤ 2 ^ 32 → r * x % 2 ^ 64 ≡ r * x % 2 ^ 32
offset_widens r n zero h = omega arith
offset_widens r n (suc x) h =
    let small : r * suc x ≤ 2 ^ 32 = omega arith in
    mod-eq_of_lt (omega arith) ∙ sym (mod-eq_of_lt (omega arith))

-- Where no offset wraps around, it copies as the loop of `batching_loop` does.
copy_plane_remove_stride-copy_rows :
    (dest s w n r : ℕ) (src : ℕ → ℕ) (buf : List ℕ)
    → s ≤ 2 ^ 31
    → (r + n) * w ≤ 2 ^ 32
    → (r + n) * s ≤ 2 ^ 32
    → copy_plane_remove_stride dest src (pos s) w n r buf ≡ copy_rows src (pos s) w dest n r buf
unfolding copy_plane_remove_stride copy_rows
copy_plane_remove_stride-copy_rows dest s w zero r src buf hs hw hl = refl
copy_plane_remove_stride-copy_rows dest s w (suc n) r src buf hs hw hl =
    let narrow : to_u32 (pos s) ≡ s = mod-eq_of_lt (omega arith) in
    let wide : to_u64 (pos s) ≡ s = mod-eq_of_lt (omega arith) in
    rw (narrow, wide, offset_widens r n w hw, offset_widens r n s hl)
      (copy_plane_remove_stride-copy_rows dest s w n (r + 1) src _ hs (omega arith) (omega arith))

-- The frame `dst`, its planes by `av_image_alloc`, and `sws`.
data Resource : Type 0 where
  dst image sws : Resource

data Op : Type 0 where
  acquire release : Resource → Op

-- Which calls succeed, the rows that `sws_scale` reports, what it writes, and the aspect ratio of a new
-- frame.
record Answers : Type 0 where
  frame_alloc : Bool
  image_alloc : Bool
  get_context : Bool
  rows : ℤ
  plane : ℕ → ℕ → ℕ
  linesize : ℕ → ℤ
  sample_aspect_ratio : Rational

record Conversion : Type 0 where
  result : Option Frame
  ops : List Op

-- `AV_PIX_FMT_YUV420P` and `AV_PIX_FMT_NONE`.
abbrev yuv420p : ℤ
yuv420p = pos 0

abbrev no_format : ℤ
no_format = negsuc 0

-- A null result; `ops` are the calls up to it, with the destructor of `dst`.
unfoldable empty : List Op → Conversion
empty ops = record { result = none; ops = ops }

-- The frame that is returned.
unfoldable converted : Answers → Frame → Frame
converted a src = record {
  width = src.width;
  height = src.height;
  format = yuv420p;
  pts = src.pts;
  plane = a.plane;
  linesize = a.linesize;
  sample_aspect_ratio = a.sample_aspect_ratio;
}

unfoldable convert_frame_to_i420 : Option Frame → Answers → Conversion
unfolding empty converted
convert_frame_to_i420 none a = empty []
convert_frame_to_i420 (some src) a =
    if eqb_ℤ src.format yuv420p
    then empty []
    else if eqb_ℤ src.format no_format
    then empty []
    else if not a.frame_alloc
    then empty []
    else if not a.image_alloc
    then empty (acquire dst ∷ release dst ∷ [])
    else if not a.get_context
    then empty (acquire dst ∷ acquire image ∷ release image ∷ release dst ∷ [])
    else if not (eqb_ℤ a.rows src.height)
    then empty
        (acquire dst ∷ acquire image ∷ acquire sws ∷ release sws ∷ release image ∷ release dst ∷ [])
    else record {
      result = some (converted a src);
      ops = acquire dst ∷ acquire image ∷ acquire sws ∷ release sws ∷ [];
    }

same : Resource → Resource → Bool
same dst dst = true
same image image = true
same sws sws = true
same dst image = false
same dst sws = false
same image dst = false
same image sws = false
same sws dst = false
same sws image = false

-- Whether a resource is held after the calls.
held : Resource → Bool → List Op → Bool
held r h [] = h
held r h (acquire q ∷ ops) = held r (if same q r then true else h) ops
held r h (release q ∷ ops) = held r (if same q r then false else h) ops

returns : Option Frame → Bool
returns none = false
returns (some f) = true

-- What is held after a conversion: the frame and its planes, if they are returned.
Keeps : Resource → Conversion → Type 0
Keeps r c = held r false c.ops ≡ (if same sws r then false else returns c.result)

-- A conversion that fails holds nothing, and one that returns a frame holds that and its planes.
convert_frame_to_i420-Keeps :
    (r : Resource) (src : Option Frame) (a : Answers) → Keeps r (convert_frame_to_i420 src a)
unfolding convert_frame_to_i420 empty Keeps held same returns
convert_frame_to_i420-Keeps dst none a = refl
convert_frame_to_i420-Keeps image none a = refl
convert_frame_to_i420-Keeps sws none a = refl
convert_frame_to_i420-Keeps dst (some src) a = ground arith
convert_frame_to_i420-Keeps image (some src) a = ground arith
convert_frame_to_i420-Keeps sws (some src) a = ground arith
