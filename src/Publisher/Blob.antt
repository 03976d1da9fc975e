-- ===== src/Publisher/Blob.antt =====
-- A consumer that reads a blob to its end, as README.md describes it.
use frame_processor.Base.{
  ℕ, zero, suc, ◌/◌, pos_part, ◌<◌, ◌≤◌, ◌≡◌, refl, ap, ◌∙◌, List, [], ◌∷◌, ◌++◌, map, none, some,
  arith, All, length, length-append,
}
use frame_processor.Types.{Frame}
use frame_processor.Publisher.Serialize.{header}
use frame_processor.Publisher.Layout.{packed, packed_plane, length-header}
use frame_processor.Publisher.Decode.{
  Picture, picture, decode_frame, decode_frame-packed, IsReadable, blob,
}

-- What a consumer reads from a blob, frame by frame, at most `n`: until it is at the end, or the rest
-- is no frame.
unfoldable pub read_all : ℕ → List ℕ → List Picture
read_all zero blob = []
read_all (suc n) [] = []
read_all (suc n) (b ∷ bs) = elim (decode_frame (b ∷ bs)) [
  | none ↦ []
  | some (p, rest) ↦ p ∷ read_all n rest
]

read_one :
    (n : ℕ) (bs rest : List ℕ) (x : Picture)
    → 0 < length bs
    → decode_frame bs ≡ some (x, rest)
    → read_all (suc n) bs ≡ x ∷ read_all n rest
unfolding read_all
read_one n [] rest x h e = absurd (omega (arith, h))
read_one n (b ∷ bs) rest x h e = rw (e, read_all) refl

length-packed : (f : Frame) → 0 < length (packed f)
unfolding packed
length-packed f =
    let w = pos_part f.width in
    let h = pos_part f.height in
    let planes : List ℕ =
      packed_plane f 0 w h
      ++ (packed_plane f 1 (w / 2) (h / 2) ++ packed_plane f 2 (w / 2) (h / 2)) in
    omega (arith, length-append (header f.pts w h) planes, length-header f.pts w h)

-- As many reads as there are frames are enough.
pub read_all-blob :
    (n : ℕ) (fs : List Frame)
    → length fs ≤ n
    → All IsReadable fs
    → read_all n (blob fs) ≡ map picture fs
unfolding read_all
read_all-blob zero [] h ok = refl
read_all-blob (suc n) [] h ok = refl
read_all-blob zero (f ∷ fs) h ok = absurd (omega (arith, h))
read_all-blob (suc n) (f ∷ fs) h ok =
    read_one n (packed f ++ blob fs) (blob fs) (picture f)
      (omega (arith, length-append (packed f) (blob fs), length-packed f))
      (decode_frame-packed f (blob fs) ok.0.0 ok.0.1)
    ∙ ap (λ ps. picture f ∷ ps) (read_all-blob n fs (omega (arith, h)) ok.1)

pub length-blob : (fs : List Frame) → length fs ≤ length (blob fs)
length-blob [] = omega arith
length-blob (f ∷ fs) =
    omega (arith, length-blob fs, length-append (packed f) (blob fs), length-packed f)

-- What a consumer reads from the data of an entry.
abbrev pub read_back : List ℕ → List Picture
read_back blob_bytes = read_all (length blob_bytes) blob_bytes
