-- ===== src/Publisher/Decode.antt =====
-- A consumer of the stream, as README.md describes the binary blob: sixteen bytes of header, from
-- which the sizes of the planes follow.
use native.Mathlib.Nat.{pow-suc}
use mathlib.Core.Option
use frame_processor.Base.{
  ℕ, zero, suc, ◌+◌, ◌*◌, ◌/◌, ◌^◌, ◌<◌, ◌≡◌, refl, ap, sym, ◌∙◌, ℤ, pos_part, List, [], ◌∷◌, ◌++◌,
  map, append_assoc, arith, length, take, drop, take-append, drop-append, length-append, to_u64,
  of_u64, of_u64-to_u64, to_u64_lt, IsI64, ltb, if◌then◌else◌, Option, none, some, All, append-nil,
  ltb-false_of_le, false,
}
use frame_processor.Types.{Frame}
use frame_processor.Publisher.Memory.{le_bytes, length-le_bytes}
use frame_processor.Publisher.Serialize.{header, append_frame}
use frame_processor.Publisher.Layout.{
  IsPlanar, packed, packed_plane, append_frame-packed, length-packed_plane,
}

pub record Picture : Type 0 where
  pub pts : ℤ
  pub width : ℕ
  pub height : ℕ
  pub y : List ℕ
  pub u : List ℕ
  pub v : List ℕ

-- The number that bytes stand for, the lowest first.
pub le_value : List ℕ → ℕ
le_value [] = 0
le_value (b ∷ bs) = b + 256 * le_value bs

-- One frame off the front of a blob.
pub decode_frame : List ℕ → Option (Picture × List ℕ)
decode_frame b0 =
    let b1 = drop 8 b0 in
    let b2 = drop 4 b1 in
    let b3 = drop 4 b2 in
    let w = le_value (take 4 b1) in
    let h = le_value (take 4 b2) in
    let uv = (w / 2) * (h / 2) in
    let b4 = drop (w * h) b3 in
    let b5 = drop uv b4 in
    if ltb (length b3) (w * h + uv + uv)
    then none
    else some (
      record {
        pts = of_u64 (le_value (take 8 b0));
        width = w;
        height = h;
        y = take (w * h) b3;
        u = take uv b4;
        v = take uv b5;
      },
      drop uv b5,
    )

-- `n` frames, and nothing after them.
unfoldable pub decode : ℕ → List ℕ → Option (List Picture)
decode zero [] = some []
decode zero (b ∷ bs) = none
decode (suc n) bs = elim (decode_frame bs) [
  | none ↦ none
  | some (p, rest) ↦ Option.map (λ ps. p ∷ ps) (decode n rest)
]

pub le_value-le_bytes : (n v : ℕ) → v < 256 ^ n → le_value (le_bytes n v) ≡ v
unfolding le_value le_bytes
le_value-le_bytes zero v h = omega arith
le_value-le_bytes (suc n) v h =
    omega (arith, le_value-le_bytes n (v / 256) (omega (arith, pow-suc 256 n)))

-- The picture that a frame holds.
pub picture : Frame → Picture
picture f =
    let w = pos_part f.width in
    let h = pos_part f.height in
    record {
      pts = f.pts;
      width = w;
      height = h;
      y = packed_plane f 0 w h;
      u = packed_plane f 1 (w / 2) (h / 2);
      v = packed_plane f 2 (w / 2) (h / 2);
    }

decode_parts :
    (a b c y u v rest : List ℕ) (w h uv : ℕ)
    → length a ≡ 8
    → length b ≡ 4
    → length c ≡ 4
    → le_value b ≡ w
    → le_value c ≡ h
    → uv ≡ (w / 2) * (h / 2)
    → length y ≡ w * h
    → length u ≡ uv
    → length v ≡ uv
    → decode_frame (a ++ (b ++ (c ++ (y ++ (u ++ (v ++ rest))))))
      ≡ some
          (record { pts = of_u64 (le_value a); width = w; height = h; y = y; u = u; v = v }, rest)
unfolding decode_frame
decode_parts a b c y u v rest w h uv la lb lc eb ec eu ly lu lv =
    rw
      (
        drop-append a (b ++ (c ++ (y ++ (u ++ (v ++ rest))))) 8 (sym la),
        take-append a (b ++ (c ++ (y ++ (u ++ (v ++ rest))))) 8 (sym la),
        drop-append b (c ++ (y ++ (u ++ (v ++ rest)))) 4 (sym lb),
        take-append b (c ++ (y ++ (u ++ (v ++ rest)))) 4 (sym lb),
        drop-append c (y ++ (u ++ (v ++ rest))) 4 (sym lc),
        take-append c (y ++ (u ++ (v ++ rest))) 4 (sym lc),
        eb,
        ec,
        ← eu,
        drop-append y (u ++ (v ++ rest)) (w * h) (sym ly),
        take-append y (u ++ (v ++ rest)) (w * h) (sym ly),
        drop-append u (v ++ rest) uv (sym lu),
        take-append u (v ++ rest) uv (sym lu),
        drop-append v rest uv (sym lv),
        take-append v rest uv (sym lv),
      )
      (rw long)
  where
    long : ltb (length (y ++ (u ++ (v ++ rest)))) (w * h + uv + uv) ≡ false
    long = ltb-false_of_le _ _ (
        omega (
          arith,
          length-append y (u ++ (v ++ rest)),
          length-append u (v ++ rest),
          length-append v rest,
        ))

-- The consumer reads back the time, the size and the planes of a packed frame, and stops at its end.
pub decode_frame-packed :
    (f : Frame) (rest : List ℕ)
    → IsPlanar f
    → IsI64 f.pts
    → decode_frame (packed f ++ rest) ≡ some (picture f, rest)
unfolding packed header picture
decode_frame-packed f rest ok wide =
    ap decode_frame regroup
    ∙ decode_parts (le_bytes 8 (to_u64 f.pts)) (le_bytes 4 w) (le_bytes 4 h) y u v rest w h
        ((w / 2) * (h / 2)) (length-le_bytes 8 _) (length-le_bytes 4 w) (length-le_bytes 4 h)
        (le_value-le_bytes 4 w (omega arith)) (le_value-le_bytes 4 h (omega arith)) refl
        (omega (arith, length-packed_plane f 0 w h))
        (omega (arith, length-packed_plane f 1 (w / 2) (h / 2)))
        (omega (arith, length-packed_plane f 2 (w / 2) (h / 2)))
    ∙ ap (λ t. some (record { pts = t; width = w; height = h; y = y; u = u; v = v }, rest)) time
  where
    w : ℕ
    w = pos_part f.width

    h : ℕ
    h = pos_part f.height

    y : List ℕ
    y = packed_plane f 0 w h

    u : List ℕ
    u = packed_plane f 1 (w / 2) (h / 2)

    v : List ℕ
    v = packed_plane f 2 (w / 2) (h / 2)

    regroup :
        packed f ++ rest
        ≡ le_bytes 8 (to_u64 f.pts) ++ (le_bytes 4 w ++ (le_bytes 4 h ++ (y ++ (u ++ (v ++ rest)))))
    regroup = simp append_assoc

    time : of_u64 (le_value (le_bytes 8 (to_u64 f.pts))) ≡ f.pts
    time =
        ap of_u64 (le_value-le_bytes 8 (to_u64 f.pts) (to_u64_lt f.pts)) ∙ of_u64-to_u64 f.pts wide

-- The buffer of a batch to which frames are appended one after the other.
unfoldable pub append_frames : List Frame → List ℕ → List ℕ
append_frames [] buf = buf
append_frames (f ∷ fs) buf = append_frames fs (append_frame f buf)

pub append_frames-append :
    (fs : List Frame) (f : Frame) (buf : List ℕ)
    → append_frames (fs ++ f ∷ []) buf ≡ append_frame f (append_frames fs buf)
unfolding append_frames
append_frames-append [] f buf = refl
append_frames-append (g ∷ fs) f buf = append_frames-append fs f (append_frame g buf)

abbrev pub blob : List Frame → List ℕ
blob [] = []
blob (f ∷ fs) = packed f ++ blob fs

-- A frame that the publisher can pack and its consumer can read.
abbrev pub IsReadable : Frame → Type 0
IsReadable f = IsPlanar f × IsI64 f.pts

pub append_frames-blob :
    (fs : List Frame) (buf : List ℕ) → All IsReadable fs → append_frames fs buf ≡ buf ++ blob fs
unfolding append_frames
append_frames-blob [] buf h = sym (append-nil buf)
append_frames-blob (f ∷ fs) buf h =
    append_frames-blob fs (append_frame f buf) h.1
    ∙ ap (λ b. b ++ blob fs) (append_frame-packed f buf h.0.0)
    ∙ append_assoc buf (packed f) (blob fs)

decode-blob :
    (fs : List Frame) → All IsReadable fs → decode (length fs) (blob fs) ≡ some (map picture fs)
unfolding decode
decode-blob [] h = refl
decode-blob (f ∷ fs) h =
    rw (decode_frame-packed f (blob fs) h.0.0 h.0.1, decode) (rw (decode-blob fs h.1))

-- Frames that are appended to an empty buffer are read back, all of them, in order and unchanged.
pub decode-append_frames :
    (fs : List Frame)
    → All IsReadable fs
    → decode (length fs) (append_frames fs []) ≡ some (map picture fs)
decode-append_frames fs h = ap (decode (length fs)) (append_frames-blob fs [] h) ∙ decode-blob fs h
