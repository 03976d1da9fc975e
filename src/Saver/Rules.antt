-- ===== src/Saver/Rules.antt =====
-- Which frames are saved, and where.
use frame_processor.Base.{
  ℕ, ◌*◌, ◌/◌, ◌%◌, ◌<◌, ◌≡◌, refl, sym, ◌⊎◌, inl, inr, true, false, List, [], ◌∷◌, some, Text,
  codes, text_eq_iff, subst, All, arith, ℤ, pos, negsuc, pos_part, leb_ℤ, to_u64,
}
use frame_processor.Types.{Frame}
use frame_processor.Saver.Settings.{FrameSaver}
use frame_processor.Saver.Keeping.{Allows, save_frames-Keeps}
use frame_processor.Saver.Save.{Image, Call, dir_path, is_due, is_usable, save_frames}

abbrev pub Among : Call → List Call → Type 0
Among c [] = ⊥
Among c (x ∷ xs) = (c ≡ x) ⊎ Among c xs

-- The directory of a call, which the file system said to exist or could create.
abbrev pub IsThere : FrameSaver → List Call → Text → Type 0
IsThere s cs dir =
    (c : Call) × Among c cs
    × (dir ≡ dir_path s c.stage c.stream_id)
    × ((c.exists ≡ true) ⊎ (c.creates ≡ true))

-- An image is of the frame of a call, which has a size, in the directory of its stage and stream, which
-- is there; its stage is enabled, and its number is a multiple of the interval.
abbrev pub IsRight : FrameSaver → List Call → Image → Type 0
IsRight s cs i =
    (i.stage ≡ codes "decoded" → s.save_decoded_enabled ≡ true)
    × (i.stage ≡ codes "processed" → s.save_processed_enabled ≡ true)
    × ((q : ℕ) × (i.frame_index ≡ q * to_u64 s.save_interval))
    × (0 < pos_part i.frame.width)
    × (0 < pos_part i.frame.height)
    × IsThere s cs i.dir
    × ((c : Call) × Among c cs
        × (c.frame ≡ some i.frame)
        × (c.frame_index ≡ i.frame_index)
        × (c.stage ≡ i.stage)
        × (i.dir ≡ dir_path s c.stage c.stream_id))

quotient : (n m : ℕ) → n % m ≡ 0 → (q : ℕ) × (n ≡ q * m)
quotient n m h = (n / m, grind (arith, h))

-- What the test of a stage and number allows.
due_rules :
    (s : FrameSaver) (n : ℕ) (stage : Text)
    → is_due s n stage ≡ true
    → (stage ≡ codes "decoded" → s.save_decoded_enabled ≡ true)
      × (stage ≡ codes "processed" → s.save_processed_enabled ≡ true)
      × (n % to_u64 s.save_interval ≡ 0)
unfolding is_due
due_rules s n stage h = (
  λ e. (let t = (text_eq_iff stage (codes "decoded")).1 e in ground (arith, t, h)),
  λ e. (let t = (text_eq_iff stage (codes "processed")).1 e in ground (arith, t, h)),
  ground (arith, h),
)

positive : (z : ℤ) → leb_ℤ z (pos 0) ≡ false → 0 < pos_part z
positive (pos n) h = ground (arith, h)
positive (negsuc n) h = ground (arith, h)

usable_rules : (f : Frame) → is_usable f ≡ true → (0 < pos_part f.width) × (0 < pos_part f.height)
unfolding is_usable
usable_rules f h = (positive f.width (ground (arith, h)), positive f.height (ground (arith, h)))

-- Each call of a list allows what comes from the list.
each_Allows :
    (s : FrameSaver) (all cs : List Call)
    → ((c : Call) → Among c cs → Among c all)
    → All (Allows s (IsThere s all) (IsRight s all)) cs
each_Allows s all [] m = tt
each_Allows s all (c ∷ cs) m = (
  (
    λ there. (c, m c (inl refl), refl, there),
    λ f e due usable there.
        let (decoded, processed, number) = due_rules s c.frame_index c.stage due in
        let (wide, high) = usable_rules f usable in
        (
          decoded,
          processed,
          quotient c.frame_index (to_u64 s.save_interval) number,
          wide,
          high,
          there,
          (c, m c (inl refl), e, refl, refl, refl),
        ),
  ),
  each_Allows s all cs (λ x a. m x (inr a)),
)

-- Over any calls of a new saver: each image is of the frame of one of the calls, which has a size, in
-- the directory of that call's stage and stream, which the file system has said to exist or has
-- created for a call; the stage is enabled if it is the decoded or the processed one, and the interval
-- divides the number.
pub save_frames-IsRight :
    (cs : List Call) (s : FrameSaver)
    → s.created_dirs ≡ []
    → All (IsRight s cs) (save_frames cs (record { saver = s; images = [] })).images
save_frames-IsRight cs s e =
    (save_frames-Keeps s (IsThere s cs) (IsRight s cs) cs (record { saver = s; images = [] })
      (each_Allows s cs cs (λ c a. a)) (refl, subst (All (IsThere s cs)) (sym e) tt, tt)).2
