-- ===== src/Saver/Keeping.antt =====
-- What the calls of `save_frame` keep.
use frame_processor.Base.{
  ◌≡◌, refl, ap, sym, ◌∙◌, ◌⊎◌, inl, inr, Bool, Bool-cases, true, false, not, ◌&&◌, ◌||◌, List, [],
  ◌∷◌, Option, none, some, Text, text_eq, text_eq_iff, subst, All, if_both, if◌then◌else◌, arith,
}
use frame_processor.Types.{Frame}
use frame_processor.Saver.Settings.{FrameSaver}
use frame_processor.Saver.Encode.{encode_and_save_jpeg}
use frame_processor.Saver.Save.{
  Image, Saving, Call, contains, mark, ensure_directory_exists, dir_path, image_path, is_due,
  is_usable, save_image, save_usable, save_frame, save_frames,
}

contains-All :
    (path : Text) (P : Text → Type 0) (ps : List Text) → All P ps → contains path ps ≡ true → P path
unfolding contains
contains-All path P [] a h = ground arith
contains-All path P (p ∷ ps) (x, a) h = elim (Bool-cases (text_eq p path)) [
  | inl e ↦ subst P ((text_eq_iff p path).0 e) x
  | inr e ↦ contains-All path P ps a (subst (λ b. b || contains path ps ≡ true) e h)
]

-- A saver but for the directories that it remembers.
abbrev pub settings : FrameSaver → FrameSaver
settings s = record s { created_dirs = [] }

-- What calls keep, if each allows it.
module _ (s : FrameSaver) (P : Text → Type 0) (Q : Image → Type 0) where
  abbrev pub Keeps : Saving → Type 0
  Keeps w = (settings w.saver ≡ settings s) × All P w.saver.created_dirs × All Q w.images

  abbrev pub own_dir : Call → Text
  own_dir c = dir_path s c.stage c.stream_id

  abbrev pub own_image : Call → Frame → Image
  own_image c f = record {
    dir = own_dir c;
    frame_index = c.frame_index;
    stage = c.stage;
    frame = f;
  }

  abbrev pub Allows : Call → Type 0
  Allows c =
      ((c.exists ≡ true) ⊎ (c.creates ≡ true) → P (own_dir c))
      × ((f : Frame)
          → c.frame ≡ some f
          → is_due s c.frame_index c.stage ≡ true
          → is_usable f ≡ true
          → P (own_dir c)
          → Q (own_image c f))

  abbrev Ensured : Text → Bool × Saving → Type 0
  Ensured dir (there, w) = Keeps w × (there ≡ true → P dir)

  ensure-Ensured :
      (exists creates : Bool) (dir : Text) (w : Saving)
      → ((exists ≡ true) ⊎ (creates ≡ true) → P dir)
      → Keeps w
      → Ensured dir (ensure_directory_exists exists creates dir w)
  unfolding ensure_directory_exists mark
  ensure-Ensured exists creates dir w k h = elim (Bool-cases (contains dir w.saver.created_dirs)) [
    | inl e ↦ rw e (h, λ t. contains-All dir P w.saver.created_dirs h.1 e)
    | inr e ↦ rw e (of_answers exists creates k)
  ]
    where
      marked : P dir → Keeps (mark dir w)
      marked x = (h.0, (x, h.1), h.2)

      of_answers :
          (exists creates : Bool)
          → ((exists ≡ true) ⊎ (creates ≡ true) → P dir)
          → Ensured dir (if not exists && not creates then (false, w) else (true, mark dir w))
      of_answers false false k = (h, λ t. cc)
      of_answers true creates k = (marked (k (inl refl)), λ t. k (inl refl))
      of_answers false true k = (marked (k (inr refl)), λ t. k (inr refl))

  save_image-Keeps :
      (c : Call) (f : Frame) (w : Saving)
      → Keeps w
      → Q (own_image c f)
      → Keeps (save_image c f (own_dir c) w).1
  unfolding save_image
  save_image-Keeps c f w h q =
      if_both {A = Bool × Saving} (λ p. Keeps p.1)
        (encode_and_save_jpeg c.answers f (image_path (own_dir c) c.frame_index)).result
        (h.0, h.1, (q, h.2)) h

  -- The directory and the test of a call are those of the settings.
  same_dir : (c : Call) (w : Saving) → Keeps w → dir_path w.saver c.stage c.stream_id ≡ own_dir c
  unfolding dir_path
  same_dir c w h = ap (λ z. dir_path z c.stage c.stream_id) h.0

  same_test :
      (c : Call) (w : Saving)
      → Keeps w
      → is_due w.saver c.frame_index c.stage ≡ is_due s c.frame_index c.stage
  unfolding is_due
  same_test c w h = ap (λ z. is_due z c.frame_index c.stage) h.0

  save_usable-Keeps :
      (c : Call) (f : Frame) (w : Saving)
      → Allows c
      → Keeps w
      → c.frame ≡ some f
      → is_due s c.frame_index c.stage ≡ true
      → is_usable f ≡ true
      → Keeps (save_usable c f w).1
  unfolding save_usable
  save_usable-Keeps c f w (k, make) h e due usable =
      subst (λ dir. Keeps (of_ensured_in dir (ensure_directory_exists c.exists c.creates dir w)).1)
        (sym (same_dir c w h))
        (of_ensured (ensure_directory_exists c.exists c.creates (own_dir c) w)
          (ensure-Ensured c.exists c.creates (own_dir c) w k h))
    where
      of_ensured_in : Text → Bool × Saving → Bool × Saving
      of_ensured_in dir p = if not p.0 then (false, p.1) else save_image c f dir p.1

      of_ensured :
          (p : Bool × Saving) → Ensured (own_dir c) p → Keeps (of_ensured_in (own_dir c) p).1
      of_ensured (false, w') r = r.0
      of_ensured (true, w') (kept, there) =
          save_image-Keeps c f w' kept (make f e due usable (there refl))

  save_frame-Keeps : (c : Call) (w : Saving) → Allows c → Keeps w → Keeps (save_frame c w).1
  unfolding save_frame
  save_frame-Keeps c w a h = elim (Bool-cases (is_due w.saver c.frame_index c.stage)) [
    | inl due ↦ rw due (of_frame (sym (same_test c w h) ∙ due) c.frame refl)
    | inr e ↦ rw e h
  ]
    where
      of_frame :
          is_due s c.frame_index c.stage ≡ true
          → (o : Option Frame) → c.frame ≡ o
          → Keeps
              (elim o as (λ o. Bool × Saving) [
                | none ↦ (false, w)
                | some f ↦ if not (is_usable f) then (false, w) else save_usable c f w
              ]).1
      of_frame due none e = h
      of_frame due (some f) e = elim (Bool-cases (is_usable f)) [
        | inl usable ↦ rw usable (save_usable-Keeps c f w a h e due usable)
        | inr u ↦ rw u h
      ]

  pub save_frames-Keeps :
      (cs : List Call) (w : Saving) → All Allows cs → Keeps w → Keeps (save_frames cs w)
  unfolding save_frames
  save_frames-Keeps [] w a h = h
  save_frames-Keeps (c ∷ cs) w (a, as') h =
      save_frames-Keeps cs (save_frame c w).1 as' (save_frame-Keeps c w a h)
