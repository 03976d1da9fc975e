-- ===== src/Saver/Paths.antt =====
-- The paths of the images.
use mathlib.Core.List.{append_cancel_left}
use frame_processor.Base.{
  ℕ, zero, suc, ◌+◌, ◌*◌, ◌-◌, ◌<◌, ◌^◌, ◌==◌, ◌≡◌, refl, sym, ap, ◌∙◌, ℤ, pos, negsuc, IsI64,
  false, [], ◌∷◌, ◌++◌, append_assoc, length, Option, none, some, Text, codes, decimal, digits, All,
  if◌then◌else◌, arith,
}
use frame_processor.Base.Numbers.{
  AreDigits, digits-AreDigits, digits_value, digits_value-digits, stoll, stoll-decimal,
}
use frame_processor.Saver.Settings.{FrameSaver}
use frame_processor.Saver.Save.{zeros, padded, dir_path, image_path}

-- What stands in front of the first slash, and behind it.
before_slash : Text → Text
before_slash [] = []
before_slash (c ∷ cs) = if c == 47 then [] else c ∷ before_slash cs

after_slash : Text → Text
after_slash [] = []
after_slash (c ∷ cs) = if c == 47 then cs else after_slash cs

abbrev NoSlash : Text → Type 0
NoSlash = All (λ c. (c == 47) ≡ false)

before_slash-append : (xs ys : Text) → NoSlash xs → before_slash (xs ++ 47 ∷ ys) ≡ xs
unfolding before_slash
before_slash-append [] ys a = refl
before_slash-append (x ∷ xs) ys (p, a) = rw p (ap (λ t. x ∷ t) (before_slash-append xs ys a))

after_slash-append : (xs ys : Text) → NoSlash xs → after_slash (xs ++ 47 ∷ ys) ≡ ys
unfolding after_slash
after_slash-append [] ys a = refl
after_slash-append (x ∷ xs) ys (p, a) = rw p (after_slash-append xs ys a)

AreDigits-NoSlash : (xs : Text) → AreDigits xs → NoSlash xs
AreDigits-NoSlash [] a = tt
AreDigits-NoSlash (x ∷ xs) (p, a) = (ground arith, AreDigits-NoSlash xs a)

decimal-NoSlash : (z : ℤ) → NoSlash (decimal z)
decimal-NoSlash (pos n) = AreDigits-NoSlash (digits 20 n) (digits-AreDigits 20 n)
decimal-NoSlash (negsuc n) =
    (refl, AreDigits-NoSlash (digits 20 (suc n)) (digits-AreDigits 20 (suc n)))

digits_value-zeros : (k : ℕ) (t : Text) → digits_value 0 (zeros k ++ t) ≡ digits_value 0 t
unfolding zeros
digits_value-zeros zero t = refl
digits_value-zeros (suc k) t = digits_value-zeros k t

-- The digits end at the dot.
digits_value-dot :
    (n : ℕ) (xs rest : Text) → AreDigits xs → digits_value n (xs ++ 46 ∷ rest) ≡ digits_value n xs
digits_value-dot n [] rest a = refl
digits_value-dot n (x ∷ xs) rest (p, a) = rw p (digits_value-dot (n * 10 + (x - 48)) xs rest a)

-- The number of an image is what its name begins with.
digits_value-padded :
    (n : ℕ) (rest : Text) → n < 2 ^ 64 → digits_value 0 (padded n ++ 46 ∷ rest) ≡ n
unfolding padded
digits_value-padded n rest h =
    ap (digits_value 0) (append_assoc (zeros (8 - length (digits 20 n))) (digits 20 n) (46 ∷ rest))
    ∙ digits_value-zeros (8 - length (digits 20 n)) (digits 20 n ++ 46 ∷ rest)
    ∙ digits_value-dot 0 (digits 20 n) rest (digits-AreDigits 20 n)
    ∙ digits_value-digits 20 n (omega arith)

abbrev name : ℕ → Text
name n = padded n ++ codes ".jpg"

-- The path of an image from the name of its stream on.
abbrev from_stream : ℤ → ℕ → Text
from_stream id n = decimal id ++ (codes "/frame_" ++ name n)

append_assoc₄ :
    (a b c d e f : Text) → (a ++ (b ++ (c ++ (d ++ e)))) ++ f ≡ a ++ (b ++ (c ++ (d ++ (e ++ f))))
append_assoc₄ a b c d e f =
    append_assoc a (b ++ (c ++ (d ++ e))) f
    ∙ ap (λ t. a ++ t)
        (append_assoc b (c ++ (d ++ e)) f
          ∙ ap (λ t. b ++ t) (append_assoc c (d ++ e) f ∙ ap (λ t. c ++ t) (append_assoc d e f)))

cancel₄ : (a b c d e f : Text) → a ++ (b ++ (c ++ (d ++ e))) ≡ a ++ (b ++ (c ++ (d ++ f))) → e ≡ f
cancel₄ a b c d e f h = append_cancel_left d e f (
    append_cancel_left c (d ++ e) (d ++ f) (
      append_cancel_left b (c ++ (d ++ e)) (c ++ (d ++ f))
        (append_cancel_left a (b ++ (c ++ (d ++ e))) (b ++ (c ++ (d ++ f))) h)))

value : Option ℤ → ℤ
value none = pos 0
value (some z) = z

decimal-injective : (a b : ℤ) → IsI64 a → IsI64 b → decimal a ≡ decimal b → a ≡ b
unfolding value
decimal-injective a b ha hb h =
    ap value (sym (stoll-decimal a ha) ∙ ap stoll h ∙ stoll-decimal b hb)

image_path-split :
    (s : FrameSaver) (stage : Text) (id : ℤ) (n : ℕ)
    → image_path (dir_path s stage id) n
      ≡ s.base_output_dir ++ (codes "/frames/" ++ (stage ++ (codes "/stream_" ++ from_stream id n)))
unfolding image_path dir_path
image_path-split s stage id n =
    append_assoc₄ s.base_output_dir (codes "/frames/") stage (codes "/stream_") (decimal id)
      (codes "/frame_" ++ (padded n ++ codes ".jpg"))

-- Two images of one saver and stage, with 64-bit streams and numbers, have the same path only if their
-- streams and their numbers are the same.
pub image_path-injective :
    (s : FrameSaver) (stage : Text) (id id' : ℤ) (n n' : ℕ)
    → IsI64 id
    → IsI64 id'
    → n < 2 ^ 64
    → n' < 2 ^ 64
    → image_path (dir_path s stage id) n ≡ image_path (dir_path s stage id') n'
    → (id ≡ id') × (n ≡ n')
image_path-injective s stage id id' n n' r r' h h' e =
    let names : from_stream id n ≡ from_stream id' n' =
      cancel₄ s.base_output_dir (codes "/frames/") stage (codes "/stream_") (from_stream id n)
        (from_stream id' n')
        (sym (image_path-split s stage id n) ∙ e ∙ image_path-split s stage id' n') in
    let tails = append_cancel_left (codes "frame_") (name n) (name n') (
      sym (after_slash-append (decimal id) (codes "frame_" ++ name n) (decimal-NoSlash id))
      ∙ ap after_slash names
      ∙ after_slash-append (decimal id') (codes "frame_" ++ name n') (decimal-NoSlash id')) in
    (
      decimal-injective id id' r r' (
          sym (before_slash-append (decimal id) (codes "frame_" ++ name n) (decimal-NoSlash id))
          ∙ ap before_slash names
          ∙ before_slash-append (decimal id') (codes "frame_" ++ name n') (decimal-NoSlash id')),
      sym (digits_value-padded n (codes "jpg") h)
          ∙ ap (digits_value 0) tails
          ∙ digits_value-padded n' (codes "jpg") h',
    )
