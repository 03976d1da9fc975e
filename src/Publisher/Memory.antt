-- ===== src/Publisher/Memory.antt =====
-- Byte buffers and `memcpy`. A write beyond the end of a buffer is cut off; Layout shows that the
-- writes of the publisher are not.
use frame_processor.Base.{
  ℕ, zero, suc, ◌+◌, ◌/◌, ◌%◌, ◌≡◌, refl, ap, List, [], ◌∷◌, ◌++◌, arith, length, replicate,
}

-- `memcpy(&buf[0], src, n)`.
unfoldable pub overlay : List ℕ → List ℕ → List ℕ
overlay [] buf = buf
overlay (b ∷ src) [] = []
overlay (b ∷ src) (c ∷ buf) = b ∷ overlay src buf

-- `memcpy(&buf[at], src, n)`.
unfoldable pub blit : ℕ → List ℕ → List ℕ → List ℕ
unfolding overlay
blit zero src buf = overlay src buf
blit (suc at) src [] = []
blit (suc at) src (c ∷ buf) = c ∷ blit at src buf

-- The `n` bytes from offset `at` of a plane.
unfoldable pub read : (ℕ → ℕ) → ℕ → ℕ → List ℕ
read plane at zero = []
read plane at (suc n) = plane at ∷ read plane (at + 1) n

-- The `n` low bytes of a number, the lowest first.
unfoldable pub le_bytes : ℕ → ℕ → List ℕ
le_bytes zero v = []
le_bytes (suc n) v = v % 256 ∷ le_bytes n (v / 256)

pub length-read : (plane : ℕ → ℕ) (at n : ℕ) → length (read plane at n) ≡ n
unfolding read
length-read plane at zero = refl
length-read plane at (suc n) = ap suc (length-read plane (at + 1) n)

pub length-le_bytes : (n v : ℕ) → length (le_bytes n v) ≡ n
unfolding le_bytes
length-le_bytes zero v = refl
length-le_bytes (suc n) v = ap suc (length-le_bytes n (v / 256))

overlay-replicate :
    (src post : List ℕ) (k m : ℕ)
    → m ≡ length src + k
    → overlay src (replicate m 0 ++ post) ≡ src ++ (replicate k 0 ++ post)
unfolding overlay
overlay-replicate [] post k m e = ap (λ i. replicate i 0 ++ post) (omega arith)
overlay-replicate (b ∷ src) post k zero e = absurd (omega arith)
overlay-replicate (b ∷ src) post k (suc m) e =
    ap (◌∷◌ b) (overlay-replicate src post k m (omega arith))

-- A copy to the first of some zero bytes takes the place of as many of them.
pub blit-replicate :
    (pre src post : List ℕ) (at k m : ℕ)
    → at ≡ length pre
    → m ≡ length src + k
    → blit at src (pre ++ (replicate m 0 ++ post)) ≡ (pre ++ src) ++ (replicate k 0 ++ post)
unfolding blit
blit-replicate [] src post zero k m e h = overlay-replicate src post k m h
blit-replicate [] src post (suc at) k m e h = absurd (omega arith)
blit-replicate (c ∷ pre) src post zero k m e h = absurd (omega arith)
blit-replicate (c ∷ pre) src post (suc at) k m e h =
    ap (◌∷◌ c) (blit-replicate pre src post at k m (omega arith) h)
