-- ===== src/Frame/Rgba/Halves.antt =====
-- The gray levels of L4 pixels in frame/frame.go: two to a byte, the low half first.
use busylib_go.Prelude.{
  ℕ, zero, suc, ◌+◌, ◌*◌, ◌/◌, ◌%◌, ◌<◌, ◌≡◌, refl, sym, subst, List, [], ◌∷◌, ◌++◌, length, get_or,
  arith, All, inl, inr,
}
use busylib_go.Prelude.Bytes.{Bytes, IsByte}
use busylib_go.Frame.Types.{Frame}
use busylib_go.Frame.Rle.{repeat_block}
use busylib_go.Frame.Rle.Blocks.{Block, literal, repeated, wire_block, expand_block, wire, expand}
use busylib_go.Frame.Pixels.Sizes.{IsDecoded}
use busylib_go.Frame.Rgba.{nibble}

-- The digits of the bytes, in the order of the pixels.
abbrev pub halves : Bytes → Bytes
halves [] = []
halves (b ∷ bs) = b % 16 ∷ b / 16 ∷ halves bs

-- A digit as a byte: both of its hexadecimal digits are this one.
abbrev pub gray_of : ℕ → ℕ
gray_of digit = digit * 16 + digit

nibble-next : (packed i : ℕ) → nibble packed (suc (suc i)) ≡ nibble packed i
nibble-next packed i = let parity : suc (suc i) % 2 ≡ i % 2 = omega arith in rw parity refl

nibble-even : (b : ℕ) → nibble b 0 ≡ gray_of (b % 16)
nibble-even b = omega arith

nibble-odd : (b : ℕ) → b < 256 → nibble b 1 ≡ gray_of (b / 16)
nibble-odd b small = omega (arith, small)

pub nibble-halves :
    (bs : Bytes) (i : ℕ)
    → All IsByte bs
    → i / 2 < length bs
    → nibble (get_or bs (i / 2) 0) i ≡ gray_of (get_or (halves bs) i 0)
nibble-halves [] i small h = absurd (omega (arith, h))
nibble-halves (b ∷ bs) zero (small, smalls) h = nibble-even b
nibble-halves (b ∷ bs) (suc zero) (small, smalls) h = nibble-odd b small
nibble-halves (b ∷ bs) (suc (suc i)) (small, smalls) h =
    let at : suc (suc i) / 2 ≡ suc (i / 2) = omega arith in
    rw (nibble-next (get_or (b ∷ bs) (suc (suc i) / 2) 0) i, at)
      (nibble-halves bs i smalls (omega (arith, h, at)))

module _ {A : Type 0} (P : A → Type 0) where
  All-split : (xs ys : List A) → All P (xs ++ ys) → All P xs × All P ys
  All-split [] ys h = (tt, h)
  All-split (x ∷ xs) ys (h, hs) = let (a, b) = All-split xs ys hs in ((h, a), b)

  All-join : (xs ys : List A) → All P xs → All P ys → All P (xs ++ ys)
  All-join [] ys a b = b
  All-join (x ∷ xs) ys (h, a) b = (h, All-join xs ys a b)

repeat_block-IsByte : (n : ℕ) (bs : Bytes) → All IsByte bs → All IsByte (repeat_block n bs)
unfolding repeat_block
repeat_block-IsByte zero bs h = tt
repeat_block-IsByte (suc n) bs h =
    All-join IsByte bs (repeat_block n bs) h (repeat_block-IsByte n bs h)

expand_block-IsByte : (b : Block) → All IsByte (wire_block b) → All IsByte (expand_block b)
expand_block-IsByte (literal n bs) (_, h) = h
expand_block-IsByte (repeated n bs) (_, h) = repeat_block-IsByte n bs h

expand-IsByte : (blocks : List Block) → All IsByte (wire blocks) → All IsByte (expand blocks)
expand-IsByte [] h = tt
expand-IsByte (b ∷ blocks) h =
    let (first, rest) = All-split IsByte (wire_block b) (wire blocks) h in
    All-join IsByte (expand_block b) (expand blocks) (expand_block-IsByte b first)
      (expand-IsByte blocks rest)

-- Pixels that come out of bytes are bytes.
pub IsDecoded-IsByte : (f : Frame) (px : Bytes) → All IsByte f.raw → IsDecoded f px → All IsByte px
IsDecoded-IsByte f px small (inl (_, same)) = subst (All IsByte) (sym same) small
IsDecoded-IsByte f px small (inr (_, size, _, blocks, _, spelled, whole)) =
    subst (All IsByte) whole (expand-IsByte blocks (subst (All IsByte) (sym spelled) small))
