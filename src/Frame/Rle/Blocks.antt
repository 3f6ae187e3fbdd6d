-- ===== src/Frame/Rle/Blocks.antt =====
-- What the run-length coding of frame/frame.go means: a payload is a sequence of blocks, and
-- decodeRLE is the inverse of writing the blocks down.
use mathlib.Core.WellFounded.{Acc}
use busylib_go.Prelude.{
  ℕ, zero, suc, ◌+◌, ◌*◌, ◌≤◌, ◌≡◌, refl, ap, sym, ◌∙◌, true, false, List, [], ◌∷◌, ◌++◌, ok, arith,
  length, take, drop, All, All-drop, Shorter, drop-Shorter, shorter_acc, length-append, length-take,
  take-append-drop, take-length-append, drop-length-append, append_assoc, append-nil, ◌⊎◌, inl, inr,
}
use busylib_go.Prelude.Bytes.{Bytes, IsByte}
use busylib_go.Frame.Rle.{repeat_block, block_count, is_literal, decode_rle_from, decode_rle}

-- `literal n data` is n blocks as they are, `repeated n block` is one block n times.
pub data Block : Type 0 where
  literal repeated : ℕ → Bytes → Block

abbrev pub wire_block : Block → Bytes
wire_block (literal n bs) = (128 + n) ∷ bs
wire_block (repeated n bs) = n ∷ bs

abbrev pub expand_block : Block → Bytes
expand_block (literal n bs) = bs
expand_block (repeated n bs) = repeat_block n bs

abbrev pub wire : List Block → Bytes
wire [] = []
wire (b ∷ bs) = wire_block b ++ wire bs

abbrev pub expand : List Block → Bytes
expand [] = []
expand (b ∷ bs) = expand_block b ++ expand bs

-- A count has seven bits and is not zero, and the data have the size that it announces.
abbrev pub IsBlock : ℕ → Block → Type 0
IsBlock block_size (literal n bs) = (1 ≤ n) × (n ≤ 127) × (length bs ≡ n * block_size)
IsBlock block_size (repeated n bs) = (1 ≤ n) × (n ≤ 127) × (length bs ≡ block_size)

pub length-repeat_block : (n : ℕ) (bs : Bytes) → length (repeat_block n bs) ≡ n * length bs
unfolding repeat_block
length-repeat_block zero bs = omega arith
length-repeat_block (suc n) bs =
    omega (arith, length-append bs (repeat_block n bs), length-repeat_block n bs)

-- An opcode, taken apart.
opcode_literal : (op n : ℕ) → op ≡ 128 + n → n ≤ 127 → (block_count op ≡ n) × (is_literal op ≡ true)
opcode_literal op n e h = ground arith

opcode_repeated : (op n : ℕ) → op ≡ n → n ≤ 127 → (block_count op ≡ n) × (is_literal op ≡ false)
opcode_repeated op n e h = ground arith

literal_opcode : (op : ℕ) → IsByte op → is_literal op ≡ true → 128 + block_count op ≡ op
literal_opcode op small lit = ground arith

repeated_opcode : (op : ℕ) → IsByte op → is_literal op ≡ false → block_count op ≡ op
repeated_opcode op small rep = ground arith

module _ (expected_size block_size op : ℕ) (rest : Bytes)
    (shorter : (ys : Bytes) → Shorter ys (op ∷ rest) → Acc Shorter ys) (result : Bytes)
    (counted : 1 ≤ block_count op)
    (room : length result + block_count op * block_size ≤ expected_size) where
  -- One round over a literal block, and one over a repeated block.
  round_literal :
      is_literal op ≡ true
      → block_count op * block_size ≤ length rest
      → decode_rle_from expected_size block_size (op ∷ rest) (Acc.intro _ shorter) result
        ≡ decode_rle_from expected_size block_size
            (drop (block_count op * block_size) rest)
            (shorter _ (drop-Shorter (block_count op * block_size) op rest))
            (result ++ take (block_count op * block_size) rest)
  unfolding decode_rle_from
  round_literal lit enough = ground arith

  round_repeated :
      is_literal op ≡ false
      → block_size ≤ length rest
      → decode_rle_from expected_size block_size (op ∷ rest) (Acc.intro _ shorter) result
        ≡ decode_rle_from expected_size block_size
            (drop block_size rest)
            (shorter _ (drop-Shorter block_size op rest))
            (result ++ repeat_block (block_count op) (take block_size rest))
  unfolding decode_rle_from
  round_repeated rep enough = ground arith

module _ (expected_size block_size : ℕ) where
  decode_rle_from-wire :
      (blocks : List Block) (source : Bytes) (w : Acc Shorter source) (result : Bytes)
      → source ≡ wire blocks
      → All (IsBlock block_size) blocks
      → length result + length (expand blocks) ≡ expected_size
      → decode_rle_from expected_size block_size source w result ≡ ok (result ++ expand blocks)
  unfolding decode_rle_from
  decode_rle_from-wire [] [] w result same valid fits = ground (arith, append-nil result)
  decode_rle_from-wire [] (op ∷ rest) w result same valid fits = cc
  decode_rle_from-wire (literal n bs ∷ blocks) [] w result same valid fits = cc
  decode_rle_from-wire (repeated n bs ∷ blocks) [] w result same valid fits = cc
  decode_rle_from-wire (literal n bs ∷ blocks) (op ∷ rest) (Acc.intro _ shorter) result same
        (valid, more) fits =
      let (count, lit) = opcode_literal op n (cc) valid.1 in
      let split : rest ≡ bs ++ wire blocks = cc in
      let size : block_count op * block_size ≡ length bs = rw count (sym valid.2) in
      let front : take (block_count op * block_size) rest ≡ bs =
        rw (split, size) (take-length-append (length bs) bs (wire blocks) refl) in
      let back : drop (block_count op * block_size) rest ≡ wire blocks =
        rw (split, size) (drop-length-append (length bs) bs (wire blocks) refl) in
      let enough : length rest ≡ length bs + length (wire blocks) =
        rw split (length-append bs (wire blocks)) in
      let total = length-append bs (expand blocks) in
      round_literal expected_size block_size op rest shorter result (omega (arith, valid.0))
        (omega (arith, total, size)) lit (omega (arith, enough, size))
      ∙ decode_rle_from-wire blocks _ _ _ back more (
          omega (
            arith,
            total,
            ap length front,
            length-append result (take (block_count op * block_size) rest),
          ))
      ∙ rw (front, append_assoc)
  decode_rle_from-wire (repeated n bs ∷ blocks) (op ∷ rest) (Acc.intro _ shorter) result same
        (valid, more) fits =
      let (count, rep) = opcode_repeated op n (cc) valid.1 in
      let split : rest ≡ bs ++ wire blocks = cc in
      let front : take block_size rest ≡ bs =
        rw split (take-length-append block_size bs (wire blocks) valid.2) in
      let back : drop block_size rest ≡ wire blocks =
        rw split (drop-length-append block_size bs (wire blocks) valid.2) in
      let enough : length rest ≡ length bs + length (wire blocks) =
        rw split (length-append bs (wire blocks)) in
      let grown : repeat_block (block_count op) (take block_size rest) ≡ repeat_block n bs =
        rw (count, front) in
      let long : length (repeat_block n bs) ≡ block_count op * block_size =
        rw (count, length-repeat_block, valid.2) in
      let total = length-append (repeat_block n bs) (expand blocks) in
      round_repeated expected_size block_size op rest shorter result (omega (arith, valid.0))
        (omega (arith, total, long)) rep (omega (arith, enough, valid.2))
      ∙ decode_rle_from-wire blocks _ _ _ back more (
          omega (
            arith,
            total,
            ap length grown,
            length-append result (repeat_block (block_count op) (take block_size rest)),
          ))
      ∙ rw (grown, append_assoc)

  -- What a round that goes on has checked.
  round_checks :
      (op : ℕ) (rest : Bytes) (w : Acc Shorter (op ∷ rest)) (result : Bytes) {out : Bytes}
      → length result ≤ expected_size
      → decode_rle_from expected_size block_size (op ∷ rest) w result ≡ ok out
      → (1 ≤ block_count op)
        × (length result + block_count op * block_size ≤ expected_size)
        × ((is_literal op ≡ true) × (block_count op * block_size ≤ length rest)
            ⊎ (is_literal op ≡ false) × (block_size ≤ length rest))
  unfolding decode_rle_from
  round_checks op rest (Acc.intro _ shorter) result room h = ground arith

  decode_rle_from_sound :
      (source : Bytes) (w : Acc Shorter source) (result : Bytes) {out : Bytes}
      → All IsByte source
      → length result ≤ expected_size
      → decode_rle_from expected_size block_size source w result ≡ ok out
      → (blocks : List Block) × All (IsBlock block_size) blocks
        × (wire blocks ≡ source)
        × (result ++ expand blocks ≡ out)
        × (length out ≡ expected_size)
  unfolding decode_rle_from
  decode_rle_from_sound [] w result small room h =
      ([], tt, refl, ground (arith, append-nil result), ground arith)
  decode_rle_from_sound (op ∷ rest) (Acc.intro _ shorter) result (small, smaller) room h =
      let (counted, fits, kind) = round_checks op rest (Acc.intro _ shorter) result room h in
      let n = block_count op in
      elim kind [
        | inl (lit, enough) ↦
            let (blocks, valid, same, whole, size) =
              decode_rle_from_sound (drop (n * block_size) rest)
                (shorter _ (drop-Shorter (n * block_size) op rest))
                (result ++ take (n * block_size) rest)
                (All-drop IsByte (n * block_size) rest smaller)
                (omega (
                  arith,
                  length-append result (take (n * block_size) rest),
                  length-take (n * block_size) rest,
                ))
                (sym (
                    round_literal expected_size block_size op rest shorter result counted fits lit
                      enough)
                  ∙ h) in
            (
              literal n (take (n * block_size) rest) ∷ blocks,
              ((counted, ground arith, omega (arith, length-take (n * block_size) rest)), valid),
              cc (take-append-drop (n * block_size) rest, literal_opcode op small lit),
              sym (append_assoc result (take (n * block_size) rest) (expand blocks)) ∙ whole,
              size,
            )
        | inr (rep, enough) ↦
            let block = take block_size rest in
            let full : length block ≡ block_size = omega (arith, length-take block_size rest) in
            let (blocks, valid, same, whole, size) =
              decode_rle_from_sound (drop block_size rest)
                (shorter _ (drop-Shorter block_size op rest)) (result ++ repeat_block n block)
                (All-drop IsByte block_size rest smaller)
                (omega (
                  arith,
                  length-append result (repeat_block n block),
                  length-repeat_block n block,
                  ap (λ (t : ℕ). n * t) full,
                ))
                (sym (
                    round_repeated expected_size block_size op rest shorter result counted fits rep
                      enough)
                  ∙ h) in
            (
              repeated n block ∷ blocks,
              ((counted, ground arith, omega (arith, length-take block_size rest)), valid),
              cc (take-append-drop block_size rest, repeated_opcode op small rep),
              sym (append_assoc result (repeat_block n block) (expand blocks)) ∙ whole,
              size,
            )
      ]

-- decodeRLE succeeds on every sequence of valid blocks whose expansion has the expected size, and
-- returns that expansion.
pub decode_rle-wire :
    (block_size : ℕ) (blocks : List Block)
    → All (IsBlock block_size) blocks
    → decode_rle (wire blocks) (length (expand blocks)) block_size ≡ ok (expand blocks)
unfolding decode_rle
decode_rle-wire block_size blocks valid =
    decode_rle_from-wire (length (expand blocks)) block_size blocks (wire blocks) _ [] refl valid
      (omega arith)

-- Where decodeRLE succeeds on a slice of bytes, the slice is a sequence of valid blocks, the result
-- is their expansion, and it has the expected size.
pub decode_rle_sound :
    (source : Bytes) (expected_size block_size : ℕ) {out : Bytes}
    → All IsByte source
    → decode_rle source expected_size block_size ≡ ok out
    → (blocks : List Block) × All (IsBlock block_size) blocks
      × (wire blocks ≡ source)
      × (expand blocks ≡ out)
      × (length out ≡ expected_size)
unfolding decode_rle
decode_rle_sound source expected_size block_size small h =
    decode_rle_from_sound expected_size block_size source (shorter_acc source) [] small
      (omega arith) h
