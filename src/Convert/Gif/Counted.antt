-- ===== src/Convert/Gif/Counted.antt =====
-- GIF files as their format lays them out, and the count that convert/image.go makes of them.
use mathlib.Core.WellFounded.{Acc, Acc-prop}
use busylib_go.Prelude.{
  ℕ, zero, suc, ◌+◌, ◌≤◌, min, ◌≡◌, refl, subst, ◌∙◌, sym, ap, Bool, true, false, not, ◌&&◌, List,
  [], ◌∷◌, ◌++◌, Option, none, some, ok, ltb, if◌then◌else◌, length, length-append, take, drop,
  drop-length-append, drop-past-append, get_or, All, arith, Shorter, drop-Shorter, shorter_acc,
}
use busylib_go.Prelude.Bytes.{Bytes, bytes, bytes_eq}
use busylib_go.Convert.Gif.{
  skip_from, skip_sub_blocks, table_size, after_table, after_frame, after_extension, go_on, left,
  frames_from, frames_of, gif_frame_count,
}

-- Sub-blocks in front of the rest of a file.
abbrev pub put_blocks : List Bytes → Bytes → Bytes
put_blocks [] rest = 0 ∷ rest
put_blocks (block ∷ blocks) rest = length block ∷ (block ++ put_blocks blocks rest)

-- An image: its place, the packed byte, the local colour table, the code size and the data; or an
-- extension: its label and its data.
pub data Part : Type 0 where
  image : Bytes → ℕ → Bytes → ℕ → List Bytes → Part
  extension : ℕ → List Bytes → Part

abbrev pub put_part : Part → Bytes → Bytes
put_part (image place packed table code_size blocks) rest =
    0x2c ∷ (place ++ (packed ∷ (table ++ (code_size ∷ put_blocks blocks rest))))
put_part (extension label blocks) rest = 0x21 ∷ label ∷ put_blocks blocks rest

abbrev pub put_parts : List Part → Bytes → Bytes
put_parts [] rest = 0x3b ∷ rest
put_parts (part ∷ parts) rest = put_part part (put_parts parts rest)

abbrev pub IsBlock : Bytes → Type 0
IsBlock block = (1 ≤ length block) × (length block ≤ 255)

abbrev pub IsPart : Part → Type 0
IsPart (image place packed table code_size blocks) =
    (length place ≡ 8) × (length table ≡ table_size packed) × All IsBlock blocks
IsPart (extension label blocks) = All IsBlock blocks

abbrev pub images_in : List Part → ℕ
images_in [] = 0
images_in (image _ _ _ _ _ ∷ parts) = suc (images_in parts)
images_in (extension _ _ ∷ parts) = images_in parts

skip_from-put_blocks :
    (blocks : List Bytes) (rest : Bytes) (w : Acc Shorter (put_blocks blocks rest))
    → All IsBlock blocks
    → skip_from (put_blocks blocks rest) w ≡ some rest
unfolding skip_from
skip_from-put_blocks [] rest (Acc.intro _ shorter) h = refl
skip_from-put_blocks (block ∷ blocks) rest (Acc.intro _ shorter) ((least, most), h) =
    let further = block ++ put_blocks blocks rest in
    let behind : drop (length block) further ≡ put_blocks blocks rest =
      drop-length-append (length block) block (put_blocks blocks rest) refl in
    let again =
      subst (λ t. (w : Acc Shorter t) → skip_from t w ≡ some rest) (sym behind)
        (λ w. skip_from-put_blocks blocks rest w h)
        (shorter _ (drop-Shorter (length block) (length block) further)) in
    ground (arith, again, length-append block (put_blocks blocks rest))

skip_sub_blocks-put_blocks :
    (blocks : List Bytes) (rest : Bytes)
    → All IsBlock blocks
    → skip_sub_blocks (put_blocks blocks rest) ≡ some rest
unfolding skip_sub_blocks
skip_sub_blocks-put_blocks blocks rest h =
    skip_from-put_blocks blocks rest (shorter_acc (put_blocks blocks rest)) h

get_or-behind : (xs ys : Bytes) (y n d : ℕ) → length xs ≡ n → get_or (xs ++ y ∷ ys) n d ≡ y
get_or-behind [] ys y zero d h = refl
get_or-behind [] ys y (suc n) d h = absurd (omega arith)
get_or-behind (x ∷ xs) ys y zero d h = absurd (omega arith)
get_or-behind (x ∷ xs) ys y (suc n) d h = get_or-behind xs ys y n d (omega arith)

after_frame-behind :
    (rest behind : Bytes) (packed : ℕ)
    → 9 ≤ length rest
    → get_or rest 8 0 ≡ packed
    → drop 9 rest ≡ behind
    → after_frame rest ≡ after_table (drop (table_size packed) behind)
unfolding after_frame
after_frame-behind rest behind packed long byte cut =
    let fits : ltb (length rest) 9 ≡ false = ground arith in rw (fits, byte, cut)

after_frame-image :
    (place table : Bytes) (packed code_size : ℕ) (blocks : List Bytes) (rest : Bytes)
    → IsPart (image place packed table code_size blocks)
    → after_frame (place ++ (packed ∷ (table ++ (code_size ∷ put_blocks blocks rest)))) ≡ some rest
unfolding after_frame after_table
after_frame-image place table packed code_size blocks rest (at, sized, good) =
    let behind = table ++ code_size ∷ put_blocks blocks rest in
    after_frame-behind (place ++ (packed ∷ behind)) behind packed
      (omega (arith, length-append place (packed ∷ behind)))
      (get_or-behind place behind packed 8 0 at) (drop-past-append 8 1 place (packed ∷ behind) at)
    ∙ ap after_table
        (drop-length-append (table_size packed) table (code_size ∷ put_blocks blocks rest) sized)
    ∙ skip_sub_blocks-put_blocks blocks rest good

-- The count does not depend on the proof by which the loop recurs.
frames_again :
    (bs : Bytes) (w : Acc Shorter bs) (n : ℕ)
    → frames_from bs w n ≡ frames_from bs (shorter_acc bs) n
frames_again bs w n = ap (λ v. frames_from bs v n) (Acc-prop w (shorter_acc bs))

-- A loop that goes on behind a part counts what is behind it.
resumed :
    (o : Option Bytes) (bs : Bytes) (n : ℕ) {count : ℕ} (w : Acc Shorter (left o))
    → o ≡ some bs
    → ((v : Acc Shorter bs) → frames_from bs v n ≡ ok count)
    → go_on o (frames_from (left o) w n) ≡ ok count
resumed none bs n w e h = cc
resumed (some cs) bs n {count = count} w e h =
    subst (λ t. (v : Acc Shorter t) → frames_from t v n ≡ ok count) (cc) h w

after_extension-put_blocks :
    (label : ℕ) (blocks : List Bytes) (rest : Bytes)
    → All IsBlock blocks
    → after_extension (label ∷ put_blocks blocks rest) ≡ some rest
unfolding after_extension
after_extension-put_blocks label blocks rest good = skip_sub_blocks-put_blocks blocks rest good

frames_from-put_parts :
    (parts : List Part) (rest : Bytes) (n : ℕ) (w : Acc Shorter (put_parts parts rest))
    → n ≤ 1
    → All IsPart parts
    → frames_from (put_parts parts rest) w n ≡ ok (min 2 (n + images_in parts))
unfolding frames_from
frames_from-put_parts [] rest n (Acc.intro _ shorter) few h = ap ok (omega arith)
frames_from-put_parts (extension label blocks ∷ parts) rest n (Acc.intro _ shorter) few (good, h) =
    resumed (after_extension (label ∷ put_blocks blocks (put_parts parts rest)))
      (put_parts parts rest) n _
      (after_extension-put_blocks label blocks (put_parts parts rest) good)
      (λ v. frames_from-put_parts parts rest n v few h)
frames_from-put_parts (image place packed table code_size blocks ∷ parts) rest zero
      (Acc.intro _ shorter) few (good, h) =
    resumed
      (after_frame
        (place ++ (packed ∷ (table ++ (code_size ∷ put_blocks blocks (put_parts parts rest))))))
      (put_parts parts rest) 1 _
      (after_frame-image place table packed code_size blocks (put_parts parts rest) good)
      (λ v. frames_from-put_parts parts rest 1 v (omega arith) h ∙ ap ok (omega arith))
frames_from-put_parts (image place packed table code_size blocks ∷ parts) rest (suc zero)
      (Acc.intro _ shorter) few (good, h) =
    ap ok (omega arith)
frames_from-put_parts (image place packed table code_size blocks ∷ parts) rest (suc (suc n))
      (Acc.intro _ shorter) few (good, h) =
    absurd (omega arith)

-- A file of either version: the four bytes of the screen's size, the packed byte, two bytes, the
-- global colour table, and the parts.
pub record Gif : Type 0 where
  pub is_89a : Bool
  pub size_bytes : Bytes
  pub packed : ℕ
  pub background : ℕ
  pub aspect : ℕ
  pub table : Bytes
  pub parts : List Part
  pub trailing : Bytes

abbrev pub put_gif : Gif → Bytes
put_gif g =
    71
    ∷ 73
    ∷ 70
    ∷ 56
    ∷ (if g.is_89a then 57 else 55)
    ∷ 97
    ∷ (g.size_bytes
        ++ (g.packed ∷ g.background ∷ g.aspect ∷ (g.table ++ put_parts g.parts g.trailing)))

pub record IsGif (g : Gif) : Type 0 where
  pub four_bytes : length g.size_bytes ≡ 4
  pub sized : length g.table ≡ table_size g.packed
  pub each_part : All IsPart g.parts

is_gif_version :
    (b : Bool) (rest : Bytes)
    → (not (
          bytes_eq
            (take 6 (71 ∷ 73 ∷ 70 ∷ 56 ∷ (if b then 57 else 55) ∷ 97 ∷ rest))
            (bytes "GIF87a"))
        && not (
            bytes_eq
              (take 6 (71 ∷ 73 ∷ 70 ∷ 56 ∷ (if b then 57 else 55) ∷ 97 ∷ rest))
              (bytes "GIF89a")))
      ≡ false
unfolding bytes_eq
is_gif_version true rest = refl
is_gif_version false rest = refl

gif_frame_count-behind :
    (image_data behind : Bytes) (packed : ℕ)
    → 13 ≤ length image_data
    → (not (bytes_eq (take 6 image_data) (bytes "GIF87a"))
        && not (bytes_eq (take 6 image_data) (bytes "GIF89a")))
      ≡ false
    → get_or image_data 10 0 ≡ packed
    → drop 13 image_data ≡ behind
    → gif_frame_count image_data ≡ frames_of (drop (table_size packed) behind)
unfolding gif_frame_count
gif_frame_count-behind image_data behind packed long version byte cut =
    let fits : ltb (length image_data) 13 ≡ false = ground arith in rw (fits, version, byte, cut)

frames_of-put_parts :
    (parts : List Part) (rest : Bytes)
    → All IsPart parts
    → frames_of (put_parts parts rest) ≡ ok (min 2 (images_in parts))
unfolding frames_of
frames_of-put_parts parts rest h =
    frames_from-put_parts parts rest 0 (shorter_acc (put_parts parts rest)) (omega arith) h
    ∙ ap ok (omega arith)

-- Of a file that its format lays out, with any extensions and trailing data, gifFrameCount counts
-- the images, and stops at the second: it returns 1 exactly for a file of one image.
pub gif_frame_count-put_gif :
    (g : Gif) → IsGif g → gif_frame_count (put_gif g) ≡ ok (min 2 (images_in g.parts))
gif_frame_count-put_gif g v =
    let behind = g.table ++ put_parts g.parts g.trailing in
    let sized = g.packed ∷ g.background ∷ g.aspect ∷ behind in
    gif_frame_count-behind (put_gif g) behind g.packed
      (omega (arith, v.four_bytes, length-append g.size_bytes sized))
      (is_gif_version g.is_89a (g.size_bytes ++ sized))
      (get_or-behind g.size_bytes (g.background ∷ g.aspect ∷ behind) g.packed 4 0 v.four_bytes)
      (drop-past-append 4 3 g.size_bytes sized v.four_bytes)
    ∙ ap frames_of
        (drop-length-append (table_size g.packed) g.table (put_parts g.parts g.trailing) v.sized)
    ∙ frames_of-put_parts g.parts g.trailing v.each_part
