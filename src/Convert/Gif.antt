-- ===== src/Convert/Gif.antt =====
-- convert/image.go, gifFrameCount and skipGIFSubBlocks. The index into the data is the rest of the
-- data that it leaves; an index behind the end leaves none.
pub mod Counted
use mathlib.Core.WellFounded.{Acc}
use busylib_go.Prelude.{
  ℕ, suc, ◌+◌, ◌*◌, ◌^◌, ◌/◌, ◌%◌, ◌≤◌, ◌<◌, Bool, true, false, ◌||◌, ◌&&◌, not, List, [], ◌∷◌,
  Option, none, some, Result, ok, err, ltb, ◌==◌, if◌then◌else◌, length, length-drop, take, drop,
  get_or, arith, Shorter, drop-Shorter, shorter_acc,
}
use busylib_go.Prelude.Bytes.{Bytes, bytes, bytes_eq}

pub data GifError : Type 0 where
  unexpected_eof invalid_image : GifError

-- An error, which is ErrUnexpectedEOF, is `none`.
pub skip_from : (bs : Bytes) → Acc Shorter bs → Option Bytes
skip_from [] _ = none
skip_from (size ∷ rest) (Acc.intro _ shorter) =
    let further = skip_from (drop size rest) (shorter _ (drop-Shorter size size rest)) in
    if size == 0 then some rest else if ltb (length rest) size then none else further

unfoldable pub skip_sub_blocks : Bytes → Option Bytes
unfolding skip_from shorter_acc
skip_sub_blocks bs = skip_from bs (shorter_acc bs)

-- What is left where the blocks end.
abbrev pub left : Option Bytes → Bytes
left none = []
left (some bs) = bs

length-skip_from : (bs : Bytes) (w : Acc Shorter bs) → length (left (skip_from bs w)) ≤ length bs
unfolding skip_from
length-skip_from [] w = omega arith
length-skip_from (size ∷ rest) (Acc.intro _ shorter) = ground (
  arith,
  length-skip_from (drop size rest) (shorter _ (drop-Shorter size size rest)),
  length-drop size rest,
)

pub length-skip_sub_blocks : (bs : Bytes) → length (left (skip_sub_blocks bs)) ≤ length bs
unfolding skip_sub_blocks
length-skip_sub_blocks bs = length-skip_from bs (shorter_acc bs)

-- The size of the colour table that a packed byte announces.
abbrev pub table_size : ℕ → ℕ
table_size packed = if not (packed / 128 % 2 == 0) then 3 * 2 ^ (packed % 8 + 1) else 0

-- The data behind an image, from behind its first byte.
after_table : Bytes → Option Bytes
after_table [] = none
after_table (_ ∷ rest) = skip_sub_blocks rest

pub after_frame : Bytes → Option Bytes
unfolding after_table
after_frame rest =
    if ltb (length rest) 9
    then none
    else after_table (drop (table_size (get_or rest 8 0)) (drop 9 rest))

pub after_extension : Bytes → Option Bytes
after_extension [] = none
after_extension (_ ∷ rest) = skip_sub_blocks rest

length-after_table : (bs : Bytes) → length (left (after_table bs)) ≤ length bs
unfolding after_table
length-after_table [] = omega arith
length-after_table (_ ∷ rest) = omega (arith, length-skip_sub_blocks rest)

pub frame-Shorter : (b : ℕ) (rest : Bytes) → Shorter (left (after_frame rest)) (b ∷ rest)
unfolding after_frame
frame-Shorter b rest =
    let behind = drop 9 rest in
    ground (
      arith,
      length-after_table (drop (table_size (get_or rest 8 0)) behind),
      length-drop (table_size (get_or rest 8 0)) behind,
      length-drop 9 rest,
    )

pub extension-Shorter : (b : ℕ) (rest : Bytes) → Shorter (left (after_extension rest)) (b ∷ rest)
unfolding after_extension
extension-Shorter b [] = omega arith
extension-Shorter b (_ ∷ rest) = omega (arith, length-skip_sub_blocks rest)

abbrev pub go_on : Option Bytes → Result GifError ℕ → Result GifError ℕ
go_on none counted = err unexpected_eof
go_on (some _) counted = counted

pub frames_from : (bs : Bytes) → Acc Shorter bs → ℕ → Result GifError ℕ
frames_from [] _ frames = err unexpected_eof
frames_from (b ∷ rest) (Acc.intro _ shorter) frames =
    let behind_frame =
      frames_from (left (after_frame rest)) (shorter _ (frame-Shorter b rest)) (suc frames) in
    let behind_extension =
      frames_from (left (after_extension rest)) (shorter _ (extension-Shorter b rest)) frames in
    if b == 0x2c
    then (if ltb 1 (suc frames) then ok (suc frames) else go_on (after_frame rest) behind_frame)
    else if b == 0x21
    then go_on (after_extension rest) behind_extension
    else if b == 0x3b
    then ok frames
    else err invalid_image

-- From behind the header and the global colour table.
unfoldable pub frames_of : Bytes → Result GifError ℕ
unfolding frames_from shorter_acc after_frame after_extension
frames_of bs = frames_from bs (shorter_acc bs) 0

unfoldable pub gif_frame_count : Bytes → Result GifError ℕ
gif_frame_count image_data =
    if ltb (length image_data) 13
      || not (bytes_eq (take 6 image_data) (bytes "GIF87a"))
        && not (bytes_eq (take 6 image_data) (bytes "GIF89a"))
    then err invalid_image
    else frames_of (drop (table_size (get_or image_data 10 0)) (drop 13 image_data))
