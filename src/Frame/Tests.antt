-- ===== src/Frame/Tests.antt =====
-- Runs of package frame, and its theorems at concrete frames.
use busylib_go.Prelude.{
  ℕ, ◌*◌, ◌≤◌, ◌<◌, ◌≡◌, ◌⊎◌, refl, List, [], ◌∷◌, ok, err, All, length, replicate, arith,
}
use busylib_go.Prelude.Bytes.{Bytes}
use busylib_go.Frame.Types.{
  Frame, ProtoFrame, Error, screen_front, plain, run_length, rgb888, l8, rgba_operation,
  max_payload_size,
}
use busylib_go.Frame.Rle.{decode_rle}
use busylib_go.Frame.Rle.Blocks.{
  Block, literal, repeated, IsBlock, wire, expand, decode_rle-wire, decode_rle_sound,
}
use busylib_go.Frame.Build.{from_http, front}
use busylib_go.Frame.Build.Checked.{IsDownload, from_http-pixels}
use busylib_go.Frame.Pixels.{
  pixels, pixels_for, validate_metadata, pixel_data_size, rle_block_size, decode_pixels,
  pixels_causes,
}
use busylib_go.Frame.Pixels.Sizes.{IsSized, IsKnown, format_size, IsDecoded, pixels_for-IsDecoded}
use busylib_go.Frame.Rgba.{Image, rgba, reported}
use busylib_go.Frame.Rgba.Colours.{pixel_at, colour, rgba-colour}

abbrev four_bytes : Bytes
four_bytes = 7 ∷ 8 ∷ 7 ∷ 8 ∷ []

abbrev two_blocks : List Block
two_blocks = repeated 2 (7 ∷ 8 ∷ []) ∷ literal 1 (9 ∷ 10 ∷ []) ∷ []

decode_rle-wire_example :
    decode_rle (wire two_blocks) (length (expand two_blocks)) 2 ≡ ok (expand two_blocks)
decode_rle-wire_example = decode_rle-wire 2 two_blocks (omega arith)

decode_rle_sound_example :
    (blocks : List Block) × All (IsBlock 2) blocks
    × (wire blocks ≡ 2 ∷ 7 ∷ 8 ∷ [])
    × (expand blocks ≡ four_bytes)
    × (length four_bytes ≡ 4)
unfolding decode_rle
decode_rle_sound_example = decode_rle_sound (2 ∷ 7 ∷ 8 ∷ []) 4 2 (omega arith) refl

-- 1152 gray pixels: nine runs of 127 blocks of three pixels would be too many, so 3 * 127 + 3.
abbrev gray_front : Frame
gray_front = record {
  screen = screen_front;
  width = 72;
  height = 16;
  encoding = run_length;
  pixel_format = l8;
  raw = 127 ∷ 1 ∷ 2 ∷ 3 ∷ 127 ∷ 4 ∷ 5 ∷ 6 ∷ 127 ∷ 7 ∷ 8 ∷ 9 ∷ 3 ∷ 10 ∷ 11 ∷ 12 ∷ [];
}

abbrev gray_blocks : List Block
gray_blocks =
    repeated 127 (1 ∷ 2 ∷ 3 ∷ [])
    ∷ repeated 127 (4 ∷ 5 ∷ 6 ∷ [])
    ∷ repeated 127 (7 ∷ 8 ∷ 9 ∷ [])
    ∷ repeated 3 (10 ∷ 11 ∷ 12 ∷ [])
    ∷ []

gray_pixels : pixels_for rgba_operation gray_front ≡ ok (expand gray_blocks)
unfolding pixels_for pixels_causes validate_metadata pixel_data_size rle_block_size decode_pixels
    decode_rle
gray_pixels = refl

pixels_for-IsDecoded_example :
    IsSized gray_front
    × IsKnown gray_front.pixel_format
    × (length (expand gray_blocks) ≡ format_size l8 (72 * 16))
    × (length (expand gray_blocks) ≤ max_payload_size)
    × IsDecoded gray_front (expand gray_blocks)
pixels_for-IsDecoded_example =
    pixels_for-IsDecoded rgba_operation gray_front (omega arith) gray_pixels

rgba-colour_example :
    ((px : Bytes) × (image : Image) × (pixels_for rgba_operation gray_front ≡ ok px)
      × (rgba gray_front ≡ ok image)
      × (image.width ≡ 72)
      × (image.height ≡ 16)
      × (length image.pix ≡ 4 * (72 * 16))
      × ((i : ℕ) → i < 72 * 16 → pixel_at image.pix i ≡ colour l8 px i))
    ⊎ ((e : Error) × (pixels_for rgba_operation gray_front ≡ err e)
        × (rgba gray_front ≡ err (reported e)))
rgba-colour_example = rgba-colour gray_front (omega arith)

from_http-pixels_example :
    ((f : Frame) → from_http front (replicate 3456 5) ≡ ok f → IsDownload front (replicate 3456 5))
    × (IsDownload front (replicate 3456 5)
        → (f : Frame) × (from_http front (replicate 3456 5) ≡ ok f)
          × (pixels f ≡ ok (replicate 3456 5)))
from_http-pixels_example = from_http-pixels front (replicate 3456 5)

abbrev sample_message : ProtoFrame
sample_message = record {
  screen = screen_front;
  width = 1;
  height = 1;
  encoding = plain;
  pixel_format = rgb888;
  payload = 1 ∷ 2 ∷ 3 ∷ [];
}
