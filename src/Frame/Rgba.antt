-- ===== src/Frame/Rgba.antt =====
-- frame/frame.go, RGBA: a frame as an opaque image of four bytes a pixel.
-- `image.NewRGBA` gives a zeroed slice of 4 * width * height bytes. The loops write its cells in
-- order, so the cells written are what the loop has put out, and the rest stays zero.
pub mod Halves
pub mod Colours
use busylib_go.Prelude.{
  ℕ, zero, suc, ◌+◌, ◌-◌, ◌*◌, ◌/◌, ◌%◌, Option, none, some, List, [], ◌∷◌, ◌++◌, Result, ok, err,
  ◌>>=◌, ltb, ◌==◌, if◌then◌else◌, length, get_elem?, replicate,
}
use busylib_go.Prelude.Bytes.{Bytes}
use busylib_go.Frame.Types.{
  Frame, PixelFormat, rgb888, l8, l4, Error, rgba_operation, unsupported_pixel_format, frame_error,
}
use busylib_go.Frame.Pixels.{pixels_for}

-- An error that the method returns, or the panic of an index out of range.
pub data Fault : Type 0 where
  reported : Error → Fault
  index_out_of_range : Fault

pub record Image : Type 0 where
  pub width : ℕ
  pub height : ℕ
  pub pix : Bytes

abbrev pub index : Bytes → ℕ → Result Fault ℕ
index bs i = elim (get_elem? bs i) [ none ↦ err index_out_of_range | some b ↦ ok b ]

-- `size` is the length of the destination.
each_pixel : (ℕ → Result Fault Bytes) → (size count pixel : ℕ) → Result Fault Bytes
each_pixel read size zero pixel = ok []
each_pixel read size (suc count) pixel = do
  cell ← read pixel
  more ← each_pixel read size count (suc pixel)
  if ltb (pixel * 4 + 3) size then ok (cell ++ more) else err index_out_of_range

read_rgb888 : Bytes → ℕ → Result Fault Bytes
read_rgb888 pixels pixel = do
  red ← index pixels (pixel * 3 + 2)
  green ← index pixels (pixel * 3 + 1)
  blue ← index pixels (pixel * 3)
  ok (red ∷ green ∷ blue ∷ 0xff ∷ [])

read_l8 : Bytes → ℕ → Result Fault Bytes
read_l8 pixels pixel = do
  grayscale ← index pixels pixel
  ok (grayscale ∷ grayscale ∷ grayscale ∷ 0xff ∷ [])

-- `packed & 0x0f` or `packed >> 4`, times 17 as a byte
abbrev pub nibble : ℕ → ℕ → ℕ
nibble packed pixel = (if pixel % 2 == 1 then packed / 16 else packed % 16) * 17 % 256

read_l4 : Bytes → ℕ → Result Fault Bytes
read_l4 pixels pixel = do
  packed ← index pixels (pixel / 2)
  let grayscale = nibble packed pixel
  ok (grayscale ∷ grayscale ∷ grayscale ∷ 0xff ∷ [])

-- Unwritten cells stay zero.
abbrev zero_fill : ℕ → Bytes → Bytes
zero_fill size cells = cells ++ replicate (size - length cells) 0

unfoldable pub render : PixelFormat → Frame → Bytes → Result Fault Image
unfolding each_pixel read_rgb888 read_l8 read_l4
render format f pixels =
    let size = 4 * (f.width * f.height) in
    let image = λ (cells : Bytes).
      let r : Image = record { width = f.width; height = f.height; pix = zero_fill size cells } in
      r in
    elim format [
      | rgb888 ↦
          each_pixel (read_rgb888 pixels) size (f.width * f.height) 0 >>= λ cells. ok (image cells)
      | l8 ↦ each_pixel (read_l8 pixels) size (length pixels) 0 >>= λ cells. ok (image cells)
      | l4 ↦ each_pixel (read_l4 pixels) size (f.width * f.height) 0 >>= λ cells. ok (image cells)
      | _ ↦ err (reported (frame_error rgba_operation f unsupported_pixel_format))
    ]

unfoldable pub rgba : Frame → Result Fault Image
rgba f = elim (pixels_for rgba_operation f) [
  | ok pixels ↦ render f.pixel_format f pixels
  | err e ↦ err (reported e)
]
