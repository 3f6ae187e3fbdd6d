-- ===== src/Frame/Pixels.antt =====
-- frame/frame.go: the checks of a frame's metadata, its size in bytes, and its decoded pixels.
pub mod Sizes
use busylib_go.Prelude.{
  ℕ, ◌+◌, ◌*◌, ◌/◌, ◌%◌, ◌^◌, Bool, ◌&&◌, Result, ok, err, ◌>>=◌, ◌>>◌, refuse_if, ltb, ◌==◌, not,
  if◌then◌else◌, length,
}
use busylib_go.Prelude.Bytes.{Bytes}
use busylib_go.Frame.Types.{
  Frame, Screen, screen_front, screen_back, Encoding, plain, run_length, PixelFormat, rgb888, l8,
  l4, Cause, Error, Operation, pixels_operation, invalid_frame, payload_too_large,
  unsupported_screen, unsupported_encoding, unsupported_pixel_format, front_width, front_height,
  back_width, back_height, max_payload_size, frame_error,
}
use busylib_go.Frame.Rle.{decode_rle}

-- uint64 arithmetic
abbrev pub u64 : ℕ → ℕ
u64 n = n % 2 ^ 64

size_of : PixelFormat → ℕ → Result Cause ℕ
size_of rgb888 count = ok (u64 (count * 3))
size_of l8 count = ok count
size_of l4 count = ok (u64 (count + 1) / 2)
size_of _ count = err unsupported_pixel_format

unfoldable pub pixel_data_size : Frame → Result Cause ℕ
unfolding size_of
pixel_data_size f = do
  size ← size_of f.pixel_format (u64 (f.width * f.height))
  refuse_if (ltb max_payload_size size) payload_too_large
  ok size

validate_dimensions : Screen → ℕ → ℕ → Result Cause (Unit {0})
validate_dimensions screen_front width height =
    refuse_if (not (width == front_width && height == front_height)) invalid_frame
validate_dimensions screen_back width height =
    refuse_if (not (width == back_width && height == back_height)) invalid_frame
validate_dimensions _ width height = err unsupported_screen

unfoldable pub validate_metadata : Frame → Result Cause (Unit {0})
unfolding validate_dimensions
validate_metadata f =
    if ltb max_payload_size (length f.raw)
    then err payload_too_large
    else validate_dimensions f.screen f.width f.height

unfoldable pub rle_block_size : Screen → Result Cause ℕ
rle_block_size screen_front = ok 3
rle_block_size screen_back = ok 2
rle_block_size _ = err unsupported_screen

unfoldable pub decode_pixels : Encoding → Frame → ℕ → Result Cause Bytes
decode_pixels plain f want = if length f.raw == want then ok f.raw else err invalid_frame
decode_pixels run_length f want = do
  block_size ← rle_block_size f.screen
  decode_rle f.raw want block_size
decode_pixels _ f want = err unsupported_encoding

-- Every error that a method reports is wrapped with the frame's metadata.
abbrev pub wrap {ℓ} : {A : Type ℓ} → Operation → Frame → Result Cause A → Result Error A
wrap operation f (ok a) = ok a
wrap operation f (err cause) = err (frame_error operation f cause)

unfoldable pub pixels_causes : Frame → Result Cause Bytes
pixels_causes f = do
  _ ← validate_metadata f
  want ← pixel_data_size f
  decode_pixels f.encoding f want

-- The unexported `pixels`, with the operation that its errors name, and the method `Pixels`.
unfoldable pub pixels_for : Operation → Frame → Result Error Bytes
pixels_for operation f = wrap operation f (pixels_causes f)

unfoldable pub pixels : Frame → Result Error Bytes
pixels f = pixels_for pixels_operation f
