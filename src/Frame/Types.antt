-- ===== src/Frame/Types.antt =====
-- frame/frame.go and frame/errors.go: the data of a frame, and the errors about it.
-- The enumerations are int32 values on the wire. The values that the switches name are
-- constructors; every other value is kept by an `other_` constructor, as the Go type keeps it.
use busylib_go.Prelude.{ℕ, List}
use busylib_go.Prelude.Int.{ℤ}
use busylib_go.Prelude.Bytes.{Bytes}

abbrev pub front_width : ℕ
front_width = 72

abbrev pub front_height : ℕ
front_height = 16

abbrev pub back_width : ℕ
back_width = 160

abbrev pub back_height : ℕ
back_height = 80

abbrev pub max_payload_size : ℕ
max_payload_size = 16384

pub data Screen : Type 0 where
  screen_front screen_back : Screen
  other_screen : ℤ → Screen

pub data Encoding : Type 0 where
  plain run_length deflate deflate_run_length : Encoding
  other_encoding : ℤ → Encoding

pub data PixelFormat : Type 0 where
  rgb888 l8 l4 : PixelFormat
  other_pixel_format : ℤ → PixelFormat

-- `width` and `height` are uint32, `raw` is a slice of bytes.
pub record Frame : Type 0 where
  pub screen : Screen
  pub width : ℕ
  pub height : ℕ
  pub encoding : Encoding
  pub pixel_format : PixelFormat
  pub raw : Bytes

-- The protobuf message of a status stream.
pub record ProtoFrame : Type 0 where
  pub screen : Screen
  pub width : ℕ
  pub height : ℕ
  pub encoding : Encoding
  pub pixel_format : PixelFormat
  pub payload : Bytes

-- The sentinel that `errors.Is` finds; the texts wrapped around it are left out.
pub data Cause : Type 0 where
  invalid_frame payload_too_large unsupported_screen : Cause
  unsupported_encoding unsupported_pixel_format : Cause

pub data Operation : Type 0 where
  from_http_operation from_proto_operation pixels_operation rgba_operation : Operation

pub record Error : Type 0 where
  pub operation : Operation
  pub screen : Screen
  pub encoding : Encoding
  pub pixel_format : PixelFormat
  pub err : Cause

-- `Frame{}`
abbrev pub zero_frame : Frame
zero_frame = record {
  screen = screen_front;
  width = 0;
  height = 0;
  encoding = plain;
  pixel_format = rgb888;
  raw = List.[];
}

unfoldable pub frame_error : Operation → Frame → Cause → Error
frame_error operation f cause = record {
  operation = operation;
  screen = f.screen;
  encoding = f.encoding;
  pixel_format = f.pixel_format;
  err = cause;
}
