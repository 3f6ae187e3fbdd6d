-- ===== src/Frame/Build.antt =====
-- frame/frame.go, FromHTTP and FromProto: frames from a screen download and from a status stream.
pub mod Checked
use busylib_go.Prelude.{
  ℕ, List, [], Option, none, some, Result, ok, err, ltb, ◌==◌, not, if◌then◌else◌, length,
}
use busylib_go.Prelude.Bytes.{Bytes, bytes, bytes_eq}
use busylib_go.Frame.Types.{
  Frame, ProtoFrame, screen_front, screen_back, plain, rgb888, l4, Error, Operation,
  from_http_operation, from_proto_operation, invalid_frame, payload_too_large, unsupported_screen,
  front_width, front_height, back_width, back_height, max_payload_size, zero_frame, frame_error,
}
use busylib_go.Frame.Pixels.{pixel_data_size}

-- display/target.go: a display is named by a string.
abbrev pub front : Bytes
front = bytes "front"

abbrev pub back : Bytes
back = bytes "back"

-- The metadata of a target's screen, with no pixels yet.
unfoldable pub http_metadata : Bytes → Option Frame
http_metadata target =
    if bytes_eq target front
    then some (record {
      screen = screen_front;
      width = front_width;
      height = front_height;
      encoding = plain;
      pixel_format = rgb888;
      raw = [];
    })
    else if bytes_eq target back
    then some (record {
      screen = screen_back;
      width = back_width;
      height = back_height;
      encoding = plain;
      pixel_format = l4;
      raw = [];
    })
    else none

fill_http : Frame → Bytes → Result Error Frame
fill_http value raw = elim (pixel_data_size value) [
  | err cause ↦ err (frame_error from_http_operation value cause)
  | ok want ↦
      if not (length raw == want)
      then err (frame_error from_http_operation value invalid_frame)
      else ok (record value { raw = raw })
]

unfoldable pub from_http : Bytes → Bytes → Result Error Frame
unfolding fill_http
from_http target raw = elim (http_metadata target) [
  | none ↦ err (frame_error from_http_operation zero_frame unsupported_screen)
  | some value ↦ fill_http value raw
]

-- The message without its data.
abbrev proto_metadata : ProtoFrame → Frame
proto_metadata value = record {
  screen = value.screen;
  width = value.width;
  height = value.height;
  encoding = value.encoding;
  pixel_format = value.pixel_format;
  raw = [];
}

unfoldable pub from_proto : Option ProtoFrame → Result Error Frame
from_proto none = err (frame_error from_proto_operation zero_frame invalid_frame)
from_proto (some value) =
    if ltb max_payload_size (length value.payload)
    then err (frame_error from_proto_operation (proto_metadata value) payload_too_large)
    else ok (record (proto_metadata value) { raw = value.payload })
