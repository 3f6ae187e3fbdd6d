-- ===== src/Frame/Build/Checked.antt =====
-- What a frame built by frame/frame.go is good for.
use busylib_go.Prelude.{
  ◌≤◌, ◌<◌, ◌≡◌, ◌⊎◌, inl, inr, refl, Option, none, some, ok, err, ltb, length, arith, Bool-cases,
}
use busylib_go.Prelude.Bytes.{Bytes, bytes_eq, bytes_eq_iff}
use busylib_go.Frame.Types.{
  Frame, ProtoFrame, Error, screen_front, screen_back, plain, rgb888, l4, from_proto_operation,
  invalid_frame, payload_too_large, max_payload_size, zero_frame, frame_error,
}
use busylib_go.Frame.Pixels.{
  pixel_data_size, validate_metadata, decode_pixels, pixels_causes, pixels_for, pixels,
}
use busylib_go.Frame.Build.{front, back, proto_metadata, http_metadata, from_http, from_proto}

-- The number of bytes that a screen download has.
abbrev pub IsDownload : Bytes → Bytes → Type 0
IsDownload target raw =
    (target ≡ front) × (length raw ≡ 3456) ⊎ (target ≡ back) × (length raw ≡ 6400)

from_http-IsDownload :
    (target raw : Bytes) {f : Frame} → from_http target raw ≡ ok f → IsDownload target raw
unfolding from_http http_metadata pixel_data_size
from_http-IsDownload target raw h =
    ground (arith, bytes_eq_iff target front, bytes_eq_iff target back)

abbrev front_frame : Bytes → Frame
front_frame raw = record {
  screen = screen_front;
  width = 72;
  height = 16;
  encoding = plain;
  pixel_format = rgb888;
  raw = raw;
}

abbrev back_frame : Bytes → Frame
back_frame raw = record {
  screen = screen_back;
  width = 160;
  height = 80;
  encoding = plain;
  pixel_format = l4;
  raw = raw;
}

from_http-front : (raw : Bytes) → length raw ≡ 3456 → from_http front raw ≡ ok (front_frame raw)
unfolding from_http http_metadata pixel_data_size bytes_eq
from_http-front raw n = ground arith

from_http-back : (raw : Bytes) → length raw ≡ 6400 → from_http back raw ≡ ok (back_frame raw)
unfolding from_http http_metadata pixel_data_size bytes_eq
from_http-back raw n = ground arith

pixels-front : (raw : Bytes) → length raw ≡ 3456 → pixels (front_frame raw) ≡ ok raw
unfolding pixels pixels_for pixels_causes validate_metadata pixel_data_size decode_pixels
pixels-front raw n = ground arith

pixels-back : (raw : Bytes) → length raw ≡ 6400 → pixels (back_frame raw) ≡ ok raw
unfolding pixels pixels_for pixels_causes validate_metadata pixel_data_size decode_pixels
pixels-back raw n = ground arith

-- FromHTTP accepts exactly the downloads of the two displays: 3456 bytes for the front and 6400 for
-- the back. An accepted frame decodes to the downloaded bytes.
pub from_http-pixels :
    (target raw : Bytes)
    → ((f : Frame) → from_http target raw ≡ ok f → IsDownload target raw)
      × (IsDownload target raw → (f : Frame) × (from_http target raw ≡ ok f) × (pixels f ≡ ok raw))
from_http-pixels target raw = (
  λ f h. from_http-IsDownload target raw h,
  λ d. elim d [
    | inl (e, n) ↦ (front_frame raw, rw e (from_http-front raw n), pixels-front raw n)
    | inr (e, n) ↦ (back_frame raw, rw e (from_http-back raw n), pixels-back raw n)
  ],
)

-- FromProto refuses no message and payloads above 16384 bytes, each with its error; any other
-- message it copies field by field, enumeration values that it does not know included.
pub from_proto-fields :
    (value : Option ProtoFrame)
    → (value ≡ none)
        × (from_proto value ≡ err (frame_error from_proto_operation zero_frame invalid_frame))
      ⊎ (m : ProtoFrame) × (value ≡ some m)
        × ((max_payload_size < length m.payload)
              × ((e : Error) × (from_proto value ≡ err e)
                  × (e.err ≡ payload_too_large)
                  × (e.screen ≡ m.screen)
                  × (e.pixel_format ≡ m.pixel_format))
            ⊎ (length m.payload ≤ max_payload_size)
              × ((f : Frame) × (from_proto value ≡ ok f)
                  × (f.screen ≡ m.screen)
                  × (f.width ≡ m.width)
                  × (f.height ≡ m.height)
                  × (f.encoding ≡ m.encoding)
                  × (f.pixel_format ≡ m.pixel_format)
                  × (f.raw ≡ m.payload)))
unfolding from_proto frame_error
from_proto-fields none = inl (refl, refl)
from_proto-fields (some m) = elim (Bool-cases (ltb max_payload_size (length m.payload))) [
  | inl big ↦
      let e = frame_error from_proto_operation (proto_metadata m) payload_too_large in
      inr (m, refl, inl (ground arith, (e, rw big, refl, refl, refl)))
  | inr fits ↦
      let f : Frame = record (proto_metadata m) { raw = m.payload } in
      inr (m, refl, inr (ground arith, (f, rw fits, refl, refl, refl, refl, refl, refl)))
]
