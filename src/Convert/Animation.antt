-- ===== src/Convert/Animation.antt =====
-- convert/animation/animation.go: packing RGB888 frames as a device animation.
-- A pass over the frames is the list of what the loader returns for them; the encoder makes two.
pub mod Wire
pub mod Header
pub mod Merged
pub mod Written
pub mod Analyzed
pub mod Packed
use busylib_go.Prelude.{
  ℕ, zero, suc, ◌+◌, ◌-◌, ◌*◌, ◌/◌, ◌%◌, ◌^◌, min, Bool, true, false, ◌&&◌, ◌||◌, not, List, [],
  ◌∷◌, ◌++◌, Option, none, some, Result, ok, err, ◌>>=◌, ◌>>◌, refuse_if, ltb, ◌==◌, if◌then◌else◌,
  length, get_or, set,
}
use busylib_go.Prelude.Int.{ℤ, pos, negsuc, ltb_ℤ, pos_part}
use busylib_go.Prelude.Bytes.{Bytes, bytes_eq}
use busylib_go.Convert.Animation.Wire.{header_length, sections_length, prefix, put_record}

-- RGB888Frame.
pub record Frame : Type 0 where
  pub pixels : Bytes
  pub duration : ℕ

pub record Config : Type 0 where
  pub width : ℤ
  pub height : ℤ
  pub fps : ℤ

-- The index is that of the frame.
pub data AnimationError : Type 0 where
  invalid_config no_frames frames_changed : AnimationError
  invalid_frame output_too_large : ℕ → AnimationError

pub record Layout : Type 0 where
  pub frames_length : ℕ
  pub output_length : ℕ

-- What a pass keeps between frames. `last_duration` is that of the record written last.
pub record Analysis : Type 0 where
  pub previous : Option Bytes
  pub last_duration : ℕ
  pub encoded : ℕ
  pub displayed : ℕ

abbrev pub max_byte_value : ℕ
max_byte_value = 255

abbrev pub default_fps : ℕ
default_fps = 30

abbrev pub effective_duration : ℕ → ℕ
effective_duration duration = if duration == 0 then 1 else duration

abbrev pub is_same : Option Bytes → Bytes → Bool
is_same none pixels = false
is_same (some previous) pixels = bytes_eq previous pixels

-- `for remaining > 0 { … }`: a round takes at least one.
unfoldable pub count_rounds : (fuel remaining : ℕ) → Analysis → Analysis
count_rounds zero remaining a = a
count_rounds (suc fuel) remaining a =
    let piece = min remaining max_byte_value in
    let further =
      count_rounds fuel (remaining - piece)
        (record a { last_duration = piece; encoded = (a.encoded + 1) % 2 ^ 64 }) in
    if remaining == 0 then a else further

unfoldable pub analyze_frame : Frame → Analysis → Analysis
analyze_frame f a =
    let duration = effective_duration f.duration in
    let added =
      if is_same a.previous f.pixels then min duration (max_byte_value - a.last_duration) else 0 in
    let counted = count_rounds (duration - added) (duration - added) (record a {
      last_duration = a.last_duration + added;
      displayed = (a.displayed + duration) % 2 ^ 64;
    }) in
    if is_same a.previous f.pixels then counted else record counted { previous = some f.pixels }

-- uint64 arithmetic, and an int of 64 bits.
unfoldable pub calculate_layout : ℕ → ℕ → ℕ → ℕ → Option Layout
calculate_layout frame_length frame_count display_count maximum =
    let record_length = (4 + frame_length) % 2 ^ 64 in
    let frames_length = record_length * frame_count % 2 ^ 64 in
    let output_length = (header_length + sections_length + frames_length) % 2 ^ 64 in
    if ltb (2 ^ 32 - 1) frame_count
    then none
    else if ltb (2 ^ 32 - 1) display_count || ltb (2 ^ 63 - 1) display_count
    then none
    else if not (frame_count == 0) && ltb ((2 ^ 64 - 1) / frame_count) record_length
    then none
    else if ltb (2 ^ 32 - 1) frames_length
    then none
    else if ltb (2 ^ 63 - 1) output_length || ltb maximum output_length
    then none
    else some (record { frames_length = frames_length; output_length = output_length })

abbrev pub or_too_large : ℕ → Option Layout → Result AnimationError Layout
or_too_large index none = err (output_too_large index)
or_too_large index (some layout) = ok layout

-- A pass: what the loader returns, frame by frame.
abbrev pub Pass : Type 0
Pass = List (Result AnimationError Frame)

unfoldable pub analyze_frames :
    (frame_length maximum index : ℕ)
    → Pass
    → Analysis
    → Layout
    → Result AnimationError (Layout × Analysis)
analyze_frames frame_length maximum index [] a layout = ok (layout, a)
analyze_frames frame_length maximum index (loaded ∷ pass) a layout = do
  f ← loaded
  let a' = analyze_frame f a
  layout' ← or_too_large index (calculate_layout frame_length a'.encoded a'.displayed maximum)
  analyze_frames frame_length maximum (suc index) pass a' layout'

-- The output as far as the cursor has come, where the last record begins, and its pixels.
pub record Writing : Type 0 where
  pub written : Bytes
  pub last_offset : ℕ
  pub previous : Option Bytes

unfoldable pub write_rounds :
    (output_length frame_length : ℕ) (pixels : Bytes) (fuel remaining : ℕ)
    → Writing
    → Result AnimationError Writing
write_rounds output_length frame_length pixels zero remaining w = ok w
write_rounds output_length frame_length pixels (suc fuel) remaining w =
    let piece = min remaining max_byte_value in
    let further =
      write_rounds output_length frame_length pixels fuel (remaining - piece) (record w {
        written = w.written ++ put_record frame_length piece pixels;
        last_offset = length w.written;
      }) in
    if remaining == 0
    then ok w
    else if ltb output_length (length w.written + 4 + frame_length)
    then err frames_changed
    else further

-- `output[lastFrameOffset+1] += byte(added)`
unfoldable pub lengthen : ℕ → Writing → Writing
lengthen added w = record w {
  written =
      set w.written (w.last_offset + 1) ((get_or w.written (w.last_offset + 1) 0 + added) % 256);
}

unfoldable pub write_frame : ℕ → ℕ → Frame → Writing → Result AnimationError Writing
write_frame output_length frame_length f w =
    let duration = effective_duration f.duration in
    let added = min duration (max_byte_value - get_or w.written (w.last_offset + 1) 0) in
    if is_same w.previous f.pixels
    then write_rounds output_length frame_length f.pixels (duration - added) (duration - added)
        (lengthen added w)
    else (do
      w' ← write_rounds output_length frame_length f.pixels duration duration w
      ok (record w' { previous = some f.pixels }))

unfoldable pub write_frames : ℕ → ℕ → Pass → Writing → Result AnimationError Writing
write_frames output_length frame_length [] w =
    if length w.written == output_length then ok w else err frames_changed
write_frames output_length frame_length (loaded ∷ pass) w = do
  f ← loaded
  w' ← write_frame output_length frame_length f w
  write_frames output_length frame_length pass w'

pub record Animation : Type 0 where
  pub output : Bytes
  pub encoded_frame_count : ℕ
  pub display_frame_count : ℕ

abbrev pub first_analysis : Analysis
first_analysis = record { previous = none; last_duration = 0; encoded = 0; displayed = 0 }

abbrev pub no_layout : Layout
no_layout = record { frames_length = 0; output_length = 0 }

abbrev pub normal_fps : ℤ → ℤ
normal_fps (pos zero) = pos default_fps
normal_fps fps = fps

abbrev pub beyond_byte : ℤ → Bool
beyond_byte value = ltb_ℤ value (pos 1) || ltb_ℤ (pos max_byte_value) value

abbrev pub frame_length_of : Config → ℕ
frame_length_of c = pos_part c.width * pos_part c.height * 3

-- The header and the section, with the duration of its first record.
abbrev pub prefix_of : Config → Layout → Analysis → ℕ → Bytes
prefix_of c layout a first_duration =
    prefix (pos_part c.width) (pos_part c.height) (pos_part (normal_fps c.fps)) (frame_length_of c)
      layout.frames_length a.encoded a.displayed first_duration

abbrev pub start_writing : Bytes → Writing
start_writing start = record { written = start; last_offset = 0; previous = none }

-- `output[headerLength+12] = output[firstFrameOffset+1]`
abbrev pub copy_first_duration : Bytes → Bytes
copy_first_duration output = set output 48 (get_or output 58 0)

abbrev pub is_nil : Pass → Bool
is_nil [] = true
is_nil (_ ∷ _) = false

-- The checks before the passes.
unfoldable pub check_config : Config → Pass → Result AnimationError (Unit {0})
check_config c first = do
  refuse_if (beyond_byte c.width || beyond_byte c.height) invalid_config
  refuse_if (beyond_byte (normal_fps c.fps)) invalid_config
  refuse_if (is_nil first) no_frames
  refuse_if (ltb 65535 (frame_length_of c)) invalid_config

unfoldable pub pack_frames : Config → ℕ → Pass → Pass → Result AnimationError Animation
pack_frames c maximum first second = do
  analyzed ← analyze_frames (frame_length_of c) maximum 0 first first_analysis no_layout
  let layout = analyzed.0
  let a = analyzed.1
  w ←
      write_frames layout.output_length (frame_length_of c) second
        (start_writing (prefix_of c layout a 0))
  ok (record {
    output = copy_first_duration w.written;
    encoded_frame_count = a.encoded;
    display_frame_count = a.displayed;
  })

unfoldable pub encode_frames : Config → ℕ → Pass → Pass → Result AnimationError Animation
encode_frames c maximum first second = do
  _ ← check_config c first
  pack_frames c maximum first second

-- The loader of EncodeRGB888.
unfoldable pub load_frames : (frame_length index : ℕ) → List Frame → Pass
load_frames frame_length index [] = []
load_frames frame_length index (f ∷ frames) =
    (if length f.pixels == frame_length then ok f else err (invalid_frame index))
    ∷ load_frames frame_length (suc index) frames

unfoldable pub encode_rgb888 : List Frame → Config → ℕ → Result AnimationError Animation
encode_rgb888 frames c maximum =
    let pass = load_frames (frame_length_of c) 0 frames in encode_frames c maximum pass pass
