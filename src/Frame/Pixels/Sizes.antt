-- ===== src/Frame/Pixels/Sizes.antt =====
-- Sizes of decoded frames of frame/frame.go.
use busylib_go.Prelude.{
  ℕ, ◌+◌, ◌*◌, ◌/◌, ◌≤◌, ◌≡◌, ◌⊎◌, inl, inr, refl, ◌∙◌, List, Result, ok, err, bind_inversion,
  arith, length, All,
}
use busylib_go.Prelude.Bytes.{Bytes, IsByte}
use busylib_go.Frame.Types.{
  Frame, screen_front, screen_back, PixelFormat, rgb888, l8, l4, Operation, Cause, Encoding, plain,
  run_length, max_payload_size,
}
use busylib_go.Frame.Rle.{decode_rle}
use busylib_go.Frame.Rle.Blocks.{Block, IsBlock, wire, expand, decode_rle_sound}
use busylib_go.Frame.Pixels.{
  pixel_data_size, validate_metadata, rle_block_size, decode_pixels, pixels_causes, pixels_for,
  wrap,
}

-- The pixels of the display that a frame is for.
abbrev pub IsSized : Frame → Type 0
IsSized f =
    (f.screen ≡ screen_front) × (f.width ≡ 72) × (f.height ≡ 16)
    ⊎ (f.screen ≡ screen_back) × (f.width ≡ 160) × (f.height ≡ 80)

-- The formats that have a size.
abbrev pub IsKnown : PixelFormat → Type 0
IsKnown rgb888 = Unit
IsKnown l8 = Unit
IsKnown l4 = Unit
IsKnown _ = ⊥

pub pixel_data_size-IsKnown :
    (f : Frame) {size : ℕ} → pixel_data_size f ≡ ok size → IsKnown f.pixel_format
unfolding pixel_data_size
pixel_data_size-IsKnown f h = ground arith

-- The bytes of so many pixels, in the format.
abbrev pub format_size : PixelFormat → ℕ → ℕ
format_size rgb888 count = count * 3
format_size l8 count = count
format_size l4 count = (count + 1) / 2
format_size _ count = 0

validate_metadata_sound :
    (f : Frame) → validate_metadata f ≡ ok tt → (length f.raw ≤ max_payload_size) × IsSized f
unfolding validate_metadata
validate_metadata_sound f h = ground arith

validate_metadata_complete :
    (f : Frame) → (length f.raw ≤ max_payload_size) × IsSized f → validate_metadata f ≡ ok tt
unfolding validate_metadata
validate_metadata_complete f h = ground arith

-- Metadata pass exactly when the raw data fit and the frame has the dimensions of its screen.
pub validate_metadata_iff :
    (f : Frame)
    → (validate_metadata f ≡ ok tt → (length f.raw ≤ max_payload_size) × IsSized f)
      × ((length f.raw ≤ max_payload_size) × IsSized f → validate_metadata f ≡ ok tt)
validate_metadata_iff f = (validate_metadata_sound f, validate_metadata_complete f)

pub pixel_data_size-exact :
    (f : Frame) {size : ℕ}
    → IsSized f
    → pixel_data_size f ≡ ok size
    → (size ≡ format_size f.pixel_format (f.width * f.height)) × (size ≤ max_payload_size)
unfolding pixel_data_size
pixel_data_size-exact f sized h = ground arith

-- How the pixels came out of the raw bytes.
abbrev pub IsDecoded : Frame → Bytes → Type 0
IsDecoded f out =
    (f.encoding ≡ plain) × (out ≡ f.raw)
    ⊎ (f.encoding ≡ run_length)
      × (block_size : ℕ) × (rle_block_size f.screen ≡ ok block_size)
      × (blocks : List Block) × All (IsBlock block_size) blocks
      × (wire blocks ≡ f.raw)
      × (expand blocks ≡ out)

decode_pixels-ok :
    (e : Encoding) (f : Frame) (want : ℕ) {out : Bytes}
    → decode_pixels e f want ≡ ok out
    → (e ≡ plain) × (out ≡ f.raw) × (length out ≡ want)
      ⊎ (e ≡ run_length)
        × (block_size : ℕ) × (rle_block_size f.screen ≡ ok block_size)
        × (decode_rle f.raw want block_size ≡ ok out)
unfolding decode_pixels
decode_pixels-ok run_length f want h =
    let (block_size, known, decoded) = bind_inversion (rle_block_size f.screen) _ h in
    inr (refl, block_size, known, decoded)
decode_pixels-ok _ f want h = ground arith

decode_pixels-IsDecoded :
    (f : Frame) (want : ℕ) {out : Bytes}
    → All IsByte f.raw
    → decode_pixels f.encoding f want ≡ ok out
    → IsDecoded f out × (length out ≡ want)
decode_pixels-IsDecoded f want small h = elim (decode_pixels-ok f.encoding f want h) [
  | inl (e, same, size) ↦ (inl (e, same), size)
  | inr (e, block_size, known, decoded) ↦
      let (blocks, valid, spelled, whole, size) =
        decode_rle_sound f.raw want block_size small decoded in
      (inr (e, block_size, known, blocks, valid, spelled, whole), size)
]

wrap-ok :
    {A : Type 0} (operation : Operation) (f : Frame) (r : Result Cause A) {a : A}
    → wrap operation f r ≡ ok a
    → r ≡ ok a
wrap-ok operation f (ok b) h = cc
wrap-ok operation f (err cause) h = cc

pixels_causes-ok :
    (f : Frame) {out : Bytes}
    → pixels_causes f ≡ ok out
    → (want : ℕ) × (validate_metadata f ≡ ok tt)
      × (pixel_data_size f ≡ ok want)
      × (decode_pixels f.encoding f want ≡ ok out)
unfolding pixels_causes
pixels_causes-ok f h =
    let (u, valid, h') = bind_inversion (validate_metadata f) _ h in
    let (want, sized, h'') = bind_inversion (pixel_data_size f) _ h' in (want, valid, sized, h'')

-- Where a method gets the pixels of a frame, the frame has the dimensions of its screen, the pixels
-- are as many bytes as its format needs for them and no more than 16384, and they are the raw bytes
-- themselves or the expansion of the run-length blocks that the raw bytes spell.
pub pixels_for-IsDecoded :
    (operation : Operation) (f : Frame) {out : Bytes}
    → All IsByte f.raw
    → pixels_for operation f ≡ ok out
    → IsSized f
      × IsKnown f.pixel_format
      × (length out ≡ format_size f.pixel_format (f.width * f.height))
      × (length out ≤ max_payload_size)
      × IsDecoded f out
unfolding pixels_for
pixels_for-IsDecoded operation f small h =
    let (want, valid, sized, decoded) =
      pixels_causes-ok f (wrap-ok operation f (pixels_causes f) h) in
    let (fits, is_sized) = (validate_metadata_iff f).0 valid in
    let (exact, bounded) = pixel_data_size-exact f is_sized sized in
    let (meaning, size) = decode_pixels-IsDecoded f want small decoded in
    (is_sized, pixel_data_size-IsKnown f sized, size ∙ exact, (rw size bounded), meaning)
