-- ===== src/Frame/Rgba/Colours.antt =====
-- What the image of frame/frame.go's RGBA shows at each pixel.
use busylib_go.Prelude.{
  ℕ, zero, suc, ◌+◌, ◌-◌, ◌*◌, ◌/◌, ◌≤◌, ◌<◌, ◌≡◌, refl, ◌∙◌, [], ◌∷◌, ◌++◌, append-nil, Result,
  Result-cases, ok, err, length, get_or, take, drop, arith, All, ap, length-append,
  take-length-append, drop-past-append, ◌⊎◌, inl, inr,
}
use busylib_go.Prelude.Bytes.{Bytes, IsByte}
use busylib_go.Frame.Types.{Frame, PixelFormat, rgb888, l8, l4, Error, rgba_operation}
use busylib_go.Frame.Pixels.{pixels_for}
use busylib_go.Frame.Pixels.Sizes.{IsKnown, format_size, pixels_for-IsDecoded}
use busylib_go.Frame.Rgba.Halves.{halves, gray_of, nibble-halves, IsDecoded-IsByte}
use busylib_go.Frame.Rgba.{
  Fault, reported, Image, index, each_pixel, read_rgb888, read_l8, read_l4, render, rgba, zero_fill,
}

abbrev pub byte_at : Bytes → ℕ → ℕ
byte_at bs i = get_or bs i 0

-- The red, green, blue and alpha of a pixel, read off the frame's pixel data: BGR triples, one gray
-- byte, or one gray digit of the two in a byte, of which the even pixel has the low one.
abbrev pub colour : PixelFormat → Bytes → ℕ → Bytes
colour rgb888 px i = byte_at px (i * 3 + 2) ∷ byte_at px (i * 3 + 1) ∷ byte_at px (i * 3) ∷ 255 ∷ []
colour l8 px i = byte_at px i ∷ byte_at px i ∷ byte_at px i ∷ 255 ∷ []
colour l4 px i = let gray = gray_of (byte_at (halves px) i) in gray ∷ gray ∷ gray ∷ 255 ∷ []
colour _ px i = []

abbrev pub pixel_at : Bytes → ℕ → Bytes
pixel_at pix i = take 4 (drop (i * 4) pix)

index_in_range : (bs : Bytes) (i : ℕ) → i < length bs → index bs i ≡ ok (byte_at bs i)
index_in_range [] i h = elim h [ ]
index_in_range (b ∷ bs) zero h = refl
index_in_range (b ∷ bs) (suc i) h = index_in_range bs i (omega arith)

cells : (ℕ → Bytes) → ℕ → ℕ → Bytes
cells paint zero pixel = []
cells paint (suc count) pixel = paint pixel ++ cells paint count (suc pixel)

module _ (read : ℕ → Result Fault Bytes) (paint : ℕ → Bytes) (size : ℕ) where
  each_pixel-cells :
      (count pixel : ℕ)
      → ((i : ℕ) → i < pixel + count → read i ≡ ok (paint i))
      → (pixel + count) * 4 ≤ size
      → each_pixel read size count pixel ≡ ok (cells paint count pixel)
  unfolding each_pixel cells
  each_pixel-cells zero pixel reads room = refl
  each_pixel-cells (suc count) pixel reads room = rw (reads pixel (omega arith)) (
      rw (each_pixel-cells count (suc pixel) (λ i h. reads i (omega arith)) (omega arith))
        (ground arith))

module _ (paint : ℕ → Bytes) (four : (i : ℕ) → length (paint i) ≡ 4) where
  length-cells : (count pixel : ℕ) → length (cells paint count pixel) ≡ count * 4
  unfolding cells
  length-cells zero pixel = omega arith
  length-cells (suc count) pixel = omega (
    arith,
    length-append (paint pixel) (cells paint count (suc pixel)),
    four pixel,
    length-cells count (suc pixel),
  )

  pixel_at-cells :
      (count pixel i : ℕ) → i < count → pixel_at (cells paint count pixel) i ≡ paint (pixel + i)
  unfolding cells
  pixel_at-cells zero pixel i h = elim h [ ]
  pixel_at-cells (suc count) pixel zero h =
      let same : pixel + 0 ≡ pixel = omega arith in
      rw same (take-length-append 4 (paint pixel) (cells paint count (suc pixel)) (four pixel))
  pixel_at-cells (suc count) pixel (suc i) h =
      let next : suc i * 4 ≡ 4 + i * 4 = omega arith in
      let shift : pixel + suc i ≡ suc pixel + i = omega arith in
      rw (next, shift)
        (rw (drop-past-append 4 (i * 4) (paint pixel) (cells paint count (suc pixel)) (four pixel))
          (pixel_at-cells count (suc pixel) i (omega arith)))

length-colour :
    (format : PixelFormat) (px : Bytes) → IsKnown format → (i : ℕ) → length (colour format px i) ≡ 4
length-colour rgb888 px s i = refl
length-colour l8 px s i = refl
length-colour l4 px s i = refl
length-colour (PixelFormat.other_pixel_format _) px s i = absurd s

zero_fill-full : (size : ℕ) (bs : Bytes) → length bs ≡ size → zero_fill size bs ≡ bs
zero_fill-full size bs e =
    let none_left : size - length bs ≡ 0 = omega arith in rw none_left (append-nil bs)

read_rgb888-colour :
    (px : Bytes) (i : ℕ) → i * 3 + 2 < length px → read_rgb888 px i ≡ ok (colour rgb888 px i)
unfolding read_rgb888
read_rgb888-colour px i h = rw (
  index_in_range px (i * 3 + 2) h,
  index_in_range px (i * 3 + 1) (omega arith),
  index_in_range px (i * 3) (omega arith),
)

read_l8-colour : (px : Bytes) (i : ℕ) → i < length px → read_l8 px i ≡ ok (colour l8 px i)
unfolding read_l8
read_l8-colour px i h = rw (index_in_range px i h)

read_l4-colour :
    (px : Bytes) (i : ℕ) → All IsByte px → i / 2 < length px → read_l4 px i ≡ ok (colour l4 px i)
unfolding read_l4
read_l4-colour px i small h = rw (index_in_range px (i / 2) h, nibble-halves px i small h) refl

-- The pixels that the loop of a format visits have their bytes in range.
render-cells :
    (format : PixelFormat) (f : Frame) (px : Bytes)
    → IsKnown format
    → All IsByte px
    → length px ≡ format_size format (f.width * f.height)
    → render format f px
      ≡ ok (record {
        width = f.width;
        height = f.height;
        pix = cells (colour format px) (f.width * f.height) 0;
      })
unfolding render
render-cells rgb888 f px known small size =
    let area = f.width * f.height in
    rw (
      each_pixel-cells (read_rgb888 px) (colour rgb888 px) (4 * area) area 0
          (λ i h. read_rgb888-colour px i (omega arith)) (omega arith),
      zero_fill-full (4 * area) (cells (colour rgb888 px) area 0)
          (omega (arith, length-cells (colour rgb888 px) (λ i. refl) area 0)),
    )
render-cells l8 f px known small size =
    let area = f.width * f.height in
    rw (
      size,
      each_pixel-cells (read_l8 px) (colour l8 px) (4 * area) area 0
          (λ i h. read_l8-colour px i (omega arith)) (omega arith),
      zero_fill-full (4 * area) (cells (colour l8 px) area 0)
          (omega (arith, length-cells (colour l8 px) (λ i. refl) area 0)),
    )
render-cells l4 f px known small size =
    let area = f.width * f.height in
    rw (
      each_pixel-cells (read_l4 px) (colour l4 px) (4 * area) area 0
          (λ i h. read_l4-colour px i small (omega arith)) (omega arith),
      zero_fill-full (4 * area) (cells (colour l4 px) area 0)
          (omega (arith, length-cells (colour l4 px) (λ i. refl) area 0)),
    )
render-cells (PixelFormat.other_pixel_format _) f px known small size = absurd known

-- RGBA returns an image exactly where the pixels decode, with no index out of range: the image has
-- the frame's dimensions and four bytes a pixel, and shows each pixel in its colour: red, green and blue
-- of its BGR triple, its gray byte three times, or three times the byte whose two hexadecimal digits are
-- its gray digit, the low one of a byte for the even pixel and the high one for the odd; each with an
-- alpha of 255. Where the pixels do not decode, RGBA returns that error.
pub rgba-colour :
    (f : Frame)
    → All IsByte f.raw
    → ((px : Bytes) × (image : Image) × (pixels_for rgba_operation f ≡ ok px)
        × (rgba f ≡ ok image)
        × (image.width ≡ f.width)
        × (image.height ≡ f.height)
        × (length image.pix ≡ 4 * (f.width * f.height))
        × ((i : ℕ) → i < f.width * f.height → pixel_at image.pix i ≡ colour f.pixel_format px i))
      ⊎ ((e : Error) × (pixels_for rgba_operation f ≡ err e) × (rgba f ≡ err (reported e)))
unfolding rgba
rgba-colour f small = elim (Result-cases (pixels_for rgba_operation f)) [
  | inl (px, decoded) ↦
      let (sized, known, size, fits, meaning) =
        pixels_for-IsDecoded rgba_operation f small decoded in
      let four = length-colour f.pixel_format px known in
      let area = f.width * f.height in
      let shown = cells (colour f.pixel_format px) area 0 in
      inl (
        px,
        record { width = f.width; height = f.height; pix = shown },
        decoded,
        rw (decoded, rgba)
            (render-cells f.pixel_format f px known (IsDecoded-IsByte f px small meaning) size),
        refl,
        refl,
        omega (arith, length-cells (colour f.pixel_format px) four area 0),
        λ i h.
            pixel_at-cells (colour f.pixel_format px) four area 0 i h
            ∙ ap (colour f.pixel_format px) (omega arith),
      )
  | inr (e, failed) ↦ inr (e, failed, rw (failed, rgba))
]
