-- ===== src/Convert/Animation/Header.antt =====
-- Where the fields of an animation file of convert/animation/animation.go stand.
use busylib_go.Prelude.{
  length, ℕ, ◌+◌, ◌-◌, ◌*◌, ◌/◌, ◌%◌, ◌^◌, ◌≡◌, refl, [], ◌∷◌, ◌++◌, take, drop, get_or, arith,
}
use busylib_go.Prelude.Bytes.{Bytes, bytes}
use busylib_go.Convert.Animation.{copy_first_duration}
use busylib_go.Convert.Animation.Wire.{prefix}

-- Little-endian numbers at an offset.
abbrev pub u16_at : Bytes → ℕ → ℕ
u16_at bs i = get_or bs i 0 + 256 * get_or bs (i + 1) 0

abbrev pub u32_at : Bytes → ℕ → ℕ
u32_at bs i = u16_at bs i + 65536 * u16_at bs (i + 2)

pub record IsHeader (width height fps frame_length frames_length encoded displayed first : ℕ)
    (file : Bytes) : Type 0 where
  pub magic : take 8 file ≡ bytes "bicycle0"
  pub width_at : get_or file 9 0 ≡ width
  pub height_at : get_or file 10 0 ≡ height
  pub format_at : get_or file 11 0 ≡ 0
  pub fps_at : get_or file 12 0 ≡ fps
  pub frame_length_at : u16_at file 13 ≡ frame_length % 65536
  pub sections_length_at : u32_at file 16 ≡ 21
  pub frames_length_at : u32_at file 20 ≡ frames_length % 4294967296
  pub sections_at : u32_at file 24 ≡ 1
  pub encoded_at : u32_at file 28 ≡ encoded % 4294967296
  pub displayed_at : u32_at file 32 ≡ displayed % 4294967296
  pub section_start_at : u32_at file 36 ≡ 0
  pub section_end_at : u32_at file 40 ≡ (displayed - 1) % 4294967296
  pub section_offset_at : u32_at file 44 ≡ 57
  pub first_duration_at : get_or file 48 0 ≡ first
  pub section_name_at : take 8 (drop 49 file) ≡ bytes "default" ++ 0 ∷ []

u16_digits : (n : ℕ) → n % 256 + 256 * (n / 256 % 256) ≡ n % 65536
u16_digits n = omega arith

u32_digits :
    (n : ℕ)
    → n % 256 + 256 * (n / 2 ^ 8 % 256) + 65536 * (n / 2 ^ 16 % 256 + 256 * (n / 2 ^ 24 % 256))
      ≡ n % 4294967296
u32_digits n = omega arith

pub prefix-IsHeader :
    (width height fps frame_length frames_length encoded displayed first : ℕ) (rest : Bytes)
    → IsHeader width height fps frame_length frames_length encoded displayed first
        (prefix width height fps frame_length frames_length encoded displayed first ++ rest)
unfolding prefix
prefix-IsHeader width height fps frame_length frames_length encoded displayed first rest = record {
  magic = refl;
  width_at = refl;
  height_at = refl;
  format_at = refl;
  fps_at = refl;
  frame_length_at = u16_digits frame_length;
  sections_length_at = refl;
  frames_length_at = u32_digits frames_length;
  sections_at = refl;
  encoded_at = u32_digits encoded;
  displayed_at = u32_digits displayed;
  section_start_at = refl;
  section_end_at = u32_digits (displayed - 1);
  section_offset_at = refl;
  first_duration_at = refl;
  section_name_at = refl;
}

pub copy_first_duration_lem :
    (width height fps frame_length frames_length encoded displayed : ℕ) (rest : Bytes)
    → copy_first_duration
        (prefix width height fps frame_length frames_length encoded displayed 0 ++ rest)
      ≡ prefix width height fps frame_length frames_length encoded displayed (get_or rest 1 0)
        ++ rest
unfolding prefix
copy_first_duration_lem width height fps frame_length frames_length encoded displayed rest = refl

pub length-prefix :
    (width height fps frame_length frames_length encoded displayed first : ℕ)
    → length (prefix width height fps frame_length frames_length encoded displayed first) ≡ 57
unfolding prefix
length-prefix width height fps frame_length frames_length encoded displayed first = refl
