-- ===== src/Convert/Animation/Wire.antt =====
-- The bytes of an animation file, as convert/animation/animation.go lays them out.
use busylib_go.Prelude.{ℕ, ◌+◌, ◌-◌, ◌/◌, ◌%◌, ◌^◌, [], ◌∷◌, ◌++◌}
use busylib_go.Prelude.Bytes.{Bytes, bytes}

abbrev pub header_length : ℕ
header_length = 36

-- 13 bytes, the name and a zero.
abbrev pub sections_length : ℕ
sections_length = 21

-- PutUint16 and PutUint32, in front of what follows.
abbrev pub put_u16 : ℕ → Bytes → Bytes
put_u16 n rest = n % 256 ∷ n / 256 % 256 ∷ rest

abbrev pub put_u32 : ℕ → Bytes → Bytes
put_u32 n rest = n % 256 ∷ n / 2 ^ 8 % 256 ∷ n / 2 ^ 16 % 256 ∷ n / 2 ^ 24 % 256 ∷ rest

-- The header, and the one section.
unfoldable pub prefix :
    (width height fps frame_length frames_length encoded displayed first_duration : ℕ) → Bytes
prefix width height fps frame_length frames_length encoded displayed first_duration =
    bytes "bicycle0"
    ++ (0
        ∷ width
        ∷ height
        ∷ 0
        ∷ fps
        ∷ put_u16 frame_length (
            0
            ∷ put_u32 sections_length (
                put_u32 frames_length (
                  put_u32 1 (
                    put_u32 encoded (
                      put_u32 displayed (
                        put_u32 0 (
                          put_u32 (displayed - 1) (
                            put_u32 (header_length + sections_length)
                              (first_duration ∷ (bytes "default" ++ (0 ∷ []))))))))))))

-- One encoded frame: no compression, how long it is shown, its length, and its pixels.
abbrev pub put_record : ℕ → ℕ → Bytes → Bytes
put_record frame_length duration pixels = 0 ∷ duration % 256 ∷ (put_u16 frame_length pixels)
