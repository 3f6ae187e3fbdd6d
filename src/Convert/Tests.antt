-- ===== src/Convert/Tests.antt =====
-- Runs of the frame count and of the packing, and their theorems at small inputs.
use busylib_go.Prelude.{◌≡◌, ◌≢◌, ◌⊎◌, refl, true, List, [], ◌∷◌, ok, err, arith, ◌++◌}
use busylib_go.Prelude.Bytes.{bytes, bytes_eq}
use busylib_go.Prelude.Int.{pos}
use busylib_go.Convert.Animation.{
  Frame, Config, Animation, AnimationError, frames_changed, encode_rgb888, encode_frames,
  check_config, pack_frames, load_frames, analyze_frames, analyze_frame, count_rounds,
  calculate_layout, write_frames, write_frame, write_rounds, lengthen,
}
use busylib_go.Convert.Animation.Wire.{prefix}
use busylib_go.Convert.Animation.Packed.{IsAnimation, encode_rgb888-IsAnimation}
use busylib_go.Convert.Gif.{gif_frame_count, frames_of, skip_sub_blocks, unexpected_eof}
use busylib_go.Convert.Gif.Counted.{image, extension, Gif, IsGif, put_gif, gif_frame_count-put_gif}

-- One pixel with a global table of two colours, behind a comment.
abbrev one_pixel : Gif
one_pixel = record {
  is_89a = true;
  size_bytes = 1 ∷ 0 ∷ 1 ∷ 0 ∷ [];
  packed = 128;
  background = 0;
  aspect = 0;
  table = 0 ∷ 0 ∷ 0 ∷ 255 ∷ 255 ∷ 255 ∷ [];
  parts =
      extension 254 ((104 ∷ 105 ∷ []) ∷ [])
      ∷ image (0 ∷ 0 ∷ 0 ∷ 0 ∷ 1 ∷ 0 ∷ 1 ∷ 0 ∷ []) 0 [] 2 ((68 ∷ 1 ∷ []) ∷ [])
      ∷ [];
  trailing = [];
}

one_pixel-IsGif : IsGif one_pixel
one_pixel-IsGif = record { four_bytes = refl; sized = refl; each_part = omega arith }

gif_frame_count-put_gif_example : gif_frame_count (put_gif one_pixel) ≡ ok 1
gif_frame_count-put_gif_example = gif_frame_count-put_gif one_pixel one_pixel-IsGif

cut_short :
    gif_frame_count (bytes "GIF89a" ++ (1 ∷ 0 ∷ 1 ∷ 0 ∷ 0 ∷ 0 ∷ 0 ∷ 33 ∷ 254 ∷ 9 ∷ []))
    ≡ err unexpected_eof
unfolding gif_frame_count frames_of skip_sub_blocks bytes_eq
cut_short = refl

-- One black pixel for two display frames, the same for one, and a white one.
abbrev three_frames : List Frame
three_frames =
    record { pixels = 0 ∷ 0 ∷ 0 ∷ []; duration = 2 }
    ∷ record { pixels = 0 ∷ 0 ∷ 0 ∷ []; duration = 0 }
    ∷ record { pixels = 255 ∷ 255 ∷ 255 ∷ []; duration = 1 }
    ∷ []

abbrev tiny_config : Config
tiny_config = record { width = pos 1; height = pos 1; fps = pos 0 }

encode_rgb888-IsAnimation_example :
    ((a : Animation) × (encode_rgb888 three_frames tiny_config 1000 ≡ ok a)
      × IsAnimation three_frames tiny_config 1000 a)
    ⊎ ((e : AnimationError) × (encode_rgb888 three_frames tiny_config 1000 ≡ err e)
        × (e ≢ frames_changed))
encode_rgb888-IsAnimation_example =
    encode_rgb888-IsAnimation three_frames tiny_config 1000 (omega arith)

packed_three :
    encode_rgb888 three_frames tiny_config 1000
    ≡ ok (record {
      output =
          prefix 1 1 30 3 14 2 4 3
          ++ (0 ∷ 3 ∷ 3 ∷ 0 ∷ 0 ∷ 0 ∷ 0 ∷ 0 ∷ 1 ∷ 3 ∷ 0 ∷ 255 ∷ 255 ∷ 255 ∷ []);
      encoded_frame_count = 2;
      display_frame_count = 4;
    })
unfolding encode_rgb888 encode_frames check_config pack_frames load_frames analyze_frames
    analyze_frame count_rounds calculate_layout write_frames write_frame write_rounds lengthen
    prefix bytes_eq
packed_three = refl
