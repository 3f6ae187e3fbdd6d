-- ===== src/Convert/Animation/Packed.antt =====
-- What EncodeRGB888 of convert/animation/animation.go returns.
use busylib_go.Prelude.{
  subst, ℕ, suc, ◌+◌, ◌*◌, ◌≤◌, ◌≡◌, ◌≢◌, ◌⊎◌, refl, sym, ap, ◌∙◌, subst, true, List, [], ◌∷◌, ◌++◌,
  Result-cases, ok, err, ◌==◌, length, length-append, length-replicate, replicate, get_or, map, All,
  Bool-cases, inl, inr, arith,
}
use native.Mathlib.Nat.{mul-le-mul_left}
use busylib_go.Prelude.Int.{pos_part}
use busylib_go.Prelude.Bytes.{Bytes}
use busylib_go.Convert.Animation.{
  Frame, Config, AnimationError, frames_changed, Layout, Pass, analyze_frames, write_frames,
  Animation, first_analysis, no_layout, normal_fps, frame_length_of, prefix_of, copy_first_duration,
  check_config, pack_frames, encode_frames, load_frames, encode_rgb888,
}
use busylib_go.Convert.Animation.Wire.{prefix}
use busylib_go.Convert.Animation.Header.{
  IsHeader, prefix-IsHeader, copy_first_duration_lem, length-prefix,
}
use busylib_go.Convert.Animation.Merged.{
  Piece, merge, merge_all, play, display, IsPiece, IsFrame, merge-IsPiece, merge_all-IsPiece,
  play-merge_all, length-merge_all, analysis_of, total,
}
use busylib_go.Convert.Animation.Written.{
  put_from, writing_of, length-put_from, put_from-append, write_frame-merge,
}
use busylib_go.Convert.Animation.Analyzed.{IsLayout, IsLoaded, analyze_frames-IsAnalyzed}

module _ (output_length frame_length : ℕ) (start : Bytes) where
  write_frames-merged :
      (frames : List Frame) (pieces : List Piece)
      → All (IsFrame frame_length) frames
      → All (IsPiece frame_length) pieces
      → output_length ≡ length start + (4 + frame_length) * length (merge_all frames pieces)
      → write_frames output_length frame_length
          (map ok frames)
          (writing_of frame_length start pieces)
        ≡ ok (writing_of frame_length start (merge_all frames pieces))
  unfolding write_frames merge_all
  write_frames-merged [] pieces h ps size =
      let counted = length-put_from frame_length start pieces ps in
      let whole : (length (put_from frame_length start pieces) == output_length) ≡ true =
        ground arith in
      rw whole
  write_frames-merged (f ∷ frames) pieces (good, h) ps size =
      let grows = mul-le-mul_left (4 + frame_length) (length-merge_all frames (merge f pieces)) in
      rw
        (write_frame-merge output_length frame_length start f pieces good ps (omega (arith, grows)))
        (write_frames-merged frames (merge f pieces) h (merge-IsPiece frame_length f pieces good ps)
          size)

load_frames-IsLoaded :
    (frame_length index : ℕ) (frames : List Frame)
    → All (λ f. f.duration ≤ 255) frames
    → All (IsLoaded frame_length) (load_frames frame_length index frames)
unfolding load_frames
load_frames-IsLoaded frame_length index [] h = tt
load_frames-IsLoaded frame_length index (f ∷ frames) (byte, h) =
    let rest = load_frames-IsLoaded frame_length (suc index) frames h in
    elim (Bool-cases (length f.pixels == frame_length)) [
      | inl whole ↦ rw whole ((byte, ground arith), rest)
      | inr cut ↦ rw cut ((λ e. cc), rest)
    ]

loaded_frames :
    (frame_length index : ℕ) (frames loaded : List Frame)
    → load_frames frame_length index frames ≡ map ok loaded
    → loaded ≡ frames
unfolding load_frames
loaded_frames frame_length index [] [] h = refl
loaded_frames frame_length index [] (g ∷ loaded) h = cc
loaded_frames frame_length index (f ∷ frames) [] h = cc
loaded_frames frame_length index (f ∷ frames) (g ∷ loaded) h =
    ground (arith, loaded_frames frame_length (suc index) frames loaded)

total-play : (frame_length : ℕ) (pieces : List Piece) → total pieces ≡ length (play pieces)
total-play frame_length [] = refl
total-play frame_length (p ∷ pieces) = omega (
  arith,
  total-play frame_length pieces,
  length-append (play pieces) (replicate p.duration p.pixels),
  length-replicate p.duration p.pixels,
)

-- The records in their order, as bytes.
abbrev pub records : ℕ → List Piece → Bytes
records frame_length pieces = put_from frame_length [] pieces

-- A file: its records play the frames, each for its duration; its header counts them, with the fields
-- where they belong; the section
-- has the duration of the first record; and the file is as long as the header says.
abbrev pub IsAnimation : List Frame → Config → ℕ → Animation → Type 0
IsAnimation frames c maximum a =
    (pieces : List Piece) × All (IsPiece (frame_length_of c)) pieces
    × (play pieces ≡ display frames)
    × (a.encoded_frame_count ≡ length pieces)
    × (a.display_frame_count ≡ length (display frames))
    × (a.output
        ≡ prefix (pos_part c.width) (pos_part c.height) (pos_part (normal_fps c.fps))
            (frame_length_of c) ((4 + frame_length_of c) * length pieces) (length pieces)
            (length (display frames)) (get_or (records (frame_length_of c) pieces) 1 0)
          ++ records (frame_length_of c) pieces)
    × IsHeader (pos_part c.width) (pos_part c.height) (pos_part (normal_fps c.fps))
        (frame_length_of c) ((4 + frame_length_of c) * length pieces) (length pieces)
        (length (display frames)) (get_or (records (frame_length_of c) pieces) 1 0) a.output
    × (length a.output ≡ 57 + (4 + frame_length_of c) * length pieces)
    × (length a.output ≤ maximum)

check_config-ok :
    (c : Config) (first : Pass)
    → check_config c first ≡ ok tt
    → (frame_length_of c ≤ 65535) × (first ≢ [])
unfolding check_config
check_config-ok c [] h = ground arith
check_config-ok c (loaded ∷ pass) h = (ground arith, λ e. cc)

check_config-err :
    (c : Config) (first : Pass) (e : AnimationError)
    → check_config c first ≡ err e
    → e ≢ frames_changed
unfolding check_config
check_config-err c first e h = ground arith

merge_all_ne_nil : (frames : List Frame) → frames ≢ [] → merge_all frames [] ≢ []
unfolding merge_all merge
merge_all_ne_nil [] h = absurd (h refl)
merge_all_ne_nil (f ∷ frames) h =
    λ e. absurd (omega (arith, length-merge_all frames (merge f []), ap length e))

-- The second pass and the file, after a first pass that succeeds.
pack_frames-IsAnimation :
    (frames : List Frame) (c : Config) (maximum : ℕ) (layout : Layout)
    → All (IsFrame (frame_length_of c)) frames
    → analyze_frames (frame_length_of c) maximum 0 (map ok frames) first_analysis no_layout
      ≡ ok (layout, analysis_of (merge_all frames []))
    → IsLayout (frame_length_of c) maximum layout (merge_all frames [])
    → (a : Animation) × (pack_frames c maximum (map ok frames) (map ok frames) ≡ ok a)
      × IsAnimation frames c maximum a
unfolding pack_frames
pack_frames-IsAnimation frames c maximum layout good analyzed v =
    let size = frame_length_of c in
    let pieces = merge_all frames [] in
    let start = prefix_of c layout (analysis_of pieces) 0 in
    let whole = merge_all-IsPiece size frames [] good tt in
    let plays : play pieces ≡ display frames = play-merge_all frames [] in
    let shown = total-play size pieces ∙ ap length plays in
    let starts : length start ≡ 57 = length-prefix _ _ _ _ _ _ _ _ in
    let wrote =
      write_frames-merged layout.output_length size start frames [] good tt
        (v.output ∙ ap (λ n. n + (4 + size) * length pieces) (sym starts)) in
    let body = records size pieces in
    let framed = λ (frames_length displayed : ℕ).
      prefix (pos_part c.width) (pos_part c.height) (pos_part (normal_fps c.fps)) size frames_length
        (length pieces) displayed (get_or body 1 0)
      ++ body in
    let file : copy_first_duration (put_from size start pieces)
        ≡ framed ((4 + size) * length pieces) (length (display frames)) =
      ap copy_first_duration (put_from-append size start pieces)
      ∙ copy_first_duration_lem _ _ _ _ _ _ _ body
      ∙ ap (λ n. framed n (total pieces)) v.frames
      ∙ ap (λ n. framed ((4 + size) * length pieces) n) shown in
    let headed =
      subst
        (IsHeader (pos_part c.width) (pos_part c.height) (pos_part (normal_fps c.fps)) size
          ((4 + size) * length pieces) (length pieces) (length (display frames)) (get_or body 1 0))
        (sym file)
        (prefix-IsHeader (pos_part c.width) (pos_part c.height) (pos_part (normal_fps c.fps)) size
          ((4 + size) * length pieces) (length pieces) (length (display frames)) (get_or body 1 0)
          body) in
    let long : length (copy_first_duration (put_from size start pieces))
        ≡ 57 + (4 + size) * length pieces =
      ap length file
      ∙ length-append _ body
      ∙ omega (
        arith,
        length-prefix (pos_part c.width) (pos_part c.height) (pos_part (normal_fps c.fps)) size
            ((4 + size) * length pieces) (length pieces) (length (display frames))
            (get_or body 1 0),
        length-put_from size [] pieces whole,
      ) in
    (
      record {
        output = copy_first_duration (put_from size start pieces);
        encoded_frame_count = length pieces;
        display_frame_count = total pieces;
      },
      rw (analyzed, wrote),
      (
        pieces,
        whole,
        plays,
        refl,
        shown,
        file,
        headed,
        long,
        omega (arith, long, v.output, v.room),
      ),
    )

pack_frames-err :
    (c : Config) (maximum : ℕ) (pass : Pass) (e : AnimationError)
    → analyze_frames (frame_length_of c) maximum 0 pass first_analysis no_layout ≡ err e
    → pack_frames c maximum pass pass ≡ err e
unfolding pack_frames
pack_frames-err c maximum pass e failed = rw failed

check_config-cases :
    (c : Config) (pass : Pass)
    → (check_config c pass ≡ ok tt) ⊎ ((e : AnimationError) × (check_config c pass ≡ err e))
check_config-cases c pass = elim (Result-cases (check_config c pass)) [
  | inl (tt, good) ↦ inl good
  | inr bad ↦ inr bad
]

-- Of frames with a duration in a byte, EncodeRGB888 either makes an animation or returns an error of
-- its configuration, of a frame or of a limit. The animation plays exactly the frames, in their
-- order and each for its duration (one display frame where that is zero); its header counts its
-- records and display frames, with each field at its offset, in little-endian order and modulo what its
-- bytes hold; every record is shown for 1 to 255 display frames; and it is no longer
-- than the limit. The second pass never finds the frames changed.
pub encode_rgb888-IsAnimation :
    (frames : List Frame) (c : Config) (maximum : ℕ)
    → All (λ f. f.duration ≤ 255) frames
    → ((a : Animation) × (encode_rgb888 frames c maximum ≡ ok a) × IsAnimation frames c maximum a)
      ⊎ ((e : AnimationError) × (encode_rgb888 frames c maximum ≡ err e) × (e ≢ frames_changed))
unfolding encode_rgb888 encode_frames
encode_rgb888-IsAnimation frames c maximum bytes_only =
    let size = frame_length_of c in
    let pass = load_frames size 0 frames in
    elim (check_config-cases c pass) [
      | inr (e, bad) ↦ inr (e, rw bad, check_config-err c pass e bad)
      | inl good ↦
          let (fits, some_frames) = check_config-ok c pass good in
          elim (analyze_frames-IsAnalyzed size maximum fits 0 pass [] no_layout
            (load_frames-IsLoaded size 0 frames bytes_only) tt (inl refl)) [
              | inr (e, failed, other) ↦
                  inr (e, rw good (pack_frames-err c maximum pass e failed), other)
              | inl (loaded, layout, same, goods, analyzed, current) ↦
                  let e = loaded_frames size 0 frames loaded same in
                  let whole = same ∙ ap (λ t. map ok t) e in
                  let now =
                    subst
                      (λ t. (merge_all t [] ≡ []) ⊎ IsLayout size maximum layout (merge_all t [])) e
                      current in
                  elim now [
                    | inl nil ↦ absurd (
                        merge_all_ne_nil frames (λ n. some_frames (whole ∙ ap (λ t. map ok t) n))
                          nil)
                    | inr v ↦
                        let (a, packed, is_animation) =
                          pack_frames-IsAnimation frames c maximum layout
                            (subst (λ t. All (IsFrame size) t) e goods)
                            (subst
                              (λ t.
                                analyze_frames size maximum 0 t first_analysis no_layout
                                ≡ ok (layout, analysis_of (merge_all frames [])))
                              whole
                              (analyzed ∙ ap (λ t. ok (layout, analysis_of (merge_all t []))) e))
                            v in
                        inl (
                          a,
                          rw good
                              (subst (λ t. pack_frames c maximum t t ≡ ok a) (sym whole) packed),
                          is_animation,
                        )
                  ]
            ]
    ]
