-- ===== src/Convert/Animation/Written.antt =====
-- The second pass of convert/animation/animation.go, writeFrames, writes the records of the first.
use busylib_go.Prelude.{
  ℕ, zero, suc, ◌+◌, ◌-◌, ◌*◌, ◌%◌, ◌≤◌, min, ◌≡◌, refl, sym, ap, ◌∙◌, false, List, [], ◌∷◌, ◌++◌,
  append_assoc, append-nil, some, ok, ◌==◌, if◌then◌else◌, length, length-append, get_or,
  get_or-append, set-append, All, Bool-cases, inl, inr, arith,
}
use busylib_go.Prelude.Bytes.{Bytes, bytes_eq, bytes_eq_iff}
use busylib_go.Convert.Animation.{
  Frame, effective_duration, Writing, write_rounds, lengthen, write_frame,
}
use busylib_go.Convert.Animation.Wire.{put_record}
use busylib_go.Convert.Animation.Merged.{Piece, shown, add_rest, merge, IsPiece, IsFrame, pixels_of}

-- Records behind the start of a file.
abbrev pub put_from : ℕ → Bytes → List Piece → Bytes
put_from frame_length start [] = start
put_from frame_length start (p ∷ pieces) =
    put_from frame_length start pieces ++ put_record frame_length p.duration p.pixels

abbrev pub offset_of : ℕ → Bytes → List Piece → ℕ
offset_of frame_length start [] = 0
offset_of frame_length start (p ∷ pieces) = length (put_from frame_length start pieces)

-- The state of the second pass that has written some records.
abbrev pub writing_of : ℕ → Bytes → List Piece → Writing
writing_of frame_length start pieces = record {
  written = put_from frame_length start pieces;
  last_offset = offset_of frame_length start pieces;
  previous = pixels_of pieces;
}

module _ (frame_length : ℕ) (start : Bytes) where
  pub length-put_from :
      (pieces : List Piece)
      → All (IsPiece frame_length) pieces
      → length (put_from frame_length start pieces)
        ≡ length start + (4 + frame_length) * length pieces
  length-put_from [] h = omega arith
  length-put_from (p ∷ pieces) ((_, _, size), h) = grind (
    arith,
    length-put_from pieces h,
    length-append (put_from frame_length start pieces)
        (put_record frame_length p.duration p.pixels),
  )

  pub put_from-append :
      (pieces : List Piece)
      → put_from frame_length start pieces ≡ start ++ put_from frame_length [] pieces
  put_from-append [] = sym (append-nil start)
  put_from-append (p ∷ pieces) =
      ap (λ t. t ++ put_record frame_length p.duration p.pixels) (put_from-append pieces)
      ∙ append_assoc start (put_from frame_length [] pieces)
          (put_record frame_length p.duration p.pixels)

module _ (output_length frame_length : ℕ) where
  write_rounds_small :
      (pixels : Bytes) (n : ℕ) (w : Writing)
      → n ≤ 255
      → (1 ≤ n → length w.written + 4 + frame_length ≤ output_length)
      → write_rounds output_length frame_length pixels n n w
        ≡ ok (
            if n == 0 then w else record w {
              written = w.written ++ put_record frame_length n pixels;
              last_offset = length w.written;
            })
  unfolding write_rounds
  write_rounds_small pixels zero w h room = refl
  write_rounds_small pixels (suc zero) w h room = ground (arith, room (omega arith))
  write_rounds_small pixels (suc (suc n)) w h room = ground (arith, room (omega arith))

module _ (output_length frame_length : ℕ) (start : Bytes) where
  writing_of-add_rest :
      (n : ℕ) (pixels : Bytes) (p : Piece) (pieces : List Piece)
      → p.pixels ≡ pixels
      → (if n == 0
          then writing_of frame_length start (p ∷ pieces)
          else record (writing_of frame_length start (p ∷ pieces)) {
            written = put_from frame_length start (p ∷ pieces) ++ put_record frame_length n pixels;
            last_offset = length (put_from frame_length start (p ∷ pieces));
          })
        ≡ writing_of frame_length start (add_rest n pixels (p ∷ pieces))
  writing_of-add_rest zero pixels p pieces e = refl
  writing_of-add_rest (suc n) pixels p pieces e =
      let more : (suc n == 0) ≡ false = ground arith in
      rw more (
        ap
          (λ t. record {
            written =
                put_from frame_length start (p ∷ pieces) ++ put_record frame_length (suc n) pixels;
            last_offset = length (put_from frame_length start (p ∷ pieces));
            previous = some t;
          })
          e)

  -- What stands at the duration of the last record, and what a longer one looks like.
  last_duration_read :
      (p : Piece) (pieces : List Piece)
      → p.duration ≤ 255
      → get_or
          (put_from frame_length start (p ∷ pieces))
          (length (put_from frame_length start pieces) + 1)
          0
        ≡ p.duration
  last_duration_read p pieces fits =
      get_or-append (length (put_from frame_length start pieces)) 1
        (put_from frame_length start pieces) (put_record frame_length p.duration p.pixels) 0 refl
      ∙ omega arith

  lengthen_lem :
      (added : ℕ) (p : Piece) (pieces : List Piece)
      → p.duration + added ≤ 255
      → lengthen added (writing_of frame_length start (p ∷ pieces))
        ≡ writing_of frame_length start (shown (p.duration + added) p.pixels ∷ pieces)
  unfolding lengthen
  lengthen_lem added p pieces fits =
      let before = put_from frame_length start pieces in
      let byte : (p.duration + added) % 256 ≡ p.duration + added = omega arith in
      rw (last_duration_read p pieces (omega arith), byte)
        (ap (λ t. record (writing_of frame_length start (p ∷ pieces)) { written = t })
          (set-append (length before) 1 before (put_record frame_length p.duration p.pixels)
            (p.duration + added) refl))

  -- Room for the record that a rest makes.
  add_room :
      (n : ℕ) (pixels : Bytes) (pieces : List Piece)
      → 1 ≤ n
      → length start + (4 + frame_length) * length (add_rest n pixels pieces) ≤ output_length
      → length (put_from frame_length start pieces)
        ≡ length start + (4 + frame_length) * length pieces
      → length (put_from frame_length start pieces) + 4 + frame_length ≤ output_length
  add_room zero pixels pieces least room counted = absurd (omega arith)
  add_room (suc n) pixels pieces least room counted = grind arith

  pub write_frame-merge :
      (f : Frame) (pieces : List Piece)
      → IsFrame frame_length f
      → All (IsPiece frame_length) pieces
      → length start + (4 + frame_length) * length (merge f pieces) ≤ output_length
      → write_frame output_length frame_length f (writing_of frame_length start pieces)
        ≡ ok (writing_of frame_length start (merge f pieces))
  unfolding write_frame merge
  write_frame-merge f [] (byte, size) h room =
      let duration = effective_duration f.duration in
      let small : (1 ≤ duration) × (duration ≤ 255) = ground arith in
      let full : (duration == 0) ≡ false = ground arith in
      rw (
        write_rounds_small output_length frame_length f.pixels duration
            (writing_of frame_length start []) small.1 (λ _. omega arith),
        full,
      )
  write_frame-merge f (p ∷ pieces) (byte, size) (piece, h) room =
      let duration = effective_duration f.duration in
      let added = min duration (255 - p.duration) in
      let small : (1 ≤ duration) × (duration ≤ 255) = ground arith in
      let q = shown (p.duration + added) p.pixels in
      let rest = duration - added in
      elim (Bool-cases (bytes_eq p.pixels f.pixels)) [
        | inr other ↦
            let full : (duration == 0) ≡ false = ground arith in
            let counted = length-put_from frame_length start (p ∷ pieces) (piece, h) in
            let enough : length start + (4 + frame_length) * suc (length (p ∷ pieces))
                ≤ output_length =
              rw other at room in
            rw (
              other,
              write_rounds_small output_length frame_length f.pixels duration
                  (writing_of frame_length start (p ∷ pieces)) small.1 (λ _. grind arith),
              full,
            )
        | inl same ↦
            let e = (bytes_eq_iff p.pixels f.pixels).0 same in
            let long : IsPiece frame_length q = (omega arith, omega arith, piece.2) in
            let counted = length-put_from frame_length start (q ∷ pieces) (long, h) in
            let enough : length start
                  + (4 + frame_length) * length (add_rest rest f.pixels (q ∷ pieces))
                ≤ output_length =
              rw same at room in
            rw (
              same,
              last_duration_read p pieces piece.1,
              lengthen_lem added p pieces (omega arith),
              write_rounds_small output_length frame_length f.pixels rest
                  (writing_of frame_length start (q ∷ pieces)) (omega arith)
                  (λ some_left. add_room rest f.pixels (q ∷ pieces) some_left enough counted),
              writing_of-add_rest rest f.pixels q pieces e,
            )
      ]
