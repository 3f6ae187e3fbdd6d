-- ===== src/Convert/Animation/Merged.antt =====
-- The records that both passes of convert/animation/animation.go build, the latest first: a frame
-- with the pixels of the one before is shown longer, up to 255.
use busylib_go.Prelude.{
  ℕ, zero, suc, ◌+◌, ◌-◌, ◌%◌, ◌^◌, ◌≤◌, ◌<◌, min, ◌≡◌, refl, sym, ap, ◌∙◌, List, [], ◌∷◌, ◌++◌,
  append_assoc, append-nil, Option, none, some, ◌==◌, if◌then◌else◌, length, replicate, All,
  Bool-cases, inl, inr, arith,
}
use busylib_go.Prelude.Bytes.{Bytes, bytes_eq, bytes_eq_iff}
use native.Mathlib.Nat.{zero-add, suc-add}
use busylib_go.Convert.Animation.{Frame, Analysis, effective_duration, count_rounds, analyze_frame}

pub record Piece : Type 0 where
  pub duration : ℕ
  pub pixels : Bytes

abbrev pub shown : ℕ → Bytes → Piece
shown duration pixels = record { duration = duration; pixels = pixels }

-- What is left of a duration, as a record of its own.
abbrev pub add_rest : ℕ → Bytes → List Piece → List Piece
add_rest zero pixels pieces = pieces
add_rest (suc n) pixels pieces = shown (suc n) pixels ∷ pieces

unfoldable pub merge : Frame → List Piece → List Piece
merge f [] = shown (effective_duration f.duration) f.pixels ∷ []
merge f (p ∷ pieces) =
    let duration = effective_duration f.duration in
    let added = min duration (255 - p.duration) in
    if bytes_eq p.pixels f.pixels
    then add_rest (duration - added) f.pixels (shown (p.duration + added) p.pixels ∷ pieces)
    else shown duration f.pixels ∷ p ∷ pieces

unfoldable pub merge_all : List Frame → List Piece → List Piece
merge_all [] pieces = pieces
merge_all (f ∷ frames) pieces = merge_all frames (merge f pieces)

-- The images that the device shows, one for each display frame.
abbrev pub play : List Piece → List Bytes
play [] = []
play (p ∷ pieces) = play pieces ++ replicate p.duration p.pixels

abbrev pub display : List Frame → List Bytes
display [] = []
display (f ∷ frames) = replicate (effective_duration f.duration) f.pixels ++ display frames

-- The duration fits its byte.
abbrev pub IsPiece : ℕ → Piece → Type 0
IsPiece frame_length p = (1 ≤ p.duration) × (p.duration ≤ 255) × (length p.pixels ≡ frame_length)

abbrev pub IsFrame : ℕ → Frame → Type 0
IsFrame frame_length f = (f.duration ≤ 255) × (length f.pixels ≡ frame_length)

replicate_add {ℓ} :
    {A : Type ℓ} (n m : ℕ) (a : A) → replicate (n + m) a ≡ replicate n a ++ replicate m a
replicate_add zero m a = rw zero-add
replicate_add (suc n) m a = rw (suc-add, replicate_add n m a)

module _ (frame_length : ℕ) where
  pub merge-IsPiece :
      (f : Frame) (pieces : List Piece)
      → IsFrame frame_length f
      → All (IsPiece frame_length) pieces
      → All (IsPiece frame_length) (merge f pieces)
  unfolding merge
  merge-IsPiece f [] h hs = ground arith
  merge-IsPiece f (p ∷ pieces) h hs = ground arith

  pub merge_all-IsPiece :
      (frames : List Frame) (pieces : List Piece)
      → All (IsFrame frame_length) frames
      → All (IsPiece frame_length) pieces
      → All (IsPiece frame_length) (merge_all frames pieces)
  unfolding merge_all
  merge_all-IsPiece [] pieces h hs = hs
  merge_all-IsPiece (f ∷ frames) pieces (h, hs) ps =
      merge_all-IsPiece frames (merge f pieces) hs (merge-IsPiece f pieces h ps)

play-add_rest :
    (n : ℕ) (pixels : Bytes) (pieces : List Piece)
    → play (add_rest n pixels pieces) ≡ play pieces ++ replicate n pixels
play-add_rest zero pixels pieces = sym (append-nil (play pieces))
play-add_rest (suc n) pixels pieces = refl

play-merge :
    (f : Frame) (pieces : List Piece)
    → play (merge f pieces) ≡ play pieces ++ replicate (effective_duration f.duration) f.pixels
unfolding merge
play-merge f [] = refl
play-merge f (p ∷ pieces) =
    let duration = effective_duration f.duration in
    let added = min duration (255 - p.duration) in
    elim (Bool-cases (bytes_eq p.pixels f.pixels)) [
      | inr other ↦ rw other
      | inl same ↦
          let e = (bytes_eq_iff p.pixels f.pixels).0 same in
          let whole : added + (duration - added) ≡ duration = omega arith in
          rw same (
            play-add_rest (duration - added) f.pixels (shown (p.duration + added) p.pixels ∷ pieces)
            ∙ ap (λ t. (play pieces ++ t) ++ replicate (duration - added) f.pixels)
                (replicate_add p.duration added p.pixels
                  ∙ ap (λ t. replicate p.duration p.pixels ++ replicate added t) e)
            ∙ ap (λ t. t ++ replicate (duration - added) f.pixels)
                (sym (
                  append_assoc (play pieces) (replicate p.duration p.pixels)
                    (replicate added f.pixels)))
            ∙ append_assoc (play (p ∷ pieces)) (replicate added f.pixels)
                (replicate (duration - added) f.pixels)
            ∙ ap (λ t. play (p ∷ pieces) ++ t)
                (sym (replicate_add added (duration - added) f.pixels)
                  ∙ ap (λ n. replicate n f.pixels) whole))
    ]

-- The records play every frame for its duration, in the order of the frames.
pub play-merge_all :
    (frames : List Frame) (pieces : List Piece)
    → play (merge_all frames pieces) ≡ play pieces ++ display frames
unfolding merge_all
play-merge_all [] pieces = sym (append-nil (play pieces))
play-merge_all (f ∷ frames) pieces =
    play-merge_all frames (merge f pieces)
    ∙ ap (λ t. t ++ display frames) (play-merge f pieces)
    ∙ append_assoc (play pieces) (replicate (effective_duration f.duration) f.pixels)
        (display frames)

pub length-merge : (f : Frame) (pieces : List Piece) → length pieces ≤ length (merge f pieces)
unfolding merge
length-merge f [] = omega arith
length-merge f (p ∷ pieces) = ground arith

pub length-merge_all :
    (frames : List Frame) (pieces : List Piece) → length pieces ≤ length (merge_all frames pieces)
unfolding merge_all
length-merge_all [] pieces = omega arith
length-merge_all (f ∷ frames) pieces =
    omega (arith, length-merge f pieces, length-merge_all frames (merge f pieces))

abbrev pub pixels_of : List Piece → Option Bytes
pixels_of [] = none
pixels_of (p ∷ pieces) = some p.pixels

abbrev pub duration_of : List Piece → ℕ
duration_of [] = 0
duration_of (p ∷ pieces) = p.duration

abbrev pub total : List Piece → ℕ
total [] = 0
total (p ∷ pieces) = total pieces + p.duration

-- The analysis that stands for some records.
abbrev pub analysis_of : List Piece → Analysis
analysis_of pieces = record {
  previous = pixels_of pieces;
  last_duration = duration_of pieces;
  encoded = length pieces;
  displayed = total pieces;
}

count_rounds_small :
    (n : ℕ) (a : Analysis)
    → n ≤ 255
    → count_rounds n n a
      ≡ (if n == 0 then a else record a { last_duration = n; encoded = (a.encoded + 1) % 2 ^ 64 })
unfolding count_rounds
count_rounds_small zero a h = refl
count_rounds_small (suc zero) a h = ground arith
count_rounds_small (suc (suc n)) a h = ground arith

analysis_of-add_rest :
    (n : ℕ) (pixels : Bytes) (p : Piece) (pieces : List Piece) (displayed : ℕ)
    → p.pixels ≡ pixels
    → length (p ∷ pieces) < 2 ^ 32
    → displayed ≡ total pieces + p.duration + n
    → (if n == 0
        then record {
          previous = some p.pixels;
          last_duration = p.duration;
          encoded = length (p ∷ pieces);
          displayed = displayed;
        }
        else record {
          previous = some p.pixels;
          last_duration = n;
          encoded = (length (p ∷ pieces) + 1) % 2 ^ 64;
          displayed = displayed;
        })
      ≡ analysis_of (add_rest n pixels (p ∷ pieces))
analysis_of-add_rest zero pixels p pieces displayed e few h = ground arith
analysis_of-add_rest (suc n) pixels p pieces displayed e few h = ground arith

-- The first pass keeps the analysis of the records.
pub analyze_frame-merge :
    (f : Frame) (pieces : List Piece)
    → f.duration ≤ 255
    → duration_of pieces ≤ 255
    → length pieces < 2 ^ 32
    → total pieces < 2 ^ 32
    → analyze_frame f (analysis_of pieces) ≡ analysis_of (merge f pieces)
unfolding analyze_frame merge
analyze_frame-merge f [] byte fits few short =
    let duration = effective_duration f.duration in
    let a : Analysis = record {
      previous = none;
      last_duration = 0;
      encoded = 0;
      displayed = (0 + duration) % 2 ^ 64;
    } in
    ground (arith, count_rounds_small (duration - 0) a)
analyze_frame-merge f (p ∷ pieces) byte fits few short =
    let duration = effective_duration f.duration in
    let added = min duration (255 - p.duration) in
    let small : (1 ≤ duration) × (duration ≤ 255) = ground arith in
    let counted = λ (n : ℕ). record (analysis_of (p ∷ pieces)) {
      last_duration = p.duration + n;
      displayed = (total (p ∷ pieces) + duration) % 2 ^ 64;
    } in
    elim (Bool-cases (bytes_eq p.pixels f.pixels)) [
      | inl same ↦
          rw (same, count_rounds_small (duration - added) (counted added) (omega arith))
            (analysis_of-add_rest (duration - added) f.pixels (shown (p.duration + added) p.pixels)
              pieces _ ((bytes_eq_iff p.pixels f.pixels).0 same) (omega arith) (omega arith))
      | inr other ↦
          rw (other, count_rounds_small (duration - 0) (counted 0) (omega arith)) (ground arith)
    ]
