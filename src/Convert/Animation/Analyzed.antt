-- ===== src/Convert/Animation/Analyzed.antt =====
-- What the first pass of convert/animation/animation.go, analyzeFrames, finds: the layout of the
-- merged records.
use busylib_go.Prelude.{
  ℕ, suc, ◌+◌, ◌-◌, ◌*◌, ◌^◌, ◌≤◌, ◌<◌, ◌≡◌, ◌≢◌, ◌⊎◌, refl, List, [], ◌∷◌, some, Option-cases,
  Result, ok, err, length, map, All, inl, inr, arith,
}
use native.Mathlib.Nat.{mul-le-mul}
use busylib_go.Convert.Animation.{
  Frame, AnimationError, frames_changed, output_too_large, Layout, Analysis, calculate_layout, Pass,
  analyze_frames,
}
use busylib_go.Convert.Animation.Merged.{
  Piece, merge, merge_all, IsPiece, IsFrame, merge-IsPiece, analysis_of, analyze_frame-merge,
  duration_of, total,
}

-- The layout of some records, within the limits of the format and of the caller.
pub record IsLayout (frame_length maximum : ℕ) (layout : Layout) (pieces : List Piece)
    : Type 0 where
  pub few : length pieces < 2 ^ 32
  pub short : total pieces < 2 ^ 32
  pub frames : layout.frames_length ≡ (4 + frame_length) * length pieces
  pub output : layout.output_length ≡ 57 + (4 + frame_length) * length pieces
  pub room : layout.output_length ≤ maximum

abbrev pub IsLoaded : ℕ → Result AnimationError Frame → Type 0
IsLoaded frame_length (ok f) = IsFrame frame_length f
IsLoaded frame_length (err e) = e ≢ frames_changed

module _ (frame_length maximum : ℕ) (fits : frame_length ≤ 65535) where
  no_overflow : (n r : ℕ) → r ≤ 65539 → n < 2 ^ 32 → r * n < 2 ^ 64
  no_overflow n r h k =
      let below : n ≤ 2 ^ 32 - 1 = omega arith in omega (arith, mul-le-mul h below)

  calculate_layout-IsLayout :
      (pieces : List Piece) (layout : Layout)
      → calculate_layout frame_length (length pieces) (total pieces) maximum ≡ some layout
      → IsLayout frame_length maximum layout pieces
  unfolding calculate_layout
  calculate_layout-IsLayout pieces layout h =
      ground (arith, no_overflow (length pieces) (4 + frame_length))

  -- The layout is that of the records, once there are any.
  abbrev pub IsCurrent : Layout → List Piece → Type 0
  IsCurrent layout pieces = (pieces ≡ []) ⊎ IsLayout frame_length maximum layout pieces

  -- What the first pass returns: the analysis of the merged frames, or an error of its own.
  abbrev pub IsAnalyzed : Pass → List Piece → Result AnimationError (Layout × Analysis) → Type 0
  IsAnalyzed pass pieces r =
      ((frames : List Frame) × (layout : Layout) × (pass ≡ map ok frames)
        × All (IsFrame frame_length) frames
        × (r ≡ ok (layout, analysis_of (merge_all frames pieces)))
        × IsCurrent layout (merge_all frames pieces))
      ⊎ ((e : AnimationError) × (r ≡ err e) × (e ≢ frames_changed))

  duration_fits :
      (pieces : List Piece) → All (IsPiece frame_length) pieces → duration_of pieces ≤ 255
  duration_fits [] h = omega arith
  duration_fits (p ∷ pieces) h = h.0.1

  counts_fit :
      (layout : Layout) (pieces : List Piece)
      → IsCurrent layout pieces
      → (length pieces < 2 ^ 32) × (total pieces < 2 ^ 32)
  counts_fit layout pieces (inl e) = rw e (omega arith)
  counts_fit layout pieces (inr v) = (v.few, v.short)

  pub analyze_frames-IsAnalyzed :
      (index : ℕ) (pass : Pass) (pieces : List Piece) (layout : Layout)
      → All (IsLoaded frame_length) pass
      → All (IsPiece frame_length) pieces
      → IsCurrent layout pieces
      → IsAnalyzed pass pieces
          (analyze_frames frame_length maximum index pass (analysis_of pieces) layout)
  unfolding analyze_frames merge_all
  analyze_frames-IsAnalyzed index [] pieces layout loaded h now =
      inl ([], layout, refl, tt, refl, now)
  analyze_frames-IsAnalyzed index (err e ∷ pass) pieces layout (other, loaded) h now =
      inr (e, refl, other)
  analyze_frames-IsAnalyzed index (ok f ∷ pass) pieces layout (good, loaded) h now =
      let (few, short) = counts_fit layout pieces now in
      let step = analyze_frame-merge f pieces good.0 (duration_fits pieces h) few short in
      let merged = merge f pieces in
      elim (Option-cases (calculate_layout frame_length (length merged) (total merged) maximum)) [
        | inl beyond ↦ inr (output_too_large index, rw (step, beyond), λ e. cc)
        | inr (next, within) ↦
            elim (analyze_frames-IsAnalyzed (suc index) pass merged next loaded
              (merge-IsPiece frame_length f pieces good h)
              (inr (calculate_layout-IsLayout merged next within))) [
                | inl (frames, last, same, goods, result, current) ↦
                    inl
                      (f ∷ frames, last, rw same, (good, goods), rw (step, within) result, current)
                | inr (e, result, other) ↦ inr (e, rw (step, within) result, other)
              ]
      ]
