-- ===== src/Frame/Rle/Tests.antt =====
-- Runs of the decoder.
use busylib_go.Prelude.{◌≡◌, refl, [], ◌∷◌, ok, err}
use busylib_go.Frame.Types.{invalid_frame}
use busylib_go.Frame.Rle.{decode_rle}

decode_runs :
    (decode_rle (2 ∷ 7 ∷ 8 ∷ 129 ∷ 9 ∷ 10 ∷ []) 6 2 ≡ ok (7 ∷ 8 ∷ 7 ∷ 8 ∷ 9 ∷ 10 ∷ []))
    × (decode_rle (128 ∷ []) 6 2 ≡ err invalid_frame)
unfolding decode_rle
decode_runs = (refl, refl)
