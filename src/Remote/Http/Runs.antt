-- ===== src/Remote/Http/Runs.antt =====
-- Any interleaving of the goroutines of remote/http.go.
use busylib_go.Prelude.{
  either_one, ℕ, ◌+◌, ◌≤◌, ◌≡◌, refl, sym, ◌∙◌, true, List, [], ◌∷◌, Option, none, some, arith,
}
use busylib_go.Remote.Http.{RoundTripper, Op, step, closed_error, close, new_round_tripper}
use busylib_go.Remote.Http.Once.{waiting, held, answers, Inv, new_round_tripper-Inv, held-fail_all}
use busylib_go.Remote.Http.Kept.{step-Inv}

module _ {E : Type 0} where
  infixl 5 ◌>>=◌
  abbrev ◌>>=◌ :
      Option (RoundTripper E) → (RoundTripper E → Option (RoundTripper E)) → Option (RoundTripper E)
  none >>= k = none
  some r >>= k = k r

  -- The steps of an interleaving, one after the other; `none` is a goroutine that blocks for good.
  unfoldable pub run : (maximum : ℕ) → List (Op E) → RoundTripper E → Option (RoundTripper E)
  run maximum [] r = some r
  run maximum (op ∷ ops) r = step maximum op r >>= run maximum ops

  run-Inv :
      (maximum : ℕ) (ops : List (Op E)) (r : RoundTripper E)
      → Inv r
      → (r' : RoundTripper E) × (run maximum ops r ≡ some r') × Inv r'
  unfolding run
  run-Inv maximum [] r v = (r, refl, v)
  run-Inv maximum (op ∷ ops) r v =
      let (r1, same, v1) = step-Inv maximum op r v in
      let (r2, goes, v2) = run-Inv maximum ops r1 v1 in (r2, rw same goes, v2)

  -- Closing as a change of what is in hand.
  abbrev IsClosing : RoundTripper E → ℕ → RoundTripper E → Type 0
  IsClosing r c r' =
      (held c r'.in_hand ≡ waiting c r.pending + held c r.in_hand) × (r'.pending ≡ [])

  close-IsClosing : (r : RoundTripper E) (c : ℕ) → Inv r → IsClosing r c (close r)
  close-IsClosing r c v =
      either_one (IsClosing r c) r.close_called r _
        (λ again.
          let none_left = (v.settled (sym v.called ∙ again)).0 in
          (rw none_left (omega arith), none_left))
        (λ first. (held-fail_all c closed_error r.pending r.in_hand, refl))

  -- Whatever the goroutines and the transport do, in whatever order, no send of a result blocks: a
  -- channel of a request that waits in the map, for which a result is in hand, or that holds one, does
  -- only one of these, and only once. A closed round tripper has no request waiting, and Close
  -- leaves to each request that waited one result in hand.
  pub run-answered :
      (maximum : ℕ) (ops : List (Op E))
      → (r : RoundTripper E) × (run maximum ops new_round_tripper ≡ some r)
        × ((c : ℕ) → answers r c ≤ 1)
        × (r.is_closed ≡ true → r.pending ≡ [])
        × ((close r).pending ≡ [])
        × ((c : ℕ) → held c (close r).in_hand ≡ waiting c r.pending + held c r.in_hand)
  run-answered maximum ops =
      let (r, same, v) = run-Inv maximum ops new_round_tripper new_round_tripper-Inv in
      (
        r,
        same,
        v.once,
        λ h. (v.settled h).0,
        (close-IsClosing r 0 v).1,
        λ c. (close-IsClosing r c v).0,
      )
