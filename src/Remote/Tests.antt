-- ===== src/Remote/Tests.antt =====
-- A run of the round tripper, and its theorem at that run.
use busylib_go.Prelude.{ℕ, ◌+◌, ◌≤◌, ◌≡◌, refl, true, List, [], ◌∷◌, some, Option, ok, length, map}
use busylib_go.Prelude.Bytes.{bytes_eq}
use busylib_go.Remote.Http.{
  RoundTripper, Op, begins, closes, subscribes, registers, receives, sends, step, new_round_tripper,
  close,
}
use busylib_go.Remote.Http.Once.{answers, held, waiting}
use busylib_go.Remote.Http.Runs.{run, run-answered}

-- Two requests: one is answered, and closing answers the other.
abbrev two_requests : List (Op ℕ)
two_requests =
    begins
    ∷ subscribes (ok (some 5))
    ∷ registers (97 ∷ []) 5
    ∷ registers (98 ∷ []) 5
    ∷ receives true (97 ∷ []) (1 ∷ [])
    ∷ closes
    ∷ sends 1
    ∷ sends 0
    ∷ []

run-answered_example :
    (r : RoundTripper ℕ) × (run 100 two_requests new_round_tripper ≡ some r)
    × ((c : ℕ) → answers r c ≤ 1)
    × (r.is_closed ≡ true → r.pending ≡ [])
    × ((close r).pending ≡ [])
    × ((c : ℕ) → held c (close r).in_hand ≡ waiting c r.pending + held c r.in_hand)
run-answered_example = run-answered 100 two_requests

abbrev held_by : Option (RoundTripper ℕ) → List ℕ
held_by (some r) = map (λ c. length (r.results c)) (0 ∷ 1 ∷ 2 ∷ [])
held_by _ = []

both_answered : held_by (run 100 two_requests new_round_tripper) ≡ 1 ∷ 1 ∷ 0 ∷ []
unfolding run step bytes_eq
both_answered = refl
