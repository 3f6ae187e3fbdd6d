-- ===== src/Client/Execute/Once.antt =====
-- Requests whose body cannot be read again, in executePreparedWith of request.go.
use busylib_go.Prelude.{
  one_if, ℕ, ◌≤◌, ◌≡◌, refl, subst, Bool, true, false, List, [], ◌∷◌, some, Result, ok, err, arith,
  All, drop, length,
}
use busylib_go.Client.Prepare.{ClientConfig}
use busylib_go.Client.Execute.{
  HttpResponse, ExecutionResult, Execution, Round, Sent, Run, max_attempts_of,
}
use busylib_go.Client.Execute.Attempts.{Handler, execute_prepared_with}
use busylib_go.Client.Execute.Repeats.{IsRepeated, MayRepeat, IsOver}
use busylib_go.Client.Execute.Retries.{execute_prepared_with-IsOver}

module _ {E : Type 0} (c : ClientConfig) (x : Execution E) (lower_rune : ℕ → ℕ) where
  MayRepeat-repeatable :
      (answer : Result E (HttpResponse E)) → MayRepeat c x answer → x.body.repeatable ≡ true
  MayRepeat-repeatable (err e) (readable, safe) = readable
  MayRepeat-repeatable (ok r) (readable, negotiates, other_path, refused) = readable

  single-log :
      (log : List (Sent E))
      → x.body.repeatable ≡ false
      → All (IsRepeated c x) (drop 1 log)
      → length log ≤ 1
  single-log [] single h = omega arith
  single-log (s ∷ []) single h = omega arith
  single-log (s ∷ t ∷ log) single (h, hs) =
      absurd (ground (arith, single, MayRepeat-repeatable t.answer h))

  one_attempt : x.body.repeatable ≡ false → max_attempts_of c x ≡ 1
  one_attempt single = rw single refl

  single-retried :
      (retried : Bool)
      → x.body.repeatable ≡ false
      → (retried ≡ true → x.body.repeatable ≡ true)
      → one_if retried ≡ 0
  single-retried true single h = absurd (ground (arith, single, h refl))
  single-retried false single h = refl

  single-IsOver :
      (last : Run E)
      → x.body.repeatable ≡ false
      → IsOver c x last
      → (length last.log ≤ 1) × (last.openings ≤ 1)
  single-IsOver last single over = (
    single-log last.log single over.earlier,
    omega (
      arith,
      over.opened_each,
      over.bounded,
      one_attempt single,
      single-retried last.retried single over.repeatable,
    ),
  )

  -- A call whose body cannot be read again sends one request at most and opens the body once at most.
  pub execute_prepared_with-once :
      (handler : Handler E) (rounds : ℕ → Round E) (last : Run E) (result : ExecutionResult E)
      → x.body.repeatable ≡ false
      → execute_prepared_with lower_rune c handler x rounds ≡ some (last, result)
      → (length last.log ≤ 1) × (last.openings ≤ 1)
  execute_prepared_with-once handler rounds last result single h =
      let (last', result', h', over, _) =
        execute_prepared_with-IsOver c x lower_rune handler rounds in
      let same : last' ≡ last = cc in single-IsOver last single (subst (IsOver c x) same over)
