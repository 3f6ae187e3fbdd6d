-- ===== src/Client/Execute/Repeats.antt =====
-- What a turn of the loop of executePreparedWith in request.go does with what it was given.
use busylib_go.Prelude.{
  one_if, one_if-le, ℕ, zero, suc, ◌+◌, ◌≤◌, ◌<◌, ◌≡◌, refl, true, ◌||◌, not, List, [], ◌∷◌, Option,
  none, some, Result, ok, err, arith, ltb, leb, All, drop, Bool-cases, either_one, inl, inr, ◌⊎◌,
  ap, false,
}
use busylib_go.Usb.Command.{Text}
use busylib_go.Prelude.Int.{ℤ, pos, negsuc}
use busylib_go.Prelude.Bytes.{Bytes, bytes, bytes_eq, bytes_eq_refl, bytes_eq_sound}
use busylib_go.Client.Prepare.{ClientConfig}
use busylib_go.Client.Execute.{
  HttpResponse, CallError, Failure, ExecutionResult, Execution, Response, Round, Sent, Run,
  can_retry_compatibility, max_attempts_of, is_safe_retry_method, is_version_path, positive,
}
use busylib_go.Client.Execute.Reply.{unwritten}
use busylib_go.Client.Execute.Attempts.{
  Turn, again, done, Handler, paused, unanswered, renegotiated, incompatible, answered,
}

positive_lem : (z : ℤ) → 0 < positive z
positive_lem (pos zero) = omega arith
positive_lem (pos (suc n)) = omega arith
positive_lem (negsuc n) = omega arith

-- The methods of a request that may go out again behind a failure of the transport.
abbrev pub IsSafe : Text → Type 0
IsSafe method = (method ≡ bytes "GET") ⊎ (method ≡ bytes "HEAD") ⊎ (method ≡ bytes "OPTIONS")

is_safe_retry_method-IsSafe : (method : Text) → is_safe_retry_method method ≡ true → IsSafe method
is_safe_retry_method-IsSafe method safe = elim (Bool-cases (bytes_eq method (bytes "GET"))) [
  | inl get ↦ inl (bytes_eq_sound method (bytes "GET") get)
  | inr not_get ↦ elim (Bool-cases (bytes_eq method (bytes "HEAD"))) [
    | inl head ↦ inr (inl (bytes_eq_sound method (bytes "HEAD") head))
    | inr not_head ↦
        inr
          (inr (bytes_eq_sound method (bytes "OPTIONS") (ground (arith, safe, not_get, not_head))))
  ]
]

pub is_version_path-no :
    (path : Text) → is_version_path path ≡ false → ¬ (path ≡ bytes "/api/version")
is_version_path-no path other same =
    ground (arith, ap is_version_path same, bytes_eq_refl (bytes "/api/version"), other)

module _ {E : Type 0} (c : ClientConfig) (x : Execution E) where
  -- A request may go out again behind a failure of the transport if it is safe, and behind a 405 that the
  -- API version may explain, each if its body can be read again.
  abbrev pub MayRepeat : Result E (HttpResponse E) → Type 0
  MayRepeat (err e) = (x.body.repeatable ≡ true) × IsSafe x.method
  MayRepeat (ok r) =
      (x.body.repeatable ≡ true)
      × (c.negotiates ≡ true)
      × ¬ (x.path ≡ bytes "/api/version")
      × (r.status ≡ 405)

  abbrev pub IsRepeated : Sent E → Type 0
  IsRepeated s = MayRepeat s.answer

  abbrev pub counted : Result E (HttpResponse E) → ℕ → ℕ
  counted (err e) n = n
  counted (ok r) n = suc n

  abbrev pub answers : List (Sent E) → ℕ
  answers [] = 0
  answers (s ∷ log) = counted s.answer (answers log)

  counted-le : (answer : Result E (HttpResponse E)) (n : ℕ) → n ≤ counted answer n
  counted-le (err e) n = omega arith
  counted-le (ok r) n = omega arith

  pub answers-drop : (log : List (Sent E)) → answers (drop 1 log) ≤ answers log
  answers-drop [] = omega arith
  answers-drop (s ∷ log) = counted-le s.answer (answers log)

  -- Before a turn.
  pub record IsBegun (run : Run E) : Type 0 where
    pub bounded : run.attempts < max_attempts_of c x + one_if run.retried
    pub opened_each : run.openings ≤ run.attempts
    pub repeatable : run.retried ≡ true → x.body.repeatable ≡ true
    pub earlier : All IsRepeated run.log
    pub once : answers run.log ≡ one_if run.retried

  -- Behind the last turn: every request but the last is one that may go out again, and one at most of
  -- them had a response.
  pub record IsOver (run : Run E) : Type 0 where
    pub bounded : run.attempts ≤ max_attempts_of c x + one_if run.retried
    pub opened_each : run.openings ≤ run.attempts
    pub repeatable : run.retried ≡ true → x.body.repeatable ≡ true
    pub earlier : All IsRepeated (drop 1 run.log)
    pub once : answers (drop 1 run.log) ≤ 1

  abbrev pub last_answer : List (Sent E) → Option (Result E (HttpResponse E))
  last_answer [] = none
  last_answer (s ∷ log) = some s.answer

  -- A response that is given is what the handler makes of the last answer.
  abbrev pub IsReturned : Handler E → Run E → ExecutionResult E → Type 0
  IsReturned handler last result =
      (response : Response)
      → result.response ≡ ok response
      → (r : HttpResponse E) × (last_answer last.log ≡ some (ok r))
        × (r.status < 400)
        × (result ≡ handler r x last.attempts)

  failed_result :
      (handler : Handler E) (last : Run E) (f : Failure E)
      → IsReturned handler last (unwritten (err f))
  failed_result handler last f = λ response e. cc

  pub max_attempts_of-positive : 0 < max_attempts_of c x
  max_attempts_of-positive =
      either_one (λ n. 0 < n) (not x.body.repeatable || not (is_safe_retry_method x.method)) 1
        (positive c.max_attempts) (λ _. omega arith) (λ _. positive_lem c.max_attempts)

  abbrev pub TurnGood : Handler E → ℕ → Turn E → Type 0
  TurnGood handler n (again next) = IsBegun next × (next.attempts ≡ n)
  TurnGood handler n (done last result) = IsOver last × IsReturned handler last result

  pub more_than_one :
      (n : ℕ) → 0 < n → n < max_attempts_of c x → (x.body.repeatable ≡ true) × IsSafe x.method
  more_than_one n h below =
      elim (Bool-cases (not x.body.repeatable || not (is_safe_retry_method x.method))) [
        | inl single ↦ absurd (ground (arith, single, below, h))
        | inr several ↦ (
          ground (arith, several),
          is_safe_retry_method-IsSafe x.method (ground (arith, several)),
        )
      ]

  paused-Good :
      (handler : Handler E) (run : Run E) (o : Option E)
      → IsOver run
      → IsBegun run
      → TurnGood handler run.attempts (paused x run o)
  paused-Good handler run (some e) over begun = (over, failed_result handler run _)
  paused-Good handler run none over begun = (begun, refl)

  pub unanswered-Good :
      (handler : Handler E) (run : Run E) (round : Round E) (e : CallError E) (o : Option E)
      → IsOver run
      → (run.attempts < max_attempts_of c x → IsBegun run)
      → TurnGood handler run.attempts (unanswered c x run round e o)
  unanswered-Good handler run round e (some context_error) over begun =
      (over, failed_result handler run _)
  unanswered-Good handler run round e none over begun =
      either_one (TurnGood handler run.attempts) (ltb run.attempts (max_attempts_of c x)) _ _
        (λ below. paused-Good handler run round.interrupted over (begun (ground (arith, below))))
        (λ _. (over, failed_result handler run _))

  renegotiated-Good :
      (handler : Handler E) (run : Run E) (refreshed : Result E Bytes)
      → IsOver run
      → IsBegun run
      → TurnGood handler run.attempts (renegotiated run refreshed)
  renegotiated-Good handler run (err e) over begun = (over, failed_result handler run _)
  renegotiated-Good handler run (ok version) over begun = (
    record {
      bounded = begun.bounded;
      opened_each = begun.opened_each;
      repeatable = begun.repeatable;
      earlier = begun.earlier;
      once = begun.once;
    },
    refl,
  )

  -- The step to the second version keeps what is behind it.
  retried-IsOver :
      (run : Run E) → x.body.repeatable ≡ true → IsOver run → IsOver (record run { retried = true })
  retried-IsOver run again_readable over = record {
    bounded = omega (arith, over.bounded, one_if-le run.retried);
    opened_each = over.opened_each;
    repeatable = λ _. again_readable;
    earlier = over.earlier;
    once = over.once;
  }

  module _ (lower_rune : ℕ → ℕ) where
    incompatible-Good :
        (handler : Handler E) (run : Run E) (round : Round E) (r : HttpResponse E)
        (read : Result (Failure E) Bytes)
        → IsOver run
        → (x.body.repeatable ≡ true → IsBegun (record run { retried = true }))
        → TurnGood handler run.attempts (incompatible lower_rune x run round r read)
    incompatible-Good handler run round r (err e) over begun = (over, failed_result handler run _)
    incompatible-Good handler run round r (ok body) over begun =
        either_one (TurnGood handler run.attempts) (not x.body.repeatable) _ _
          (λ _. (over, failed_result handler run _))
          (λ readable.
            let again_readable : x.body.repeatable ≡ true = ground (arith, readable) in
            renegotiated-Good handler (record run { retried = true }) round.refreshed
              (retried-IsOver run again_readable over) (begun again_readable))

    pub answered-Good :
        (handler : Handler E) (round : Round E) (run : Run E) (r : HttpResponse E)
        → IsOver run
        → last_answer run.log ≡ some (ok r)
        → (can_retry_compatibility c x.path r.status run.retried ≡ true
            → x.body.repeatable ≡ true
            → IsBegun (record run { retried = true }))
        → TurnGood handler run.attempts (answered lower_rune c handler x round run r)
    answered-Good handler round run r over last begun =
        either_one (TurnGood handler run.attempts)
          (can_retry_compatibility c x.path r.status run.retried) _ _
          (λ can. incompatible-Good handler run round r _ over (begun can))
          (λ _.
            either_one (TurnGood handler run.attempts) (leb 400 r.status) _ _
              (λ _. (over, failed_result handler run _))
              (λ low. (over, λ response _. (r, last, ground (arith, low), refl))))
