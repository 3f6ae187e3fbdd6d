-- ===== src/Client/Execute/Attempts.antt =====
-- request.go, sendOnce and executePreparedWith: the attempts of a request.
use busylib_go.Prelude.{
  ℕ, zero, suc, true, false, not, [], Option, none, some, Result, ok, err, ltb, leb, if◌then◌else◌,
}
use busylib_go.Prelude.Bytes.{Bytes}
use busylib_go.Usb.Command.{Text}
use busylib_go.Client.Headers.{put, header_api_sem_ver, header_request_id, get}
use busylib_go.Client.Bodies.{BodyError}
use busylib_go.Client.Prepare.{ClientConfig, PreparedRequest, map_error}
use busylib_go.Client.Execute.{
  HttpResponse, CallError, body_failed, failed_with, Failure, request_failed, not_repeatable,
  version_failed, api_failed, ExecutionResult, Execution, Round, Run, should_negotiate_version,
  can_retry_compatibility, max_attempts_of, offered,
}
use busylib_go.Client.Execute.Reply.{read_and_close_response_body, response_request_id, unwritten}

-- A turn of the loop goes on, or gives the call's result.
pub data Turn (E : Type 0) : Type 0 where
  again : Run E → Turn E
  done : Run E → ExecutionResult E → Turn E

-- responseHandler
abbrev pub Handler : Type 0 → Type 0
Handler E = HttpResponse E → Execution E → ℕ → ExecutionResult E

module _ {E : Type 0} where
  abbrev pub opened : Run E → Run E
  opened run = record run { openings = suc run.openings }

  abbrev pub made :
      Execution E
      → Run E
      → Option Bytes
      → Round E
      → Option E
      → Run E × Result (CallError E) (HttpResponse E)
  made x run content round (some e) = (run, err (failed_with e))
  made x run content round none =
      (offered run run.header x.body content round.reply, map_error failed_with round.reply)

  abbrev pub sent :
      Execution E
      → Run E
      → Round E
      → Result (BodyError E) (Option Bytes)
      → Run E × Result (CallError E) (HttpResponse E)
  sent x run round (err e) = (run, err (body_failed e))
  sent x run round (ok content) = made x run content round round.new_request

  unfoldable pub send_once :
      Execution E → Run E → Round E → Run E × Result (CallError E) (HttpResponse E)
  send_once x run round = sent x (opened run) round (x.body.open_body run.openings)

  abbrev pub failed_request : Execution E → Run E → CallError E → Turn E
  failed_request x run e = done run (unwritten (err (request_failed x.request_id run.attempts e)))

  abbrev pub paused : Execution E → Run E → Option E → Turn E
  paused x run (some e) = failed_request x run (failed_with e)
  paused x run none = again run

  -- A request that got no response.
  abbrev pub unanswered :
      ClientConfig → Execution E → Run E → Round E → CallError E → Option E → Turn E
  unanswered c x run round e (some context_error) = failed_request x run (failed_with context_error)
  unanswered c x run round e none =
      if ltb run.attempts (max_attempts_of c x)
      then paused x run round.interrupted
      else failed_request x run e

  abbrev pub renegotiated : Run E → Result E Text → Turn E
  renegotiated run (err e) = done run (unwritten (err (version_failed e)))
  renegotiated run (ok version) =
      again (record run { header = put header_api_sem_ver version run.header })

  abbrev pub first_run : Execution E → Run E
  first_run x = record { attempts = 0; retried = false; header = x.header; openings = 0; log = [] }

  abbrev pub execution_copy : ClientConfig → PreparedRequest E → Execution E
  execution_copy c p = record {
    method = p.method;
    path = p.path;
    header = p.header;
    response_mode = p.response_mode;
    request_id = p.request_id;
    body = p.body;
    max_response_bytes = c.max_response_bytes;
  }

  abbrev pub versioned : Execution E → Result E Text → Result (Failure E) (Execution E)
  versioned x (err e) = err (version_failed e)
  versioned x (ok version) = ok (record x { header = put header_api_sem_ver version x.header })

  unfoldable pub prepared_execution :
      ClientConfig → PreparedRequest E → Result E Text → Result (Failure E) (Execution E)
  prepared_execution c p version =
      let x = execution_copy c p in
      if should_negotiate_version c p.path then versioned x version else ok x

module _ {E : Type 0} (lower_rune : ℕ → ℕ) where
  -- The one retry with another version, behind a 405.
  abbrev pub incompatible :
      Execution E → Run E → Round E → HttpResponse E → Result (Failure E) Bytes → Turn E
  incompatible x run round r (err e) = done run (unwritten (err e))
  incompatible x run round r (ok body) =
      if not x.body.repeatable
      then done run
          (unwritten (err (not_repeatable (response_request_id lower_rune r x.request_id))))
      else renegotiated (record run { retried = true }) round.refreshed

  abbrev pub refused : Execution E → HttpResponse E → Result (Failure E) Bytes → Failure E
  refused x r (err e) = e
  refused x r (ok body) = api_failed r.status x.request_id (get header_request_id r.header) body

  abbrev pub answered :
      ClientConfig → Handler E → Execution E → Round E → Run E → HttpResponse E → Turn E
  answered c handler x round run r =
      if can_retry_compatibility c x.path r.status run.retried
      then incompatible x run round r (read_and_close_response_body lower_rune x r run.attempts)
      else if leb 400 r.status
      then done run
          (unwritten (err (refused x r (read_and_close_response_body lower_rune x r run.attempts))))
      else done run (handler r x run.attempts)

  abbrev pub received :
      ClientConfig
      → Handler E
      → Execution E
      → Round E
      → Run E × Result (CallError E) (HttpResponse E)
      → Turn E
  received c handler x round (run, err e) = unanswered c x run round e round.context_error
  received c handler x round (run, ok r) = answered c handler x round run r

  unfoldable pub turn : ClientConfig → Handler E → Execution E → Round E → Run E → Turn E
  turn c handler x round run =
      received c handler x round (send_once x (record run { attempts = suc run.attempts }) round)

  -- The loop, on fuel; the rounds are numbered by the attempts before them.
  unfoldable pub run_turns :
      ClientConfig
      → Handler E
      → Execution E
      → (ℕ → Round E)
      → ℕ
      → Run E
      → Option (Run E × ExecutionResult E)
  run_turns c handler x rounds zero run = none
  run_turns c handler x rounds (suc fuel) run = elim (turn c handler x (rounds run.attempts) run) [
    | again next ↦ run_turns c handler x rounds fuel next
    | done last result ↦ some (last, result)
  ]

  unfoldable pub execute_prepared_with :
      ClientConfig → Handler E → Execution E → (ℕ → Round E) → Option (Run E × ExecutionResult E)
  execute_prepared_with c handler x rounds =
      run_turns c handler x rounds (suc (max_attempts_of c x)) (first_run x)
