-- ===== src/Client/Execute/Reply.antt =====
-- request.go: what is made of a response. Whether a body is JSON and how much of it a writer takes are
-- parameters.
use busylib_go.Prelude.{
  ℕ, suc, Bool, true, false, ◌&&◌, not, [], Option, none, some, Result, ok, err, ltb, if◌then◌else◌,
  length, take,
}
use busylib_go.Prelude.Bytes.{Bytes}
use busylib_go.Usb.Command.{Text, is_empty}
use busylib_go.Client.Headers.{header_value, header_request_id}
use busylib_go.Client.Prepare.{ResponseMode, mode_json, mode_bytes, mode_text, map_error}
use busylib_go.Client.Execute.{
  HttpResponse, CallError, failed_with, response_too_large, Failure, request_failed,
  protocol_failed, Response, ExecutionResult, Execution, max_int64,
}

abbrev pub is_json_mode : ResponseMode → Bool
is_json_mode mode_json = true
is_json_mode mode_bytes = false
is_json_mode mode_text = false

module _ {E : Type 0} where
  abbrev pub unwritten : Result (Failure E) Response → ExecutionResult E
  unwritten response = record { response = response; written = 0 }

  -- io.ReadAll, behind io.LimitReader where the maximum allows it: a read that reaches the limit sees no
  -- error behind it.
  abbrev pub read_limited : ℕ → HttpResponse E → Bytes × Option E
  read_limited maximum r =
      if ltb maximum max_int64
      then (
        take (suc maximum) r.content,
        if ltb maximum (length r.content) then none else r.read_error,
      )
      else (r.content, r.read_error)

  abbrev pub response_request_id : (ℕ → ℕ) → HttpResponse E → Text → Text
  response_request_id lower_rune r fallback =
      let id = header_value lower_rune r.header header_request_id in
      if is_empty id then fallback else id

  abbrev pub closed_body : Bytes → Option E → Result (CallError E) Bytes
  closed_body body (some e) = err (failed_with e)
  closed_body body none = ok body

  abbrev pub checked_body : ℕ → Bytes × Option E → Option E → Result (CallError E) Bytes
  checked_body maximum (body, some e) closed = err (failed_with e)
  checked_body maximum (body, none) closed =
      if ltb maximum (length body) then err response_too_large else closed_body body closed

module _ {E : Type 0} (lower_rune : ℕ → ℕ) where
  unfoldable pub read_and_close_response_body :
      Execution E → HttpResponse E → ℕ → Result (Failure E) Bytes
  read_and_close_response_body x r attempts =
      map_error (request_failed (response_request_id lower_rune r x.request_id) attempts)
        (checked_body x.max_response_bytes (read_limited x.max_response_bytes r) r.close_error)

  abbrev pub response_summary : HttpResponse E → Execution E → Bytes → Response
  response_summary r x body = record {
    method = x.method;
    path = x.path;
    status = r.status;
    header = r.header;
    request_id = response_request_id lower_rune r x.request_id;
    body = body;
  }

  abbrev pub valid_body :
      (Bytes → Bool) → HttpResponse E → Execution E → Result (Failure E) Bytes → ExecutionResult E
  valid_body is_json r x (err e) = unwritten (err e)
  valid_body is_json r x (ok body) =
      if is_json_mode x.response_mode && not (is_json body)
      then unwritten (err (protocol_failed (response_request_id lower_rune r x.request_id) body))
      else unwritten (ok (response_summary r x body))

  unfoldable pub read_buffered_response :
      (Bytes → Bool) → HttpResponse E → Execution E → ℕ → ExecutionResult E
  read_buffered_response is_json r x attempts =
      valid_body is_json r x (read_and_close_response_body x r attempts)

  abbrev pub closed_stream :
      HttpResponse E → Execution E → ℕ → Option E → Option E → Result (Failure E) Response
  closed_stream r x attempts (some e) closed =
      err (request_failed (response_request_id lower_rune r x.request_id) attempts (failed_with e))
  closed_stream r x attempts none (some e) =
      err (request_failed (response_request_id lower_rune r x.request_id) attempts (failed_with e))
  closed_stream r x attempts none none = ok (response_summary r x [])

  -- io.Copy gives how many bytes the writer took, and an error.
  unfoldable pub stream_response_to :
      (HttpResponse E → ℕ × Option E) → HttpResponse E → Execution E → ℕ → ExecutionResult E
  stream_response_to copy r x attempts = record {
    response = closed_stream r x attempts (copy r).1 r.close_error;
    written = (copy r).0;
  }
