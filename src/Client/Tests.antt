-- ===== src/Client/Tests.antt =====
-- Runs of the client's definitions, and its theorems at concrete inputs.
use busylib_go.Prelude.{
  All, List, ℕ, zero, suc, ◌≤◌, ◌≡◌, ◌↔◌, refl, Bool, true, false, [], ◌∷◌, Option, none, some,
  Result, ok, err, length,
}
use busylib_go.Prelude.Int.{pos, negsuc}
use busylib_go.Prelude.Bytes.{Bytes, bytes, bytes_eq}
use busylib_go.Usb.Command.{Text, trim_space, trim_left, is_space}
use busylib_go.Client.Path.{
  canonical_api_path, is_remote_blocked_operation, has_prefix, contains_text,
}
use busylib_go.Client.Headers.{
  is_named, authorization, header_api_token, Header, validate_caller_auth_headers, values_of,
  remove, any_case_value, header_value, canonical_from,
}
use busylib_go.Client.Prepare.{
  endpoint_local, endpoint_remote, ClientConfig, mode_json, Request, PreparedRequest, prepare,
}
use busylib_go.Client.Prepare.Guarded.{IsGuarded, prepare-IsGuarded}
use busylib_go.Client.Prepare.Unread.{IsUnread, prepare-IsUnread}
use busylib_go.Client.Execute.{
  HttpResponse, failed_with, request_failed, ExecutionResult, Execution, Round, Run,
}
use busylib_go.Client.Execute.Reply.{read_and_close_response_body, read_buffered_response}
use busylib_go.Client.Execute.Attempts.{send_once, turn, run_turns, execute_prepared_with}
use busylib_go.Client.Execute.Repeats.{IsOver, IsReturned}
use busylib_go.Client.Execute.Retries.{execute_prepared_with-IsOver}
use busylib_go.Client.Execute.Once.{execute_prepared_with-once}
use busylib_go.Client.Version.{
  Versions, VersionOp, asks, stops, leaves, fetched, wakes, write_at, new_versions, version_step,
  version_steps,
}
use busylib_go.Client.Version.Shared.{Inv}
use busylib_go.Client.Version.Leaving.{version_steps-shared}
use busylib_go.Client.Execute.Bounded.{IsWhole, read_and_close_response_body_iff}

abbrev same_rune : ℕ → ℕ
same_rune c = c

abbrev remote_client : ClientConfig
remote_client = record {
  endpoint_mode = endpoint_remote;
  local_access_token = [];
  session_id = bytes "s1";
  generated_id = bytes "id1";
  negotiates = true;
  max_attempts = pos 3;
  max_response_bytes = 4;
}

abbrev local_client : ClientConfig
local_client = record remote_client {
  endpoint_mode = endpoint_local;
  local_access_token = bytes "t";
}

abbrev status_request : Request ℕ
status_request = record {
  method = bytes "get";
  path = bytes "status";
  query = [];
  header = some ((bytes "Accept", bytes "text/plain" ∷ []) ∷ []);
  body = none;
  response_mode = [];
  request_id = [];
  session_id = [];
}

abbrev status_prepared : PreparedRequest ℕ
status_prepared = record {
  method = bytes "GET";
  path = bytes "/api/status";
  query = [];
  header =
      (bytes "X-Api-Token", bytes "t" ∷ [])
      ∷ (bytes "X-Session-Id", bytes "s1" ∷ [])
      ∷ (bytes "X-Request-Id", bytes "id1" ∷ [])
      ∷ (bytes "Accept", bytes "text/plain" ∷ [])
      ∷ [];
  response_mode = mode_json;
  request_id = bytes "id1";
  body = record {
    content_type = [];
    content_length = pos 0;
    repeatable = true;
    open_body = λ _. ok none;
  };
}

status_request-prepared :
    prepare same_rune same_rune local_client status_request ≡ ok status_prepared
unfolding prepare trim_space trim_left is_space canonical_api_path contains_text has_prefix
    validate_caller_auth_headers header_value any_case_value values_of canonical_from bytes_eq
    remove is_remote_blocked_operation
status_request-prepared = refl

prepare-IsGuarded_example : IsGuarded same_rune same_rune local_client status_prepared
prepare-IsGuarded_example =
    prepare-IsGuarded same_rune same_rune local_client status_request status_prepared
      (λ _. refl, tt) status_request-prepared

abbrev good_reply : HttpResponse ℕ
good_reply = record {
  status = 200;
  header = [];
  content = bytes "{}";
  read_error = none;
  close_error = none;
}

abbrev quiet_round : Result ℕ (HttpResponse ℕ) → Round ℕ
quiet_round reply = record {
  new_request = none;
  reply = reply;
  context_error = none;
  interrupted = none;
  refreshed = ok (bytes "2.0.0");
}

-- The transport fails, the device answers 405, and then answers.
abbrev rounds : ℕ → Round ℕ
rounds zero = quiet_round (err 7)
rounds (suc zero) = quiet_round (ok (record good_reply { status = 405 }))
rounds (suc (suc n)) = quiet_round (ok good_reply)

abbrev status_execution : Execution ℕ
status_execution = record {
  method = bytes "GET";
  path = bytes "/api/status";
  header = [];
  response_mode = mode_json;
  request_id = bytes "id1";
  body = status_prepared.body;
  max_response_bytes = 4;
}

-- The body of a reader goes out once.
abbrev upload_execution : Execution ℕ
upload_execution = record status_execution {
  method = bytes "POST";
  body = record {
    content_type = [];
    content_length = negsuc 0;
    repeatable = false;
    open_body = λ n. ok (some (bytes "data"));
  };
}

abbrev accept_json : Bytes → Bool
accept_json body = true

abbrev buffered : HttpResponse ℕ → Execution ℕ → ℕ → ExecutionResult ℕ
buffered = read_buffered_response same_rune accept_json

status_execution-sends : Option (Run ℕ × ExecutionResult ℕ) → ℕ
status_execution-sends none = 0
status_execution-sends (some (run, result)) = length run.log

status_execution-three :
    status_execution-sends
      (execute_prepared_with same_rune remote_client buffered status_execution rounds)
    ≡ 3
unfolding status_execution-sends execute_prepared_with run_turns turn send_once bytes_eq
    read_and_close_response_body header_value values_of any_case_value canonical_from
status_execution-three = refl

execute_prepared_with-IsOver_example :
    (last : Run ℕ) × (result : ExecutionResult ℕ) × (execute_prepared_with same_rune remote_client
        buffered status_execution rounds
      ≡ some (last, result))
    × IsOver remote_client status_execution last
    × IsReturned remote_client status_execution buffered last result
execute_prepared_with-IsOver_example =
    execute_prepared_with-IsOver remote_client status_execution same_rune buffered rounds

abbrev upload_last : Run ℕ
upload_last = record {
  attempts = 1;
  retried = false;
  header = [];
  openings = 1;
  log =
      record {
        sent_header = [];
        content = some (bytes "data");
        content_length = none;
        answer = err 7;
      }
      ∷ [];
}

abbrev upload_result : ExecutionResult ℕ
upload_result = record {
  response = err (request_failed (bytes "id1") 1 (failed_with 7));
  written = 0;
}

upload_execution-fails :
    execute_prepared_with same_rune remote_client buffered upload_execution rounds
    ≡ some (upload_last, upload_result)
unfolding execute_prepared_with run_turns turn send_once bytes_eq
upload_execution-fails = refl

execute_prepared_with-once_example : (length upload_last.log ≤ 1) × (upload_last.openings ≤ 1)
execute_prepared_with-once_example =
    execute_prepared_with-once remote_client upload_execution same_rune buffered rounds upload_last
      upload_result refl upload_execution-fails

read_and_close_response_body_iff_example :
    (read_and_close_response_body same_rune status_execution good_reply 1 ≡ ok (bytes "{}"))
    ↔ IsWhole {E = ℕ} 4 (bytes "{}") none none (bytes "{}")
read_and_close_response_body_iff_example =
    read_and_close_response_body_iff same_rune status_execution good_reply 1 (bytes "{}")

-- Two callers share a refresh; one leaves, the other gets the version, and a third finds it stored.
abbrev shared_ops : List (VersionOp ℕ)
shared_ops =
    asks ∷ asks ∷ stops 0 ∷ leaves 0 9 ∷ fetched 0 (ok (bytes "1.0.0")) ∷ wakes 0 ∷ asks ∷ []

abbrev shared_last : Versions ℕ
shared_last = record {
  api_sem_ver = bytes "1.0.0";
  in_flight = none;
  waiters = write_at 0 1 (write_at 0 2 (write_at 0 1 (λ _. 0)));
  is_done = write_at 0 true (write_at 0 false (λ _. false));
  outcome = write_at 0 (ok (bytes "1.0.0")) (λ _. ok []);
  is_cancelled = write_at 0 false (λ _. false);
  next = 1;
  selecting = [];
  leaving = [];
}

shared_ops-run : version_steps shared_ops new_versions ≡ some shared_last
unfolding version_steps version_step
shared_ops-run = refl

version_steps-shared_example : Inv shared_last
version_steps-shared_example = version_steps-shared shared_ops shared_last shared_ops-run

-- Two spellings of the key, each with a secret behind an empty value.
abbrev secret_header : Header
secret_header =
    (bytes "Authorization", [] ∷ bytes "Bearer x" ∷ [])
    ∷ (bytes "authorization", [] ∷ bytes "Bearer y" ∷ [])
    ∷ (bytes "Accept", bytes "text/plain" ∷ [])
    ∷ []

abbrev bare_prepared : PreparedRequest ℕ
bare_prepared = record status_prepared {
  header =
      (bytes "X-Api-Token", bytes "t" ∷ [])
      ∷ (bytes "X-Session-Id", bytes "s1" ∷ [])
      ∷ (bytes "X-Request-Id", bytes "id1" ∷ [])
      ∷ [];
}

bare_request-prepared :
    prepare same_rune same_rune local_client (record status_request { header = none })
    ≡ ok bare_prepared
unfolding prepare trim_space trim_left is_space canonical_api_path contains_text has_prefix
    validate_caller_auth_headers header_value any_case_value values_of canonical_from bytes_eq
    remove is_remote_blocked_operation
bare_request-prepared = refl

secret_header-IsUnread :
    All (IsUnread same_rune authorization) secret_header
    × All (IsUnread same_rune header_api_token) secret_header
unfolding bytes_eq
secret_header-IsUnread =
    ((λ _. refl, (λ _. refl, (λ h. cc, tt))), (λ h. cc, (λ h. cc, (λ h. cc, tt))))

prepare-IsUnread_example :
    (p : PreparedRequest ℕ) × (prepare same_rune same_rune local_client
        (record status_request { header = some secret_header })
      ≡ ok p)
    × ((key : Text)
        → is_named same_rune authorization key ≡ true
        → values_of key p.header ≡ values_of key secret_header)
prepare-IsUnread_example =
    prepare-IsUnread same_rune same_rune local_client status_request secret_header bare_prepared
      bare_request-prepared secret_header-IsUnread.0 secret_header-IsUnread.1
