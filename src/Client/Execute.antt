-- ===== src/Client/Execute.antt =====
-- request.go: sending a prepared request, with its retries. A round is one turn of the loop, and is given
-- as what the world does in it: the request's making, the HTTP client, the context, the pause and the
-- version cache.
pub mod Reply
pub mod Attempts
pub mod Repeats
pub mod Retries
pub mod Once
pub mod Bounded
use busylib_go.Prelude.{
  ℕ, zero, suc, ◌+◌, ◌^◌, ◌-◌, Bool, true, false, ◌&&◌, ◌||◌, not, List, [], ◌∷◌, Option, none,
  some, Result, ok, err, ltb, leb, ◌==◌, if◌then◌else◌, length, take,
}
use busylib_go.Prelude.Int.{ℤ, pos, negsuc}
use busylib_go.Prelude.Bytes.{Bytes, bytes, bytes_eq}
use busylib_go.Usb.Command.{Text, is_empty}
use busylib_go.Client.Headers.{Header, put, header_value, header_api_sem_ver, header_request_id}
use busylib_go.Client.Bodies.{BodyError, PreparedBody}
use busylib_go.Client.Prepare.{
  ClientConfig, ResponseMode, mode_json, mode_bytes, mode_text, PreparedRequest,
}

-- The body gives its bytes, and then the end or an error.
pub record HttpResponse (E : Type 0) : Type 0 where
  pub status : ℕ
  pub header : Header
  pub content : Bytes
  pub read_error : Option E
  pub close_error : Option E

pub data CallError (E : Type 0) : Type 0 where
  body_failed : BodyError E → CallError E
  failed_with : E → CallError E
  response_too_large : CallError E

pub data Failure (E : Type 0) : Type 0 where
  request_failed : (request_id : Text) → (attempts : ℕ) → CallError E → Failure E
  not_repeatable : (request_id : Text) → Failure E
  version_failed : E → Failure E
  api_failed : (status : ℕ) → (request_id device_id : Text) → Bytes → Failure E
  protocol_failed : (request_id : Text) → Bytes → Failure E

pub record Response : Type 0 where
  pub method : Text
  pub path : Text
  pub status : ℕ
  pub header : Header
  pub request_id : Text
  pub body : Bytes

-- The part of the result beside the error, too.
pub record ExecutionResult (E : Type 0) : Type 0 where
  pub response : Result (Failure E) Response
  pub written : ℕ

pub record Execution (E : Type 0) : Type 0 where
  pub method : Text
  pub path : Text
  pub header : Header
  pub response_mode : ResponseMode
  pub request_id : Text
  pub body : PreparedBody E
  pub max_response_bytes : ℕ

pub record Round (E : Type 0) : Type 0 where
  pub new_request : Option E
  pub reply : Result E (HttpResponse E)
  pub context_error : Option E
  pub interrupted : Option E
  pub refreshed : Result E Text

-- A request that the HTTP client was given.
pub record Sent (E : Type 0) : Type 0 where
  pub sent_header : Header
  pub content : Option Bytes
  pub content_length : Option ℤ
  pub answer : Result E (HttpResponse E)

-- The loop's variables, the openings of the body and the requests sent, the last first.
pub record Run (E : Type 0) : Type 0 where
  pub attempts : ℕ
  pub retried : Bool
  pub header : Header
  pub openings : ℕ
  pub log : List (Sent E)

abbrev pub max_int64 : ℕ
max_int64 = 2 ^ 63 - 1

abbrev pub is_safe_retry_method : Text → Bool
is_safe_retry_method method =
    bytes_eq method (bytes "GET")
    || bytes_eq method (bytes "HEAD")
    || bytes_eq method (bytes "OPTIONS")

abbrev pub is_version_path : Text → Bool
is_version_path path = bytes_eq path (bytes "/api/version")

abbrev pub should_negotiate_version : ClientConfig → Text → Bool
should_negotiate_version c path = c.negotiates && not (is_version_path path)

abbrev pub can_retry_compatibility : ClientConfig → Text → ℕ → Bool → Bool
can_retry_compatibility c path status retried =
    c.negotiates && not (is_version_path path) && status == 405 && not retried

-- MaxAttempts, at least one, and one where a request may not go out twice.
abbrev pub positive : ℤ → ℕ
positive (pos zero) = 1
positive (pos (suc n)) = suc n
positive (negsuc n) = 1

abbrev pub non_negative : ℤ → Option ℤ
non_negative (pos n) = some (pos n)
non_negative (negsuc n) = none

module _ {E : Type 0} where
  abbrev pub max_attempts_of : ClientConfig → Execution E → ℕ
  max_attempts_of c x =
      if not x.body.repeatable || not (is_safe_retry_method x.method)
      then 1
      else positive c.max_attempts

  abbrev pub offered :
      Run E → Header → PreparedBody E → Option Bytes → Result E (HttpResponse E) → Run E
  offered run header body content answer = record run {
    log =
        record {
          sent_header = header;
          content = content;
          content_length = non_negative body.content_length;
          answer = answer;
        }
        ∷ run.log;
  }
