-- ===== src/Client/Prepare.antt =====
-- request.go, Prepare: validating and normalizing a request. The encoded query, the identifier that the
-- client would generate and the Unicode tables are arguments.
pub mod Sent
pub mod Guarded
pub mod Unread
use busylib_go.Prelude.{
  ℕ, Bool, true, false, ◌&&◌, ◌||◌, not, List, [], ◌∷◌, Option, none, some, Result, ok, err, ◌>>=◌,
  ◌>>◌, refuse_if, ◌==◌, if◌then◌else◌,
}
use busylib_go.Prelude.Int.{ℤ}
use busylib_go.Prelude.Bytes.{Bytes, bytes, bytes_eq}
use busylib_go.Usb.Command.{Text, trim_space, is_empty}
use busylib_go.Client.Path.{PathError, canonical_api_path, to_upper, is_remote_blocked_operation}
use busylib_go.Client.Headers.{
  Header, AuthError, validate_caller_auth_headers, header_value, put, header_api_token,
  header_request_id, header_session_id, content_type_name,
}
use busylib_go.Client.Bodies.{Body, BodyError, PreparedBody, prepare_body, empty_prepared_body}

pub data EndpointMode : Type 0 where
  endpoint_local endpoint_remote : EndpointMode

-- The parts of Client that requests read. The number of attempts may be zero or less.
pub record ClientConfig : Type 0 where
  pub endpoint_mode : EndpointMode
  pub local_access_token : Text
  pub session_id : Text
  pub generated_id : Text
  pub negotiates : Bool
  pub max_attempts : ℤ
  pub max_response_bytes : ℕ

pub data ResponseMode : Type 0 where
  mode_json mode_bytes mode_text : ResponseMode

pub record Request (E : Type 0) : Type 0 where
  pub method : Text
  pub path : Text
  pub query : Text
  pub header : Option Header
  pub body : Option (Body E)
  pub response_mode : Text
  pub request_id : Text
  pub session_id : Text

-- The target URL is the base URL with the path and the query.
pub record PreparedRequest (E : Type 0) : Type 0 where
  pub method : Text
  pub path : Text
  pub query : Text
  pub header : Header
  pub response_mode : ResponseMode
  pub request_id : Text
  pub body : PreparedBody E

pub data PrepareError (E : Type 0) : Type 0 where
  method_empty blocked mode_unknown : PrepareError E
  path_refused : PathError → PrepareError E
  body_refused : BodyError E → PrepareError E
  header_refused : AuthError → PrepareError E

abbrev pub map_error : {A B C : Type 0} → (A → B) → Result A C → Result B C
map_error f (err e) = err (f e)
map_error f (ok c) = ok c

-- normalizeResponseMode and validateResponseMode
abbrev pub validate_response_mode : {E : Type 0} → Text → Result (PrepareError E) ResponseMode
validate_response_mode mode =
    if is_empty mode || bytes_eq mode (bytes "json")
    then ok mode_json
    else if bytes_eq mode (bytes "bytes")
    then ok mode_bytes
    else if bytes_eq mode (bytes "text")
    then ok mode_text
    else err mode_unknown

abbrev pub clone_header : Option Header → Header
clone_header none = []
clone_header (some header) = header

abbrev pub body_of : {E : Type 0} → Option (Body E) → Result (BodyError E) (PreparedBody E)
body_of none = ok empty_prepared_body
body_of (some body) = prepare_body body

-- The first text that is not empty.
abbrev pub or_else : Text → Text → Text
or_else a b = if is_empty a then b else a

abbrev pub is_remote : EndpointMode → Bool
is_remote endpoint_local = false
is_remote endpoint_remote = true

abbrev pub put_if : Bool → Text → Text → Header → Header
put_if test name value header = if test then put name value header else header

module _ (upper_rune lower_rune : ℕ → ℕ) where
  abbrev pub request_id_of : {E : Type 0} → ClientConfig → Request E → Header → Text
  request_id_of c r header =
      or_else (header_value lower_rune header header_request_id)
        (or_else r.request_id c.generated_id)

  -- The headers, the four that Prepare may set included.
  abbrev pub prepared_header :
      {E : Type 0} → ClientConfig → Request E → PreparedBody E → Header → Header
  prepared_header c r body header =
      let session = or_else r.session_id c.session_id in
      let identified = put header_request_id (request_id_of c r header) header in
      let in_session = put_if (not (is_empty session)) header_session_id session identified in
      let with_token =
        put_if (not (is_remote c.endpoint_mode) && not (is_empty c.local_access_token))
          header_api_token c.local_access_token in_session in
      put_if
        (not (is_empty body.content_type)
          && is_empty (header_value lower_rune with_token content_type_name))
        content_type_name body.content_type with_token

  unfoldable pub prepare :
      {E : Type 0} → ClientConfig → Request E → Result (PrepareError E) (PreparedRequest E)
  prepare c r = do
    let method = to_upper upper_rune (trim_space r.method)
    refuse_if (is_empty method) method_empty
    path ← map_error path_refused (canonical_api_path r.path)
    refuse_if (is_remote c.endpoint_mode && is_remote_blocked_operation upper_rune method path)
        blocked
    body ← map_error body_refused (body_of r.body)
    let header = clone_header r.header
    map_error header_refused (validate_caller_auth_headers lower_rune header)
    mode ← validate_response_mode r.response_mode
    ok (record {
      method = method;
      path = path;
      query = r.query;
      header = prepared_header c r body header;
      response_mode = mode;
      request_id = request_id_of c r header;
      body = body;
    })
