-- ===== src/Client/Prepare/Unread.antt =====
-- The credentials that the checks of request.go do not read.
use busylib_go.Prelude.{
  ℕ, ◌≡◌, refl, sym, ap, subst, true, false, ◌&&◌, List, [], ◌∷◌, none, some, ok, arith, Bool-cases,
  All, inl, inr, refuse_if-passed, bind_inversion, next_inversion,
}
use busylib_go.Prelude.Bytes.{bytes_eq, bytes_eq_sound}
use busylib_go.Usb.Command.{Text, is_empty, trim_space}
use busylib_go.Client.Path.{canonical_api_path, is_remote_blocked_operation, to_upper}
use busylib_go.Client.Headers.{
  Header, is_named, has_values, first_value, values_of, canonical_key, canonical_from,
  any_case_value, header_value, validate_caller_auth_headers, authorization, header_api_token,
  header_request_id, header_session_id, content_type_name,
}
use busylib_go.Client.Bodies.{PreparedBody}
use busylib_go.Client.Prepare.{
  ClientConfig, ResponseMode, PrepareError, Request, PreparedRequest, method_empty, blocked,
  path_refused, body_refused, header_refused, map_error, validate_response_mode, body_of, is_remote,
  prepared_header, request_id_of, prepare,
}
use busylib_go.Client.Prepare.Sent.{prepared_header-values_of}

module _ (lower_rune : ℕ → ℕ) where
  -- A key that is named so, in any case, has no values, or an empty first one, whatever comes behind it.
  abbrev pub IsUnread : Text → Text × List Text → Type 0
  IsUnread name (key, values) =
      is_named lower_rune name key ≡ true → is_empty (first_value values) ≡ true

  any_case_value-IsUnread :
      (name : Text) (header : Header)
      → All (IsUnread name) header
      → is_empty (any_case_value lower_rune name header) ≡ true
  unfolding any_case_value
  any_case_value-IsUnread name [] h = refl
  any_case_value-IsUnread name ((key, values) ∷ header) (h, hs) =
      let rest = any_case_value-IsUnread name header hs in
      elim (Bool-cases (is_named lower_rune name key && has_values values)) [
        | inl hit ↦ rw hit (h (ground (arith, hit)))
        | inr miss ↦ rw miss rest
      ]

  values_of-IsUnread :
      (name key : Text) (header : Header)
      → is_named lower_rune name key ≡ true
      → All (IsUnread name) header
      → is_empty (first_value (values_of key header)) ≡ true
  unfolding values_of
  values_of-IsUnread name key [] named h = refl
  values_of-IsUnread name key ((k, values) ∷ header) named (h, hs) =
      elim (Bool-cases (bytes_eq k key)) [
        | inl hit ↦ rw hit (
            h (
              subst (λ q. is_named lower_rune name q ≡ true) (sym (bytes_eq_sound k key hit))
                named))
        | inr miss ↦ rw miss (values_of-IsUnread name key header named hs)
      ]

  header_value-IsUnread :
      (name : Text) (header : Header)
      → is_named lower_rune name (canonical_key name) ≡ true
      → All (IsUnread name) header
      → is_empty (header_value lower_rune header name) ≡ true
  unfolding header_value
  header_value-IsUnread name header named h =
      rw (values_of-IsUnread name (canonical_key name) header named h)
        (any_case_value-IsUnread name header h)

  validate_caller_auth_headers-IsUnread :
      (header : Header)
      → All (IsUnread authorization) header
      → All (IsUnread header_api_token) header
      → validate_caller_auth_headers lower_rune header ≡ ok tt
  unfolding validate_caller_auth_headers canonical_from bytes_eq
  validate_caller_auth_headers-IsUnread header first second =
      rw
        (
          header_value-IsUnread authorization header refl first,
          header_value-IsUnread header_api_token header refl second,
        )
        refl

  other_key :
      (name key : Text)
      → is_named lower_rune authorization name ≡ false
      → is_named lower_rune authorization key ≡ true
      → bytes_eq name key ≡ false
  other_key name key other named = elim (Bool-cases (bytes_eq name key)) [
    | inl same ↦
        let equal = ap (is_named lower_rune authorization) (bytes_eq_sound name key same) in
        absurd (ground (arith, other, named, equal))
    | inr differs ↦ differs
  ]

module _ {E : Type 0} (upper_rune lower_rune : ℕ → ℕ) where
  prepared_header-authorization :
      (c : ClientConfig) (r : Request E) (body : PreparedBody E) (header : Header) (key : Text)
      → is_named lower_rune authorization key ≡ true
      → values_of key (prepared_header upper_rune lower_rune c r body header) ≡ values_of key header
  unfolding canonical_from bytes_eq
  prepared_header-authorization c r body header key named =
      let other =
        λ (name : Text) (apart : is_named lower_rune authorization (canonical_key name) ≡ false).
          other_key lower_rune (canonical_key name) key apart named in
      prepared_header-values_of upper_rune lower_rune c r body header key
        (other header_request_id refl) (other header_session_id refl) (other header_api_token refl)
        (other content_type_name refl)

  abbrev given_request :
      ClientConfig → Request E → Header → Text → PreparedBody E → ResponseMode → PreparedRequest E
  given_request c r header path body mode = record {
    method = to_upper upper_rune (trim_space r.method);
    path = path;
    query = r.query;
    header =
        prepared_header upper_rune lower_rune c (record r { header = some header }) body header;
    response_mode = mode;
    request_id = request_id_of upper_rune lower_rune c (record r { header = some header }) header;
    body = body;
  }

  prepare-given :
      (c : ClientConfig) (r : Request E) (header : Header) (path : Text) (body : PreparedBody E)
      (mode : ResponseMode)
      → is_empty (to_upper upper_rune (trim_space r.method)) ≡ false
      → map_error {B = PrepareError E} path_refused (canonical_api_path r.path) ≡ ok path
      → (is_remote c.endpoint_mode
          && is_remote_blocked_operation upper_rune
              (to_upper upper_rune (trim_space r.method))
              path)
        ≡ false
      → map_error body_refused (body_of r.body) ≡ ok body
      → validate_caller_auth_headers lower_rune header ≡ ok tt
      → validate_response_mode {E = E} r.response_mode ≡ ok mode
      → prepare upper_rune lower_rune c (record r { header = some header })
        ≡ ok (given_request c r header path body mode)
  unfolding prepare
  prepare-given c r header path body mode has_method found open_here has_body valid has_mode =
      rw (has_method, found, open_here, has_body, valid, has_mode) refl

  -- The credentials of a caller pass where the first values are empty: to a request that Prepare takes
  -- without headers, let any headers be added whose Authorization and X-API-Token keys, in any case, have
  -- an empty first value or no value. Prepare takes it too, and sends each Authorization key with all of
  -- its values, whatever stands behind the first.
  pub prepare-IsUnread :
      (c : ClientConfig) (r : Request E) (header : Header) (bare : PreparedRequest E)
      → prepare upper_rune lower_rune c (record r { header = none }) ≡ ok bare
      → All (IsUnread lower_rune authorization) header
      → All (IsUnread lower_rune header_api_token) header
      → (p : PreparedRequest E) × (prepare upper_rune lower_rune c
            (record r { header = some header })
          ≡ ok p)
        × ((key : Text)
            → is_named lower_rune authorization key ≡ true
            → values_of key p.header ≡ values_of key header)
  unfolding prepare
  prepare-IsUnread c r header bare taken first second =
      let method = to_upper upper_rune (trim_space r.method) in
      let (has_method, h1) = refuse_if-passed (is_empty method) method_empty _ taken in
      let (path, found, h2) =
        bind_inversion (map_error path_refused (canonical_api_path r.path)) _ h1 in
      let (open_here, h3) =
        refuse_if-passed
          (is_remote c.endpoint_mode && is_remote_blocked_operation upper_rune method path) blocked
          _ h2 in
      let (body, has_body, h4) = bind_inversion (map_error body_refused (body_of r.body)) _ h3 in
      let (_, _, h5) =
        next_inversion (map_error header_refused (validate_caller_auth_headers lower_rune [])) _
          h4 in
      let (mode, has_mode, _) = bind_inversion (validate_response_mode r.response_mode) _ h5 in
      let valid = validate_caller_auth_headers-IsUnread lower_rune header first second in
      (
        given_request c r header path body mode,
        prepare-given c r header path body mode has_method found open_here has_body valid has_mode,
        prepared_header-authorization c (record r { header = some header }) body header,
      )
