-- ===== src/Client/Prepare/Guarded.antt =====
-- What a request that Prepare of request.go lets through is.
use busylib_go.Prelude.{
  ℕ, ◌≡◌, refl, subst, Bool, true, false, ◌&&◌, ◌||◌, ok, arith, Bool-cases, All, inl, inr,
  if◌then◌else◌, refuse_if-passed, bind_inversion, next_inversion, ok_injective, Result, err,
}
use busylib_go.Prelude.Bytes.{bytes, bytes_eq}
use busylib_go.Usb.Command.{Text, is_empty, trim_space}
use busylib_go.Client.Path.{
  canonical_api_path, with_api, slashed, has_prefix, contains_text, is_remote_blocked_operation,
  path_empty, path_absolute, path_outside, to_upper,
}
use busylib_go.Client.Headers.{get, authorization, header_request_id, validate_caller_auth_headers}
use busylib_go.Client.Headers.Clean.{IsGiven, IsWithout, validate_caller_auth_headers-IsWithout}
use busylib_go.Client.Prepare.Sent.{
  IsConfigured, prepared_header-identified, prepared_header-no_authorization,
  prepared_header-own_token,
}
use busylib_go.Client.Prepare.{
  ClientConfig, Request, PreparedRequest, method_empty, blocked, path_refused, body_refused,
  header_refused, map_error, validate_response_mode, clone_header, body_of, is_remote, prepare,
}

-- A path of the API.
abbrev pub is_api_path : Text → Bool
is_api_path path = bytes_eq path (bytes "/api") || has_prefix (bytes "/api/") path

pub record IsGuarded {E : Type 0} (upper_rune lower_rune : ℕ → ℕ) (c : ClientConfig)
    (p : PreparedRequest E) : Type 0 where
  pub has_method : is_empty p.method ≡ false
  pub in_api : is_api_path p.path ≡ true
  pub not_blocked :
      is_remote c.endpoint_mode ≡ true
      → is_remote_blocked_operation upper_rune p.method p.path ≡ false
  pub no_authorization : All (IsWithout lower_rune authorization) p.header
  pub own_token : All (IsConfigured lower_rune c) p.header
  pub identified : get header_request_id p.header ≡ p.request_id

map_error-ok :
    {A B C : Type 0} (f : A → B) (r : Result A C) {c : C} → map_error f r ≡ ok c → r ≡ ok c
map_error-ok f (err e) h = cc
map_error-ok f (ok c) h = cc

slashed-first : (path : Text) → has_prefix (bytes "/") (slashed path) ≡ true
unfolding has_prefix
slashed-first path = elim (Bool-cases (has_prefix (bytes "/") path)) [
  | inl already ↦ rw already already
  | inr missing ↦ rw missing refl
]

with_api-is_api_path :
    (path : Text) → has_prefix (bytes "/") path ≡ true → is_api_path (with_api path) ≡ true
unfolding has_prefix
with_api-is_api_path path h = elim (Bool-cases (is_api_path path)) [
  | inl already ↦ rw already already
  | inr missing ↦ rw missing ground (arith, h)
]

-- A value behind three refusals.
refused_or :
    {E A : Type 0} (a b c : Bool) (e f g : E) (x : A) {y : A}
    → (if a then err e else if b then err f else if c then err g else ok x) ≡ ok y
    → x ≡ y
refused_or false false false e f g x h = cc
refused_or false false true e f g x h = cc
refused_or false true c e f g x h = cc
refused_or true b c e f g x h = cc

canonical_api_path-is_api_path :
    (raw path : Text) → canonical_api_path raw ≡ ok path → is_api_path path ≡ true
unfolding canonical_api_path
canonical_api_path-is_api_path raw path h =
    let trimmed = trim_space raw in
    let same =
      refused_or (is_empty trimmed) (contains_text (bytes "://") trimmed)
        (has_prefix (bytes "/busybar") trimmed) path_empty path_absolute path_outside
        (with_api (slashed trimmed)) h in
    subst (λ p. is_api_path p ≡ true) same
      (with_api-is_api_path (slashed trimmed) (slashed-first trimmed))

module _ {E : Type 0} (upper_rune lower_rune : ℕ → ℕ) where
  -- A request that is let through has a method, a path of the API that a remote client may use, no
  -- Authorization, at most the token of the client's own configuration, and its identifier: if each key of
  -- the caller's that has values has a first one that is not empty.
  pub prepare-IsGuarded :
      (c : ClientConfig) (r : Request E) (p : PreparedRequest E)
      → All IsGiven (clone_header r.header)
      → prepare upper_rune lower_rune c r ≡ ok p
      → IsGuarded upper_rune lower_rune c p
  unfolding prepare
  prepare-IsGuarded c r p g h =
      let method = to_upper upper_rune (trim_space r.method) in
      let header = clone_header r.header in
      let (has_method, h1) = refuse_if-passed (is_empty method) method_empty _ h in
      let (path, found, h2) =
        bind_inversion (map_error path_refused (canonical_api_path r.path)) _ h1 in
      let (not_blocked, h3) =
        refuse_if-passed
          (is_remote c.endpoint_mode && is_remote_blocked_operation upper_rune method path) blocked
          _ h2 in
      let (body, _, h4) = bind_inversion (map_error body_refused (body_of r.body)) _ h3 in
      let (_, valid, h5) =
        next_inversion (map_error header_refused (validate_caller_auth_headers lower_rune header)) _
          h4 in
      let (mode, _, h6) = bind_inversion (validate_response_mode r.response_mode) _ h5 in
      let (authorized, untokened) =
        validate_caller_auth_headers-IsWithout lower_rune header g
          (map_error-ok header_refused _ valid) in
      subst (IsGuarded upper_rune lower_rune c) (ok_injective h6) (record {
        has_method = has_method;
        in_api = canonical_api_path-is_api_path r.path path (map_error-ok path_refused _ found);
        not_blocked = λ remote. ground (arith, remote, not_blocked);
        no_authorization =
            prepared_header-no_authorization upper_rune lower_rune c r body header authorized;
        own_token = prepared_header-own_token upper_rune lower_rune c r body header untokened;
        identified = prepared_header-identified upper_rune lower_rune c r body header;
      })
