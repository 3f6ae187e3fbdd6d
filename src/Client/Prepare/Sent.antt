-- ===== src/Client/Prepare/Sent.antt =====
-- What the headers that Prepare of request.go sets hold, whatever the caller's were.
use busylib_go.Prelude.{
  ℕ, ◌≡◌, refl, ap, ◌∙◌, Bool, true, false, ◌&&◌, not, List, [], ◌∷◌, arith, All,
}
use busylib_go.Prelude.Bytes.{bytes_eq}
use busylib_go.Usb.Command.{Text, is_empty}
use busylib_go.Client.Headers.{
  Header, is_named, has_values, first_value, values_of, get, put, canonical_key, authorization,
  header_api_token, header_request_id, header_session_id, content_type_name, header_value,
  canonical_from,
}
use busylib_go.Client.Headers.Clean.{IsWithout, put-All, values_of-put}
use busylib_go.Client.Bodies.{PreparedBody}
use busylib_go.Client.Prepare.{
  ClientConfig, Request, is_remote, put_if, request_id_of, or_else, prepared_header,
}

-- A token is the one of a local client's configuration, by itself.
abbrev pub IsConfigured : (ℕ → ℕ) → ClientConfig → Text × List Text → Type 0
IsConfigured lower_rune c (key, values) =
    is_named lower_rune header_api_token key && has_values values ≡ true
    → (is_remote c.endpoint_mode ≡ false)
      × (is_empty c.local_access_token ≡ false)
      × (values ≡ c.local_access_token ∷ [])

put_if-All :
    (P : Text × List Text → Type 0) (test : Bool) (name value : Text) (header : Header)
    → (test ≡ true → P (canonical_key name, value ∷ []))
    → All P header
    → All P (put_if test name value header)
put_if-All P true name value header h hs = put-All P name value header (h refl) hs
put_if-All P false name value header h hs = hs

put_if-values_of :
    (key : Text) (test : Bool) (name value : Text) (header : Header)
    → bytes_eq (canonical_key name) key ≡ false
    → values_of key (put_if test name value header) ≡ values_of key header
put_if-values_of key true name value header h = values_of-put key name value header h
put_if-values_of key false name value header h = refl

without-IsConfigured :
    (lower_rune : ℕ → ℕ) (c : ClientConfig) (header : Header)
    → All (IsWithout lower_rune header_api_token) header
    → All (IsConfigured lower_rune c) header
without-IsConfigured lower_rune c [] h = tt
without-IsConfigured lower_rune c ((key, values) ∷ header) (h, hs) =
    (λ e. cc, without-IsConfigured lower_rune c header hs)

module _ {E : Type 0} (upper_rune lower_rune : ℕ → ℕ) (c : ClientConfig) (r : Request E)
    (body : PreparedBody E) (header : Header) where
  abbrev in_session : Header
  in_session =
      let given = or_else r.session_id c.session_id in
      put_if (not (is_empty given)) header_session_id given
        (put header_request_id (request_id_of upper_rune lower_rune c r header) header)

  abbrev with_token : Header
  with_token =
      put_if (not (is_remote c.endpoint_mode) && not (is_empty c.local_access_token))
        header_api_token c.local_access_token in_session

  -- What holds of the caller's entries and of those that Prepare may set holds of them all.
  prepared_header-All :
      (P : Text × List Text → Type 0)
      → ((value : Text) → P (canonical_key header_request_id, value ∷ []))
      → ((value : Text) → P (canonical_key header_session_id, value ∷ []))
      → ((value : Text) → P (canonical_key content_type_name, value ∷ []))
      → (not (is_remote c.endpoint_mode) && not (is_empty c.local_access_token) ≡ true
          → P (canonical_key header_api_token, c.local_access_token ∷ []))
      → All P header
      → All P (prepared_header upper_rune lower_rune c r body header)
  prepared_header-All P named session typed token h =
      let given = or_else r.session_id c.session_id in
      let identified =
        put header_request_id (request_id_of upper_rune lower_rune c r header) header in
      put_if-All P _ content_type_name body.content_type with_token (λ _. typed body.content_type)
        (put_if-All P _ header_api_token c.local_access_token in_session token (
          put_if-All P (not (is_empty given)) header_session_id given identified
            (λ _. session given)
            (put-All P header_request_id (request_id_of upper_rune lower_rune c r header) header
              (named _) h)))

  -- A key that Prepare does not set keeps the caller's values.
  pub prepared_header-values_of :
      (key : Text)
      → bytes_eq (canonical_key header_request_id) key ≡ false
      → bytes_eq (canonical_key header_session_id) key ≡ false
      → bytes_eq (canonical_key header_api_token) key ≡ false
      → bytes_eq (canonical_key content_type_name) key ≡ false
      → values_of key (prepared_header upper_rune lower_rune c r body header) ≡ values_of key header
  prepared_header-values_of key named session token typed =
      put_if-values_of key _ content_type_name body.content_type with_token typed
      ∙ (put_if-values_of key _ header_api_token c.local_access_token in_session token
          ∙ (put_if-values_of key (not (is_empty (or_else r.session_id c.session_id)))
                header_session_id (or_else r.session_id c.session_id)
                (put header_request_id (request_id_of upper_rune lower_rune c r header) header)
                session
              ∙ values_of-put key header_request_id (request_id_of upper_rune lower_rune c r header)
                  header named))

  pub prepared_header-identified :
      get header_request_id (prepared_header upper_rune lower_rune c r body header)
      ≡ request_id_of upper_rune lower_rune c r header
  unfolding values_of canonical_from bytes_eq
  prepared_header-identified =
      let key = canonical_key header_request_id in
      ap first_value (
        put_if-values_of key
          (not (is_empty body.content_type)
            && is_empty (header_value lower_rune with_token content_type_name))
          content_type_name body.content_type with_token refl
        ∙ (put_if-values_of key
              (not (is_remote c.endpoint_mode) && not (is_empty c.local_access_token))
              header_api_token c.local_access_token in_session refl
            ∙ put_if-values_of key (not (is_empty (or_else r.session_id c.session_id)))
                header_session_id (or_else r.session_id c.session_id)
                (put header_request_id (request_id_of upper_rune lower_rune c r header) header)
                refl))

  pub prepared_header-no_authorization :
      All (IsWithout lower_rune authorization) header
      → All
          (IsWithout lower_rune authorization)
          (prepared_header upper_rune lower_rune c r body header)
  unfolding canonical_from bytes_eq
  prepared_header-no_authorization h =
      prepared_header-All (IsWithout lower_rune authorization) (λ _. refl) (λ _. refl) (λ _. refl)
        (λ _. refl) h

  pub prepared_header-own_token :
      All (IsWithout lower_rune header_api_token) header
      → All (IsConfigured lower_rune c) (prepared_header upper_rune lower_rune c r body header)
  unfolding canonical_from bytes_eq
  prepared_header-own_token h =
      prepared_header-All (IsConfigured lower_rune c) (λ _ e. cc) (λ _ e. cc) (λ _ e. cc)
        (λ test _. (ground (arith, test), ground (arith, test), refl))
        (without-IsConfigured lower_rune c header h)
