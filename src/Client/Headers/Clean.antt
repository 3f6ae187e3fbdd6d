-- ===== src/Client/Headers/Clean.antt =====
-- What the caller's headers hold once request.go has validated them, and what setting a header keeps.
use busylib_go.Prelude.{
  ℕ, ◌≡◌, refl, true, false, ◌&&◌, not, List, [], ◌∷◌, ok, arith, Bool-cases, All, inl, inr,
  refuse_if-passed, refuse_if-ok,
}
use busylib_go.Prelude.Bytes.{bytes_eq, bytes_eq_sound}
use busylib_go.Usb.Command.{Text, is_empty}
use busylib_go.Client.Headers.{
  Header, is_named, has_values, first_value, values_of, remove, put, canonical_key, any_case_value,
  header_value, validate_caller_auth_headers, authorization, header_api_token, authorization_given,
  token_given,
}

-- A key that has values has a first one that is not empty.
abbrev pub IsGiven : Text × List Text → Type 0
IsGiven (key, values) = has_values values ≡ true → is_empty (first_value values) ≡ false

module _ (lower_rune : ℕ → ℕ) where
  -- A key that is named so has no values.
  abbrev pub IsWithout : Text → Text × List Text → Type 0
  IsWithout name (key, values) = is_named lower_rune name key && has_values values ≡ false

  any_case_value-IsWithout :
      (name : Text) (header : Header)
      → All IsGiven header
      → is_empty (any_case_value lower_rune name header) ≡ true
      → All (IsWithout name) header
  unfolding any_case_value
  any_case_value-IsWithout name [] g h = tt
  any_case_value-IsWithout name ((key, values) ∷ header) (g, gs) h =
      (ground (arith, h, g), any_case_value-IsWithout name header gs (ground (arith, h, g)))

  header_value-IsWithout :
      (name : Text) (header : Header)
      → All IsGiven header
      → is_empty (header_value lower_rune header name) ≡ true
      → All (IsWithout name) header
  unfolding header_value
  header_value-IsWithout name header g h =
      any_case_value-IsWithout name header g (ground (arith, h))

  -- Headers that pass hold no Authorization and no X-API-Token.
  pub validate_caller_auth_headers-IsWithout :
      (header : Header)
      → All IsGiven header
      → validate_caller_auth_headers lower_rune header ≡ ok tt
      → All (IsWithout authorization) header × All (IsWithout header_api_token) header
  unfolding validate_caller_auth_headers
  validate_caller_auth_headers-IsWithout header g h =
      let (first, rest) =
        refuse_if-passed (not (is_empty (header_value lower_rune header authorization)))
          authorization_given _ h in
      let second =
        refuse_if-ok (not (is_empty (header_value lower_rune header header_api_token))) token_given
          rest in
      (
        header_value-IsWithout authorization header g (ground (arith, first)),
        header_value-IsWithout header_api_token header g (ground (arith, second)),
      )

-- Another key keeps its values.
pub values_of-remove :
    (key other : Text) (header : Header)
    → bytes_eq other key ≡ false
    → values_of key (remove other header) ≡ values_of key header
unfolding values_of remove
values_of-remove key other [] h = refl
values_of-remove key other ((k, values) ∷ header) h = elim (Bool-cases (bytes_eq k other)) [
  | inl same ↦ rw (same, bytes_eq_sound k other same, h) (values_of-remove key other header h)
  | inr differs ↦ rw (differs, values_of-remove key other header h) refl
]

pub values_of-put :
    (key name value : Text) (header : Header)
    → bytes_eq (canonical_key name) key ≡ false
    → values_of key (put name value header) ≡ values_of key header
unfolding values_of
values_of-put key name value header h = rw h (values_of-remove key (canonical_key name) header h)

module _ (P : Text × List Text → Type 0) where
  pub remove-All : (key : Text) (header : Header) → All P header → All P (remove key header)
  unfolding remove
  remove-All key [] h = tt
  remove-All key ((k, values) ∷ header) (h, hs) = elim (Bool-cases (bytes_eq k key)) [
    | inl same ↦ rw same (remove-All key header hs)
    | inr other ↦ rw other (h, remove-All key header hs)
  ]

  pub put-All :
      (name value : Text) (header : Header)
      → P (canonical_key name, value ∷ [])
      → All P header
      → All P (put name value header)
  put-All name value header h hs = (h, remove-All (canonical_key name) header hs)
