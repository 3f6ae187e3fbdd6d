-- ===== src/Client/Headers.antt =====
-- request.go: the headers of a request. A map from keys to values is a list, in the order in which a
-- range over it goes.
pub mod Clean
use busylib_go.Prelude.{
  ℕ, ◌+◌, ◌-◌, Bool, true, false, ◌&&◌, ◌||◌, not, List, [], ◌∷◌, Result, ok, err, ◌>>◌, refuse_if,
  ltb, leb, ◌==◌, if◌then◌else◌,
}
use busylib_go.Prelude.Bytes.{bytes, bytes_eq}
use busylib_go.Usb.Command.{Text, is_empty}
use busylib_go.Client.Path.{to_lower}

abbrev pub Header : Type 0
Header = List (Text × List Text)

pub data AuthError : Type 0 where
  authorization_given token_given : AuthError

abbrev pub header_api_token : Text
header_api_token = bytes "X-API-Token"

abbrev pub header_request_id : Text
header_request_id = bytes "X-Request-ID"

abbrev pub header_session_id : Text
header_session_id = bytes "x-session-id"

abbrev pub header_api_sem_ver : Text
header_api_sem_ver = bytes "X-API-Sem-Ver"

abbrev pub authorization : Text
authorization = bytes "Authorization"

abbrev pub content_type_name : Text
content_type_name = bytes "Content-Type"

-- textproto.CanonicalMIMEHeaderKey, on the letters of ASCII: the package sets and gets only keys of
-- letters and dashes.
unfoldable pub canonical_from : Bool → Text → Text
canonical_from upper [] = []
canonical_from upper (c ∷ name) =
    (if upper && (leb 97 c && leb c 122)
      then c - 32
      else (if not upper && (leb 65 c && leb c 90) then c + 32 else c))
    ∷ canonical_from (c == 45) name

abbrev pub canonical_key : Text → Text
canonical_key = canonical_from true

abbrev pub first_value : List Text → Text
first_value [] = []
first_value (v ∷ _) = v

-- The values of a key as it stands.
unfoldable pub values_of : Text → Header → List Text
values_of key [] = []
values_of key ((k, values) ∷ header) =
    let rest = values_of key header in if bytes_eq k key then values else rest

-- http.Header.Get
abbrev pub get : Text → Header → Text
get name header = first_value (values_of (canonical_key name) header)

unfoldable pub remove : Text → Header → Header
remove key [] = []
remove key ((k, values) ∷ header) =
    let rest = remove key header in if bytes_eq k key then rest else ((k, values) ∷ rest)

-- http.Header.Set
abbrev pub put : Text → Text → Header → Header
put name value header = let key = canonical_key name in (key, value ∷ []) ∷ remove key header

abbrev pub has_values : List Text → Bool
has_values [] = false
has_values (_ ∷ _) = true

module _ (lower_rune : ℕ → ℕ) where
  abbrev pub is_named : Text → Text → Bool
  is_named name key = bytes_eq (to_lower lower_rune key) (to_lower lower_rune name)

  -- The range of headerValue.
  unfoldable pub any_case_value : Text → Header → Text
  any_case_value name [] = []
  any_case_value name ((key, values) ∷ header) =
      let rest = any_case_value name header in
      if is_named name key && has_values values then first_value values else rest

  unfoldable pub header_value : Header → Text → Text
  header_value header name =
      let value = get name header in if is_empty value then any_case_value name header else value

  unfoldable pub validate_caller_auth_headers : Header → Result AuthError (Unit {0})
  validate_caller_auth_headers header = do
    refuse_if (not (is_empty (header_value header authorization))) authorization_given
    refuse_if (not (is_empty (header_value header header_api_token))) token_given
