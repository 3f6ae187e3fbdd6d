-- ===== src/Display/Names.antt =====
-- application_validation.go: application names and asset paths. A text is the list of its bytes.
pub mod Safe
use busylib_go.Prelude.{
  ℕ, Bool, true, false, ◌&&◌, ◌||◌, not, List, [], ◌∷◌, ◌++◌, Result, ok, err, ◌>>=◌, ◌>>◌,
  refuse_if, ltb, leb, ◌==◌, if◌then◌else◌, length,
}
use busylib_go.Prelude.Bytes.{Bytes, bytes, bytes_eq}

pub data NameError : Type 0 where
  name_length name_characters : NameError

pub data PathError : Type 0 where
  bad_application : NameError → PathError
  one_source_only path_length path_characters unsafe_path traversal_segment not_shared : PathError

abbrev pub max_application_name_bytes : ℕ
max_application_name_bytes = 31

abbrev pub max_uploaded_asset_path_bytes : ℕ
max_uploaded_asset_path_bytes = 64

abbrev pub max_stock_asset_path_bytes : ℕ
max_stock_asset_path_bytes = 256

-- `[A-Za-z0-9._-]`, and with `/` the characters of a path.
abbrev pub is_name_char : ℕ → Bool
is_name_char c =
    leb b'A' c && leb c b'Z'
    || leb b'a' c && leb c b'z'
    || leb b'0' c && leb c b'9'
    || c == b'.'
    || c == b'_'
    || c == b'-'

abbrev pub is_path_char : ℕ → Bool
is_path_char c = is_name_char c || c == b'/'

unfoldable pub all_of : (ℕ → Bool) → Bytes → Bool
all_of p [] = true
all_of p (c ∷ s) = p c && all_of p s

-- A match of `^[…]+$`
abbrev pub matches_all : (ℕ → Bool) → Bytes → Bool
matches_all p [] = false
matches_all p (c ∷ s) = all_of p (c ∷ s)

unfoldable pub validate_application_name : Bytes → Result NameError (Unit {0})
validate_application_name value =
    if ltb (length value) 1 || ltb max_application_name_bytes (length value)
    then err name_length
    else refuse_if (not (matches_all is_name_char value)) name_characters

-- strings.HasPrefix, HasSuffix and Contains at the patterns that the code uses.
unfoldable pub has_prefix : Bytes → Bytes → Bool
has_prefix s [] = true
has_prefix [] (_ ∷ _) = false
has_prefix (c ∷ s) (d ∷ pattern) = c == d && has_prefix s pattern

unfoldable pub ends_with : ℕ → Bytes → Bool
ends_with c [] = false
ends_with c (d ∷ []) = d == c
ends_with c (_ ∷ d ∷ s) = ends_with c (d ∷ s)

unfoldable pub contains_pair : ℕ → Bytes → Bool
contains_pair c [] = false
contains_pair c (_ ∷ []) = false
contains_pair c (d ∷ e ∷ s) = d == c && e == c || contains_pair c (e ∷ s)

-- strings.Split(value, "/"): the segment being read, and those behind it.
split_from : Bytes → Bytes → List Bytes
split_from segment [] = segment ∷ []
split_from segment (c ∷ s) =
    let closed = split_from [] s in
    let longer = split_from (segment ++ c ∷ []) s in if c == b'/' then segment ∷ closed else longer

unfoldable pub split_slash : Bytes → List Bytes
unfolding split_from
split_slash value = split_from [] value

-- The loop over the segments.
unfoldable pub has_dot_segment : List Bytes → Bool
has_dot_segment [] = false
has_dot_segment (segment ∷ segments) = bytes_eq segment (bytes ".") || has_dot_segment segments

unfoldable pub validate_safe_asset_path : Bytes → ℕ → Result PathError (Unit {0})
validate_safe_asset_path value maximum_bytes =
    if ltb (length value) 1 || ltb maximum_bytes (length value)
    then err path_length
    else if not (matches_all is_path_char value)
    then err path_characters
    else if has_prefix value (bytes "/")
        || ends_with b'/' value
        || contains_pair b'/' value
        || contains_pair b'.' value
    then err unsafe_path
    else refuse_if (has_dot_segment (split_slash value)) traversal_segment

unfoldable pub validate_uploaded_asset_path : Bytes → Result PathError (Unit {0})
validate_uploaded_asset_path value = validate_safe_asset_path value max_uploaded_asset_path_bytes

unfoldable pub validate_stock_asset_path : Bytes → Result PathError (Unit {0})
validate_stock_asset_path value = do
  _ ← validate_safe_asset_path value max_stock_asset_path_bytes
  refuse_if (not (has_prefix value (bytes "shared/"))) not_shared

abbrev is_present : Bytes → Bool
is_present [] = false
is_present (_ ∷ _) = true

abbrev as_path_error : Result NameError (Unit {0}) → Result PathError (Unit {0})
as_path_error (ok u) = ok u
as_path_error (err e) = err (bad_application e)

unfoldable pub validate_asset_source : Bytes → Bytes → Bytes → Result PathError (Unit {0})
validate_asset_source application_name path stock_path = do
  _ ← as_path_error (validate_application_name application_name)
  if is_present path && is_present stock_path
        || not (is_present path) && not (is_present stock_path)
      then err one_source_only
      else (if is_present path
          then validate_uploaded_asset_path path
          else validate_stock_asset_path stock_path)
