-- ===== src/Client/Path.antt =====
-- request.go, canonicalAPIPath, and internal/api/metadata.go, IsRemoteBlockedOperation. Texts are lists
-- of code points; what the Unicode tables say of letters beyond ASCII is a parameter.
use busylib_go.Prelude.{
  ℕ, ◌+◌, ◌-◌, Bool, true, false, ◌&&◌, ◌||◌, List, [], ◌∷◌, ◌++◌, map, reverse, Result, ok, err,
  ltb, leb, ◌==◌, if◌then◌else◌,
}
use busylib_go.Prelude.Bytes.{bytes, bytes_eq}
use busylib_go.Usb.Command.{Text, trim_space, is_empty}

pub data PathError : Type 0 where
  path_empty path_absolute path_outside : PathError

-- strings.HasPrefix
unfoldable pub has_prefix : Text → Text → Bool
has_prefix [] s = true
has_prefix (p ∷ prefix) [] = false
has_prefix (p ∷ prefix) (c ∷ s) = p == c && has_prefix prefix s

-- strings.Contains
unfoldable pub contains_text : Text → Text → Bool
contains_text pattern [] = is_empty pattern
contains_text pattern (c ∷ s) = has_prefix pattern (c ∷ s) || contains_text pattern s

abbrev pub slashed : Text → Text
slashed path = if has_prefix (bytes "/") path then path else (47 ∷ path)

abbrev pub with_api : Text → Text
with_api path =
    if bytes_eq path (bytes "/api") || has_prefix (bytes "/api/") path
    then path
    else (bytes "/api" ++ path)

unfoldable pub canonical_api_path : Text → Result PathError Text
canonical_api_path raw =
    let path = trim_space raw in
    if is_empty path
    then err path_empty
    else if contains_text (bytes "://") path
    then err path_absolute
    else if has_prefix (bytes "/busybar") path
    then err path_outside
    else ok (with_api (slashed path))

-- strings.TrimSuffix(path, "/"), from the end.
abbrev pub drop_slash : Text → Text
drop_slash [] = []
drop_slash (c ∷ s) = if c == 47 then s else (c ∷ s)

abbrev pub trim_slash : Text → Text
trim_slash path =
    if bytes_eq path (bytes "/api/") then path else reverse (drop_slash (reverse path))

abbrev pub member : Text → List Text → Bool
member s [] = false
member s (t ∷ texts) = let rest = member s texts in bytes_eq s t || rest

abbrev pub remote_blocked_operations : List Text
remote_blocked_operations =
    bytes "POST /api/update"
    ∷ bytes "DELETE /api/account"
    ∷ bytes "PUT /api/account/backend"
    ∷ bytes "POST /api/account/link"
    ∷ bytes "POST /api/wifi/connect"
    ∷ bytes "POST /api/wifi/disconnect"
    ∷ bytes "GET /api/wifi/networks"
    ∷ []

-- strings.ToUpper and strings.ToLower, with the letters beyond ASCII as a parameter.
abbrev pub to_upper : (ℕ → ℕ) → Text → Text
to_upper upper_rune =
    map (λ c. if leb 97 c && leb c 122 then c - 32 else (if ltb c 128 then c else upper_rune c))

abbrev pub to_lower : (ℕ → ℕ) → Text → Text
to_lower lower_rune =
    map (λ c. if leb 65 c && leb c 90 then c + 32 else (if ltb c 128 then c else lower_rune c))

abbrev pub operation_id : (ℕ → ℕ) → Text → Text → Text
operation_id upper_rune method path = to_upper upper_rune method ++ (32 ∷ path)

unfoldable pub is_remote_blocked_operation : (ℕ → ℕ) → Text → Text → Bool
is_remote_blocked_operation upper_rune method path =
    member (operation_id upper_rune method (trim_slash path)) remote_blocked_operations
