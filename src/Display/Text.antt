-- ===== src/Display/Text.antt =====
-- display_elements.go, SanitizeDisplayText. The text is the list of its runes.
pub mod Clean
use busylib_go.Prelude.{
  ℕ, Bool, true, false, ◌&&◌, ◌||◌, not, List, [], ◌∷◌, ◌++◌, leb, ltb, ◌==◌, if◌then◌else◌,
}
use busylib_go.Usb.Command.{is_space}

-- unicode.IsControl
abbrev pub is_control : ℕ → Bool
is_control r = ltb r 0x20 || leb 0x7f r && ltb r 0xa0

unfoldable pub is_display_symbol : ℕ → Bool
is_display_symbol r =
    leb 0x1f300 r && leb r 0x1faff || leb 0x2600 r && leb r 0x27bf || r == 0x200d || r == 0xfe0f

-- The loop: white space becomes a blank, controls and symbols go.
unfoldable pub clean_runes : List ℕ → List ℕ
clean_runes [] = []
clean_runes (r ∷ runes) =
    let further = clean_runes runes in
    if is_space r
    then 0x20 ∷ further
    else if is_control r || is_display_symbol r
    then further
    else r ∷ further

-- strings.Fields: the field being read, and those behind it.
abbrev push_field : List ℕ → List (List ℕ) → List (List ℕ)
push_field [] fields = fields
push_field (c ∷ field) fields = (c ∷ field) ∷ fields

fields_from : List ℕ → List ℕ → List (List ℕ)
fields_from field [] = push_field field []
fields_from field (r ∷ runes) =
    let closed = fields_from [] runes in
    let longer = fields_from (field ++ r ∷ []) runes in
    if is_space r then push_field field closed else longer

unfoldable pub fields : List ℕ → List (List ℕ)
unfolding fields_from
fields runes = fields_from [] runes

-- strings.Join(fields, " ")
unfoldable pub join : List (List ℕ) → List ℕ
join [] = []
join (field ∷ []) = field
join (field ∷ next ∷ more) = field ++ 0x20 ∷ join (next ∷ more)

unfoldable pub sanitize_display_text : List ℕ → List ℕ
sanitize_display_text value = join (fields (clean_runes value))
