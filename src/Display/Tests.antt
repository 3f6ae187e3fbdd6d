-- ===== src/Display/Tests.antt =====
-- Runs of the display checks, and their theorems at concrete requests.
use busylib_go.Prelude.{
  ℕ, ◌≤◌, ◌≡◌, ◌↔◌, refl, List, [], ◌∷◌, some, ok, err, length, get_elem?, take, All,
}
use busylib_go.Prelude.Int.{pos}
use busylib_go.Prelude.Bytes.{Bytes, bytes, bytes_eq}
use busylib_go.Display.Names.{
  all_of, split_slash, validate_application_name, validate_safe_asset_path, validate_asset_source,
  validate_uploaded_asset_path, has_prefix, ends_with, contains_pair, has_dot_segment,
}
use busylib_go.Display.Names.Safe.{
  IsEntry, IsSource, validate_safe_asset_path-IsEntry, validate_asset_source-IsSource,
}
use busylib_go.Display.Text.{sanitize_display_text, join, clean_runes, fields, is_display_symbol}
use busylib_go.Usb.Command.{is_space}
use busylib_go.Display.Text.Clean.{IsWord, sanitize_display_text-IsWord}
use busylib_go.Display.Fields.{normalize_color, is_color, one_of}
use busylib_go.Display.Elements.{
  DisplayElement, text_element, nil_pointer, DisplayElements, new_text_element,
  default_display_element,
}
use busylib_go.Display.Checks.{
  must_not_be_nil, display_element_info, validate_display_element, validate_base_display_element,
  validate_text_element,
}
use busylib_go.Display.Request.{
  in_element, check_element, validate, validate_led_color, validate_elements,
}
use busylib_go.Display.Request.Accepted.{IsAccepted, validate_iff, validate_first_element}

abbrev icon_path : Bytes
icon_path = bytes "a/b.png"

icon_path_safe : validate_safe_asset_path icon_path 64 ≡ ok tt
unfolding validate_safe_asset_path all_of has_prefix ends_with contains_pair split_slash
    has_dot_segment bytes_eq
icon_path_safe = refl

validate_safe_asset_path-IsEntry_example :
    (1 ≤ length icon_path) × (length icon_path ≤ 64) × All IsEntry (split_slash icon_path)
validate_safe_asset_path-IsEntry_example =
    validate_safe_asset_path-IsEntry icon_path 64 icon_path_safe

icon_source : validate_asset_source (bytes "app") icon_path [] ≡ ok tt
unfolding validate_asset_source validate_application_name validate_uploaded_asset_path
    validate_safe_asset_path all_of has_prefix ends_with contains_pair split_slash has_dot_segment
    bytes_eq
icon_source = refl

validate_asset_source-IsSource_example :
    (validate_application_name (bytes "app") ≡ ok tt) × IsSource icon_path []
validate_asset_source-IsSource_example =
    validate_asset_source-IsSource (bytes "app") icon_path [] icon_source

-- " a", a tab, a bell, "b", a weather symbol
abbrev messy_text : List ℕ
messy_text = 0x20 ∷ 0x61 ∷ 0x09 ∷ 0x07 ∷ 0x62 ∷ 0x2600 ∷ []

sanitized_messy : sanitize_display_text messy_text ≡ 0x61 ∷ 0x20 ∷ 0x62 ∷ []
unfolding sanitize_display_text clean_runes fields join is_space is_display_symbol
sanitized_messy = refl

sanitize_display_text-IsWord_example :
    (words : List (List ℕ)) × (sanitize_display_text messy_text ≡ join words) × All IsWord words
sanitize_display_text-IsWord_example = sanitize_display_text-IsWord messy_text

abbrev half_red : Bytes
half_red = bytes "#ff000080"

half_red_normal : normalize_color half_red ≡ some (bytes "#FF000080")
unfolding normalize_color is_color all_of
half_red_normal = refl

-- A request of two elements, of which the second is a nil pointer.
abbrev sample_request : DisplayElements
sample_request = record {
  application_name = bytes "app";
  priority = pos 50;
  led_notification_color = [];
  elements =
      text_element (new_text_element (bytes "t") (bytes "hi") (bytes "small")) ∷ nil_pointer ∷ [];
}

validate_iff_example : (validate sample_request ≡ ok tt) ↔ IsAccepted sample_request
validate_iff_example = validate_iff sample_request

second_is_nil : validate sample_request ≡ err (in_element 1 must_not_be_nil)
unfolding validate validate_application_name all_of validate_led_color validate_elements
    validate_display_element display_element_info validate_base_display_element
    validate_text_element new_text_element default_display_element one_of bytes_eq
second_is_nil = refl

validate_first_element_example :
    (e : DisplayElement) × (get_elem? sample_request.elements 1 ≡ some e)
    × (check_element sample_request.application_name e ≡ err must_not_be_nil)
    × All
        (λ e'. check_element sample_request.application_name e' ≡ ok tt)
        (take 1 sample_request.elements)
validate_first_element_example = validate_first_element sample_request second_is_nil
