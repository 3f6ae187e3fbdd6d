-- ===== src/Display/Checks.antt =====
-- display_validation.go: the checks of one element. An error is named for the check that fails.
use busylib_go.Prelude.{
  ℕ, suc, ◌-◌, ◌^◌, Bool, true, false, ◌&&◌, ◌||◌, not, List, [], ◌∷◌, Option, none, some, Result,
  ok, err, ◌>>=◌, ◌>>◌, refuse_if, ltb, ◌==◌, if◌then◌else◌, length,
}
use busylib_go.Prelude.Int.{ℤ, pos, negsuc}
use busylib_go.Prelude.Bytes.{Bytes, bytes, bytes_eq}
use busylib_go.Display.Names.{PathError, validate_asset_source}
use busylib_go.Display.Fields.{
  normalize_color, parse_int64, outside, outside_if_set, is_positive, one_of,
}
use busylib_go.Display.Elements.{
  BaseDisplayElement, TextElement, XpmBitmapElement, CountdownElement, RectangleElement,
  DisplayElement, text_element, image_element, animation_element, xpm_bitmap_element,
  countdown_element, rectangle_element, nil_pointer, nil_element, display_front, display_back,
  display_aligns, fonts, countdown_directions, countdown_show_hours, rectangle_fills,
}

pub data ElementError : Type 0 where
  must_not_be_nil timeout_range display_until_text exclusive_lifetimes x_range y_range :
      ElementError
  z_index_range unsupported_display unsupported_align unsupported_font bad_color : ElementError
  width_range scroll_range empty_content opacity_range bad_timestamp : ElementError
  unsupported_direction unsupported_show_hours height_range radius_range : ElementError
  unsupported_fill too_many_colors gradient_colors border_range bad_border_color : ElementError
  bad_fill_color : ℕ → ElementError
  bad_asset : PathError → ElementError

abbrev pub max_int32 : ℤ
max_int32 = pos (2 ^ 31 - 1)

abbrev pub min_int32 : ℤ
min_int32 = negsuc (2 ^ 31 - 1)

abbrev pub max_int16 : ℤ
max_int16 = pos 32767

abbrev pub min_int16 : ℤ
min_int16 = negsuc 32767

abbrev pub max_uint32 : ℤ
max_uint32 = pos (2 ^ 32 - 1)

abbrev is_set : Bytes → Bool
is_set [] = false
is_set (_ ∷ _) = true

-- The timestamp of `display_until`, which is 0 where the field is empty.
display_until_of : Bytes → Result ElementError ℤ
display_until_of [] = ok (pos 0)
display_until_of (c ∷ s) = elim (parse_int64 (c ∷ s)) [
  | none ↦ err display_until_text
  | some parsed ↦ ok parsed
]

is_positive_if_set : Option ℤ → Bool
is_positive_if_set none = false
is_positive_if_set (some value) = is_positive value

unfoldable pub validate_base_display_element : BaseDisplayElement → Result ElementError (Unit {0})
unfolding display_until_of is_positive_if_set
validate_base_display_element base = do
  refuse_if (outside_if_set min_int32 max_int32 base.timeout) timeout_range
  until ← display_until_of base.display_until
  refuse_if (is_positive_if_set base.timeout && is_positive until) exclusive_lifetimes
  refuse_if (outside_if_set min_int16 max_int16 base.x) x_range
  refuse_if (outside_if_set min_int16 max_int16 base.y) y_range
  refuse_if (outside_if_set (pos 0) max_int32 base.z_index) z_index_range
  refuse_if
      (is_set base.display
        && not (bytes_eq base.display display_front)
        && not (bytes_eq base.display display_back))
      unsupported_display
  refuse_if (is_set base.align && not (one_of base.align display_aligns)) unsupported_align

-- An optional colour.
validate_color : Bytes → ElementError → Result ElementError (Unit {0})
validate_color [] e = ok tt
validate_color (c ∷ s) e = elim (normalize_color (c ∷ s)) [ none ↦ err e | some _ ↦ ok tt ]

validate_optional_percent : Option ℤ → Result ElementError (Unit {0})
validate_optional_percent value = refuse_if (outside_if_set (pos 0) (pos 100) value) opacity_range

unfoldable pub validate_text_element : TextElement → Result ElementError (Unit {0})
unfolding validate_color
validate_text_element element = do
  refuse_if (not (one_of element.font fonts)) unsupported_font
  validate_color element.color bad_color
  refuse_if (outside (pos 0) max_uint32 element.width) width_range
  refuse_if
      (outside (pos 0) max_uint32 element.scroll_rate
        || outside (pos 0) max_uint32 element.scroll_start_delay
        || outside (pos 0) max_uint32 element.scroll_repeat_delay)
      scroll_range

unfoldable pub validate_xpm_bitmap_element : XpmBitmapElement → Result ElementError (Unit {0})
unfolding validate_optional_percent
validate_xpm_bitmap_element element = do
  refuse_if (not (is_set element.content)) empty_content
  validate_optional_percent element.opacity

validate_timestamp : Bytes → Result ElementError (Unit {0})
validate_timestamp [] = err bad_timestamp
validate_timestamp (c ∷ s) = elim (parse_int64 (c ∷ s)) [
  | none ↦ err bad_timestamp
  | some _ ↦ ok tt
]

unfoldable pub validate_countdown_element : CountdownElement → Result ElementError (Unit {0})
unfolding validate_timestamp validate_color
validate_countdown_element element = do
  validate_timestamp element.timestamp
  validate_color element.color bad_color
  refuse_if (not (one_of element.direction countdown_directions)) unsupported_direction
  refuse_if (not (one_of element.show_hours countdown_show_hours)) unsupported_show_hours

-- The loop over the fill colours, from the index of the first.
validate_fill_colors : ℕ → List Bytes → Result ElementError (Unit {0})
validate_fill_colors index [] = ok tt
validate_fill_colors index (color ∷ colors) = elim (normalize_color color) [
  | none ↦ err (bad_fill_color index)
  | some _ ↦ validate_fill_colors (suc index) colors
]

validate_fill_count : Bytes → ℕ → Result ElementError (Unit {0})
validate_fill_count fill count =
    if bytes_eq fill (bytes "solid")
    then refuse_if (ltb 1 count) too_many_colors
    else if bytes_eq fill (bytes "gradient_h") || bytes_eq fill (bytes "gradient_v")
    then refuse_if (not (count == 0) && not (count == 2)) gradient_colors
    else refuse_if (ltb 2 count) too_many_colors

unfoldable pub validate_rectangle_element : RectangleElement → Result ElementError (Unit {0})
unfolding validate_fill_colors validate_fill_count validate_color
validate_rectangle_element element = do
  refuse_if (outside (pos 1) max_int32 element.width) width_range
  refuse_if (outside (pos 1) max_int32 element.height) height_range
  refuse_if (outside (pos 0) max_int32 element.radius) radius_range
  refuse_if (is_set element.fill && not (one_of element.fill rectangle_fills)) unsupported_fill
  validate_fill_colors 0 element.fill_colors
  validate_fill_count element.fill (length element.fill_colors)
  refuse_if (outside_if_set (pos 0) max_int32 element.border_width) border_range
  validate_color element.border_color bad_border_color

validate_asset : Bytes → Bytes → Bytes → Option ℤ → Result ElementError (Unit {0})
unfolding validate_optional_percent
validate_asset application_name path stock_path opacity =
    elim (validate_asset_source application_name path stock_path) [
      | err e ↦ err (bad_asset e)
      | ok _ ↦ validate_optional_percent opacity
    ]

-- The base of an element and its own check.
unfoldable pub display_element_info :
    Bytes
    → DisplayElement
    → Result ElementError (BaseDisplayElement × Result ElementError (Unit {0}))
unfolding validate_asset
display_element_info application_name (text_element e) = ok (e.base, validate_text_element e)
display_element_info application_name (image_element e) =
    ok (e.base, validate_asset application_name e.path e.stock_path e.opacity)
display_element_info application_name (animation_element e) =
    ok (e.base, validate_asset application_name e.path e.stock_path e.opacity)
display_element_info application_name (xpm_bitmap_element e) =
    ok (e.base, validate_xpm_bitmap_element e)
display_element_info application_name (countdown_element e) =
    ok (e.base, validate_countdown_element e)
display_element_info application_name (rectangle_element e) =
    ok (e.base, validate_rectangle_element e)
display_element_info application_name nil_pointer = err must_not_be_nil
display_element_info application_name nil_element = err must_not_be_nil

unfoldable pub validate_display_element : Bytes → DisplayElement → Result ElementError (Unit {0})
validate_display_element application_name element = do
  info ← display_element_info application_name element
  validate_base_display_element info.0
  info.1
