-- ===== src/Display/Request.antt =====
-- display_validation.go: Validate and Warnings of a display request, and the checks of the requests
-- that clear elements or read the screen.
pub mod Accepted
pub mod Warned
use busylib_go.Prelude.{
  ℕ, suc, Bool, true, false, ◌&&◌, ◌||◌, not, List, [], ◌∷◌, ◌++◌, Option, none, some, Result, ok,
  err, ◌>>=◌, ◌>>◌, refuse_if, ltb, ◌==◌, if◌then◌else◌, length,
}
use busylib_go.Prelude.Int.{ℤ, pos, ltb_ℤ}
use busylib_go.Prelude.Bytes.{Bytes, bytes, bytes_eq}
use busylib_go.Display.Names.{NameError, validate_application_name, is_name_char, matches_all}
use busylib_go.Display.Fields.{normalize_color, outside}
use busylib_go.Display.Elements.{
  BaseDisplayElement, DisplayElement, nil_element, DisplayElements, display_front, display_back,
}
use busylib_go.Display.Checks.{
  ElementError, must_not_be_nil, display_element_info, validate_display_element,
}

pub data RequestError : Type 0 where
  bad_name : NameError → RequestError
  priority_range bad_led_color no_elements too_many_elements : RequestError
  in_element : ℕ → ElementError → RequestError
  no_element_ids unsupported_screen : RequestError
  bad_element_id : ℕ → RequestError

abbrev pub max_display_elements : ℕ
max_display_elements = 100

abbrev pub named : Result NameError (Unit {0}) → Result RequestError (Unit {0})
named (ok u) = ok u
named (err e) = err (bad_name e)

abbrev pub at_element : ℕ → Result ElementError (Unit {0}) → Result RequestError (Unit {0})
at_element index (ok u) = ok u
at_element index (err e) = err (in_element index e)

-- A nil interface is refused before its element is looked at.
abbrev pub check_element : Bytes → DisplayElement → Result ElementError (Unit {0})
check_element application_name nil_element = err must_not_be_nil
check_element application_name element = validate_display_element application_name element

-- The loop over the elements, from the index of the first.
unfoldable pub validate_elements : Bytes → ℕ → List DisplayElement → Result RequestError (Unit {0})
validate_elements application_name index [] = ok tt
validate_elements application_name index (element ∷ elements) = do
  at_element index (check_element application_name element)
  validate_elements application_name (suc index) elements

unfoldable pub validate_led_color : Bytes → Result RequestError (Unit {0})
validate_led_color [] = ok tt
validate_led_color (c ∷ s) = elim (normalize_color (c ∷ s)) [
  | none ↦ err bad_led_color
  | some _ ↦ ok tt
]

unfoldable pub validate : DisplayElements → Result RequestError (Unit {0})
validate request = do
  named (validate_application_name request.application_name)
  refuse_if (outside (pos 0) (pos 100) request.priority) priority_range
  validate_led_color request.led_notification_color
  refuse_if (length request.elements == 0) no_elements
  refuse_if (ltb max_display_elements (length request.elements)) too_many_elements
  validate_elements request.application_name 0 request.elements

pub data Axis : Type 0 where
  x_axis y_axis : Axis

-- The index and the axis of a coordinate outside the display.
pub record ValidationWarning : Type 0 where
  pub element : ℕ
  pub axis : Axis

abbrev pub width_of : Bytes → ℤ
width_of display = if bytes_eq display display_back then pos 160 else pos 72

abbrev pub height_of : Bytes → ℤ
height_of display = if bytes_eq display display_back then pos 80 else pos 16

-- `*base.X < 0 || *base.X >= width`
abbrev pub is_off : Option ℤ → ℤ → Bool
is_off none size = false
is_off (some value) size = ltb_ℤ value (pos 0) || not (ltb_ℤ value size)

warn_if : Bool → ℕ → Axis → List ValidationWarning
warn_if false index axis = []
warn_if true index axis = record { element = index; axis = axis } ∷ []

base_warnings : ℕ → BaseDisplayElement → List ValidationWarning
base_warnings index base =
    warn_if (is_off base.x (width_of base.display)) index x_axis
    ++ warn_if (is_off base.y (height_of base.display)) index y_axis

-- An element that cannot be inspected is passed over.
element_warnings :
    ℕ
    → Result ElementError (BaseDisplayElement × Result ElementError (Unit {0}))
    → List ValidationWarning
element_warnings index (err _) = []
element_warnings index (ok info) = base_warnings index info.0

warnings_from : Bytes → ℕ → List DisplayElement → List ValidationWarning
warnings_from application_name index [] = []
warnings_from application_name index (element ∷ elements) =
    element_warnings index (display_element_info application_name element)
    ++ warnings_from application_name (suc index) elements

unfoldable pub warnings : DisplayElements → List ValidationWarning
unfolding warnings_from element_warnings base_warnings warn_if
warnings request = warnings_from request.application_name 0 request.elements

unfoldable pub validate_screen_display : Bytes → Result RequestError (Unit {0})
validate_screen_display display =
    refuse_if (not (bytes_eq display display_front) && not (bytes_eq display display_back))
      unsupported_screen

pub record ClearDisplayElementsRequest : Type 0 where
  pub application_name : Bytes
  pub element_ids : List Bytes

validate_element_ids : ℕ → List Bytes → Result RequestError (Unit {0})
validate_element_ids index [] = ok tt
validate_element_ids index (id ∷ ids) = do
  refuse_if (not (matches_all is_name_char id)) (bad_element_id index)
  validate_element_ids (suc index) ids

name_if_set : Bytes → Result RequestError (Unit {0})
name_if_set [] = ok tt
name_if_set (c ∷ s) = named (validate_application_name (c ∷ s))

unfoldable pub validate_clear_request : ClearDisplayElementsRequest → Result RequestError (Unit {0})
unfolding validate_element_ids name_if_set
validate_clear_request request = do
  refuse_if (length request.element_ids == 0) no_element_ids
  name_if_set request.application_name
  validate_element_ids 0 request.element_ids
