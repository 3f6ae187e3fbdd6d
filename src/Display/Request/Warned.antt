-- ===== src/Display/Request/Warned.antt =====
-- The warnings of display_validation.go, and the elements that the constructors of
-- display_elements.go build.
use busylib_go.Prelude.{
  ℕ, suc, ◌≡◌, ◌↔◌, refl, Bool, true, false, List, [], ◌∷◌, ◌++◌, Option, none, some, Result, ok,
  err, All, arith,
}
use busylib_go.Prelude.Int.{ℤ, pos, ◌≤ℤ◌, ltb_ℤ}
use busylib_go.Prelude.Bytes.{Bytes, bytes_eq}
use busylib_go.Display.Fields.{one_of}
use busylib_go.Display.Elements.{
  BaseDisplayElement, DisplayElement, DisplayElements, text_element, image_element,
  rectangle_element, fonts, default_display_element, new_text_element, new_asset_image_element,
  new_rectangle_element,
}
use busylib_go.Display.Names.{validate_asset_source}
use busylib_go.Display.Checks.{
  ElementError, max_int32, display_element_info, validate_base_display_element,
  validate_display_element, validate_text_element, validate_rectangle_element,
}
use busylib_go.Display.Request.{
  Axis, x_axis, y_axis, element_warnings, width_of, height_of, is_off, warn_if, base_warnings,
  warnings_from, warnings,
}

-- A coordinate that is absent or on the display.
abbrev pub IsOn : ℤ → Option ℤ → Type 0
IsOn size none = Unit
IsOn size (some value) = (pos 0 ≤ℤ value) × (ltb_ℤ value size ≡ true)

abbrev pub IsOnDisplay : BaseDisplayElement → Type 0
IsOnDisplay base = IsOn (width_of base.display) base.x × IsOn (height_of base.display) base.y

abbrev pub ShowsOn :
    Result ElementError (BaseDisplayElement × Result ElementError (Unit {0})) → Type 0
ShowsOn (err _) = Unit
ShowsOn (ok info) = IsOnDisplay (info.0)

is_off_iff :
    (coordinate : Option ℤ) (size : ℤ) → (is_off coordinate size ≡ false) ↔ IsOn size coordinate
is_off_iff none size = ((λ h. tt), λ h. refl)
is_off_iff (some value) size = ((λ h. ground arith), λ h. ground arith)

append-nil_parts : {A : Type 0} (xs ys : List A) → xs ++ ys ≡ [] → (xs ≡ []) × (ys ≡ [])
append-nil_parts [] ys h = (refl, h)
append-nil_parts (x ∷ xs) ys h = cc

warn_if-nil : (b : Bool) (index : ℕ) (axis : Axis) → (warn_if b index axis ≡ []) ↔ (b ≡ false)
unfolding warn_if
warn_if-nil true index axis = ((λ h. cc), λ h. cc)
warn_if-nil false index axis = ((λ h. refl), λ h. refl)

element_warnings-nil :
    (index : ℕ) (info : Result ElementError (BaseDisplayElement × Result ElementError (Unit {0})))
    → (element_warnings index info ≡ []) ↔ ShowsOn info
unfolding element_warnings base_warnings
element_warnings-nil index (err _) = ((λ h. tt), λ h. refl)
element_warnings-nil index (ok (base, _)) =
    let off_x = is_off base.x (width_of base.display) in
    let off_y = is_off base.y (height_of base.display) in
    (
      λ h.
          let (no_x, no_y) =
            append-nil_parts (warn_if off_x index x_axis) (warn_if off_y index y_axis) h in
          (
            (is_off_iff base.x (width_of base.display)).0 ((warn_if-nil off_x index x_axis).0 no_x),
            (is_off_iff base.y (height_of base.display)).0
                ((warn_if-nil off_y index y_axis).0 no_y),
          ),
      λ on. rw (
        (warn_if-nil off_x index x_axis).1 ((is_off_iff base.x (width_of base.display)).1 on.0),
        (warn_if-nil off_y index y_axis).1 ((is_off_iff base.y (height_of base.display)).1 on.1),
      ),
    )

warnings_from-nil :
    (name : Bytes) (index : ℕ) (elements : List DisplayElement)
    → (warnings_from name index elements ≡ [])
      ↔ All (λ e. ShowsOn (display_element_info name e)) elements
unfolding warnings_from
warnings_from-nil name index [] = ((λ h. tt), λ h. refl)
warnings_from-nil name index (e ∷ elements) =
    let here = element_warnings-nil index (display_element_info name e) in
    let rest = warnings_from-nil name (suc index) elements in
    (
      λ h.
          let (front, back) =
            append-nil_parts (element_warnings index (display_element_info name e))
              (warnings_from name (suc index) elements) h in
          (here.0 front, rest.0 back),
      λ on. rw (here.1 on.0, rest.1 on.1),
    )

-- There are no warnings exactly where every element that can be inspected has its coordinates, as
-- far as they are set, on its display: from 0 to below 160 and 80 for the back, else 72 and 16.
pub warnings-nil :
    (r : DisplayElements)
    → (warnings r ≡ []) ↔ All (λ e. ShowsOn (display_element_info r.application_name e)) r.elements
unfolding warnings
warnings-nil r = warnings_from-nil r.application_name 0 r.elements

default_base_passes :
    (id : Bytes) → validate_base_display_element (default_display_element id) ≡ ok tt
unfolding validate_base_display_element default_display_element bytes_eq
default_base_passes id = refl

new_text_valid :
    (name id text font : Bytes)
    → (validate_display_element name (text_element (new_text_element id text font)) ≡ ok tt)
      ↔ (one_of font fonts ≡ true)
unfolding validate_display_element display_element_info new_text_element validate_text_element
new_text_valid name id text font =
    rw (default_base_passes id) ((λ h. ground arith), λ h. ground arith)

new_image_valid :
    (name id path : Bytes)
    → (validate_display_element name (image_element (new_asset_image_element id path)) ≡ ok tt)
      ↔ (validate_asset_source name path [] ≡ ok tt)
unfolding validate_display_element display_element_info new_asset_image_element
new_image_valid name id path = rw (default_base_passes id) ((λ h. ground arith), λ h. ground arith)

new_rectangle_valid :
    (name id : Bytes) (width height : ℤ)
    → (validate_display_element name (rectangle_element (new_rectangle_element id width height))
        ≡ ok tt)
      ↔ ((pos 1 ≤ℤ width) × (width ≤ℤ max_int32) × (pos 1 ≤ℤ height) × (height ≤ℤ max_int32))
unfolding validate_display_element display_element_info new_rectangle_element
    validate_rectangle_element bytes_eq
new_rectangle_valid name id width height =
    rw (default_base_passes id) ((λ h. ground arith), λ h. ground arith)

-- The constructors' defaults pass every check: a new text element is valid exactly with a font that
-- the device has, a new asset image exactly with an accepted asset path, and a new rectangle
-- exactly with sides from 1 to 2147483647.
pub new_elements_valid :
    (name id text font path : Bytes) (width height : ℤ)
    → ((validate_display_element name (text_element (new_text_element id text font)) ≡ ok tt)
        ↔ (one_of font fonts ≡ true))
      × ((validate_display_element name (image_element (new_asset_image_element id path)) ≡ ok tt)
          ↔ (validate_asset_source name path [] ≡ ok tt))
      × ((validate_display_element name (rectangle_element (new_rectangle_element id width height))
            ≡ ok tt)
          ↔ ((pos 1 ≤ℤ width) × (width ≤ℤ max_int32) × (pos 1 ≤ℤ height) × (height ≤ℤ max_int32)))
new_elements_valid name id text font path width height = (
  new_text_valid name id text font,
  new_image_valid name id path,
  new_rectangle_valid name id width height,
)
