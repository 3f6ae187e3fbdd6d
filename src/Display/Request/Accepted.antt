-- ===== src/Display/Request/Accepted.antt =====
-- Which display requests display_validation.go accepts, and where it places an error or a warning.
use busylib_go.Prelude.{
  ℕ, suc, ◌+◌, ◌≤◌, ◌≡◌, ◌≢◌, ◌⊎◌, ◌↔◌, inl, inr, refl, sym, ◌∙◌, List, [], ◌∷◌, none, some, Result,
  Result-cases, Option-cases, ok, err, length, get_elem?, take, All, arith,
}
use native.Mathlib.Nat.{zero-add}
use busylib_go.Prelude.Int.{pos, ◌≤ℤ◌}
use busylib_go.Prelude.Bytes.{Bytes}
use busylib_go.Display.Names.{validate_application_name}
use busylib_go.Display.Fields.{normalize_color}
use busylib_go.Display.Elements.{DisplayElement, DisplayElements}
use busylib_go.Display.Checks.{ElementError}
use busylib_go.Display.Request.{
  RequestError, in_element, bad_led_color, check_element, validate_elements, validate_led_color,
  validate,
}

abbrev Passes : Bytes → DisplayElement → Type 0
Passes name e = check_element name e ≡ ok tt

-- Either every element passes, or the error is that of the first that does not, with its index.
validate_elements-first :
    (name : Bytes) (index : ℕ) (elements : List DisplayElement)
    → ((validate_elements name index elements ≡ ok tt) × All (Passes name) elements)
      ⊎ ((i : ℕ) × (e : DisplayElement) × (cause : ElementError) × (validate_elements name index
              elements
            ≡ err (in_element (index + i) cause))
          × (get_elem? elements i ≡ some e)
          × (check_element name e ≡ err cause)
          × All (Passes name) (take i elements))
unfolding validate_elements
validate_elements-first name index [] = inl (refl, tt)
validate_elements-first name index (e ∷ elements) = elim (Result-cases (check_element name e)) [
  | inr (cause, bad) ↦
      let here : index + 0 ≡ index = omega arith in inr (0, e, cause, rw (bad, here), refl, bad, tt)
  | inl (u, good) ↦ elim (validate_elements-first name (suc index) elements) [
    | inl (h, hs) ↦ inl (rw (good, h), (good, hs))
    | inr (i, e', cause, h, at, bad, before) ↦
        let next : index + suc i ≡ suc index + i = omega arith in
        inr (suc i, e', cause, rw (good, h, next), at, bad, (good, before))
  ]
]

abbrev pub IsColored : Bytes → Type 0
IsColored color = (color ≡ []) ⊎ ((c : Bytes) × (normalize_color color ≡ some c))

-- What an accepted request is.
pub record IsAccepted (r : DisplayElements) : Type 0 where
  pub named_well : validate_application_name r.application_name ≡ ok tt
  pub priority_low : pos 0 ≤ℤ r.priority
  pub priority_high : r.priority ≤ℤ pos 100
  pub colored : IsColored r.led_notification_color
  pub some_elements : 1 ≤ length r.elements
  pub few_elements : length r.elements ≤ 100
  pub each : All (λ e. check_element r.application_name e ≡ ok tt) r.elements

led_color_cases :
    (color : Bytes)
    → (validate_led_color color ≡ ok tt) × IsColored color
      ⊎ (validate_led_color color ≡ err bad_led_color) × ¬ IsColored color
unfolding validate_led_color
led_color_cases [] = inl (refl, inl refl)
led_color_cases (c ∷ s) = elim (Option-cases (normalize_color (c ∷ s))) [
  | inl nothing ↦ inr (ground arith, not_colored nothing)
  | inr (d, e) ↦ inl (ground arith, inr (d, e))
]
  where
    not_colored : normalize_color (c ∷ s) ≡ none → ¬ IsColored (c ∷ s)
    not_colored nothing (inl e) = cc
    not_colored nothing (inr (d, e)) = cc

validate_sound :
    (r : DisplayElements)
    → validate r ≡ ok tt
    → (validate_application_name r.application_name ≡ ok tt)
      × (pos 0 ≤ℤ r.priority)
      × (r.priority ≤ℤ pos 100)
      × (validate_led_color r.led_notification_color ≡ ok tt)
      × (1 ≤ length r.elements)
      × (length r.elements ≤ 100)
      × (validate_elements r.application_name 0 r.elements ≡ ok tt)
unfolding validate
validate_sound r h = ground arith

validate_complete :
    (r : DisplayElements)
    → validate_application_name r.application_name ≡ ok tt
    → pos 0 ≤ℤ r.priority
    → r.priority ≤ℤ pos 100
    → validate_led_color r.led_notification_color ≡ ok tt
    → 1 ≤ length r.elements
    → length r.elements ≤ 100
    → validate r ≡ validate_elements r.application_name 0 r.elements
unfolding validate
validate_complete r name low high color some_e few = ground arith

validate_error :
    (r : DisplayElements) {i : ℕ} {cause : ElementError}
    → validate r ≡ err (in_element i cause)
    → validate_elements r.application_name 0 r.elements ≡ err (in_element i cause)
unfolding validate
validate_error r h = ground (arith, led_color_cases r.led_notification_color)

ok≢err : {e : RequestError} → ◌≢◌ {A = Result RequestError (Unit {0})} (ok tt) (err e)
ok≢err h = cc

in_element-injective :
    {i j : ℕ} {a b : ElementError}
    → ◌≡◌ {A = Result RequestError (Unit {0})} (err (in_element i a)) (err (in_element j b))
    → (i ≡ j) × (a ≡ b)
in_element-injective h = (cc, cc)

elements_pass :
    (name : Bytes) (elements : List DisplayElement)
    → validate_elements name 0 elements ≡ ok tt
    → All (Passes name) elements
elements_pass name elements h = elim (validate_elements-first name 0 elements) [
  | inl (_, hs) ↦ hs
  | inr (i, e, cause, bad, _, _, _) ↦ absurd (ok≢err (sym h ∙ bad))
]

pass_elements :
    (name : Bytes) (index : ℕ) (elements : List DisplayElement)
    → All (Passes name) elements
    → validate_elements name index elements ≡ ok tt
unfolding validate_elements
pass_elements name index [] h = refl
pass_elements name index (e ∷ elements) (h, hs) = rw (h, pass_elements name (suc index) elements hs)

color_passes : (color : Bytes) → IsColored color → validate_led_color color ≡ ok tt
color_passes color h = elim (led_color_cases color) [
  | inl (e, _) ↦ e
  | inr (_, not_colored) ↦ absurd (not_colored h)
]

passed_color : (color : Bytes) → validate_led_color color ≡ ok tt → IsColored color
passed_color color h = elim (led_color_cases color) [
  | inl (_, colored) ↦ colored
  | inr (e, _) ↦ absurd (ok≢err (sym h ∙ e))
]

-- Validate accepts exactly the requests with an accepted application name, a priority from 0 to 100,
-- a notification colour that is absent or valid, and 1 to 100 elements that all pass their checks.
pub validate_iff : (r : DisplayElements) → (validate r ≡ ok tt) ↔ IsAccepted r
validate_iff r = (
  λ h.
      let (name, low, high, color, some_e, few, elements) = validate_sound r h in
      record {
        named_well = name;
        priority_low = low;
        priority_high = high;
        colored = passed_color r.led_notification_color color;
        some_elements = some_e;
        few_elements = few;
        each = elements_pass r.application_name r.elements elements;
      },
  λ a.
      validate_complete r a.named_well a.priority_low a.priority_high
        (color_passes r.led_notification_color a.colored) a.some_elements a.few_elements
      ∙ pass_elements r.application_name 0 r.elements a.each,
)

-- An error about an element names the first element that does not pass, with that element's error.
pub validate_first_element :
    (r : DisplayElements) {i : ℕ} {cause : ElementError}
    → validate r ≡ err (in_element i cause)
    → (e : DisplayElement) × (get_elem? r.elements i ≡ some e)
      × (check_element r.application_name e ≡ err cause)
      × All (λ e'. check_element r.application_name e' ≡ ok tt) (take i r.elements)
validate_first_element r {i = i} {cause = cause} h =
    let e0 = validate_error r h in
    elim (validate_elements-first r.application_name 0 r.elements) [
      | inl (passes, _) ↦ absurd (ok≢err (sym passes ∙ e0))
      | inr (j, e, cause', bad, at, failed, before) ↦
          let (same_index, same_cause) = in_element-injective (sym e0 ∙ bad) in
          let same : i ≡ j = same_index ∙ zero-add j in
          (e, rw same at, rw same_cause failed, rw same before)
    ]
