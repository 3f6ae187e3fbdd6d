-- ===== src/Display/Fields/Exact.antt =====
-- What the field checks of display_validation.go let through.
use busylib_go.Prelude.{
  ℕ, suc, ◌<◌, ◌≡◌, ◌≢◌, ◌⊎◌, inl, inr, refl, ◌∙◌, sym, ap, true, false, [], ◌∷◌, map, some, length,
  arith, Bool-cases, All,
}
use busylib_go.Prelude.Bytes.{Bytes, bytes, bytes_eq, bytes_eq_iff}
use busylib_go.Display.Names.{all_of}
use busylib_go.Display.Fields.{
  is_digit, is_hex, to_upper, is_color, normalize_color, decimal_from, decimal, parse_int64,
  is_brightness, validate_brightness, brightness_in_range,
}

abbrev pub IsUpperHex : ℕ → Type 0
IsUpperHex c = (is_hex c ≡ true) × (c < 97)

upper_hex : (s : Bytes) → all_of is_hex s ≡ true → All IsUpperHex (map to_upper s)
unfolding all_of
upper_hex [] h = tt
upper_hex (c ∷ s) h = (ground arith, upper_hex s (ground arith))

upper_again : (s : Bytes) → all_of is_hex s ≡ true → map to_upper (map to_upper s) ≡ map to_upper s
unfolding all_of
upper_again [] h = refl
upper_again (c ∷ s) h = ground (arith, upper_again s)

hex_upper : (s : Bytes) → all_of is_hex s ≡ true → all_of is_hex (map to_upper s) ≡ true
unfolding all_of
hex_upper [] h = refl
hex_upper (c ∷ s) h = ground (arith, hex_upper s)

length-map_upper : (s : Bytes) → length (map to_upper s) ≡ length s
length-map_upper [] = refl
length-map_upper (c ∷ s) = ap suc (length-map_upper s)

color_parts :
    (c : ℕ) (s : Bytes) {color : Bytes}
    → normalize_color (c ∷ s) ≡ some color
    → (c ≡ 35) × (length s ≡ 8) × (all_of is_hex s ≡ true) × (color ≡ map to_upper (c ∷ s))
unfolding normalize_color is_color
color_parts c s h = ground arith

normalize_color-hash :
    (s : Bytes)
    → length s ≡ 8
    → all_of is_hex s ≡ true
    → normalize_color (35 ∷ s) ≡ some (35 ∷ map to_upper s)
unfolding normalize_color is_color
normalize_color-hash s size hex = rw (size, hex)

-- A normalized colour is `#` and eight upper-case hexadecimal digits, and normalizing it again
-- changes nothing.
pub normalize_color-IsUpperHex :
    (value : Bytes) {color : Bytes}
    → normalize_color value ≡ some color
    → ((digits : Bytes) × (color ≡ 35 ∷ digits) × (length digits ≡ 8) × All IsUpperHex digits)
      × (normalize_color color ≡ some color)
unfolding normalize_color is_color
normalize_color-IsUpperHex [] h = cc
normalize_color-IsUpperHex (c ∷ s) {color = color} h =
    let (hash, size, hex, upper) = color_parts c s h in
    let whole : color ≡ 35 ∷ map to_upper s = upper ∙ ap (λ t. to_upper t ∷ map to_upper s) hash in
    (
      (map to_upper s, whole, length-map_upper s ∙ size, upper_hex s hex),
      rw whole (
          normalize_color-hash (map to_upper s) (length-map_upper s ∙ size) (hex_upper s hex)
          ∙ ap (λ t. some (35 ∷ t)) (upper_again s hex)),
    )

brightness_auto : validate_brightness (bytes "auto") ≡ true
unfolding validate_brightness is_brightness bytes_eq
brightness_auto = refl

brightness_100 : validate_brightness (bytes "100") ≡ true
unfolding validate_brightness is_brightness bytes_eq all_of parse_int64 decimal decimal_from
    brightness_in_range
brightness_100 = refl

brightness_one : (a : ℕ) → is_digit a ≡ true → validate_brightness (a ∷ []) ≡ true
unfolding validate_brightness is_brightness bytes_eq all_of parse_int64 decimal decimal_from
    brightness_in_range
brightness_one a h = ground arith

brightness_two :
    (a b : ℕ) → is_digit a ≡ true → is_digit b ≡ true → validate_brightness (a ∷ b ∷ []) ≡ true
unfolding validate_brightness is_brightness bytes_eq all_of parse_int64 decimal decimal_from
    brightness_in_range
brightness_two a b h k = ground arith

digit_one : (a : ℕ) → is_brightness (a ∷ []) ≡ true → is_digit a ≡ true
unfolding is_brightness bytes_eq all_of
digit_one a h = ground arith

digits_two :
    (a b : ℕ) → is_brightness (a ∷ b ∷ []) ≡ true → (is_digit a ≡ true) × (is_digit b ≡ true)
unfolding is_brightness bytes_eq all_of
digits_two a b h = ground arith

named_three :
    (a b c : ℕ) (s : Bytes)
    → is_brightness (a ∷ b ∷ c ∷ s) ≡ true
    → (bytes_eq (a ∷ b ∷ c ∷ s) (bytes "auto") ≡ true)
      ⊎ (bytes_eq (a ∷ b ∷ c ∷ s) (bytes "100") ≡ true)
unfolding is_brightness
named_three a b c s h = ground arith

not_empty_brightness : is_brightness [] ≢ true
unfolding is_brightness bytes_eq all_of
not_empty_brightness h = cc

brightness_complete :
    (value : Bytes) → is_brightness value ≡ true → validate_brightness value ≡ true
brightness_complete [] h = absurd (not_empty_brightness h)
brightness_complete (a ∷ []) h = brightness_one a (digit_one a h)
brightness_complete (a ∷ b ∷ []) h = brightness_two a b (digits_two a b h).0 (digits_two a b h).1
brightness_complete (a ∷ b ∷ c ∷ s) h = elim (named_three a b c s h) [
  | inl e ↦
      ap validate_brightness ((bytes_eq_iff (a ∷ b ∷ c ∷ s) (bytes "auto")).0 e) ∙ brightness_auto
  | inr e ↦
      ap validate_brightness ((bytes_eq_iff (a ∷ b ∷ c ∷ s) (bytes "100")).0 e) ∙ brightness_100
]

brightness_refused :
    (value : Bytes) → is_brightness value ≡ false → validate_brightness value ≡ false
unfolding validate_brightness
brightness_refused value h = rw h

-- Brightness is accepted exactly where the pattern matches: `auto`, one or two decimal digits, or
-- `100`. Parsing what the pattern lets through never fails and never leaves the range 0 to 100.
pub validate_brightness-is_brightness :
    (value : Bytes) → validate_brightness value ≡ is_brightness value
validate_brightness-is_brightness value = elim (Bool-cases (is_brightness value)) [
  | inl e ↦ brightness_complete value e ∙ sym e
  | inr e ↦ brightness_refused value e ∙ sym e
]
