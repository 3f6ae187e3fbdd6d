-- ===== src/Display/Fields.antt =====
-- display_validation.go: the checks of single fields, over texts as lists of bytes and Go ints as
-- integers.
pub mod Exact
use busylib_go.Prelude.{
  ℕ, zero, suc, ◌+◌, ◌-◌, ◌*◌, ◌^◌, Bool, true, false, ◌&&◌, ◌||◌, not, List, [], ◌∷◌, ◌++◌, map,
  Option, none, some, ltb, leb, ◌==◌, if◌then◌else◌, length,
}
use busylib_go.Prelude.Int.{ℤ, pos, negsuc, ltb_ℤ}
use busylib_go.Prelude.Bytes.{Bytes, bytes, bytes_eq}
use busylib_go.Display.Names.{all_of}

abbrev pub is_digit : ℕ → Bool
is_digit c = leb b'0' c && leb c b'9'

abbrev pub is_hex : ℕ → Bool
is_hex c = leb b'a' c && leb c b'f' || leb b'A' c && leb c b'F' || is_digit c

-- strings.ToUpper, of an ASCII byte
abbrev pub to_upper : ℕ → ℕ
to_upper c = if leb b'a' c && leb c b'z' then c - 32 else c

-- A match of `^#[a-fA-F0-9]{8}$`
unfoldable pub is_color : Bytes → Bool
is_color [] = false
is_color (c ∷ s) = c == b'#' && length s == 8 && all_of is_hex s

unfoldable pub normalize_color : Bytes → Option Bytes
normalize_color value = if is_color value then some (map to_upper value) else none

-- The value of decimal digits, behind those read already.
unfoldable pub decimal_from : ℕ → Bytes → ℕ
decimal_from n [] = n
decimal_from n (c ∷ s) = decimal_from (n * 10 + (c - b'0')) s

-- Some decimal digits, and nothing else.
unfoldable pub decimal : Bytes → Option ℕ
decimal [] = none
decimal (c ∷ s) = if all_of is_digit (c ∷ s) then some (decimal_from 0 (c ∷ s)) else none

abbrev pub signed : (negative : Bool) → ℕ → ℤ
signed false n = pos n
signed true zero = pos 0
signed true (suc n) = negsuc n

bounded_signed : Bool → Option ℕ → Option ℤ
bounded_signed negative none = none
bounded_signed negative (some n) =
    if ltb (if negative then 2 ^ 63 else 2 ^ 63 - 1) n then none else some (signed negative n)

-- strconv.ParseInt(value, 10, 64), which strconv.Atoi is too where int has 64 bits: an optional
-- sign, and decimal digits of a number that fits.
unfoldable pub parse_int64 : Bytes → Option ℤ
unfolding bounded_signed
parse_int64 [] = none
parse_int64 (c ∷ s) =
    if c == b'-'
    then bounded_signed true (decimal s)
    else if c == b'+'
    then bounded_signed false (decimal s)
    else bounded_signed false (decimal (c ∷ s))

-- `value < low || value > high`
abbrev pub outside : ℤ → ℤ → ℤ → Bool
outside low high value = ltb_ℤ value low || ltb_ℤ high value

-- The same of an optional field, which is a pointer.
abbrev pub outside_if_set : ℤ → ℤ → Option ℤ → Bool
outside_if_set low high none = false
outside_if_set low high (some value) = outside low high value

abbrev pub is_positive : ℤ → Bool
is_positive value = ltb_ℤ (pos 0) value

unfoldable pub one_of : Bytes → List Bytes → Bool
one_of value [] = false
one_of value (name ∷ names) = bytes_eq value name || one_of value names

-- A match of `^(auto|[0-9]{1,2}|100)$`
unfoldable pub is_brightness : Bytes → Bool
is_brightness value =
    bytes_eq value (bytes "auto")
    || all_of is_digit value && (length value == 1 || length value == 2)
    || bytes_eq value (bytes "100")

unfoldable pub brightness_in_range : Option ℤ → Bool
brightness_in_range none = false
brightness_in_range (some parsed) = not (outside (pos 0) (pos 100) parsed)

-- `true` is no error.
unfoldable pub validate_brightness : Bytes → Bool
validate_brightness value =
    if not (is_brightness value)
    then false
    else if bytes_eq value (bytes "auto")
    then true
    else brightness_in_range (parse_int64 value)
