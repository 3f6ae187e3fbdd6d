-- ===== src/Usb/Command.antt =====
-- usb/protocol.go, buildCommand. Texts are lists of code points.
pub mod Line
use busylib_go.Prelude.{
  ℕ, Bool, true, false, ◌&&◌, ◌||◌, List, [], ◌∷◌, ◌++◌, reverse, leb, ◌==◌, if◌then◌else◌,
}

abbrev pub Text : Type 0
Text = List ℕ

-- unicode.IsSpace
unfoldable pub is_space : ℕ → Bool
is_space c =
    leb 9 c && leb c 13
    || c == 0x20
    || c == 0x85
    || c == 0xa0
    || c == 0x1680
    || leb 0x2000 c && leb c 0x200a
    || c == 0x2028
    || c == 0x2029
    || c == 0x202f
    || c == 0x205f
    || c == 0x3000

-- strings.TrimSpace
unfoldable pub trim_left : Text → Text
trim_left [] = []
trim_left (c ∷ s) = let further = trim_left s in if is_space c then further else c ∷ s

unfoldable pub trim_space : Text → Text
trim_space s = reverse (trim_left (reverse (trim_left s)))

unfoldable pub any_of : (ℕ → Bool) → Text → Bool
any_of p [] = false
any_of p (c ∷ s) = p c || any_of p s

-- The characters "\r\n\x00", and " \t\r\n\x00".
abbrev pub breaks_line : ℕ → Bool
breaks_line c = c == 13 || c == 10 || c == 0

abbrev pub breaks_word : ℕ → Bool
breaks_word c = c == 32 || c == 9 || breaks_line c

abbrev pub is_empty : Text → Bool
is_empty [] = true
is_empty (_ ∷ _) = false

-- strings.Join(parts, " "), over the parts behind the first.
abbrev pub join_with : Text → List Text → Text
join_with line [] = line
join_with line (part ∷ parts) = join_with (line ++ 32 ∷ part) parts

-- The loop over the arguments: the line, and whether the command is valid.
add_arguments : Text → List Text → Text × Bool
add_arguments line [] = (line, true)
add_arguments line (argument ∷ arguments) =
    let further = add_arguments (line ++ 32 ∷ argument) arguments in
    if any_of breaks_line argument then (line ++ 32 ∷ argument, false) else further

unfoldable pub build_command : Text → List Text → Text × Bool
unfolding add_arguments
build_command command arguments =
    let name = trim_space command in
    if is_empty name || any_of breaks_word name then (name, false) else add_arguments name arguments
