-- ===== src/Usb/Command/Line.antt =====
-- The lines that usb/protocol.go's buildCommand lets through.
use busylib_go.Prelude.{
  ℕ, ◌≡◌, refl, Bool, true, false, List, [], ◌∷◌, ◌++◌, All, Bool-cases, inl, inr, arith, ◌⊎◌, ◌∙◌,
  ap, sym,
}
use mathlib.Core.Bool.{false≢true}
use busylib_go.Usb.Command.{
  Text, trim_space, any_of, breaks_line, breaks_word, is_empty, join_with, add_arguments,
  build_command,
}

any_of-append :
    (p : ℕ → Bool) (xs ys : Text)
    → any_of p xs ≡ false
    → any_of p ys ≡ false
    → any_of p (xs ++ ys) ≡ false
unfolding any_of
any_of-append p [] ys hx hy = hy
any_of-append p (x ∷ xs) ys hx hy = ground (arith, any_of-append p xs ys)

any_of-weaken :
    (p q : ℕ → Bool) (xs : Text)
    → ((x : ℕ) → q x ≡ true → p x ≡ true)
    → any_of p xs ≡ false
    → any_of q xs ≡ false
unfolding any_of
any_of-weaken p q [] imp h = refl
any_of-weaken p q (x ∷ xs) imp h = ground (arith, imp x, any_of-weaken p q xs imp)

-- Arguments that keep to one line.
abbrev pub AreArguments : List Text → Type 0
AreArguments arguments = All (λ a. any_of breaks_line a ≡ false) arguments

add_arguments_complete :
    (line : Text) (arguments : List Text)
    → AreArguments arguments
    → add_arguments line arguments ≡ (join_with line arguments, true)
unfolding add_arguments
add_arguments_complete line [] h = refl
add_arguments_complete line (a ∷ arguments) (good, h) =
    rw good (add_arguments_complete (line ++ 32 ∷ a) arguments h)

add_arguments_sound :
    (line : Text) (arguments : List Text)
    → (add_arguments line arguments).1 ≡ true
    → AreArguments arguments
unfolding add_arguments
add_arguments_sound line [] h = tt
add_arguments_sound line (a ∷ arguments) h =
    ground (arith, add_arguments_sound (line ++ 32 ∷ a) arguments)

join_with-breaks_line :
    (line : Text) (arguments : List Text)
    → any_of breaks_line line ≡ false
    → AreArguments arguments
    → any_of breaks_line (join_with line arguments) ≡ false
unfolding any_of
join_with-breaks_line line [] clean h = clean
join_with-breaks_line line (a ∷ arguments) clean (good, h) =
    join_with-breaks_line (line ++ 32 ∷ a) arguments
      (any_of-append breaks_line line (32 ∷ a) clean good) h

-- A command name that stands after trimming and holds no blank, tab, line break or NUL.
abbrev pub IsName : Text → Type 0
IsName name = (is_empty name ≡ false) × (any_of breaks_word name ≡ false)

word_keeps_line : (name : Text) → any_of breaks_word name ≡ false → any_of breaks_line name ≡ false
word_keeps_line name h = any_of-weaken breaks_word breaks_line name (λ x e. ground arith) h

build_command_sound :
    (command : Text) (arguments : List Text)
    → (build_command command arguments).1 ≡ true
    → IsName (trim_space command) × AreArguments arguments
unfolding build_command
build_command_sound command arguments h =
    ground (arith, add_arguments_sound (trim_space command) arguments)

build_command_complete :
    (command : Text) (arguments : List Text)
    → IsName (trim_space command)
    → AreArguments arguments
    → (build_command command arguments ≡ (join_with (trim_space command) arguments, true))
      × (any_of breaks_line (build_command command arguments).0 ≡ false)
unfolding build_command
build_command_complete command arguments (full, word) good =
    let whole = add_arguments_complete (trim_space command) arguments good in
    rw (full, word, whole)
      (
        refl,
        join_with-breaks_line (trim_space command) arguments
            (word_keeps_line (trim_space command) word) good,
      )

accepted_command :
    (command : Text) (arguments : List Text)
    → IsName (trim_space command) × AreArguments arguments
    → (build_command command arguments).1 ≡ true
accepted_command command arguments ok =
    ap (λ (r : Text × Bool). r.1) (build_command_complete command arguments ok.0 ok.1).0

-- buildCommand accepts exactly the commands whose trimmed name is a name and whose arguments hold no
-- line break or NUL, and refuses every other one. The line of an accepted command is the name and
-- the arguments joined by blanks, with no line break or NUL in it, so it is one command.
pub build_command_lem :
    (command : Text) (arguments : List Text)
    → (IsName (trim_space command) × AreArguments arguments)
        × (build_command command arguments ≡ (join_with (trim_space command) arguments, true))
        × (any_of breaks_line (build_command command arguments).0 ≡ false)
      ⊎ ¬ (IsName (trim_space command) × AreArguments arguments)
        × ((build_command command arguments).1 ≡ false)
build_command_lem command arguments = elim (Bool-cases (build_command command arguments).1) [
  | inl e ↦
      let ok = build_command_sound command arguments e in
      let (line, whole) = build_command_complete command arguments ok.0 ok.1 in
      inl (ok, line, whole)
  | inr n ↦ inr ((λ ok. false≢true (sym n ∙ accepted_command command arguments ok)), n)
]
