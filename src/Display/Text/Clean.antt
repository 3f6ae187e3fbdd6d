-- ===== src/Display/Text/Clean.antt =====
-- What display_elements.go's SanitizeDisplayText leaves of a text.
use busylib_go.Prelude.{
  ℕ, ◌≡◌, ◌≢◌, ◌⊎◌, inl, inr, refl, ◌∙◌, sym, ap, true, false, List, [], ◌∷◌, ◌++◌, append_assoc,
  append-nil, All, All-append, arith,
}
use busylib_go.Usb.Command.{is_space}
use busylib_go.Display.Text.{
  is_control, is_display_symbol, clean_runes, push_field, fields_from, fields, join,
  sanitize_display_text,
}

-- A rune that the display shows.
abbrev pub IsShown : ℕ → Type 0
IsShown r = (is_space r ≡ false) × (is_control r ≡ false) × (is_display_symbol r ≡ false)

-- Shown words between single blanks.
abbrev pub IsWord : List ℕ → Type 0
IsWord word = (word ≢ []) × All IsShown word

abbrev pub IsCleanRune : ℕ → Type 0
IsCleanRune r = IsShown r ⊎ (r ≡ 0x20)

clean_runes-IsCleanRune : (runes : List ℕ) → All IsCleanRune (clean_runes runes)
unfolding clean_runes
clean_runes-IsCleanRune [] = tt
clean_runes-IsCleanRune (r ∷ runes) = ground (arith, clean_runes-IsCleanRune runes)

push_field-IsWord :
    (field : List ℕ) (words : List (List ℕ))
    → All IsShown field
    → All IsWord words
    → All IsWord (push_field field words)
push_field-IsWord [] words h hs = hs
push_field-IsWord (c ∷ field) words h hs = (((λ e. cc), h), hs)

blank_is_space : is_space 0x20 ≡ true
unfolding is_space
blank_is_space = refl

fields_from-IsWord :
    (field runes : List ℕ)
    → All IsShown field
    → All IsCleanRune runes
    → All IsWord (fields_from field runes)
unfolding fields_from
fields_from-IsWord field [] h clean = push_field-IsWord field [] h tt
fields_from-IsWord field (r ∷ runes) h (inr e, clean) =
    rw (e, blank_is_space) (push_field-IsWord field _ h (fields_from-IsWord [] runes tt clean))
fields_from-IsWord field (r ∷ runes) h (inl shown, clean) = rw (shown.0) (
    fields_from-IsWord (field ++ r ∷ []) runes (All-append IsShown field (r ∷ []) (shown, tt) h)
      clean)

-- The result is words of shown runes joined by single blanks: it holds no control character and no
-- unsupported symbol, no white space but those blanks, and none at its ends or beside another.
pub sanitize_display_text-IsWord :
    (value : List ℕ)
    → (words : List (List ℕ)) × (sanitize_display_text value ≡ join words) × All IsWord words
unfolding sanitize_display_text fields
sanitize_display_text-IsWord value = (
  fields_from [] (clean_runes value),
  refl,
  fields_from-IsWord [] (clean_runes value) tt (clean_runes-IsCleanRune value),
)

clean_runes-word :
    (word rest : List ℕ) → All IsShown word → clean_runes (word ++ rest) ≡ word ++ clean_runes rest
unfolding clean_runes
clean_runes-word [] rest h = refl
clean_runes-word (r ∷ word) rest (h, hs) = ground (arith, clean_runes-word word rest hs)

clean_runes-nil : clean_runes [] ≡ []
unfolding clean_runes
clean_runes-nil = refl

clean_runes-blank : (runes : List ℕ) → clean_runes (0x20 ∷ runes) ≡ 0x20 ∷ clean_runes runes
unfolding clean_runes
clean_runes-blank runes = rw blank_is_space

fields_from-blank :
    (field runes : List ℕ)
    → fields_from field (0x20 ∷ runes) ≡ push_field field (fields_from [] runes)
unfolding fields_from
fields_from-blank field runes = rw blank_is_space

fields_from-word :
    (field word rest : List ℕ)
    → All IsShown word
    → fields_from field (word ++ rest) ≡ fields_from (field ++ word) rest
unfolding fields_from
fields_from-word field [] rest h = ap (λ t. fields_from t rest) (sym (append-nil field))
fields_from-word field (r ∷ word) rest (h, hs) = rw (h.0) (
    fields_from-word (field ++ r ∷ []) word rest hs
    ∙ ap (λ t. fields_from t rest) (append_assoc field (r ∷ []) word))

push_field-word :
    (word : List ℕ) (words : List (List ℕ)) → word ≢ [] → push_field word words ≡ word ∷ words
push_field-word [] words h = absurd (h refl)
push_field-word (r ∷ word) words h = refl

clean_runes-join :
    (words : List (List ℕ)) → All IsWord words → clean_runes (join words) ≡ join words
unfolding join
clean_runes-join [] h = clean_runes-nil
clean_runes-join (word ∷ []) ((full, shown), h) =
    ap clean_runes (sym (append-nil word))
    ∙ clean_runes-word word [] shown
    ∙ ap (λ t. word ++ t) clean_runes-nil
    ∙ append-nil word
clean_runes-join (word ∷ next ∷ more) ((full, shown), h) =
    clean_runes-word word (0x20 ∷ join (next ∷ more)) shown
    ∙ ap (λ t. word ++ t) (clean_runes-blank (join (next ∷ more)))
    ∙ ap (λ t. word ++ 0x20 ∷ t) (clean_runes-join (next ∷ more) h)

fields-join : (words : List (List ℕ)) → All IsWord words → fields_from [] (join words) ≡ words
unfolding join fields_from
fields-join [] h = refl
fields-join (word ∷ []) ((full, shown), h) =
    ap (fields_from []) (sym (append-nil word))
    ∙ fields_from-word [] word [] shown
    ∙ push_field-word word [] full
fields-join (word ∷ next ∷ more) ((full, shown), h) =
    fields_from-word [] word (0x20 ∷ join (next ∷ more)) shown
    ∙ fields_from-blank word (join (next ∷ more))
    ∙ push_field-word word (fields_from [] (join (next ∷ more))) full
    ∙ ap (λ t. word ∷ t) (fields-join (next ∷ more) h)

sanitize_display_text-join :
    (words : List (List ℕ)) → All IsWord words → sanitize_display_text (join words) ≡ join words
unfolding sanitize_display_text fields
sanitize_display_text-join words whole =
    ap (λ t. join (fields_from [] t)) (clean_runes-join words whole)
    ∙ ap join (fields-join words whole)

-- A second call changes nothing.
pub sanitize_display_text_idem :
    (value : List ℕ)
    → sanitize_display_text (sanitize_display_text value) ≡ sanitize_display_text value
sanitize_display_text_idem value =
    let (words, same, whole) = sanitize_display_text-IsWord value in
    ap sanitize_display_text same ∙ sanitize_display_text-join words whole ∙ sym same
