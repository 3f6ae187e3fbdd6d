-- ===== src/Display/Names/Safe.antt =====
-- What application_validation.go lets through as an asset path.
use busylib_go.Prelude.{
  ℕ, ◌≤◌, ◌≡◌, ◌≢◌, ◌⊎◌, ◌↔◌, inl, inr, refl, sym, ◌∙◌, Bool, true, false, List, [], ◌∷◌, ◌++◌,
  append_assoc, ok, ◌==◌, length, All, arith, Bool-cases, ==_iff, subst,
}
use mathlib.Core.Bool.{false≢true}
use busylib_go.Prelude.Bytes.{Bytes, bytes, bytes_eq, bytes_eq_iff}
use busylib_go.Display.Names.{
  is_name_char, is_path_char, all_of, matches_all, has_prefix, ends_with, contains_pair, split_from,
  split_slash, has_dot_segment, validate_safe_asset_path, validate_application_name,
  validate_uploaded_asset_path, validate_stock_asset_path, validate_asset_source,
  max_uploaded_asset_path_bytes, max_stock_asset_path_bytes,
}

abbrev dot : ℕ
dot = 46

abbrev slash : ℕ
slash = 47

-- A segment that names an entry of its directory: not empty, neither `.` nor `..`, and made of
-- letters, digits, periods, underscores and hyphens.
abbrev pub IsEntry : Bytes → Type 0
IsEntry s = (s ≢ []) × (s ≢ dot ∷ []) × (s ≢ dot ∷ dot ∷ []) × (all_of is_name_char s ≡ true)

contains_pair-tail :
    (d c : ℕ) (s : Bytes) → contains_pair d (c ∷ s) ≡ false → contains_pair d s ≡ false
unfolding contains_pair
contains_pair-tail d c [] h = refl
contains_pair-tail d c (e ∷ s) h = ground arith

contains_pair-behind :
    (d : ℕ) (xs ys : Bytes) → contains_pair d (xs ++ ys) ≡ false → contains_pair d ys ≡ false
contains_pair-behind d [] ys h = h
contains_pair-behind d (x ∷ xs) ys h =
    contains_pair-behind d xs ys (contains_pair-tail d x (xs ++ ys) h)

ends_with-tail : (d c : ℕ) (s : Bytes) → ends_with d (c ∷ s) ≡ false → ends_with d s ≡ false
unfolding ends_with
ends_with-tail d c [] h = refl
ends_with-tail d c (e ∷ s) h = h

all_of-append :
    (p : ℕ → Bool) (xs ys : Bytes)
    → all_of p xs ≡ true
    → all_of p ys ≡ true
    → all_of p (xs ++ ys) ≡ true
unfolding all_of
all_of-append p [] ys hx hy = hy
all_of-append p (x ∷ xs) ys hx hy = ground (arith, all_of-append p xs ys)

all_of-nil : (p : ℕ → Bool) → all_of p [] ≡ true
unfolding all_of
all_of-nil p = refl

behind_slash :
    (s : Bytes)
    → ends_with slash (slash ∷ s) ≡ false
    → contains_pair slash (slash ∷ s) ≡ false
    → (s ≢ []) × (has_prefix s (slash ∷ []) ≡ false)
unfolding ends_with contains_pair has_prefix
behind_slash [] finish pairs = cc
behind_slash (c ∷ s) finish pairs = ((λ e. cc), ground arith)

no_prefix : (s : Bytes) → has_prefix (slash ∷ s) (slash ∷ []) ≢ false
unfolding has_prefix
no_prefix [] h = cc
no_prefix (c ∷ s) h = cc

not_dots : (rest : Bytes) → contains_pair dot (dot ∷ dot ∷ rest) ≢ false
unfolding contains_pair
not_dots rest h = cc

segment-IsEntry :
    (segment rest : Bytes)
    → segment ≢ []
    → all_of is_name_char segment ≡ true
    → contains_pair dot (segment ++ rest) ≡ false
    → bytes_eq segment (dot ∷ []) ≡ false
    → IsEntry segment
segment-IsEntry segment rest full named dots plain = (
  full,
  (λ e. false≢true (sym plain ∙ (bytes_eq_iff segment (dot ∷ [])).1 e)),
  (λ e. not_dots rest (subst (λ t. contains_pair dot (t ++ rest) ≡ false) e dots)),
  named,
)

name_char :
    (c : ℕ) (s : Bytes)
    → all_of is_path_char (c ∷ s) ≡ true
    → (c == slash) ≡ false
    → (all_of is_name_char (c ∷ []) ≡ true) × (all_of is_path_char s ≡ true)
unfolding all_of
name_char c s chars n = ground arith

path_chars-tail :
    (c : ℕ) (s : Bytes) → all_of is_path_char (c ∷ s) ≡ true → all_of is_path_char s ≡ true
unfolding all_of
path_chars-tail c s h = ground arith

append-ne-nil : (xs : Bytes) (c : ℕ) → xs ++ c ∷ [] ≢ []
append-ne-nil [] c e = cc
append-ne-nil (x ∷ xs) c e = cc

no_dot_cons :
    (segment : Bytes) (segments : List Bytes)
    → has_dot_segment (segment ∷ segments) ≡ false
    → (bytes_eq segment (dot ∷ []) ≡ false) × (has_dot_segment segments ≡ false)
unfolding has_dot_segment
no_dot_cons segment segments h = ground arith

-- The parts of the check that the segments depend on, of the text that is still to be read.
split_from-IsEntry :
    (segment s : Bytes)
    → all_of is_name_char segment ≡ true
    → all_of is_path_char s ≡ true
    → contains_pair slash s ≡ false
    → contains_pair dot (segment ++ s) ≡ false
    → (segment ≡ [] → (s ≢ []) × (has_prefix s (slash ∷ []) ≡ false))
    → ends_with slash s ≡ false
    → has_dot_segment (split_from segment s) ≡ false
    → All IsEntry (split_from segment s)
unfolding split_from
split_from-IsEntry segment [] named chars slashes dots start finish plain = (
  segment-IsEntry segment [] (λ e. (start e).0 refl) named dots (no_dot_cons segment [] plain).0,
  tt,
)
split_from-IsEntry segment (c ∷ s) named chars slashes dots start finish plain =
    elim (Bool-cases (c == slash)) [
      | inl e ↦
          let same : c ≡ slash = (==_iff c slash).0 e in
          let closed = no_dot_cons segment (split_from [] s) (rw e at plain) in
          let dots' = contains_pair-tail dot c s (contains_pair-behind dot segment (c ∷ s) dots) in
          rw e (
            segment-IsEntry segment (c ∷ s)
                (λ nil.
                  no_prefix s
                    (subst (λ t. has_prefix (t ∷ s) (slash ∷ []) ≡ false) same (start nil).1))
                named dots closed.0,
            split_from-IsEntry [] s (all_of-nil is_name_char) (path_chars-tail c s chars)
                (contains_pair-tail slash c s slashes) dots'
                (λ nil.
                  behind_slash s (subst (λ t. ends_with slash (t ∷ s) ≡ false) same finish)
                    (subst (λ t. contains_pair slash (t ∷ s) ≡ false) same slashes))
                (ends_with-tail slash c s finish) closed.1,
          )
      | inr n ↦ rw n (
          split_from-IsEntry (segment ++ c ∷ []) s
            (all_of-append is_name_char segment (c ∷ []) named (name_char c s chars n).0)
            (name_char c s chars n).1 (contains_pair-tail slash c s slashes)
            (rw (append_assoc segment (c ∷ []) s) dots)
            (λ nil. absurd (append-ne-nil segment c nil)) (ends_with-tail slash c s finish)
            (rw n at plain))
    ]

matched : (p : ℕ → Bool) (s : Bytes) → matches_all p s ≡ true → (s ≢ []) × (all_of p s ≡ true)
matched p [] h = cc
matched p (c ∷ s) h = ((λ e. cc), h)

safe_checks :
    (value : Bytes) (maximum_bytes : ℕ)
    → validate_safe_asset_path value maximum_bytes ≡ ok tt
    → (1 ≤ length value)
      × (length value ≤ maximum_bytes)
      × (matches_all is_path_char value ≡ true)
      × (has_prefix value (slash ∷ []) ≡ false)
      × (ends_with slash value ≡ false)
      × (contains_pair slash value ≡ false)
      × (contains_pair dot value ≡ false)
      × (has_dot_segment (split_slash value) ≡ false)
unfolding validate_safe_asset_path
safe_checks value maximum_bytes h = ground arith

-- A path that the check accepts has a length within the limit, and each of its segments between
-- slashes names an entry of its directory: none is empty, `.` or `..`, so the path stays below the
-- directory that it is joined to.
pub validate_safe_asset_path-IsEntry :
    (value : Bytes) (maximum_bytes : ℕ)
    → validate_safe_asset_path value maximum_bytes ≡ ok tt
    → (1 ≤ length value) × (length value ≤ maximum_bytes) × All IsEntry (split_slash value)
unfolding split_slash
validate_safe_asset_path-IsEntry value maximum_bytes h =
    let (least, most, chars, start, finish, slashes, dots, plain) =
      safe_checks value maximum_bytes h in
    let (full, named) = matched is_path_char value chars in
    (
      least,
      most,
      split_from-IsEntry [] value (all_of-nil is_name_char) named slashes dots (λ e. (full, start))
          finish plain,
    )

-- A path of the element, and its limit.
abbrev pub IsSource : Bytes → Bytes → Type 0
IsSource path stock_path =
    (stock_path ≡ [])
      × (1 ≤ length path)
      × (length path ≤ max_uploaded_asset_path_bytes)
      × All IsEntry (split_slash path)
    ⊎ (path ≡ [])
      × (1 ≤ length stock_path)
      × (length stock_path ≤ max_stock_asset_path_bytes)
      × All IsEntry (split_slash stock_path)
      × (has_prefix stock_path (bytes "shared/") ≡ true)

source_checks :
    (application_name path stock_path : Bytes)
    → validate_asset_source application_name path stock_path ≡ ok tt
    → (validate_application_name application_name ≡ ok tt)
      × ((stock_path ≡ []) × (validate_safe_asset_path path max_uploaded_asset_path_bytes ≡ ok tt)
          ⊎ (path ≡ [])
            × (validate_safe_asset_path stock_path max_stock_asset_path_bytes ≡ ok tt)
            × (has_prefix stock_path (bytes "shared/") ≡ true))
unfolding validate_asset_source validate_uploaded_asset_path validate_stock_asset_path
source_checks application_name [] [] h = ground arith
source_checks application_name [] (c ∷ s) h = ground arith
source_checks application_name (c ∷ s) [] h = ground arith
source_checks application_name (c ∷ s) (d ∷ t) h = ground arith

-- An accepted asset source is exactly one of an uploaded path of at most 64 bytes and a stock path
-- of at most 256 bytes below `shared/`, with safe segments, under an accepted application name.
pub validate_asset_source-IsSource :
    (application_name path stock_path : Bytes)
    → validate_asset_source application_name path stock_path ≡ ok tt
    → (validate_application_name application_name ≡ ok tt) × IsSource path stock_path
validate_asset_source-IsSource application_name path stock_path h =
    let (name, kind) = source_checks application_name path stock_path h in
    elim kind [
      | inl (other, safe) ↦
          let (least, most, entries) =
            validate_safe_asset_path-IsEntry path max_uploaded_asset_path_bytes safe in
          (name, inl (other, least, most, entries))
      | inr (other, safe, shared) ↦
          let (least, most, entries) =
            validate_safe_asset_path-IsEntry stock_path max_stock_asset_path_bytes safe in
          (name, inr (other, least, most, entries, shared))
    ]

-- An application name is accepted exactly where it has 1 to 31 bytes, each a letter, a digit, a
-- period, an underscore or a hyphen.
pub validate_application_name_iff :
    (value : Bytes)
    → (validate_application_name value ≡ ok tt)
      ↔ ((1 ≤ length value) × (length value ≤ 31) × (all_of is_name_char value ≡ true))
unfolding validate_application_name
validate_application_name_iff [] = ((λ h. ground arith), λ h. ground arith)
validate_application_name_iff (c ∷ s) = ((λ h. ground arith), λ h. ground arith)
