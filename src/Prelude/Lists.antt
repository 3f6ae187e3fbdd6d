-- ===== src/Prelude/Lists.antt =====
-- Lists measured and indexed by native numbers, under the library's names.
use Prim.Native.Nat.{ℕ, zero, suc, ◌+◌, ◌-◌, ◌<◌, min}
use mathlib.Core.Path.{◌≡◌, refl, ap}
use mathlib.Core.WellFounded.{Acc}
use mathlib.Core.List.{List, [], ◌∷◌, ◌++◌}
use mathlib.Core.Option.{Option, none, some}
use native.Mathlib.Nat.{zero-add, suc-add}
use native.Mathlib.Omega.{arith}

module _ {ℓ} {A : Type ℓ} where
  abbrev pub length : List A → ℕ
  length [] = 0
  length (x ∷ xs) = suc (length xs)

  abbrev pub get_elem? : List A → ℕ → Option A
  get_elem? [] i = none
  get_elem? (x ∷ xs) zero = some x
  get_elem? (x ∷ xs) (suc i) = get_elem? xs i

  abbrev pub take : ℕ → List A → List A
  take zero xs = []
  take (suc n) [] = []
  take (suc n) (x ∷ xs) = x ∷ take n xs

  abbrev pub drop : ℕ → List A → List A
  drop zero xs = xs
  drop (suc n) [] = []
  drop (suc n) (x ∷ xs) = drop n xs

  abbrev pub get_or : List A → ℕ → A → A
  get_or [] i d = d
  get_or (x ∷ xs) zero d = x
  get_or (x ∷ xs) (suc i) d = get_or xs i d

  -- A write out of bounds changes nothing.
  abbrev pub set : List A → ℕ → A → List A
  set [] i a = []
  set (x ∷ xs) zero a = a ∷ xs
  set (x ∷ xs) (suc i) a = x ∷ set xs i a

  abbrev pub replicate : ℕ → A → List A
  replicate zero a = []
  replicate (suc n) a = a ∷ replicate n a

  abbrev pub All {κ} : (A → Type κ) → List A → Type κ
  All P [] = Unit
  All P (x ∷ xs) = P x × All P xs

module _ {ℓ} {A : Type ℓ} where
  pub length-append : (xs ys : List A) → length (xs ++ ys) ≡ length xs + length ys
  length-append [] ys = omega arith
  length-append (x ∷ xs) ys = omega (arith, length-append xs ys)

  pub take-append-drop : (n : ℕ) (xs : List A) → take n xs ++ drop n xs ≡ xs
  take-append-drop zero xs = refl
  take-append-drop (suc n) [] = refl
  take-append-drop (suc n) (x ∷ xs) = rw (take-append-drop n xs)

  pub length-take : (n : ℕ) (xs : List A) → length (take n xs) ≡ min n (length xs)
  length-take zero xs = omega arith
  length-take (suc n) [] = omega arith
  length-take (suc n) (x ∷ xs) = omega (arith, length-take n xs)

  pub length-drop : (n : ℕ) (xs : List A) → length (drop n xs) ≡ length xs - n
  length-drop zero xs = omega arith
  length-drop (suc n) [] = omega arith
  length-drop (suc n) (x ∷ xs) = omega (arith, length-drop n xs)

  pub take-length-append : (n : ℕ) (xs ys : List A) → length xs ≡ n → take n (xs ++ ys) ≡ xs
  take-length-append zero [] ys h = refl
  take-length-append zero (x ∷ xs) ys h = absurd (omega arith)
  take-length-append (suc n) [] ys h = absurd (omega arith)
  take-length-append (suc n) (x ∷ xs) ys h = rw (take-length-append n xs ys (omega arith))

  pub drop-length-append : (n : ℕ) (xs ys : List A) → length xs ≡ n → drop n (xs ++ ys) ≡ ys
  drop-length-append zero [] ys h = refl
  drop-length-append zero (x ∷ xs) ys h = absurd (omega arith)
  drop-length-append (suc n) [] ys h = absurd (omega arith)
  drop-length-append (suc n) (x ∷ xs) ys h = drop-length-append n xs ys (omega arith)

  pub drop-past-append :
      (n m : ℕ) (xs ys : List A) → length xs ≡ n → drop (n + m) (xs ++ ys) ≡ drop m ys
  drop-past-append zero m [] ys h = rw zero-add
  drop-past-append zero m (x ∷ xs) ys h = absurd (omega arith)
  drop-past-append (suc n) m [] ys h = absurd (omega arith)
  drop-past-append (suc n) m (x ∷ xs) ys h = rw suc-add (drop-past-append n m xs ys (omega arith))

  pub get_or-append :
      (n i : ℕ) (xs ys : List A) (d : A)
      → length xs ≡ n
      → get_or (xs ++ ys) (n + i) d ≡ get_or ys i d
  get_or-append zero i [] ys d h = rw zero-add
  get_or-append zero i (x ∷ xs) ys d h = absurd (omega arith)
  get_or-append (suc n) i [] ys d h = absurd (omega arith)
  get_or-append (suc n) i (x ∷ xs) ys d h = rw suc-add (get_or-append n i xs ys d (omega arith))

  pub set-append :
      (n i : ℕ) (xs ys : List A) (a : A)
      → length xs ≡ n
      → set (xs ++ ys) (n + i) a ≡ xs ++ set ys i a
  set-append zero i [] ys a h = rw zero-add
  set-append zero i (x ∷ xs) ys a h = absurd (omega arith)
  set-append (suc n) i [] ys a h = absurd (omega arith)
  set-append (suc n) i (x ∷ xs) ys a h = rw (suc-add, set-append n i xs ys a (omega arith))

  pub length-replicate : (n : ℕ) (a : A) → length (replicate n a) ≡ n
  length-replicate zero a = refl
  length-replicate (suc n) a = ap suc (length-replicate n a)

  pub get_elem?-lt : (xs : List A) (i : ℕ) → i < length xs → (a : A) × (get_elem? xs i ≡ some a)
  get_elem?-lt [] i h = elim h [ ]
  get_elem?-lt (x ∷ xs) zero h = (x, refl)
  get_elem?-lt (x ∷ xs) (suc i) h = get_elem?-lt xs i (omega arith)

  pub All-append {κ} : (P : A → Type κ) (xs ys : List A) → All P ys → All P xs → All P (xs ++ ys)
  All-append P [] ys hy hx = hy
  All-append P (x ∷ xs) ys hy (h, hx) = (h, All-append P xs ys hy hx)

  pub All-drop {κ} : (P : A → Type κ) (n : ℕ) (xs : List A) → All P xs → All P (drop n xs)
  All-drop P zero xs h = h
  All-drop P (suc n) [] h = h
  All-drop P (suc n) (x ∷ xs) h = All-drop P n xs h.1

  pub All-take {κ} : (P : A → Type κ) (n : ℕ) (xs : List A) → All P xs → All P (take n xs)
  All-take P zero xs h = tt
  All-take P (suc n) [] h = h
  All-take P (suc n) (x ∷ xs) h = (h.0, All-take P n xs h.1)

  -- A loop that walks a slice recurs on what is left of it, which gets shorter.
  abbrev pub Shorter : List A → List A → Type 0
  Shorter xs ys = length xs < length ys

  pub drop-Shorter : (n : ℕ) (x : A) (xs : List A) → Shorter (drop n xs) (x ∷ xs)
  drop-Shorter n x xs = omega (arith, length-drop n xs)

  Acc-shorter : (k : ℕ) (xs : List A) → length xs < k → Acc Shorter xs
  Acc-shorter zero xs h = elim h [ ]
  Acc-shorter (suc k) xs h = Acc.intro xs (λ ys hy. Acc-shorter k ys (omega arith))

  unfoldable pub shorter_acc : (xs : List A) → Acc Shorter xs
  unfolding Acc-shorter
  shorter_acc xs = Acc-shorter (suc (length xs)) xs (omega arith)
