-- ===== src/Prelude/Results.antt =====
-- Results of fallible Go functions: a value, or an error of the component's own type.
use mathlib.Core.Path.{◌≡◌, refl}
use mathlib.Core.Logic.{◌⊎◌, ◌↔◌, inl, inr}
use mathlib.Core.Bool.{Bool, true, false}

pub data Result {ℓ κ} (E : Type ℓ) (A : Type κ) : Type (ℓ ⊔ κ) where
  err : E → Result E A
  ok : A → Result E A

-- `if bad { return err }`
abbrev pub refuse_if {ℓ} : {E : Type ℓ} → Bool → E → Result E (Unit {0})
refuse_if false e = ok tt
refuse_if true e = err e

module _ {ℓ κ μ} {E : Type ℓ} {A : Type κ} {B : Type μ} where
  infixl 5 ◌>>=◌ ◌>>◌
  abbrev pub ◌>>=◌ : Result E A → (A → Result E B) → Result E B
  (err e) >>= next = err e
  (ok a) >>= next = next a

  abbrev pub ◌>>◌ : Result E A → Result E B → Result E B
  (err e) >> next = err e
  (ok a) >> next = next

  -- The value that a successful computation went through.
  pub bind_inversion :
      (first : Result E A) (next : A → Result E B) {b : B}
      → (first >>= next) ≡ ok b
      → (a : A) × (first ≡ ok a) × (next a ≡ ok b)
  bind_inversion (err e) next done = cc
  bind_inversion (ok a) next done = (a, refl, done)

-- A guard that was passed.
pub refuse_if-passed {ℓ} :
    {E B : Type ℓ} (b : Bool) (e : E) (next : Result E B) {a : B}
    → (refuse_if b e >> next) ≡ ok a
    → (b ≡ false) × (next ≡ ok a)
refuse_if-passed false e next h = (refl, h)
refuse_if-passed true e next h = cc

pub refuse_if-ok {ℓ} : {E : Type ℓ} (b : Bool) (e : E) → refuse_if b e ≡ ok tt → b ≡ false
refuse_if-ok false e h = refl
refuse_if-ok true e h = cc

-- Two checks pass as one.
pub then_iff {ℓ} :
    {E : Type ℓ} (first next : Result E (Unit {0}))
    → ((first >> next) ≡ ok tt) ↔ ((first ≡ ok tt) × (next ≡ ok tt))
then_iff (err e) next = (λ h. cc, λ (h, _). cc)
then_iff (ok u) next = (λ h. (refl, h), λ (_, h). h)

pub refuse_if_iff {ℓ} : {E : Type ℓ} (b : Bool) (e : E) → (refuse_if b e ≡ ok tt) ↔ (b ≡ false)
refuse_if_iff false e = (λ h. refl, λ h. refl)
refuse_if_iff true e = (λ h. cc, λ h. cc)

pub next_inversion {ℓ} :
    {E A B : Type ℓ} (first : Result E A) (next : Result E B) {b : B}
    → (first >> next) ≡ ok b
    → (a : A) × (first ≡ ok a) × (next ≡ ok b)
next_inversion (err e) next done = cc
next_inversion (ok a) next done = (a, refl, done)

pub ok_injective {ℓ} : {E A : Type ℓ} {a b : A} → ◌≡◌ {A = Result E A} (ok a) (ok b) → a ≡ b
ok_injective h = cc

pub Result-cases {ℓ κ} :
    {E : Type ℓ} {A : Type κ} (r : Result E A) → ((a : A) × (r ≡ ok a)) ⊎ ((e : E) × (r ≡ err e))
Result-cases (err e) = inr (e, refl)
Result-cases (ok a) = inl (a, refl)
