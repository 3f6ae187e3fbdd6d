-- ===== src/Busy/Cards.antt =====
-- Which texts validateBusyCardID of busy.go takes for UUIDs.
use busylib_go.Prelude.{
  ℕ, zero, suc, ◌+◌, ◌≤◌, ◌≡◌, ◌↔◌, refl, sym, ◌∙◌, ap, subst, Bool, true, false, ◌&&◌, not, [],
  ◌∷◌, ◌++◌, append-nil, ok, arith, ◌==◌, length, length-append, All, refuse_if-passed,
  refuse_if-ok,
}
use native.Mathlib.Nat.{zero-add}
use busylib_go.Prelude.Bytes.{Bytes}
use busylib_go.Busy.{
  is_dash_index, is_hex, card_from, card_malformed, card_length, validate_card_id,
}

-- Digits of a number of the given length.
abbrev pub IsRun : ℕ → Bytes → Type 0
IsRun n s = (length s ≡ n) × All (λ c. is_hex c ≡ true) s

abbrev pub dashed : Bytes → Bytes → Bytes
dashed s rest = s ++ 45 ∷ rest

-- Five groups of hexadecimal digits between dashes.
pub record IsUuid (value : Bytes) : Type 0 where
  pub group_1 : Bytes
  pub group_2 : Bytes
  pub group_3 : Bytes
  pub group_4 : Bytes
  pub group_5 : Bytes
  pub whole : value ≡ dashed group_1 (dashed group_2 (dashed group_3 (dashed group_4 group_5)))
  pub run_1 : IsRun 8 group_1
  pub run_2 : IsRun 4 group_2
  pub run_3 : IsRun 4 group_3
  pub run_4 : IsRun 4 group_4
  pub run_5 : IsRun 12 group_5

-- No dash stands in the n places from an index on.
abbrev no_dash : ℕ → ℕ → Bool
no_dash index zero = true
no_dash index (suc n) = not (is_dash_index index) && no_dash (suc index) n

shifted : (n index : ℕ) → n + suc index ≡ suc n + index
shifted n index = omega arith

-- A run of digits is skipped, and only one is.
card_from-run :
    (index n : ℕ) (s rest : Bytes)
    → no_dash index n ≡ true
    → IsRun n s
    → card_from index (s ++ rest) ≡ card_from (n + index) rest
unfolding card_from
card_from-run index zero [] rest plain run = rw zero-add refl
card_from-run index zero (c ∷ s) rest plain (count, hex) = absurd (omega (arith, count))
card_from-run index (suc n) [] rest plain (count, hex) = absurd (omega (arith, count))
card_from-run index (suc n) (c ∷ s) rest plain (count, (h, hex)) =
    let dashless : is_dash_index index ≡ false = ground (arith, plain) in
    let further =
      card_from-run (suc index) n s rest (ground (arith, plain)) (omega (arith, count), hex) in
    rw (dashless, h, further) (ap (λ i. card_from i rest) (shifted n index))

card_from-split :
    (index n : ℕ) (value : Bytes)
    → no_dash index n ≡ true
    → n ≤ length value
    → card_from index value ≡ true
    → (s : Bytes) × (rest : Bytes) × (value ≡ s ++ rest)
      × IsRun n s
      × (card_from (n + index) rest ≡ true)
unfolding card_from
card_from-split index zero value plain long h = ([], value, refl, (refl, tt), rw zero-add h)
card_from-split index (suc n) [] plain long h = absurd (omega (arith, long))
card_from-split index (suc n) (c ∷ value) plain long h =
    let dashless : is_dash_index index ≡ false = ground (arith, plain) in
    let (s, rest, same, (count, hex), further) =
      card_from-split (suc index) n value (ground (arith, plain)) (omega (arith, long))
        (ground (arith, h, dashless)) in
    (
      c ∷ s,
      rest,
      ap (c ∷◌) same,
      (ap suc count, (ground (arith, h, dashless), hex)),
      subst (λ i. card_from i rest ≡ true) (shifted n index) further,
    )

-- A dash where one is due.
card_from-dash :
    (index : ℕ) (value : Bytes)
    → is_dash_index index ≡ true
    → 1 ≤ length value
    → card_from index value ≡ true
    → (rest : Bytes) × (value ≡ 45 ∷ rest) × (card_from (suc index) rest ≡ true)
unfolding card_from
card_from-dash index [] due long h = absurd (omega (arith, long))
card_from-dash index (c ∷ value) due long h =
    let here : c ≡ 45 = ground (arith, due, h) in
    (value, ap (λ x. x ∷ value) here, ground (arith, due, h))

length-parts :
    (value s rest : Bytes) (n : ℕ)
    → value ≡ s ++ rest
    → length s ≡ n
    → length value ≡ n + length rest
length-parts value s rest n same count =
    let split = length-append s rest in
    let whole = ap length same in omega (arith, split, whole, count)

-- A group with the dash behind it.
card_from-group :
    (index n : ℕ) (value : Bytes)
    → no_dash index n ≡ true
    → is_dash_index (n + index) ≡ true
    → suc n ≤ length value
    → card_from index value ≡ true
    → (s : Bytes) × (rest : Bytes) × (value ≡ s ++ 45 ∷ rest)
      × IsRun n s
      × (length value ≡ suc n + length rest)
      × (card_from (suc (n + index)) rest ≡ true)
card_from-group index n value plain due long h =
    let (s, tail, same, run, further) =
      card_from-split index n value plain (omega (arith, long)) h in
    let count = length-parts value s tail n same run.0 in
    let (rest, dash, last) =
      card_from-dash (n + index) tail due (omega (arith, count, long)) further in
    let size : length tail ≡ suc (length rest) = ap length dash in
    (s, rest, same ∙ ap (λ t. s ++ t) dash, run, omega (arith, count, size), last)

ends_there : (s : Bytes) → length s ≡ 0 → s ≡ []
ends_there [] h = refl
ends_there (c ∷ s) h = absurd (omega (arith, h))

joined :
    {value : Bytes} (v1 v2 v3 v4 v5 a b c d e : Bytes)
    → value ≡ dashed a v1
    → v1 ≡ dashed b v2
    → v2 ≡ dashed c v3
    → v3 ≡ dashed d v4
    → v4 ≡ e ++ v5
    → v5 ≡ []
    → value ≡ dashed a (dashed b (dashed c (dashed d e)))
joined v1 v2 v3 v4 v5 a b c d e s1 s2 s3 s4 s5 end =
    s1
    ∙ ap (dashed a) (
        s2
        ∙ ap (dashed b)
            (s3 ∙ ap (dashed c) (s4 ∙ ap (dashed d) (s5 ∙ (ap (λ v. e ++ v) end ∙ append-nil e)))))

card_from-IsUuid : (value : Bytes) → length value ≡ 36 → card_from 0 value ≡ true → IsUuid value
card_from-IsUuid value size h =
    let (a, v1, s1, r1, n1, h1) = card_from-group 0 8 value refl refl (omega (arith, size)) h in
    let (b, v2, s2, r2, n2, h2) = card_from-group 9 4 v1 refl refl (omega (arith, size, n1)) h1 in
    let (c, v3, s3, r3, n3, h3) =
      card_from-group 14 4 v2 refl refl (omega (arith, size, n1, n2)) h2 in
    let (d, v4, s4, r4, n4, h4) =
      card_from-group 19 4 v3 refl refl (omega (arith, size, n1, n2, n3)) h3 in
    let (e, v5, s5, r5, h5) =
      card_from-split 24 12 v4 refl (omega (arith, size, n1, n2, n3, n4)) h4 in
    let end =
      ends_there v5
        (let all = length-parts v4 e v5 12 s5 r5.0 in omega (arith, size, n1, n2, n3, n4, all)) in
    record {
      group_1 = a;
      group_2 = b;
      group_3 = c;
      group_4 = d;
      group_5 = e;
      whole = joined v1 v2 v3 v4 v5 a b c d e s1 s2 s3 s4 s5 end;
      run_1 = r1;
      run_2 = r2;
      run_3 = r3;
      run_4 = r4;
      run_5 = r5;
    }

-- A group and its dash are skipped.
card_from-skip :
    (index n : ℕ) (s rest : Bytes)
    → no_dash index n ≡ true
    → is_dash_index (n + index) ≡ true
    → IsRun n s
    → card_from index (s ++ 45 ∷ rest) ≡ card_from (suc (n + index)) rest
unfolding card_from
card_from-skip index n s rest plain due run =
    card_from-run index n s (45 ∷ rest) plain run ∙ rw due refl

last_group : (s : Bytes) → IsRun 12 s → card_from 24 s ≡ true
unfolding card_from
last_group s run = ap (card_from 24) (sym (append-nil s)) ∙ card_from-run 24 12 s [] refl run

IsUuid-card_from : (value : Bytes) → IsUuid value → (length value ≡ 36) × (card_from 0 value ≡ true)
IsUuid-card_from value u =
    let r4 = dashed u.group_4 u.group_5 in
    let r3 = dashed u.group_3 r4 in
    let r2 = dashed u.group_2 r3 in
    let size = ap length u.whole in
    let n1 = length-append u.group_1 (45 ∷ r2) in
    let n2 = length-append u.group_2 (45 ∷ r3) in
    let n3 = length-append u.group_3 (45 ∷ r4) in
    let n4 = length-append u.group_4 (45 ∷ u.group_5) in
    let skipped =
      card_from-skip 0 8 u.group_1 r2 refl refl u.run_1
      ∙ (card_from-skip 9 4 u.group_2 r3 refl refl u.run_2
          ∙ (card_from-skip 14 4 u.group_3 r4 refl refl u.run_3
              ∙ card_from-skip 19 4 u.group_4 u.group_5 refl refl u.run_4)) in
    (
      omega (arith, size, n1, n2, n3, n4, u.run_1.0, u.run_2.0, u.run_3.0, u.run_4.0, u.run_5.0),
      ap (card_from 0) u.whole ∙ (skipped ∙ last_group u.group_5 u.run_5),
    )

-- The identifiers that are accepted are the UUIDs: groups of 8, 4, 4, 4 and 12 hexadecimal digits with
-- dashes between them.
pub validate_card_id_iff : (value : Bytes) → (validate_card_id value ≡ ok tt) ↔ IsUuid value
unfolding validate_card_id
validate_card_id_iff value = (
  λ h.
      let (size, rest) = refuse_if-passed (not (length value == 36)) card_length _ h in
      let good = refuse_if-ok (not (card_from 0 value)) card_malformed rest in
      card_from-IsUuid value (ground (arith, size)) (ground (arith, good)),
  λ u. let (size, good) = IsUuid-card_from value u in rw (size, good) refl,
)
