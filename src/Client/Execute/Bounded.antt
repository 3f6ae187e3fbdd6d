-- ===== src/Client/Execute/Bounded.antt =====
-- How much of a body readAndCloseResponseBody of request.go takes.
use busylib_go.Prelude.{
  ℕ, zero, suc, ◌≤◌, ◌<◌, ◌≡◌, ◌↔◌, refl, ap, subst, Bool, true, false, List, [], ◌∷◌, Option, none,
  some, Result, ok, err, arith, ltb, if◌then◌else◌, Bool-cases, inl, inr, take, length, length-take,
}
use busylib_go.Prelude.Bytes.{Bytes}
use busylib_go.Client.Prepare.{map_error}
use busylib_go.Client.Execute.{
  HttpResponse, CallError, request_failed, response_too_large, Execution, max_int64,
}
use busylib_go.Client.Execute.Reply.{
  response_request_id, read_limited, closed_body, checked_body, read_and_close_response_body,
}

take-short : {A : Type 0} (n : ℕ) (xs : List A) → length xs ≤ n → take n xs ≡ xs
take-short zero [] h = refl
take-short zero (x ∷ xs) h = absurd (omega arith)
take-short (suc n) [] h = refl
take-short (suc n) (x ∷ xs) h = ap (x ∷◌) (take-short n xs (omega arith))

map_error_iff :
    {A B C : Type 0} (f : A → B) (r : Result A C) (c : C) → (map_error f r ≡ ok c) ↔ (r ≡ ok c)
map_error_iff f (err e) c = (λ h. cc, λ h. cc)
map_error_iff f (ok b) c = (λ h. cc, λ h. cc)

beyond : (maximum n : ℕ) → ltb maximum n ≡ true → maximum < n
beyond maximum n h = ground (arith, h)

module _ {E : Type 0} (maximum : ℕ) where
  -- All of the content, within the maximum, with no error.
  abbrev pub IsWhole : Bytes → Option E → Option E → Bytes → Type 0
  IsWhole content read closed body =
      (content ≡ body) × (length body ≤ maximum) × (read ≡ none) × (closed ≡ none)

  closed_body_iff :
      (content : Bytes) (closed : Option E) (body : Bytes)
      → length content ≤ maximum
      → (closed_body content closed ≡ ok body) ↔ IsWhole content none closed body
  closed_body_iff content (some e) body short = (λ h. cc, λ (_, _, _, h). cc)
  closed_body_iff content none body short = (
    λ h.
        let same : content ≡ body = cc in
        (same, subst (λ b. length b ≤ maximum) same short, refl, refl),
    λ (same, _, _, _). ap ok same,
  )

  checked_body-short :
      (content : Bytes) (read closed : Option E) (body : Bytes)
      → length content ≤ maximum
      → (checked_body maximum (content, read) closed ≡ ok body) ↔ IsWhole content read closed body
  checked_body-short content (some e) closed body short = (λ h. cc, λ (_, _, h, _). cc)
  checked_body-short content none closed body short =
      let within : ltb maximum (length content) ≡ false = ground (arith, short) in
      rw within (closed_body_iff content closed body short)

  too_large :
      (large : Bool) (otherwise : Result (CallError E) Bytes) (body : Bytes)
      → large ≡ true
      → ¬ ((if large then err response_too_large else otherwise) ≡ ok body)
  too_large true otherwise body large h = cc
  too_large false otherwise body large h = cc

  -- What was taken of a body that is too long is too long as well.
  checked_body-long :
      (content taken : Bytes) (read after closed : Option E) (body : Bytes)
      → maximum < length content
      → maximum < length taken
      → (checked_body maximum (taken, after) closed ≡ ok body) ↔ IsWhole content read closed body
  checked_body-long content taken read (some e) closed body long taken_long =
      (λ h. cc, λ (same, short, _, _). absurd (omega (arith, long, short, ap length same)))
  checked_body-long content taken read none closed body long taken_long = (
    λ h. absurd (
        too_large (ltb maximum (length taken)) (closed_body taken closed) body
          (ground (arith, taken_long)) h),
    λ (same, short, _, _). absurd (omega (arith, long, short, ap length same)),
  )

  read_limited_iff :
      (r : HttpResponse E) (body : Bytes)
      → (checked_body maximum (read_limited maximum r) r.close_error ≡ ok body)
        ↔ IsWhole r.content r.read_error r.close_error body
  read_limited_iff r body = elim (Bool-cases (ltb maximum (length r.content))) [
    | inl long ↦ elim (Bool-cases (ltb maximum max_int64)) [
      | inl limited ↦
          rw (limited, long)
            (checked_body-long r.content (take (suc maximum) r.content) r.read_error none
              r.close_error body (ground (arith, long))
              (omega (
                arith,
                length-take (suc maximum) r.content,
                beyond maximum (length r.content) long,
              )))
      | inr unlimited ↦ rw unlimited (
          checked_body-long r.content r.content r.read_error r.read_error r.close_error body
            (ground (arith, long)) (ground (arith, long)))
    ]
    | inr short ↦ elim (Bool-cases (ltb maximum max_int64)) [
      | inl limited ↦
          rw (limited, short, take-short (suc maximum) r.content (ground (arith, short)))
            (checked_body-short r.content r.read_error r.close_error body (ground (arith, short)))
      | inr unlimited ↦
          rw unlimited
            (checked_body-short r.content r.read_error r.close_error body (ground (arith, short)))
    ]
  ]

-- Reading succeeds exactly on a body within the client's maximum that comes with no error, and gives the
-- whole of it.
pub read_and_close_response_body_iff :
    {E : Type 0} (lower_rune : ℕ → ℕ) (x : Execution E) (r : HttpResponse E) (attempts : ℕ)
    (body : Bytes)
    → (read_and_close_response_body lower_rune x r attempts ≡ ok body)
      ↔ IsWhole x.max_response_bytes r.content r.read_error r.close_error body
unfolding read_and_close_response_body
read_and_close_response_body_iff lower_rune x r attempts body =
    let (there, back) = read_limited_iff x.max_response_bytes r body in
    let (to, from) =
      map_error_iff (request_failed (response_request_id lower_rune r x.request_id) attempts)
        (checked_body x.max_response_bytes (read_limited x.max_response_bytes r) r.close_error)
        body in
    (λ h. there (to h), λ w. from (back w))
