-- ===== src/Remote/Http/Kept.antt =====
-- Each step of a goroutine of remote/http.go keeps the invariant.
use busylib_go.Prelude.{
  one_if, either_one, ℕ, suc, ◌+◌, ◌≤◌, ◌≡◌, refl, ap, Bool, true, false, not, List, [], ◌∷◌, ◌++◌,
  Option, none, some, Result, ok, err, arith, ◌==◌, if◌then◌else◌, length,
}
use busylib_go.Prelude.Bytes.{Bytes}
use busylib_go.Remote.Http.{
  RoundTripper, HttpResult, HttpError, Op, begins, ends, closes, subscribes, registers, unregisters,
  receives, fails, sends, takes, lookup, delete, pick, write_at, is_number, fail_all, step, send,
  put, or_subscribe, ensure_subscription, begin_round_trip, register, unregister, take_pending,
  receive, is_nil, closed_error, subscription_error, subscription_failed, close,
}
use busylib_go.Remote.Http.Once.{
  waiting, held, answers, Inv, less-Inv, waiting-delete, waiting-lookup, held-fail_all, held-pick,
}

-- Both branches of a test.
either_first :
    {A B : Type 0} (P : A → Type 0) (b : Bool) (x y : A × B)
    → (b ≡ true → P x.0)
    → (b ≡ false → P y.0)
    → P ((if b then x else y).0)
either_first P true x y p q = p refl
either_first P false x y p q = q refl

module _ {E : Type 0} where
  begin_round_trip-Inv : (r : RoundTripper E) → Inv r → Inv (begin_round_trip r).0
  begin_round_trip-Inv r v =
      either_first Inv r.is_closed (r, some closed_error)
        (record r { inflight = r.inflight + 1 }, none) (λ over. v)
        (λ live. record { once = v.once; fresh = v.fresh; settled = v.settled; called = v.called })

  or_subscribe-Inv :
      (r : RoundTripper E) (now : Option ℕ) (outcome : Result E (Option ℕ))
      → r.is_closed ≡ false
      → Inv r
      → Inv (or_subscribe r now outcome).0
  or_subscribe-Inv r (some s) outcome live v = v
  or_subscribe-Inv r none (err e) live v = v
  or_subscribe-Inv r none (ok none) live v = v
  or_subscribe-Inv r none (ok (some s)) live v = record {
    once = v.once;
    fresh = v.fresh;
    settled = λ h. cc;
    called = v.called;
  }

  ensure_subscription-Inv :
      (r : RoundTripper E) (outcome : Result E (Option ℕ))
      → Inv r
      → Inv (ensure_subscription outcome r).0
  ensure_subscription-Inv r outcome v =
      either_first Inv r.is_closed (r, err closed_error) (or_subscribe r r.subscription outcome)
        (λ over. v) (λ live. or_subscribe-Inv r r.subscription outcome live v)

  made-Inv : (r : RoundTripper E) → Inv r → Inv (record r { next = suc r.next })
  made-Inv r v = record {
    once = v.once;
    fresh = λ c h. v.fresh c (omega (arith, h));
    settled = v.settled;
    called = v.called;
  }

  registered-Inv :
      (r : RoundTripper E) (correlation : Bytes)
      → r.is_closed ≡ false
      → Inv r
      → Inv (record r {
        next = suc r.next;
        pending = (correlation, r.next) ∷ delete correlation r.pending;
      })
  registered-Inv r correlation live v = record {
    once = λ c.
        let fewer = waiting-delete c correlation r.pending in
        let once = v.once c in let fresh = v.fresh c in ground (arith, fewer, once, fresh);
    fresh = λ c h.
        let fewer = waiting-delete c correlation r.pending in
        let fresh = v.fresh c (omega (arith, h)) in ground (arith, fewer, fresh, h);
    settled = λ h. cc;
    called = v.called;
  }

  register-Inv :
      (r : RoundTripper E) (correlation : Bytes) (subscription : ℕ)
      → Inv r
      → Inv (register correlation subscription r).0
  register-Inv r correlation subscription v =
      either_first Inv r.is_closed _ _ (λ over. made-Inv r v)
        (λ live.
          either_first Inv (not (is_number r.subscription subscription)) _ _ (λ other. made-Inv r v)
            (λ same. registered-Inv r correlation live v))

  unregister-Inv :
      (r : RoundTripper E) (correlation : Bytes) (channel : ℕ)
      → Inv r
      → Inv (unregister correlation channel r)
  unregister-Inv r correlation channel v =
      either_one Inv (is_number (lookup correlation r.pending) channel) _ r
        (λ same.
          less-Inv r (record r { pending = delete correlation r.pending })
            (λ c. let fewer = waiting-delete c correlation r.pending in omega (arith, fewer)) refl
            (λ h. let (none_left, off) = v.settled h in (ap (delete correlation) none_left, off))
            v.called v)
        (λ other. v)

  take_pending-Inv :
      (maximum : ℕ) (correlation payload : Bytes) (r : RoundTripper E) (o : Option ℕ)
      → lookup correlation r.pending ≡ o
      → Inv r
      → Inv (take_pending maximum correlation payload r o)
  take_pending-Inv maximum correlation payload r none found v = v
  take_pending-Inv maximum correlation payload r (some channel) found v =
      less-Inv r _
        (λ c. let moved = waiting-lookup c correlation r.pending found in omega (arith, moved)) refl
        (λ h. let (none_left, off) = v.settled h in (ap (delete correlation) none_left, off))
        v.called v

  receive-Inv :
      (maximum : ℕ) (expected : Bool) (correlation payload : Bytes) (r : RoundTripper E)
      → Inv r
      → Inv (receive maximum expected correlation payload r)
  receive-Inv maximum expected correlation payload r v =
      either_one Inv (not expected) r _ (λ other. v)
        (λ here.
          either_one Inv (is_nil correlation) r _ (λ nothing. v)
            (λ something.
              take_pending-Inv maximum correlation payload r (lookup correlation r.pending) refl v))

  -- All that waits is answered with the error.
  failed-Inv :
      (r r' : RoundTripper E) (e : HttpError E)
      → r'.pending ≡ []
      → r'.in_hand ≡ fail_all e r.pending ++ r.in_hand
      → r'.results ≡ r.results
      → r'.next ≡ r.next
      → r'.subscription ≡ none
      → r'.close_called ≡ r'.is_closed
      → Inv r
      → Inv r'
  failed-Inv r r' e none_left hand results next off called v =
      less-Inv r r'
        (λ c.
          let moved = held-fail_all c e r.pending r.in_hand in
          rw (none_left, hand, results) (omega (arith, moved)))
        next (λ h. (none_left, off)) called v

  subscription_failed-Inv :
      (r : RoundTripper E) (subscription : ℕ) (is_canceled : Bool) (e : E)
      → Inv r
      → Inv (subscription_failed subscription is_canceled e r)
  subscription_failed-Inv r subscription is_canceled e v =
      either_one Inv (not (is_number r.subscription subscription)) r _ (λ other. v)
        (λ same.
          failed-Inv r _ (subscription_error r.is_closed is_canceled e) refl refl refl refl refl
            v.called v)

  close-Inv : (r : RoundTripper E) → Inv r → Inv (close r)
  close-Inv r v =
      either_one Inv r.close_called r _ (λ again. v)
        (λ first. failed-Inv r _ closed_error refl refl refl refl refl refl v)

  -- The channel that is taken holds at most what it held.
  takes-Inv :
      (r : RoundTripper E) (channel : ℕ)
      → Inv r
      → Inv (record r { results = write_at channel [] r.results })
  takes-Inv r channel v = less-Inv r _ (λ c. ground arith) refl v.settled v.called v

  put_le :
      (r : RoundTripper E) (channel : ℕ) (result : HttpResult E) (others : List (ℕ × HttpResult E))
      (c : ℕ)
      → held c r.in_hand ≡ one_if (channel == c) + held c others
      → r.results channel ≡ []
      → waiting c r.pending + held c others + length (write_at channel (result ∷ []) r.results c)
        ≤ answers r c
  put_le r channel result others c counted is = ground arith

  put_full :
      (r : RoundTripper E) (channel : ℕ) (x : HttpResult E) (xs : List (HttpResult E))
      (others : List (ℕ × HttpResult E))
      → held channel r.in_hand ≡ one_if (channel == channel) + held channel others
      → r.results channel ≡ x ∷ xs
      → answers r channel ≤ 1
      → ⊥
  put_full r channel x xs others counted is once = ground arith

  put-Inv :
      (r : RoundTripper E) (channel : ℕ) (result : HttpResult E) (others : List (ℕ × HttpResult E))
      (held_now : List (HttpResult E))
      → ((c : ℕ) → held c r.in_hand ≡ one_if (channel == c) + held c others)
      → r.results channel ≡ held_now
      → Inv r
      → (r' : RoundTripper E) × (put r ((channel, result), others) held_now ≡ some r') × Inv r'
  put-Inv r channel result others [] counted is v = (
    _,
    refl,
    less-Inv r _ (λ c. put_le r channel result others c (counted c) is) refl v.settled v.called v,
  )
  put-Inv r channel result others (x ∷ xs) counted is v =
      absurd (put_full r channel x xs others (counted channel) is (v.once channel))

  send-Inv :
      (r : RoundTripper E) (i : ℕ) (o : Option ((ℕ × HttpResult E) × List (ℕ × HttpResult E)))
      → pick i r.in_hand ≡ o
      → Inv r
      → (r' : RoundTripper E) × (send r o ≡ some r') × Inv r'
  send-Inv r i none found v = (r, refl, v)
  send-Inv r i (some ((channel, result), others)) found v =
      put-Inv r channel result others (r.results channel) (λ c. held-pick c i r.in_hand found) refl
        v

  pub step-Inv :
      (maximum : ℕ) (op : Op E) (r : RoundTripper E)
      → Inv r
      → (r' : RoundTripper E) × (step maximum op r ≡ some r') × Inv r'
  unfolding step
  step-Inv maximum begins r v = (_, refl, begin_round_trip-Inv r v)
  step-Inv maximum ends r v =
      (_, refl, record { once = v.once; fresh = v.fresh; settled = v.settled; called = v.called })
  step-Inv maximum closes r v = (_, refl, close-Inv r v)
  step-Inv maximum (subscribes outcome) r v = (_, refl, ensure_subscription-Inv r outcome v)
  step-Inv maximum (registers correlation subscription) r v =
      (_, refl, register-Inv r correlation subscription v)
  step-Inv maximum (unregisters correlation channel) r v =
      (_, refl, unregister-Inv r correlation channel v)
  step-Inv maximum (receives expected correlation payload) r v =
      (_, refl, receive-Inv maximum expected correlation payload r v)
  step-Inv maximum (fails subscription is_canceled e) r v =
      (_, refl, subscription_failed-Inv r subscription is_canceled e v)
  step-Inv maximum (sends i) r v = send-Inv r i (pick i r.in_hand) refl v
  step-Inv maximum (takes channel) r v = (_, refl, takes-Inv r channel v)
