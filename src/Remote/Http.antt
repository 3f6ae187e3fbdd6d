-- ===== src/Remote/Http.antt =====
-- remote/http.go: the responses to requests, by their correlation.
-- Every critical section of the mutex is a step. A result that a goroutine has taken the channel for,
-- and not sent yet, is in hand; a send blocks on a full channel. Topics are given by whether they are
-- the expected one, a map is an association list, and the MQTT transport is a script.
pub mod Once
pub mod Kept
pub mod Runs
use busylib_go.Prelude.{
  ℕ, zero, suc, ◌+◌, ◌-◌, Bool, true, false, not, ◌&&◌, List, [], ◌∷◌, ◌++◌, map, Option, none,
  some, Result, ok, err, ltb, ◌==◌, if◌then◌else◌, length,
}
use busylib_go.Prelude.Bytes.{Bytes, bytes_eq}

-- The errors of the round tripper; `terminal` is that of Error.
pub data HttpError (E : Type 0) : Type 0 where
  closed_error message_too_large subscription_changed nil_subscription : HttpError E
  subscribe_failed : E → HttpError E
  receive_failed : (terminal : Bool) → E → HttpError E

-- httpResult
pub data HttpResult (E : Type 0) : Type 0 where
  response : Bytes → HttpResult E
  failure : HttpError E → HttpResult E

-- httpRoundTripper, with the channels of its requests: each holds one result at most. Subscriptions and
-- channels are numbered; `next` is the number of the next channel.
pub record RoundTripper (E : Type 0) : Type 0 where
  pub subscription : Option ℕ
  pub pending : List (Bytes × ℕ)
  pub is_closed : Bool
  pub close_called : Bool
  pub inflight : ℕ
  pub in_hand : List (ℕ × HttpResult E)
  pub results : ℕ → List (HttpResult E)
  pub next : ℕ

-- The map of pending requests.
abbrev pub lookup : Bytes → List (Bytes × ℕ) → Option ℕ
lookup key [] = none
lookup key ((k, channel) ∷ pending) =
    let rest = lookup key pending in if bytes_eq k key then some channel else rest

abbrev pub delete : Bytes → List (Bytes × ℕ) → List (Bytes × ℕ)
delete key [] = []
delete key ((k, channel) ∷ pending) =
    let rest = delete key pending in if bytes_eq k key then rest else ((k, channel) ∷ rest)

abbrev pub keep_first : {A : Type 0} → A → Option (A × List A) → Option (A × List A)
keep_first x none = none
keep_first x (some (y, ys)) = some (y, x ∷ ys)

-- The i-th element and the others.
abbrev pub pick : {A : Type 0} → ℕ → List A → Option (A × List A)
pick i [] = none
pick zero (x ∷ xs) = some (x, xs)
pick (suc i) (x ∷ xs) = keep_first x (pick i xs)

abbrev pub is_number : Option ℕ → ℕ → Bool
is_number none n = false
is_number (some m) n = m == n

abbrev pub write_at : {A : Type 0} → ℕ → A → (ℕ → A) → ℕ → A
write_at channel a results c = if channel == c then a else results c

abbrev pub is_nil : Bytes → Bool
is_nil [] = true
is_nil (_ ∷ _) = false

-- What a goroutine does next. `takes` is the receive of RoundTrip from its channel,
-- and `ends` its end.
pub data Op (E : Type 0) : Type 0 where
  begins ends closes : Op E
  subscribes : Result E (Option ℕ) → Op E
  registers : Bytes → ℕ → Op E
  unregisters : Bytes → ℕ → Op E
  receives : Bool → Bytes → Bytes → Op E
  fails : ℕ → Bool → E → Op E
  sends takes : ℕ → Op E

module _ {E : Type 0} where
  abbrev pub new_round_tripper : RoundTripper E
  new_round_tripper = record {
    subscription = none;
    pending = [];
    is_closed = false;
    close_called = false;
    inflight = 0;
    in_hand = [];
    results = λ _. [];
    next = 0;
  }

  abbrev pub begin_round_trip : RoundTripper E → RoundTripper E × Option (HttpError E)
  begin_round_trip r =
      if r.is_closed then (r, some closed_error) else (record r { inflight = r.inflight + 1 }, none)

  -- What Subscribe returns: an error, nil, or a subscription.
  abbrev pub subscribed :
      RoundTripper E → Result E (Option ℕ) → RoundTripper E × Result (HttpError E) ℕ
  subscribed r (err e) = (r, err (subscribe_failed e))
  subscribed r (ok none) = (r, err nil_subscription)
  subscribed r (ok (some subscription)) =
      (record r { subscription = some subscription }, ok subscription)

  abbrev pub or_subscribe :
      RoundTripper E → Option ℕ → Result E (Option ℕ) → RoundTripper E × Result (HttpError E) ℕ
  or_subscribe r (some subscription) outcome = (r, ok subscription)
  or_subscribe r none outcome = subscribed r outcome

  abbrev pub ensure_subscription :
      Result E (Option ℕ) → RoundTripper E → RoundTripper E × Result (HttpError E) ℕ
  ensure_subscription outcome r =
      if r.is_closed then (r, err closed_error) else or_subscribe r r.subscription outcome

  -- The channel is made just before.
  abbrev pub register : Bytes → ℕ → RoundTripper E → RoundTripper E × Result (HttpError E) ℕ
  register correlation subscription r =
      let made = record r { next = suc r.next } in
      if r.is_closed
      then (made, err closed_error)
      else if not (is_number r.subscription subscription)
      then (made, err subscription_changed)
      else (
        record made { pending = (correlation, r.next) ∷ delete correlation r.pending },
        ok r.next,
      )

  abbrev pub unregister : Bytes → ℕ → RoundTripper E → RoundTripper E
  unregister correlation channel r =
      if is_number (lookup correlation r.pending) channel
      then record r { pending = delete correlation r.pending }
      else r

  abbrev pub result_of : (maximum : ℕ) → Bytes → HttpResult E
  result_of maximum payload =
      if ltb maximum (length payload) then failure message_too_large else response payload

  abbrev pub take_pending :
      (maximum : ℕ) → Bytes → Bytes → RoundTripper E → Option ℕ → RoundTripper E
  take_pending maximum correlation payload r none = r
  take_pending maximum correlation payload r (some channel) = record r {
    pending = delete correlation r.pending;
    in_hand = (channel, result_of maximum payload) ∷ r.in_hand;
  }

  -- A round of receive, up to the send.
  abbrev pub receive :
      (maximum : ℕ) (expected_topic : Bool) → Bytes → Bytes → RoundTripper E → RoundTripper E
  receive maximum expected_topic correlation payload r =
      if not expected_topic
      then r
      else if is_nil correlation
      then r
      else take_pending maximum correlation payload r (lookup correlation r.pending)

  -- The loop that answers the pending requests.
  abbrev pub fail_all : HttpError E → List (Bytes × ℕ) → List (ℕ × HttpResult E)
  fail_all e [] = []
  fail_all e ((_, channel) ∷ pending) = (channel, failure e) ∷ fail_all e pending

  -- `is_canceled` is errors.Is with context.Canceled.
  abbrev pub subscription_error : (is_closed is_canceled : Bool) → E → HttpError E
  subscription_error is_closed is_canceled e =
      if is_closed && is_canceled then closed_error else receive_failed is_closed e

  abbrev pub subscription_failed : ℕ → (is_canceled : Bool) → E → RoundTripper E → RoundTripper E
  subscription_failed subscription is_canceled e r =
      if not (is_number r.subscription subscription) then r else record r {
        subscription = none;
        pending = [];
        in_hand = fail_all (subscription_error r.is_closed is_canceled e) r.pending ++ r.in_hand;
      }

  -- Close, behind its sync.Once.
  abbrev pub close : RoundTripper E → RoundTripper E
  close r = if r.close_called then r else record r {
    is_closed = true;
    close_called = true;
    subscription = none;
    pending = [];
    in_hand = fail_all closed_error r.pending ++ r.in_hand;
  }

  -- A send of the i-th result in hand.
  abbrev pub put :
      RoundTripper E
      → (ℕ × HttpResult E) × List (ℕ × HttpResult E)
      → List (HttpResult E)
      → Option (RoundTripper E)
  put r ((channel, result), others) [] =
      some (record r { in_hand = others; results = write_at channel (result ∷ []) r.results })
  put r ((channel, result), others) (_ ∷ _) = none

  abbrev pub send :
      RoundTripper E
      → Option ((ℕ × HttpResult E) × List (ℕ × HttpResult E))
      → Option (RoundTripper E)
  send r none = some r
  send r (some ((channel, result), others)) = put r ((channel, result), others) (r.results channel)

  unfoldable pub step : (maximum : ℕ) → Op E → RoundTripper E → Option (RoundTripper E)
  step maximum begins r = some (begin_round_trip r).0
  step maximum ends r = some (record r { inflight = r.inflight - 1 })
  step maximum closes r = some (close r)
  step maximum (subscribes outcome) r = some (ensure_subscription outcome r).0
  step maximum (registers correlation subscription) r = some (register correlation subscription r).0
  step maximum (unregisters correlation channel) r = some (unregister correlation channel r)
  step maximum (receives expected correlation payload) r =
      some (receive maximum expected correlation payload r)
  step maximum (fails subscription is_canceled e) r =
      some (subscription_failed subscription is_canceled e r)
  step maximum (sends i) r = send r (pick i r.in_hand)
  step maximum (takes channel) r = some (record r { results = write_at channel [] r.results })
