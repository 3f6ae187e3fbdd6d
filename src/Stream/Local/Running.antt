-- ===== src/Stream/Local/Running.antt =====
-- How the receive loop and the start of the stream end.
use busylib_go.Prelude.{
  ℕ, ◌≤◌, ◌≡◌, ◌≢◌, ◌⊎◌, inl, inr, refl, sym, ap, ◌∙◌, Bool, true, false, List, [], ◌∷◌, Option,
  none, some, Option-cases, Result,
}
use busylib_go.Prelude.Bytes.{Bytes}
use busylib_go.Stream.Types.{Lifecycle, stopped, failed, reconnecting}
use busylib_go.Stream.State.{State, Drained, wait, completion, terminal_status}
use busylib_go.Stream.State.Invariant.{Inv, finish-Inv}
use busylib_go.Stream.Updates.{Field, DeviceState, Message}
use busylib_go.Stream.Local.{Local, Failure, StreamError, finish_stream, with_state}
use busylib_go.Stream.Local.Live.{IsLive, change_status_lem, true_ne_false}
use busylib_go.Stream.Local.Attempts.{connect_with_retry-IsOutcome}
use busylib_go.Stream.Local.Read.{ReadEnd, reading, read_end}
use busylib_go.Stream.Local.Reading.{read_connection-Reads}
use busylib_go.Stream.Local.Run.{
  Leg, Progress, running, ended, now_reconnecting, unless_done, end_with, reconnect, after_read,
  run,
}

abbrev pub end_lifecycle : {A : Type 0} → Option A → Lifecycle
end_lifecycle none = stopped
end_lifecycle (some _) = failed

-- The context was seen done at the end of one of the connections.
abbrev pub AnyDone : {C E : Type 0} → List (Leg C E) → Type 0
AnyDone [] = ⊥
AnyDone (leg ∷ legs) = ((leg.context_error ≢ none) ⊎ (leg.context_after ≢ none)) ⊎ AnyDone legs

-- The stream has ended with the outcome, which Wait returns.
pub record IsOver {E M C : Type 0} (e : Option (Failure E)) (w : Local E M C) : Type 0 where
  pub invariant : Inv w.state
  pub finished : w.state.finished ≡ true
  pub disconnected : w.connection ≡ none
  pub waited : wait w.state ≡ completion e
  pub lifecycle : w.state.status.lifecycle ≡ end_lifecycle e

wait-completion :
    {E M : Type 0} (s : State (Failure E) M)
    → Inv s
    → s.finished ≡ true
    → s.started ≡ true
    → wait s ≡ completion s.final_err
unfolding wait
wait-completion s v over begun =
    let done : s.done_closed ≡ s.finished = v.done_closed in rw (begun, done, over) refl

lifecycle_of :
    {E M : Type 0} (e : Option (Failure E)) (s s' : State (Failure E) M)
    → s'.status ≡ terminal_status e s.status
    → s'.status.lifecycle ≡ end_lifecycle e
lifecycle_of none s s' h = ap (λ z. z.lifecycle) h
lifecycle_of (some e) s s' h = ap (λ z. z.lifecycle) h

some_ne_none : {A : Type 0} {a : A} → some a ≡ none → ⊥
some_ne_none e = cc

module _ {E M C : Type 0} where
  pub finish_stream-IsOver :
      (e : Option (Failure E)) (drained : Drained) (w : Local E M C)
      → IsLive w
      → w.state.started ≡ true
      → (w' : Local E M C) × (finish_stream e drained w ≡ some w') × IsOver e w'
  finish_stream-IsOver e drained w l begun =
      let (s', same, v, over, ends) = finish-Inv (λ a b. a) e none drained w.state l.invariant in
      elim ends [
        | inl (already, _) ↦ absurd (true_ne_false already l.live)
        | inr (_, final, status, _, _, started) ↦ (
          record { state = s'; connection = none },
          ap (with_state (record w { connection = none })) same,
          record {
            invariant = v;
            finished = over;
            disconnected = refl;
            waited = wait-completion s' v over (started ∙ begun) ∙ ap completion final;
            lifecycle = lifecycle_of e w.state s' status;
          },
        )
      ]

  -- Of the legs from here: the loop waits on a live stream, or it has ended.
  abbrev pub IsRun : List (Leg C E) → Option (Local E M C × Progress) → Type 0
  IsRun legs o =
      (w : Local E M C) × (p : Progress) × (o ≡ some (w, p))
      × (((p ≡ running) × IsLive w)
          ⊎ ((p ≡ ended) × ((e : Option (Failure E)) × IsOver e w × (e ≡ none → AnyDone legs))))

  end_with-IsRun :
      (legs : List (Leg C E)) (e : Option (Failure E)) (drained : Drained) (w : Local E M C)
      → IsLive w
      → w.state.started ≡ true
      → (e ≡ none → AnyDone legs)
      → IsRun legs (end_with e drained w)
  end_with-IsRun legs e drained w l begun why =
      let (w', same, over) = finish_stream-IsOver e drained w l begun in
      (w', ended, rw same refl, inr (refl, (e, over, why)))

  later-IsRun :
      (leg : Leg C E) (legs : List (Leg C E)) (o : Option (Local E M C × Progress))
      → IsRun legs o
      → IsRun (leg ∷ legs) o
  later-IsRun leg legs o (w, p, same, inl waits) = (w, p, same, inl waits)
  later-IsRun leg legs o (w, p, same, inr (over, (e, is_over, why))) =
      (w, p, same, inr (over, (e, is_over, λ n. inr (why n))))

  -- Connecting again has failed.
  given_up-IsRun :
      (leg : Leg C E) (legs : List (Leg C E)) (e : StreamError E) (w : Local E M C)
      → IsLive w
      → w.state.started ≡ true
      → IsRun
          (leg ∷ legs)
          (end_with (unless_done leg.context_after none (some e)) leg.drained_finish w)
  given_up-IsRun leg legs e w l begun = elim (Option-cases leg.context_after) [
    | inl alive ↦
        end_with-IsRun (leg ∷ legs) _ leg.drained_finish w l begun
          (λ n. absurd (some_ne_none (sym (ap (λ c. unless_done c none (some e)) alive) ∙ n)))
    | inr (x, done) ↦
        end_with-IsRun (leg ∷ legs) _ leg.drained_finish w l begun
          (λ n. inl (inr (λ m. some_ne_none (sym done ∙ m))))
  ]

  module _ (max_attempts : ℕ) (negotiation : Bool) (positive : 1 ≤ max_attempts) (leg : Leg C E)
      (legs : List (Leg C E)) (further : Local E M C → Option (Local E M C × Progress))
      (next : (u : Local E M C) → IsLive u → u.state.started ≡ true → IsRun legs (further u)) where
    reconnect-IsRun :
        (e : Failure E) (w : Local E M C)
        → IsLive w
        → w.state.started ≡ true
        → IsRun (leg ∷ legs) (reconnect max_attempts negotiation leg e w further)
    reconnect-IsRun e w l begun =
        let (v, same, kept, _, _) =
          change_status_lem (now_reconnecting e) leg.drained_reconnect w l in
        let (u, r, n, tried, (kept', _, _, _, _, how)) =
          connect_with_retry-IsOutcome max_attempts negotiation reconnecting leg.attempts v positive
            kept.kept_live in
        let live = kept'.kept_live in
        let started = kept'.started ∙ kept.started ∙ begun in
        elim how [
          | inl (c, _, good, _, _, _, _, _) ↦
              let (z, p, goes, ends) = later-IsRun leg legs (further u) (next u live started) in
              (z, p, rw (same, tried, good) goes, ends)
          | inr (_, f, _, _, _, bad, _, _, _, _) ↦
              let (z, p, goes, ends) = given_up-IsRun leg legs f u live started in
              (z, p, rw (same, tried, bad) goes, ends)
        ]

    after_read-IsRun :
        (context : Option E) (w : Local E M C) (r : ReadEnd E)
        → leg.context_error ≡ context
        → IsLive w
        → w.state.started ≡ true
        → IsRun (leg ∷ legs) (after_read max_attempts negotiation leg context (w, r) further)
    after_read-IsRun none w reading is l begun = (w, running, refl, inl (refl, l))
    after_read-IsRun (some x) w reading is l begun = (w, running, refl, inl (refl, l))
    after_read-IsRun (some x) w (read_end e terminal) is l begun =
        end_with-IsRun (leg ∷ legs) none leg.drained_finish w l begun
          (λ n. inl (inl (λ m. some_ne_none (sym is ∙ m))))
    after_read-IsRun none w (read_end e true) is l begun =
        end_with-IsRun (leg ∷ legs) (some e) leg.drained_finish w l begun
          (λ n. absurd (some_ne_none n))
    after_read-IsRun none w (read_end e false) is l begun = reconnect-IsRun e w l begun

module _ {V : Field → Type 0} {E C : Type 0} (unmarshal : Bytes → Result E (DeviceState V))
    (decode_failure : E → Bytes → E) (path : Bytes) (stale_after max_attempts : ℕ)
    (negotiation : Bool) where
  -- On a stream that was started and has not ended, and with a positive number of attempts, the receive
  -- loop never panics, whatever it reads, however connecting goes and whatever the consumers take:
  -- after any number of connections it either still waits, on a live stream, or it has ended the
  -- stream. Then nothing is connected, Wait returns the outcome, and the status is stopped or
  -- failed by it. An outcome without error means that the context was done.
  pub run-IsRun :
      (legs : List (Leg C E)) (w : Local E (Message V E) C)
      → 1 ≤ max_attempts
      → IsLive w
      → w.state.started ≡ true
      → IsRun legs (run unmarshal decode_failure path stale_after max_attempts negotiation legs w)
  unfolding run
  run-IsRun [] w positive l begun = (w, running, refl, inl (refl, l))
  run-IsRun (leg ∷ legs) w positive l begun =
      let (u, r, reads, live, started) =
        read_connection-Reads unmarshal decode_failure path stale_after leg.events w l in
      let (z, p, goes, ends) =
        after_read-IsRun max_attempts negotiation positive leg legs
          (run unmarshal decode_failure path stale_after max_attempts negotiation legs)
          (λ v l' b. run-IsRun legs v positive l' b) leg.context_error u r refl live
          (started ∙ begun) in
      (z, p, rw reads goes, ends)
