-- ===== src/Stream/Local/Starting.antt =====
-- How the start of the stream ends.
use busylib_go.Prelude.{
  ℕ, ◌≤◌, ◌≡◌, ◌⊎◌, inl, inr, refl, ◌∙◌, Bool, true, false, Bool-cases, Option, none, some, err,
  arith,
}
use busylib_go.Stream.Types.{connecting, connected, failed}
use busylib_go.Stream.State.{begin, already_started}
use busylib_go.Stream.State.Invariant.{Inv}
use busylib_go.Stream.Local.{Local, Failure, StreamError, stream_error, bare, external}
use busylib_go.Stream.Local.Live.{IsLive, change_status_lem}
use busylib_go.Stream.Local.Attempts.{connect_with_retry-IsOutcome}
use busylib_go.Stream.Local.Run.{
  Leg, now_connecting, start, StartResult, refused, began, start_failed, start_error, after_start,
  after_begin,
}
use busylib_go.Stream.Local.Running.{IsOver, finish_stream-IsOver}

-- What Start returns where connecting failed: the context's error if Stop or the caller has ended the
-- context, and the error of connecting otherwise.
abbrev pub IsStartError : {E : Type 0} → Option E → Failure E → Type 0
IsStartError none e = (f : StreamError _) × (e ≡ stream_error f)
IsStartError (some x) e = e ≡ bare (external x)

start_error-some :
    {E : Type 0} (context : Option E) (f : StreamError E)
    → (e : Failure E) × (start_error context (some f) ≡ some e) × IsStartError context e
start_error-some none f = (stream_error f, refl, (f, refl))
start_error-some (some x) f = (bare (external x), refl, refl)

module _ {E M C : Type 0} where
  begun-IsLive :
      (w : Local E M C)
      → IsLive w
      → IsLive (record w { state = record (w.state) { started = true } })
  begun-IsLive w l =
      let v : Inv w.state = l.invariant in record { invariant = ground arith; live = l.live }

  -- The receive loop may run, or the stream has ended with the error that Start returns.
  abbrev pub IsStarted : Option E → Option (Local E M C × StartResult E) → Type 0
  IsStarted context o =
      (w : Local E M C) × (r : StartResult E) × (o ≡ some (w, r))
      × (((r ≡ began)
            × IsLive w
            × (w.state.started ≡ true)
            × (w.state.status.lifecycle ≡ connected))
          ⊎ ((e : Failure E) × (r ≡ start_failed (some e))
              × IsStartError context e
              × (w.state.status.lifecycle ≡ failed)
              × IsOver (some e) w))

  failed-IsStarted :
      (leg : Leg C E) (f : StreamError E) (w : Local E M C)
      → IsLive w
      → w.state.started ≡ true
      → IsStarted leg.context_after (after_start leg (w, err (some f)))
  failed-IsStarted leg f w l begun =
      let (e, is, why) = start_error-some leg.context_after f in
      let (w', same, over) = finish_stream-IsOver (some e) leg.drained_finish w l begun in
      (w', start_failed (some e), rw (is, same) refl, inr (e, refl, why, over.lifecycle, over))

  begun-IsStarted :
      (max_attempts : ℕ) (negotiation : Bool) (leg : Leg C E) (w : Local E M C)
      → 1 ≤ max_attempts
      → IsLive w
      → w.state.started ≡ true
      → IsStarted leg.context_after (after_begin max_attempts negotiation leg w (w.state, none))
  begun-IsStarted max_attempts negotiation leg w positive l begun =
      let (v, same, kept, _, _) = change_status_lem now_connecting leg.drained_reconnect w l in
      let (u, r, n, tried, (kept', _, _, _, _, how)) =
        connect_with_retry-IsOutcome max_attempts negotiation connecting leg.attempts v positive
          kept.kept_live in
      let started = kept'.started ∙ kept.started ∙ begun in
      elim how [
        | inl (c, _, good, _, lifecycle, _, _, _) ↦
            (u, began, rw (same, tried, good) refl, inl (refl, kept'.kept_live, started, lifecycle))
        | inr (_, f, _, _, _, bad, _, _, _, _) ↦
            let (z, p, goes, ends) = failed-IsStarted leg f u kept'.kept_live started in
            (z, p, rw (same, tried, bad) goes, ends)
      ]

  -- Start, on a stream that has not ended and with a positive number of attempts, does not panic. A
  -- stream that was started before refuses and stays as it is. Another one is marked as started, and
  -- either connects and lives on, with the status connected; or the stream ends with the error that
  -- Start returns, which Wait then returns too, and its status is failed. That error is the context's
  -- where Stop or the caller has ended the context, and then too the status is failed, not stopped.
  pub start-IsStarted :
      (max_attempts : ℕ) (negotiation : Bool) (leg : Leg C E) (w : Local E M C)
      → 1 ≤ max_attempts
      → IsLive w
      → ((w.state.started ≡ true)
          × (start max_attempts negotiation leg w ≡ some (w, refused already_started)))
        ⊎ ((w.state.started ≡ false)
            × IsStarted leg.context_after (start max_attempts negotiation leg w))
  unfolding start begin
  start-IsStarted max_attempts negotiation leg w positive l = elim (Bool-cases w.state.started) [
    | inl already ↦ inl (already, rw already refl)
    | inr fresh ↦
        let w1 = record w { state = record (w.state) { started = true } } in
        inr (
          fresh,
          rw fresh
              (begun-IsStarted max_attempts negotiation leg w1 positive (begun-IsLive w l) refl),
        )
  ]
