-- ===== src/Stream/State/Invariant.antt =====
-- What holds of the state of internal/streamstate/state.go between its operations.
use busylib_go.Prelude.{
  ℕ, ◌<◌, ◌≡◌, ◌≢◌, ◌⊎◌, inl, inr, Bool-cases, refl, Bool, true, false, [], ◌∷◌, Option, none, some,
  length, arith, ltb, ◌++◌,
}
use busylib_go.Stream.Types.{Status}
use busylib_go.Stream.Channel.{make, try_send, try_receive, close}
use busylib_go.Stream.State.{
  State, Drained, Delivery, delivered, slow_consumer, context_error, terminal_status, with_cleanup,
  new_state, publish_status, finish_once, send_or, set_status, deliver, finish,
}

-- Once finished, everything is closed, once, and the status says how it ended. Before, nothing is.
-- The channel of statuses holds one value at most, the latest, where it holds one.
pub record Inv {E M : Type 0} (s : State E M) : Type 0 where
  pub one_status : s.statuses.capacity ≡ 1
  pub latest : (s.statuses.queue ≡ []) ⊎ (s.statuses.queue ≡ s.status ∷ [])
  pub once : s.finish_called ≡ s.finished
  pub statuses_closed : s.statuses.closed ≡ s.finished
  pub messages_closed : s.messages.closed ≡ s.finished
  pub done_closed : s.done_closed ≡ s.finished

-- The send is chosen: the context is not done, or the send is preferred.
abbrev pub IsChosen : {E : Type 0} → Option E → Bool → Type 0
IsChosen none prefers_send = Unit {0}
IsChosen (some e) prefers_send = prefers_send ≡ true

module _ {E M : Type 0} where
  -- Whatever the consumers take meanwhile, the channel of statuses holds the new status alone.
  publish_status_lem :
      (drained : Drained) (s : State E M) (old : Status E)
      → s.statuses.capacity ≡ 1
      → s.statuses.closed ≡ false
      → (s.statuses.queue ≡ []) ⊎ (s.statuses.queue ≡ old ∷ [])
      → publish_status drained s
        ≡ some (record s { statuses = record (s.statuses) { queue = s.status ∷ [] } })
  unfolding publish_status try_send try_receive
  publish_status_lem drained s old one is_open (inl nothing) = ground arith
  publish_status_lem drained s old one is_open (inr older) = ground arith

  -- A new stream is idle, publishes that, and is neither started nor finished.
  pub new_state-Inv :
      (n : ℕ)
      → (s : State E M) × (new_state n ≡ some s)
        × Inv s
        × (s.started ≡ false)
        × (s.finished ≡ false)
        × (s.messages ≡ make n)
  unfolding new_state try_send
  new_state-Inv n = (_, refl, ground arith, refl, refl, refl)

  -- On a state that keeps the invariant a change of the status never panics. Before the end it is applied and becomes the one status
  -- that the channel holds, whatever the consumers take meanwhile; after the end nothing changes.
  pub set_status-Inv :
      (change : Status E → Status E) (drained : Drained) (s : State E M)
      → Inv s
      → (s' : State E M) × (set_status change drained s ≡ some s')
        × Inv s'
        × ((s.finished ≡ true) × (s' ≡ s)
            ⊎ (s.finished ≡ false)
              × (s'.status ≡ change s.status)
              × (s'.statuses.queue ≡ change s.status ∷ [])
              × (s'.messages ≡ s.messages)
              × (s'.started ≡ s.started)
              × (s'.final_err ≡ s.final_err))
  unfolding set_status
  set_status-Inv change drained s v = elim (Bool-cases s.finished) [
    | inl over ↦ (s, ground arith, v, inl (over, refl))
    | inr live ↦
        let s1 : State E M = record s { status = change s.status } in
        (
          record s1 { statuses = record (s.statuses) { queue = change s.status ∷ [] } },
          ground (arith, publish_status_lem drained s1 s.status),
          ground arith,
          inr (live, refl, refl, refl, refl, refl),
        )
  ]

  abbrev closed_with : Option E → State E M → State E M
  closed_with e s = record s {
    status = terminal_status e s.status;
    final_err = e;
    finished = true;
    finish_called = true;
    statuses = record (s.statuses) { queue = terminal_status e s.status ∷ []; closed = true };
    messages = record (s.messages) { closed = true };
    done_closed = true;
  }

  finish_once-open :
      (e : Option E) (drained : Drained) (s : State E M)
      → Inv s
      → s.finished ≡ false
      → finish_once e drained s ≡ some (closed_with e s)
  unfolding finish_once close
  finish_once-open e drained s v live =
      let s1 : State E M = record s {
        status = terminal_status e s.status;
        final_err = e;
        finished = true;
        finish_called = true;
      } in
      ground (arith, publish_status_lem drained s1 s.status)

  -- On a state that keeps the invariant Finish never panics. The first call makes the status stopped, or failed with the terminal error,
  -- leaves it as the last one in the channel, and closes the channels; a later call changes nothing.
  pub finish-Inv :
      (join : Option E → Option E → Option E) (terminal : Option E) (cleanup : Option (Option E))
      (drained : Drained) (s : State E M)
      → Inv s
      → (s' : State E M) × (finish join terminal cleanup drained s ≡ some s')
        × Inv s'
        × (s'.finished ≡ true)
        × ((s.finished ≡ true) × (s' ≡ s)
            ⊎ (s.finished ≡ false)
              × (s'.final_err ≡ with_cleanup join terminal cleanup)
              × (s'.status ≡ terminal_status (with_cleanup join terminal cleanup) s.status)
              × (s'.statuses.queue ≡ s'.status ∷ [])
              × (s'.messages.queue ≡ s.messages.queue)
              × (s'.started ≡ s.started))
  unfolding finish
  finish-Inv join terminal cleanup drained s v = elim (Bool-cases s.finished) [
    | inl over ↦ (s, ground arith, v, over, inl (over, refl))
    | inr live ↦
        let e = with_cleanup join terminal cleanup in
        let s1 = closed_with e s in
        (
          s1,
          ground (arith, finish_once-open e drained s),
          ground arith,
          refl,
          inr (live, refl, refl, refl, refl, refl),
        )
  ]

  -- The message joins the end of the queue where there is room, or nothing changes.
  abbrev pub IsDelivery : M → State E M → Option (State E M × Delivery E) → Type 0
  IsDelivery message s r =
      (s' : State E M) × (d : Delivery E) × (r ≡ some (s', d))
      × Inv s'
      × ((d ≡ delivered)
            × (s.finished ≡ false)
            × (length s.messages.queue < s.messages.capacity)
            × (s'.messages.queue ≡ s.messages.queue ++ message ∷ [])
            × (s'.status ≡ s.status)
            × (s'.started ≡ s.started)
          ⊎ (d ≢ delivered) × (s' ≡ s))

  send_or-Inv :
      (otherwise : Delivery E) (message : M) (s : State E M)
      → otherwise ≢ delivered
      → Inv s
      → s.finished ≡ false
      → IsDelivery message s (send_or otherwise message s)
  unfolding send_or try_send
  send_or-Inv otherwise message s other v live =
      elim (Bool-cases (ltb (length s.messages.queue) s.messages.capacity)) [
        | inl room ↦ (
          record s { messages = record (s.messages) { queue = s.messages.queue ++ message ∷ [] } },
          delivered,
          ground arith,
          ground arith,
          inl (refl, live, ground arith, refl, refl, refl),
        )
        | inr full ↦ (s, otherwise, ground arith, v, inr (other, refl))
      ]

  send_or_panics :
      (otherwise : Delivery E) (message : M) (s : State E M)
      → Inv s
      → s.finished ≡ true
      → send_or otherwise message s ≡ none
  unfolding send_or try_send
  send_or_panics otherwise message s v over = ground arith

  -- On a state that keeps the invariant Deliver panics exactly after the end, and then unless a context that is done is chosen. Else the
  -- message joins the end of the queue, which needs room and a stream that has not ended, or nothing
  -- changes and the caller gets an error.
  pub deliver-Inv :
      (ctx_err : Option E) (prefers_send : Bool) (message : M) (slow : E) (s : State E M)
      → Inv s
      → (s.finished ≡ true)
          × IsChosen ctx_err prefers_send
          × (deliver ctx_err prefers_send message slow s ≡ none)
        ⊎ (¬ ((s.finished ≡ true) × IsChosen ctx_err prefers_send)
            × IsDelivery message s (deliver ctx_err prefers_send message slow s))
  unfolding deliver
  deliver-Inv (some e) false message slow s v =
      inr ((λ (over, chosen). cc), (s, context_error e, refl, v, inr ((λ h. cc), refl)))
  deliver-Inv none prefers_send message slow s v = elim (Bool-cases s.finished) [
    | inl over ↦ inl (over, tt, send_or_panics (slow_consumer slow) message s v over)
    | inr live ↦
        inr ((λ (over, chosen). cc), send_or-Inv (slow_consumer slow) message s (λ h. cc) v live)
  ]
  deliver-Inv (some e) true message slow s v = elim (Bool-cases s.finished) [
    | inl over ↦ inl (over, refl, send_or_panics (context_error e) message s v over)
    | inr live ↦
        inr ((λ (over, chosen). cc), send_or-Inv (context_error e) message s (λ h. cc) v live)
  ]
