-- ===== src/Stream/Local/Ended.antt =====
-- One attempt to connect: what it comes to, and how it ends.
use busylib_go.Prelude.{
  ℕ, suc, ◌≤◌, ◌<◌, ◌≡◌, ◌≢◌, ◌⊎◌, inl, inr, refl, ap, ◌∙◌, Bool, true, false, Bool-cases, Option,
  none, some, Option-cases, Result, ok, err, arith,
}
use busylib_go.Stream.Types.{Lifecycle, connected, access_accepted, access_rejected}
use busylib_go.Stream.Local.{Local, StreamError, stream_error}
use busylib_go.Stream.Local.Connect.{
  Attempt, Connection, established, failed, connect_once, after_attempt, after_failure,
  now_connected, attempt_failed, is_terminal, final_failure, reconnect_failure,
}
use busylib_go.Stream.Local.Live.{IsLive, IsKept, change_status_lem}

before_none : (n i : ℕ) → n ≤ i → i < n → ⊥
before_none n i a b = omega arith

pub Connection-cases :
    {C E : Type 0} (c : Connection C E)
    → ((x : C) × (c ≡ established x))
      ⊎ ((f : StreamError E) × (retry rejected : Bool) × (c ≡ failed f retry rejected))
Connection-cases (established x) = inl (x, refl)
Connection-cases (failed f retry rejected) = inr (f, retry, rejected, refl)

module _ {C E : Type 0} (max_attempts : ℕ) (negotiation : Bool) (lifecycle : Lifecycle)
    (attempts : ℕ → Attempt C E) where
  abbrev pub connection_of : ℕ → Connection C E
  connection_of n = connect_once negotiation n ((attempts n).tries)

  -- Attempt n fails, and another one follows.
  pub record IsRetried (n : ℕ) : Type 0 where
    pub retried :
        (f : StreamError E) × (rejected : Bool) × (connection_of n ≡ failed f true rejected)
    pub not_last : n ≢ max_attempts
    pub not_done : (attempts n).context_error ≡ none
    pub waited : (attempts n).wait_error ≡ none

  abbrev pub IsEstablished :
      {M : Type 0} → ℕ → Result (Option (StreamError E)) C → Local E M C → Type 0
  IsEstablished n r w =
      (c : C) × (connection_of n ≡ established c)
      × (r ≡ ok c)
      × (w.connection ≡ some c)
      × (w.state.status.lifecycle ≡ connected)
      × (w.state.status.access ≡ access_accepted)
      × (w.state.status.last_error ≡ none)
      × (w.state.status.connected_at ≡ (attempts n).now)

  -- The reason to stop after a failure.
  abbrev pub GivesUp : ℕ → Bool → Type 0
  GivesUp n retry =
      ((retry ≡ false) ⊎ (n ≡ max_attempts))
      ⊎ ((((e : E) × ((attempts n).context_error ≡ some e))
          ⊎ ((e : E) × ((attempts n).wait_error ≡ some e))))

  abbrev pub IsGivenUp : {M : Type 0} → ℕ → Result (Option (StreamError E)) C → Local E M C → Type 0
  IsGivenUp n r w =
      (f e : StreamError E) × (retry rejected : Bool) × (connection_of n ≡ failed f retry rejected)
      × (r ≡ err (some e))
      × GivesUp n retry
      × (w.state.status.lifecycle ≡ lifecycle)
      × (rejected ≡ true → w.state.status.access ≡ access_rejected)
      × ((e.terminal ≡ true) ⊎ ((x : E) × ((attempts n).context_error ≡ some x)))

  abbrev pub IsOutcome :
      {M : Type 0} (first n : ℕ)
      → Local E M C
      → Local E M C
      → Result (Option (StreamError E)) C
      → Type 0
  IsOutcome first n w w' r =
      IsKept w w'
      × (first ≤ n)
      × (n ≤ max_attempts)
      × ((i : ℕ) → first ≤ i → i < n → IsRetried i)
      × (w'.state.status.attempt ≡ n)
      × (IsEstablished n r w' ⊎ IsGivenUp n r w')

  pub established-IsOutcome :
      {M : Type 0} (n : ℕ) (w : Local E M C) (further : _) (c : C)
      → n ≤ max_attempts
      → IsLive w
      → w.state.status.attempt ≡ n
      → connection_of n ≡ established c
      → (w' : Local E M C) × (r : Result (Option (StreamError E)) C) × (after_attempt max_attempts n
            (attempts n)
            (connection_of n)
            w
            further
          ≡ some (w', r))
        × IsOutcome n n w w' r
  established-IsOutcome n w further c bound l at is =
      let (w', same, kept, status, connection) =
        change_status_lem (now_connected (attempts n).now) (attempts n).drained_after
          (record w { connection = some c }) (record { invariant = l.invariant; live = l.live }) in
      (
        w',
        ok c,
        rw (is, same) refl,
        (
          record { kept_live = kept.kept_live; messages = kept.messages; started = kept.started },
          omega arith,
          bound,
          λ i a b. absurd (before_none n i a b),
          ap (λ s. s.attempt) status ∙ at,
          inl (
            c,
            is,
            refl,
            connection,
            ap (λ s. s.lifecycle) status,
            ap (λ s. s.access) status,
            ap (λ s. s.last_error) status,
            ap (λ s. s.connected_at) status,
          ),
        ),
      )

  -- A failure after which no other attempt follows.
  given_up-IsOutcome :
      {M : Type 0} (n : ℕ) (w w' : Local E M C) (f e : StreamError E) (retry rejected : Bool)
      → n ≤ max_attempts
      → IsKept w w'
      → connection_of n ≡ failed f retry rejected
      → GivesUp n retry
      → w'.state.status
        ≡ attempt_failed
            (stream_error (final_failure (is_terminal max_attempts n retry) f))
            rejected
            w.state.status
      → w.state.status.attempt ≡ n
      → w.state.status.lifecycle ≡ lifecycle
      → (e.terminal ≡ true) ⊎ ((x : E) × ((attempts n).context_error ≡ some x))
      → IsOutcome n n w w' (err (some e))
  given_up-IsOutcome n w w' f e retry rejected bound kept is gives_up status at phase marked = (
    kept,
    omega arith,
    bound,
    λ i a b. absurd (before_none n i a b),
    ap (λ s. s.attempt) status ∙ at,
    inr (
      f,
      e,
      retry,
      rejected,
      is,
      refl,
      gives_up,
      ap (λ s. s.lifecycle) status ∙ phase,
      λ yes_rejected. ap (λ s. s.access) status ∙ rw yes_rejected refl,
      marked,
    ),
  )

  done_ends :
      {M : Type 0} (n : ℕ) (f : StreamError E) (terminal : Bool) (wait_error : Option E)
      (w : Local E M C) (further : _) {x : E}
      → (attempts n).context_error ≡ some x
      → after_failure n f terminal (attempts n).context_error wait_error w further
        ≡ some (w, err (some f))
  done_ends n f true wait_error w further done = rw done refl
  done_ends n f false wait_error w further done = rw done refl

  terminal_ends :
      {M : Type 0} (n : ℕ) (f : StreamError E) (wait_error : Option E) (w : Local E M C)
      (further : _) {terminal : Bool}
      → terminal ≡ true
      → (attempts n).context_error ≡ none
      → after_failure n f terminal (attempts n).context_error wait_error w further
        ≡ some (w, err (some f))
  terminal_ends n f wait_error w further t alive = rw (t, alive) refl

  wait_ends :
      {M : Type 0} (n : ℕ) (f : StreamError E) (w : Local E M C) (further : _) {terminal : Bool}
      {x : E}
      → terminal ≡ false
      → (attempts n).context_error ≡ none
      → (attempts n).wait_error ≡ some x
      → after_failure n f terminal (attempts n).context_error (attempts n).wait_error w further
        ≡ some (w, err (some (reconnect_failure n x)))
  wait_ends n f w further t alive cut = rw (t, alive, cut) refl

  retry_goes :
      {M : Type 0} (n : ℕ) (f : StreamError E) (w : Local E M C) (further : _) {terminal : Bool}
      → terminal ≡ false
      → (attempts n).context_error ≡ none
      → (attempts n).wait_error ≡ none
      → after_failure n f terminal (attempts n).context_error (attempts n).wait_error w further
        ≡ further
  retry_goes n f w further t alive waited = rw (t, alive, waited) refl

  terminal_reason :
      (n : ℕ) (retry : Bool)
      → is_terminal max_attempts n retry ≡ true
      → (retry ≡ false) ⊎ (n ≡ max_attempts)
  terminal_reason n retry t = ground arith

  retry_reason :
      (n : ℕ) (retry : Bool)
      → is_terminal max_attempts n retry ≡ false
      → (retry ≡ true) × (n ≢ max_attempts)
  retry_reason n retry t = ground arith

  terminal_marked :
      {terminal : Bool} (f : StreamError E)
      → terminal ≡ true
      → (final_failure terminal f).terminal ≡ true
  terminal_marked f t = rw t refl

  pub not_last_le : {n : ℕ} → IsRetried n → n ≤ max_attempts → suc n ≤ max_attempts
  not_last_le {n = n} this bound = let other : n ≢ max_attempts = this.not_last in omega arith

  -- After a failed attempt either connecting ends, or the next attempt follows.
  pub failed-IsOutcome :
      {M : Type 0} (n : ℕ) (w : Local E M C) (further : _) (f : StreamError E)
      (retry rejected : Bool)
      → n ≤ max_attempts
      → IsLive w
      → w.state.status.attempt ≡ n
      → w.state.status.lifecycle ≡ lifecycle
      → connection_of n ≡ failed f retry rejected
      → ((w' : Local E M C) × (r : Result (Option (StreamError E)) C) × (after_attempt max_attempts
              n
              (attempts n)
              (connection_of n)
              w
              further
            ≡ some (w', r))
          × IsOutcome n n w w' r)
        ⊎ ((w' : Local E M C) × (e : StreamError E) × IsKept w w'
            × IsRetried n
            × (after_attempt max_attempts n (attempts n) (connection_of n) w further
                ≡ further (some e) w'))
  failed-IsOutcome {M = M} n w further f retry rejected bound l at phase is =
      let terminal = is_terminal max_attempts n retry in
      let f' = final_failure terminal f in
      let (w', same, kept, status, _) =
        change_status_lem (attempt_failed (stream_error f') rejected) (attempts n).drained_after w
          l in
      let goes : after_attempt max_attempts n (attempts n) (connection_of n) w further
          ≡ after_failure n f' terminal (attempts n).context_error (attempts n).wait_error w'
              (further (some f') w') =
        rw (is, same) refl in
      let ends : (e : StreamError E)
          → GivesUp n retry
          → (e.terminal ≡ true) ⊎ ((x : E) × ((attempts n).context_error ≡ some x))
          → IsOutcome n n w w' (err (some e)) =
        λ e g m. given_up-IsOutcome n w w' f e retry rejected bound kept is g status at phase m in
      elim (Option-cases (attempts n).context_error) [
        | inr (x, done) ↦ inl (
          w',
          err (some f'),
          goes ∙ done_ends n f' terminal (attempts n).wait_error w' _ done,
          ends f' (inr (inl (x, done))) (inr (x, done)),
        )
        | inl alive ↦ elim (Bool-cases terminal) [
          | inl t ↦ inl (
            w',
            err (some f'),
            goes ∙ terminal_ends n f' (attempts n).wait_error w' _ t alive,
            ends f' (inl (terminal_reason n retry t)) (inl (terminal_marked f t)),
          )
          | inr t ↦ elim (Option-cases (attempts n).wait_error) [
            | inr (x, cut) ↦ inl (
              w',
              err (some (reconnect_failure n x)),
              goes ∙ wait_ends n f' w' _ t alive cut,
              ends (reconnect_failure n x) (inr (inr (x, cut))) (inl refl),
            )
            | inl waited ↦ inr (
              w',
              f',
              kept,
              record {
                retried =
                    (f, rejected, is ∙ ap (λ z. failed f z rejected) (retry_reason n retry t).0);
                not_last = (retry_reason n retry t).1;
                not_done = alive;
                waited = waited;
              },
              goes ∙ retry_goes n f' w' _ t alive waited,
            )
          ]
        ]
      ]
