-- ===== src/Stream/Local/Attempts.antt =====
-- How the attempts to connect end.
use busylib_go.Prelude.{
  ℕ, zero, suc, ◌+◌, ◌≤◌, ◌≡◌, ◌⊎◌, inl, inr, sym, ap, subst, ◌∙◌, Bool, Option, none, some, Result,
  arith,
}
use busylib_go.Stream.Types.{Lifecycle}
use busylib_go.Stream.Local.{Local, StreamError}
use busylib_go.Stream.Local.Connect.{Attempt, connect_from, connect_with_retry, attempting}
use busylib_go.Stream.Local.Live.{IsLive, IsKept, IsKept-trans, change_status_lem}
use busylib_go.Stream.Local.Ended.{
  connection_of, IsRetried, IsOutcome, Connection-cases, established-IsOutcome, failed-IsOutcome,
  not_last_le,
}

le_cases : (n i : ℕ) → n ≤ i → (i ≡ n) ⊎ (suc n ≤ i)
le_cases n i h = ground arith

module _ {C E : Type 0} (max_attempts : ℕ) (negotiation : Bool) (lifecycle : Lifecycle)
    (attempts : ℕ → Attempt C E) where
  widen-IsOutcome :
      {M : Type 0} (n m : ℕ) (v w w' : Local E M C) (r : Result (Option (StreamError E)) C)
      → IsRetried max_attempts negotiation lifecycle attempts n
      → IsKept v w
      → IsOutcome max_attempts negotiation lifecycle attempts (suc n) m w w' r
      → IsOutcome max_attempts negotiation lifecycle attempts n m v w' r
  widen-IsOutcome n m v w w' r this kept (kept', low, high, before, at, how) = (
    IsKept-trans v w w' kept kept',
    omega (arith, low),
    high,
    λ i a b. elim (le_cases n i a) [
      | inl same ↦ subst (IsRetried max_attempts negotiation lifecycle attempts) (sym same) this
      | inr later ↦ before i later b
    ],
    at,
    how,
  )

  kept-IsOutcome :
      {M : Type 0} (n m : ℕ) (v w w' : Local E M C) (r : Result (Option (StreamError E)) C)
      → IsKept v w
      → IsOutcome max_attempts negotiation lifecycle attempts n m w w' r
      → IsOutcome max_attempts negotiation lifecycle attempts n m v w' r
  kept-IsOutcome n m v w w' r kept (kept', low, high, before, at, how) =
      (IsKept-trans v w w' kept kept', low, high, before, at, how)

  connect_from-IsOutcome :
      {M : Type 0} (left n : ℕ) (last : Option (StreamError E)) (w : Local E M C)
      → n + left ≡ suc max_attempts
      → n ≤ max_attempts
      → IsLive w
      → (w' : Local E M C) × (r : Result (Option (StreamError E)) C) × (m : ℕ) × (connect_from
            max_attempts negotiation lifecycle attempts left n last w
          ≡ some (w', r))
        × IsOutcome max_attempts negotiation lifecycle attempts n m w w' r
  unfolding connect_from
  connect_from-IsOutcome zero n last w total bound l = absurd (omega arith)
  connect_from-IsOutcome (suc left) n last w total bound l =
      let (v, same, kept, status, _) =
        change_status_lem (attempting lifecycle n) (attempts n).drained_before w l in
      let at = ap (λ s. s.attempt) status in
      let phase = ap (λ s. s.lifecycle) status in
      let next = connect_from max_attempts negotiation lifecycle attempts left (suc n) in
      elim (Connection-cases (connection_of max_attempts negotiation lifecycle attempts n)) [
        | inl (c, is) ↦
            let (w', r, goes, o) =
              established-IsOutcome max_attempts negotiation lifecycle attempts n v next c bound
                kept.kept_live at is in
            (w', r, n, rw same goes, kept-IsOutcome n n w v w' r kept o)
        | inr (f, retry, rejected, is) ↦
            elim (failed-IsOutcome max_attempts negotiation lifecycle attempts n v next f retry
              rejected bound kept.kept_live at phase is) [
                | inl (w', r, goes, o) ↦
                    (w', r, n, rw same goes, kept-IsOutcome n n w v w' r kept o)
                | inr (u, e, kept', this, goes) ↦
                    let (w', r, m, ends, o) =
                      connect_from-IsOutcome left (suc n) (some e) u (omega (arith, total))
                        (not_last_le max_attempts negotiation lifecycle attempts this bound)
                        kept'.kept_live in
                    (
                      w',
                      r,
                      m,
                      rw same (goes ∙ ends),
                      widen-IsOutcome n m w u w' r this (IsKept-trans w v u kept kept') o,
                    )
              ]
      ]

  -- Connecting with a positive number of attempts, on a stream that has not ended, returns after one
  -- of the attempts from 1 to the number allowed, without a panic. Each earlier one failed with a
  -- failure to retry, with the context alive and the wait after it complete. The last one either
  -- established the connection, which the stream then holds, with the status connected, accepted
  -- and without error; or it failed without a retry, was the last one allowed, or met the end of the
  -- context or of the wait: then the error is marked terminal, unless the context ended, and a
  -- rejection stands in the status. The queue of messages is untouched.
  pub connect_with_retry-IsOutcome :
      {M : Type 0} (w : Local E M C)
      → 1 ≤ max_attempts
      → IsLive w
      → (w' : Local E M C) × (r : Result (Option (StreamError E)) C) × (n : ℕ) × (connect_with_retry
            max_attempts negotiation lifecycle attempts w
          ≡ some (w', r))
        × IsOutcome max_attempts negotiation lifecycle attempts 1 n w w' r
  connect_with_retry-IsOutcome w positive l =
      connect_from-IsOutcome max_attempts 1 none w (omega arith) positive l
