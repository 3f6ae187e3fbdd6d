-- ===== src/Stream/Local/Connect.antt =====
-- internal/statusstream/stream.go: connecting, with a bounded number of attempts.
use busylib_go.Prelude.{
  ℕ, zero, suc, Bool, true, false, not, ◌&&◌, ◌||◌, Option, none, some, Result, ok, err, leb, ◌==◌,
  if◌then◌else◌,
}
use busylib_go.Stream.Types.{
  Status, Lifecycle, connected, access_unknown, access_accepted, access_rejected, DataStatus,
  data_waiting, data_stale,
}
use busylib_go.Stream.State.{Drained, ◌>>=◌}
use busylib_go.Stream.Local.{
  Local, StreamError, stream_error, new_stream_error, change_status, version_operation,
  version_refresh_operation, connect_operation, enable_operation, reconnect_operation,
}

-- What Dial does: it fails, with the status code of its response or 0, or it opens a connection, on
-- which the first write may fail.
pub data Dial (C E : Type 0) : Type 0 where
  refused : ℕ → E → Dial C E
  opened : C → Option E → Dial C E

-- What the calls of one round of connectOnce return.
pub record Try (C E : Type 0) : Type 0 where
  pub version : Option E
  pub dial : Dial C E
  pub refresh : Option E

-- What connectOnce returns: a failure says whether to retry, and whether access was rejected.
pub data Connection (C E : Type 0) : Type 0 where
  established : C → Connection C E
  failed : StreamError E → Bool → Bool → Connection C E

-- What happens around one attempt: the rounds by the compatibility retries left, the clock, the error
-- of the context, and that of the wait.
pub record Attempt (C E : Type 0) : Type 0 where
  pub tries : ℕ → Try C E
  pub now : ℕ
  pub context_error : Option E
  pub wait_error : Option E
  pub drained_before : Drained
  pub drained_after : Drained

module _ {C E : Type 0} where
  -- A failed Dial that is not retried at once.
  abbrev pub connect_failure : ℕ → ℕ → E → Connection C E
  connect_failure attempt status_code e =
      failed (new_stream_error connect_operation attempt status_code e)
        (status_code == 0 || leb 500 status_code) (status_code == 403)

  abbrev pub after_open : ℕ → C → Option E → Connection C E
  after_open attempt connection none = established connection
  after_open attempt connection (some e) =
      failed (new_stream_error enable_operation attempt 0 e) true false

  abbrev pub after_refresh : ℕ → ℕ → Option E → Connection C E → Connection C E
  after_refresh attempt status_code none further = further
  after_refresh attempt status_code (some e) further =
      failed (new_stream_error version_refresh_operation attempt status_code e) true false

  -- `further` is the next round, where one is left.
  abbrev pub after_dial : Bool → ℕ → Option E → Dial C E → Option (Connection C E) → Connection C E
  after_dial negotiation attempt refresh (opened connection write_error) further =
      after_open attempt connection write_error
  after_dial negotiation attempt refresh (refused status_code e) none =
      connect_failure attempt status_code e
  after_dial negotiation attempt refresh (refused status_code e) (some further) =
      if status_code == 405 && negotiation
      then after_refresh attempt status_code refresh further
      else connect_failure attempt status_code e

  abbrev pub after_version :
      Bool → ℕ → Try C E → Option E → Option (Connection C E) → Connection C E
  after_version true attempt t (some e) further =
      failed (new_stream_error version_operation attempt 0 e) true false
  after_version true attempt t none further = after_dial true attempt t.refresh t.dial further
  after_version false attempt t _ further = after_dial false attempt t.refresh t.dial further

  -- The loop of connectOnce, by the compatibility retries that are left.
  unfoldable pub connect_rounds : Bool → ℕ → (ℕ → Try C E) → ℕ → Connection C E
  connect_rounds negotiation attempt tries zero =
      after_version negotiation attempt (tries zero) ((tries zero).version) none
  connect_rounds negotiation attempt tries (suc left) =
      after_version negotiation attempt (tries (suc left)) ((tries (suc left)).version)
        (some (connect_rounds negotiation attempt tries left))

  abbrev pub connect_once : Bool → ℕ → (ℕ → Try C E) → Connection C E
  connect_once negotiation attempt tries = connect_rounds negotiation attempt tries 1

-- The changes of the status.
abbrev pub data_before : ℕ → DataStatus
data_before last_state_at = if last_state_at == 0 then data_waiting else data_stale

module _ {E : Type 0} where
  abbrev pub attempting : Lifecycle → ℕ → Status E → Status E
  attempting lifecycle attempt status = record status {
    lifecycle = lifecycle;
    attempt = attempt;
    access = access_unknown;
  }

  abbrev pub now_connected : ℕ → Status E → Status E
  now_connected now status = record status {
    lifecycle = connected;
    access = access_accepted;
    freshness = data_before status.last_state_at;
    connected_at = now;
    last_error = none;
  }

  abbrev pub attempt_failed : E → Bool → Status E → Status E
  attempt_failed e rejected status = record status {
    last_error = some e;
    access = if rejected then access_rejected else status.access;
  }

abbrev pub is_terminal : (max_attempts attempt : ℕ) → Bool → Bool
is_terminal max_attempts attempt retry = not retry || (attempt == max_attempts)

abbrev pub final_failure : {E : Type 0} → Bool → StreamError E → StreamError E
final_failure terminal failure = if terminal then record failure { terminal = true } else failure

abbrev pub reconnect_failure : {E : Type 0} → ℕ → E → StreamError E
reconnect_failure attempt e = record (new_stream_error reconnect_operation attempt 0 e) {
  terminal = true;
}

module _ {C E M : Type 0} where
  -- After a failure: the context, the end of the attempts and the wait.
  abbrev pub after_failure :
      ℕ
      → StreamError E
      → Bool
      → Option E
      → Option E
      → Local E M C
      → Option (Local E M C × Result (Option (StreamError E)) C)
      → Option (Local E M C × Result (Option (StreamError E)) C)
  after_failure attempt failure true (some e) wait_error w further = some (w, err (some failure))
  after_failure attempt failure false (some e) wait_error w further = some (w, err (some failure))
  after_failure attempt failure true none wait_error w further = some (w, err (some failure))
  after_failure attempt failure false none (some e) w further =
      some (w, err (some (reconnect_failure attempt e)))
  after_failure attempt failure false none none w further = further

  -- `further` goes on with the next attempt.
  abbrev pub after_attempt :
      (max_attempts attempt : ℕ)
      → Attempt C E
      → Connection C E
      → Local E M C
      → (Option (StreamError E)
          → Local E M C
          → Option (Local E M C × Result (Option (StreamError E)) C))
      → Option (Local E M C × Result (Option (StreamError E)) C)
  after_attempt max_attempts attempt a (established connection) w further = do
    w' ←
        change_status (now_connected a.now) a.drained_after
          (record w { connection = some connection })
    some (w', ok connection)
  after_attempt max_attempts attempt a (failed failure retry rejected) w further = do
    let terminal = is_terminal max_attempts attempt retry
    let failure' = final_failure terminal failure
    w' ← change_status (attempt_failed (stream_error failure') rejected) a.drained_after w
    after_failure attempt failure' terminal a.context_error a.wait_error w'
        (further (some failure') w')

module _ {C E M : Type 0} (max_attempts : ℕ) (negotiation : Bool) (lifecycle : Lifecycle)
    (attempts : ℕ → Attempt C E) where
  -- The loop of connectWithRetry, by the attempts that are left.
  unfoldable pub connect_from :
      (left attempt : ℕ)
      → Option (StreamError E)
      → Local E M C
      → Option (Local E M C × Result (Option (StreamError E)) C)
  connect_from zero attempt last w = some (w, err last)
  connect_from (suc left) attempt last w = do
    w' ← change_status (attempting lifecycle attempt) ((attempts attempt).drained_before) w
    after_attempt max_attempts attempt (attempts attempt)
        (connect_once negotiation attempt ((attempts attempt).tries)) w'
        (connect_from left (suc attempt))

  abbrev pub connect_with_retry :
      Local E M C → Option (Local E M C × Result (Option (StreamError E)) C)
  connect_with_retry = connect_from max_attempts 1 none
