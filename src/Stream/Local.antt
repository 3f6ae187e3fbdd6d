-- ===== src/Stream/Local.antt =====
-- internal/statusstream/stream.go: the local status stream, its errors and its state.
-- `E` is the type of the errors that come from elsewhere, `M` that of messages and `C` that of
-- connections. What the context, the clock, the network and the consumers do is given by scripts.
pub mod Connect
pub mod Live
pub mod Ended
pub mod Attempts
pub mod Read
pub mod Run
pub mod Reading
pub mod Running
pub mod Starting
mod Tests
use busylib_go.Prelude.{ℕ, Bool, false, Option, none, some}
use busylib_go.Stream.Types.{Status}
use busylib_go.Stream.State.{State, Drained, set_status, finish}
use busylib_go.Stream.Updates.{DeviceError}

pub data Operation : Type 0 where
  version_operation version_refresh_operation connect_operation enable_operation : Operation
  read_operation deliver_operation device_error_operation reconnect_operation : Operation

-- An error that wraps no other: one from elsewhere, errConsumerTooSlow, or a device error.
pub data Cause (E : Type 0) : Type 0 where
  external : E → Cause E
  consumer_too_slow : Cause E
  device : Option DeviceError → Cause E

-- stream.Error; the path is always that of the status stream.
pub record StreamError (E : Type 0) : Type 0 where
  pub operation : Operation
  pub attempt : ℕ
  pub status_code : ℕ
  pub close_code : ℕ
  pub terminal : Bool
  pub cause : Cause E

pub data Failure (E : Type 0) : Type 0 where
  bare : Cause E → Failure E
  stream_error : StreamError E → Failure E

-- Stream: the shared state and the connection.
pub record Local (E M C : Type 0) : Type 0 where
  pub state : State (Failure E) M
  pub connection : Option C

-- streamError
abbrev pub new_stream_error : {E : Type 0} → Operation → ℕ → ℕ → E → StreamError E
new_stream_error operation attempt status_code e = record {
  operation = operation;
  attempt = attempt;
  status_code = status_code;
  close_code = 0;
  terminal = false;
  cause = external e;
}

module _ {E M C : Type 0} where
  abbrev pub with_state : Local E M C → Option (State (Failure E) M) → Option (Local E M C)
  with_state w none = none
  with_state w (some state) = some (record w { state = state })

  -- Stream.setStatus
  abbrev pub change_status :
      (Status (Failure E) → Status (Failure E)) → Drained → Local E M C → Option (Local E M C)
  change_status change drained w = with_state w (set_status change drained w.state)

  -- Stream.finish: errors.Join is not used, since there is no cleanup.
  abbrev pub finish_stream : Option (Failure E) → Drained → Local E M C → Option (Local E M C)
  finish_stream terminal drained w =
      with_state (record w { connection = none }) (finish (λ a b. a) terminal none drained w.state)
