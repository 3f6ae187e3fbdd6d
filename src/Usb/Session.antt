-- ===== src/Usb/Session.antt =====
-- usb/session.go: the commands of a session and its closed state. A command holds the mutex of the
-- operations, so commands are steps; what the connection does in one is a script.
pub mod Steps
use busylib_go.Prelude.{Bool, true, false, not, List, [], ◌∷◌, ◌++◌, if◌then◌else◌, ℕ}
use busylib_go.Prelude.Bytes.{Bytes, bytes}
use busylib_go.Usb.Command.{Text, build_command}
use busylib_go.Usb.Prompt.{
  ReadResult, ReadOutcome, prompt_found, response_too_large, prompt_not_found, still_waiting,
  read_until_prompt,
}
use busylib_go.Usb.Streaming.{Turn, Recovery, StreamEnd, stream_output, closes_session}

-- `sent` are the lines that were given to the connection to write.
pub record Session : Type 0 where
  pub closed : Bool
  pub sent : List Text

-- What an operation returns; `waiting` is a command that waits for its prompt.
pub data Outcome : Type 0 where
  invalid_command no_writer session_closed write_failed waiting rebooted closed_by_caller : Outcome
  responded : Bytes → Outcome
  read_failed : Bytes → ReadOutcome → Outcome
  streamed : StreamEnd → Outcome

-- `fail`, and `Close`: closing again changes nothing.
unfoldable pub close_session : Session → Session
close_session s = if s.closed then s else record s { closed = true }

abbrev pub write_line : Text → Session → Session
write_line line s = record s { sent = s.sent ++ line ∷ [] }

-- What follows the reading of the response.
conclude : Session → Bytes × ReadOutcome → Session × Outcome
conclude s (raw, prompt_found) = (s, responded raw)
conclude s (raw, response_too_large) = (close_session s, read_failed raw response_too_large)
conclude s (raw, prompt_not_found) = (close_session s, read_failed raw prompt_not_found)
conclude s (raw, still_waiting) = (s, waiting)

unfoldable pub send_line : ℕ → Text → Bool → List ReadResult → Session → Session × Outcome
unfolding conclude
send_line maximum line write_fails reads s =
    if s.closed
    then (s, session_closed)
    else if write_fails
    then (close_session (write_line line s), write_failed)
    else conclude (write_line line s) (read_until_prompt reads maximum)

unfoldable pub stream_line :
    ℕ → Text → Bool → Bool → List Turn → Recovery → Session → Session × Outcome
stream_line maximum line has_writer write_fails turns recovery s =
    let ended = (stream_output turns).1 in
    if not has_writer
    then (s, no_writer)
    else if s.closed
    then (s, session_closed)
    else if write_fails
    then (close_session (write_line line s), write_failed)
    else if closes_session ended recovery maximum
    then (close_session (write_line line s), streamed ended)
    else (write_line line s, streamed ended)

abbrev pub reboot_line : Text
reboot_line = bytes "power reboot sw"

unfoldable pub reboot : Session → Session × Outcome
reboot s =
    if s.closed then (s, session_closed) else (close_session (write_line reboot_line s), rebooted)

-- An operation of the session, with what the connection does in it.
pub data Operation : Type 0 where
  closes reboots : Operation
  sends : Text → List Text → Bool → List ReadResult → Operation
  streams : Text → List Text → Bool → Bool → List Turn → Recovery → Operation

-- SendCommand, StreamCommand, reboot and Close, with the bound on a response.
unfoldable pub step : ℕ → Operation → Session → Session × Outcome
step maximum closes s = (close_session s, closed_by_caller)
step maximum reboots s = reboot s
step maximum (sends command arguments write_fails reads) s =
    if (build_command command arguments).1
    then send_line maximum (build_command command arguments).0 write_fails reads s
    else (s, invalid_command)
step maximum (streams command arguments has_writer write_fails turns recovery) s =
    if (build_command command arguments).1
    then stream_line maximum (build_command command arguments).0 has_writer write_fails turns
        recovery s
    else (s, invalid_command)
